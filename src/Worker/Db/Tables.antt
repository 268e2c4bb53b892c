-- ===== src/Worker/Db/Tables.antt =====
-- The tables of infra/db/migrations/001_initial.sql, and what the statements of apps/worker/db.py
-- do to them.
pub mod Statements
pub mod Constraints
pub mod History
pub mod Transactions
pub mod Connected
pub mod Partitions
use iotflow_distributed_syst.Base.{
  ℕ, ◌+◌, ◌/◌, Bool, true, false, ◌&&◌, ◌||◌, List, [], ◌∷◌, Option, none, some, Text, str, text_eq,
  leb, ltb, ◌==◌, if◌then◌else◌,
}
use iotflow_distributed_syst.Python.{Value, null, text, Dict, Datetime}
use iotflow_distributed_syst.Shared.Models.{IoTEvent}
use iotflow_distributed_syst.Worker.Services.{Statement}

pub data DeviceStatus : Type 0 where
  active inactive blocked : DeviceStatus

pub data EventStatus : Type 0 where
  pending processed dlq : EventStatus

pub data DlqStatus : Type 0 where
  pending replaying resolved discarded : DlqStatus

-- A row of `devices`; the times are microseconds from the start of 2026 on.
pub record DeviceRow : Type 0 where
  pub device_id : Text
  pub device_type : Text
  pub location : Option Text
  pub firmware_version : Option Text
  pub tags : List Text
  pub status : DeviceStatus
  pub registered_at : ℕ
  pub updated_at : ℕ

-- A row of `events`: the columns that the statement gives are those of the event.
pub record EventRow : Type 0 where
  pub contents : IoTEvent
  pub ingested_at : ℕ
  pub processed_at : Option ℕ
  pub status : EventStatus
  pub processing_error : Option Text

-- A row of `device_state`.
pub record StateRow : Type 0 where
  pub device_id : Text
  pub last_event_id : Text
  pub last_event_type : Text
  pub last_seen_at : Datetime
  pub last_payload : Dict
  pub event_count : ℕ

-- A row of `dlq_events`, but for its serial number.
pub record DlqRow : Type 0 where
  pub event_id : Text
  pub device_id : Option Text
  pub original_topic : Text
  pub raw_payload : Dict
  pub error_message : Text
  pub retry_count : ℕ
  pub first_seen : ℕ
  pub last_attempted : ℕ
  pub resolved_at : Option ℕ
  pub status : DlqStatus

-- The latest rows first.
pub record Tables : Type 0 where
  pub devices : List DeviceRow
  pub events : List EventRow
  pub states : List StateRow
  pub dlq_events : List DlqRow

-- The days of 2026 on which the partitions of `events` begin, one for each month; each ends where
-- the next begins, and the last where the year does.
abbrev pub partition_starts : List ℕ
partition_starts = 0 ∷ 31 ∷ 59 ∷ 90 ∷ 120 ∷ 151 ∷ 181 ∷ 212 ∷ 243 ∷ 273 ∷ 304 ∷ 334 ∷ []

abbrev pub year_end : ℕ
year_end = 365

abbrev pub day_of : ℕ → ℕ
day_of now = now / 86400000000

-- The partitions FROM … TO … of a list of their starts.
unfoldable pub partitions : List ℕ → List (ℕ × ℕ)
partitions [] = []
partitions (a ∷ []) = (a, year_end) ∷ []
partitions (a ∷ b ∷ starts) = (a, b) ∷ partitions (b ∷ starts)

-- The upper bound is exclusive.
abbrev pub in_range : ℕ → ℕ × ℕ → Bool
in_range day (from, to) = leb from day && ltb day to

-- How many partitions take a row of this day.
unfoldable pub taking : ℕ → List (ℕ × ℕ) → ℕ
taking day [] = 0
taking day (range ∷ ranges) =
    let rest = taking day ranges in if in_range day range then rest + 1 else rest

-- A row that no partition takes is refused.
unfoldable pub has_partition : ℕ → Bool
unfolding partitions taking
has_partition now = ltb 0 (taking (day_of now) (partitions partition_starts))
