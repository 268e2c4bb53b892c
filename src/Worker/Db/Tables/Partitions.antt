-- ===== src/Worker/Db/Tables/Partitions.antt =====
-- The partitions of `events` in infra/db/migrations/001_initial.sql.
use iotflow_distributed_syst.Base.{
  ℕ, ◌∙◌, ap, leb, ◌&&◌, List, [], ◌∷◌, ◌≤◌, ◌*◌, ◌≡◌, none, arith, ltb, if◌then◌else◌,
}
use iotflow_distributed_syst.Shared.Models.{IoTEvent}
use iotflow_distributed_syst.Worker.Services.{Statement}
use iotflow_distributed_syst.Worker.Db.Tables.{
  partitions, partition_starts, taking, year_end, has_partition, day_of, Tables,
}
use iotflow_distributed_syst.Worker.Db.Tables.Statements.{execute, insert_event_row}

-- Starts in order, from `a` on.
IsRising : ℕ → List ℕ → Type 0
IsRising a [] = a ≤ year_end
IsRising a (b ∷ starts) = (a ≤ b) × IsRising b starts

IsRising-end : (a : ℕ) (starts : List ℕ) → IsRising a starts → a ≤ year_end
unfolding IsRising
IsRising-end a [] h = h
IsRising-end a (b ∷ starts) h = omega (arith, h.0, IsRising-end b starts h.1)

-- Partitions in order cover the days from their first start to the end of the year, each once.
taking-rising :
    (day a : ℕ) (starts : List ℕ)
    → IsRising a starts
    → taking day (partitions (a ∷ starts)) ≡ (if leb a day && ltb day year_end then 1 else 0)
unfolding taking partitions IsRising
taking-rising day a [] h = ground arith
taking-rising day a (b ∷ starts) h =
    ground (arith, h.0, IsRising-end b starts h.1, taking-rising day b starts h.1)

later_starts : IsRising 0 (31 ∷ 59 ∷ 90 ∷ 120 ∷ 151 ∷ 181 ∷ 212 ∷ 243 ∷ 273 ∷ 304 ∷ 334 ∷ [])
unfolding IsRising
later_starts = ground arith

from_zero : (day : ℕ) → (leb 0 day && ltb day year_end) ≡ ltb day year_end
from_zero day = ground arith

taking-partitions :
    (day : ℕ) → taking day (partitions partition_starts) ≡ (if ltb day year_end then 1 else 0)
taking-partitions day =
    taking-rising day 0 _ later_starts ∙ ap (λ b. if b then 1 else 0) (from_zero day)

-- A row of `events` has one partition at each time of the year 2026; from the end of the year on
-- it has none, and the insert of an event is refused, whatever the tables hold.
pub insert_event_in_time :
    (now : ℕ) (event : IoTEvent) (t : Tables)
    → (taking (day_of now) (partitions partition_starts)
        ≡ (if ltb now (year_end * 86400000000) then 1 else 0))
      × (year_end * 86400000000 ≤ now → execute now (Statement.insert_event event) t ≡ none)
unfolding execute insert_event_row has_partition
insert_event_in_time now event t = ground (arith, taking-partitions (day_of now))
