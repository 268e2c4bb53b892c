-- ===== src/Worker/Services/Trace.antt =====
-- Predicates on the calls that the worker has made, and how a call of a service extends them.
use iotflow_distributed_syst.Base.{
  ℕ, suc, ◌≡◌, Bool, true, false, List, [], ◌∷◌, Text, if◌then◌else◌,
}
use iotflow_distributed_syst.Exec.{Outcome, ok}
use iotflow_distributed_syst.Shared.Models.{IoTEvent}
use iotflow_distributed_syst.Python.{Dict}
use iotflow_distributed_syst.Worker.Config.{kafka_topic_dlq}
use iotflow_distributed_syst.Worker.Services.{Call, Statement, DlqEnvelope}

abbrev pub is_insert : Call → Bool
is_insert (Call.execute (Statement.insert_event event) r) = true
is_insert _ = false

abbrev pub is_sleep : Call → Bool
is_sleep (Call.sleep delay r) = true
is_sleep _ = false

abbrev pub count_calls : (Call → Bool) → List Call → ℕ
count_calls p [] = 0
count_calls p (c ∷ cs) = if p c then suc (count_calls p cs) else count_calls p cs

-- The INSERT of the event into the table `events` was executed: the statement returned its command
-- tag, "INSERT 0 0" where the row was there already.
abbrev pub IsInserted : IoTEvent → Call → Type 0
IsInserted event c = (tag : Text) × (c ≡ Call.execute (Statement.insert_event event) (ok tag))

-- The event was handed to the DLQ topic, however that call ended.
abbrev pub IsDeadLettered : Dict → Call → Type 0
IsDeadLettered raw c =
    (value : DlqEnvelope) × (key : Text) × (r : Outcome (Unit {0})) × (c
      ≡ Call.dlq_send kafka_topic_dlq value key r)
    × (value.original_event ≡ raw)

-- Redis answered that the key was there already.
abbrev pub IsRefused : Text → Call → Type 0
IsRefused key c = c ≡ Call.set_nx key (ok false)
