-- ===== src/Worker/Consumer/Reading.antt =====
-- `_consume` of apps/worker/consumer.py over the records that Kafka delivers, with the deserializer
-- of the consumer.
pub mod Held
use iotflow_distributed_syst.Base.{
  ℕ, ◌+◌, ◌≡◌, Bool, true, false, List, [], ◌∷◌, Option, none, some, if◌then◌else◌,
}
use iotflow_distributed_syst.Exec.{Outcome}
use iotflow_distributed_syst.Python.{Dict}
use iotflow_distributed_syst.Worker.Consumer.{Delivery, Consumer, start_task, end_task}

-- A record of the raw topic, with the bytes of its value.
pub record Record : Type 0 where
  pub value : List ℕ
  pub partition : ℕ
  pub offset : ℕ

-- The loop: the records that are to come, in the order in which they are delivered, and whether an
-- exception has ended the iteration.
pub record Reader : Type 0 where
  pub consumer : Consumer
  pub to_come : List Record
  pub failed : Bool

abbrev pub delivery_of : Record → Dict → Delivery
delivery_of x event = record { event = event; partition = x.partition; offset = x.offset }

-- `json.loads(v.decode("utf-8"))` of a value is a parameter, which is `none` where it raises; a value
-- that is JSON but no object is not among the records here.
module _ (deserialize : List ℕ → Option Dict) where
  -- The task is created, or the loop waits for a permit.
  abbrev spawned : List Record → Reader → Option Consumer → Reader
  spawned later r none = r
  spawned later r (some c) = record r { consumer = c; to_come = later }

  abbrev received : Record → List Record → Reader → Option Dict → Reader
  received x later r none = record r { failed = true }
  received x later r (some event) = spawned later r (start_task (delivery_of x event) r.consumer)

  read_from : List Record → Reader → Reader
  read_from [] r = r
  read_from (x ∷ later) r = received x later r (deserialize x.value)

  -- One round of `async for msg in consumer`. The iteration raises what the deserializer raises,
  -- which no block in `_consume` takes.
  unfoldable pub read : Reader → Reader
  unfolding read_from
  read r = if r.failed then r else read_from r.to_come r

  -- A running task ends, which it may do after the loop too.
  unfoldable pub task_ends : ℕ → Outcome (Unit {0}) → Outcome (Unit {0}) → Reader → Reader
  task_ends i processed committing r = record r {
    consumer = end_task i processed committing r.consumer;
  }

  pub data Step (r s : Reader) : Type 0 where
    reads : s ≡ read r → Step r s
    ends :
        (i : ℕ) (processed committing : Outcome (Unit {0}))
        → s ≡ task_ends i processed committing r
        → Step r s

  pub data Reach (r : Reader) : Reader → Type 0 where
    here : Reach r r
    next : {s t : Reader} → Reach r s → Step s t → Reach r t
