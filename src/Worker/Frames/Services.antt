-- ===== src/Worker/Frames/Services.antt =====
-- The functions that call services, Redis, PostgreSQL and the DLQ topic among them, keep a frame
-- condition that the services keep.
use iotflow_distributed_syst.Base.{ℕ, ◌≡◌, Text, arith, Bool, true, false}
use iotflow_distributed_syst.Exec.{modify, Exec}
use iotflow_distributed_syst.Exec.Keeps.{Keeps, Keeps-modify, keeps_rules}
use iotflow_distributed_syst.Python.{Value, Dict, Datetime, encode}
use iotflow_distributed_syst.Shared.Models.{IoTEvent}
use iotflow_distributed_syst.Worker.Services.{
  Environment, State, Metrics, count, inc, Counter, DlqEnvelope, draw,
}
use iotflow_distributed_syst.Worker.Db.{
  get_pool, rows_affected, insert_event, upsert_device_state, record_dlq_event,
}
use iotflow_distributed_syst.Worker.Idempotency.{is_new, release, duplicate_seen, judge}
use iotflow_distributed_syst.Worker.Retry.{compute_delay, backoff, retried}
use iotflow_distributed_syst.Worker.Dlq.{publish, record_failure, send, Failure, dead_lettered}
use iotflow_distributed_syst.Worker.Frames.{Allows, HasCounted, Grows}

inc-Grows : (label : Text) (c : Counter) → Grows c (inc label c)
inc-Grows label c k = ground arith

duplicate_seen-HasCounted : (m : Metrics) → HasCounted m (duplicate_seen m)
duplicate_seen-HasCounted m = ground arith

dead_lettered-HasCounted : (l : Text) (m : Metrics) → HasCounted m (dead_lettered l m)
dead_lettered-HasCounted l m = ground arith

retried-HasCounted : (n : ℕ) (m : Metrics) → HasCounted m (retried n m)
retried-HasCounted n m = ground arith

module _ {W : Type 0} (env : Environment W) where
  get_pool-state : (s : State W) → (get_pool env s).1 ≡ s
  unfolding get_pool
  get_pool-state s = ground arith

  rows_affected-state : (tag : Text) (s : State W) → (rows_affected env tag s).1 ≡ s
  unfolding rows_affected
  rows_affected-state tag s = ground arith

  encode-state : (v : Value) (s : State W) → (encode env.py v s).1 ≡ s
  unfolding encode
  encode-state v s = ground arith

module _ {W : Type 0} (env : Environment W) (R : State W → State W → Type 0)
    (allows : Allows env R) where
  -- A call that only reads keeps every frame condition.
  reads-Keeps : {A : Type 0} (m : Exec (State W) A) → ((s : State W) → (m s).1 ≡ s) → Keeps R m
  reads-Keeps m same = record { at = λ s. rw (same s) (allows.frame.same s) }

  pub count-Keeps :
      (f : Metrics → Metrics) → ((m : Metrics) → HasCounted m (f m)) → Keeps R (modify (count f))
  count-Keeps f h = Keeps-modify R allows.frame (count f) (allows.counts f h)

  judge-Keeps : (b : Bool) → Keeps R (judge env b)
  judge-Keeps true = search (keeps_rules, allows.frame)
  judge-Keeps false = search (keeps_rules, allows.frame, count-Keeps, duplicate_seen-HasCounted)

  pub is_new-Keeps : (event_id : Value) → Keeps R (is_new env event_id)
  unfolding is_new
  is_new-Keeps event_id = search (keeps_rules, allows.frame, allows.claims, judge-Keeps)

  pub release-Keeps : (event_id : Value) → Keeps R (release env event_id)
  unfolding release
  release-Keeps event_id = search (keeps_rules, allows.frame, allows.deletes)

  get_pool-Keeps : Keeps R (get_pool env)
  get_pool-Keeps = reads-Keeps (get_pool env) (get_pool-state env)

  rows_affected-Keeps : (tag : Text) → Keeps R (rows_affected env tag)
  rows_affected-Keeps tag = reads-Keeps (rows_affected env tag) (rows_affected-state env tag)

  encode-Keeps : (v : Value) → Keeps R (encode env.py v)
  encode-Keeps v = reads-Keeps (encode env.py v) (encode-state env v)

  pub insert_event-Keeps : (event : IoTEvent) → Keeps R (insert_event env event)
  unfolding insert_event
  insert_event-Keeps event =
      search (keeps_rules, allows.frame, allows.executes, get_pool-Keeps, rows_affected-Keeps)

  pub upsert_device_state-Keeps :
      (device_id event_id event_type : Text) (seen : Datetime) (payload : Dict)
      → Keeps R (upsert_device_state env device_id event_id event_type seen payload)
  unfolding upsert_device_state
  upsert_device_state-Keeps device_id event_id event_type seen payload =
      search (keeps_rules, allows.frame, allows.executes, get_pool-Keeps)

  pub retried-Keeps : (n : ℕ) → Keeps R (modify (count (retried n)))
  retried-Keeps n = count-Keeps (retried n) (retried-HasCounted n)

  pub backoff-Keeps : (attempt : ℕ) → Keeps R (backoff env attempt)
  unfolding backoff compute_delay
  backoff-Keeps attempt = search (keeps_rules, allows.frame, allows.sleeps, allows.draws_delay)

  dead_lettered-Keeps : (l : Text) → Keeps R (modify (count (dead_lettered l)))
  dead_lettered-Keeps l = count-Keeps (dead_lettered l) (dead_lettered-HasCounted l)

  publish-Keeps : (event_id : Value) (value : DlqEnvelope) → Keeps R (publish env event_id value)
  unfolding publish
  publish-Keeps event_id value = search (keeps_rules, allows.frame, allows.sends, encode-Keeps)

  record_failure-Keeps :
      (event_id device_id : Value) (f : Failure) → Keeps R (record_failure env event_id device_id f)
  unfolding record_failure record_dlq_event
  record_failure-Keeps event_id device_id f =
      search (keeps_rules, allows.frame, allows.executes, get_pool-Keeps)

  draws_id : Keeps R (draw env.uuid4)
  draws_id = allows.draws_id

  draws_time : Keeps R (draw env.now)
  draws_time = allows.draws_time

  pub send-Keeps : (f : Failure) → Keeps R (send env f)
  unfolding send
  send-Keeps f =
      search
        (
          keeps_rules, allows.frame, draws_id, draws_time, publish-Keeps, record_failure-Keeps,
          dead_lettered-Keeps,
        )
        depth 12
