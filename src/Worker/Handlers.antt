-- ===== src/Worker/Handlers.antt =====
-- apps/worker/handlers.py: the four handlers of the worker's pipeline.
pub mod Persistence
pub mod Settles
pub mod Guarded
pub mod Frees
use iotflow_distributed_syst.Base.{
  ℕ, ◌+◌, Bool, true, false, Option, none, some, Text, str, if◌then◌else◌,
}
use iotflow_distributed_syst.Exec.{
  Exception, is_postgres_error, is_exception, Outcome, Exec, pure, raise, gets, modify, ◌>>=◌, ◌>>◌,
  try_except, except_exception, on_state,
}
use iotflow_distributed_syst.Python.{Dict, text, get, is_truthy}
use iotflow_distributed_syst.Shared.Models.{IoTEvent, parse_event}
use iotflow_distributed_syst.Shared.Pipeline.{Handler}
use iotflow_distributed_syst.Worker.Services.{Environment, State, Metrics, count, inc}
use iotflow_distributed_syst.Worker.Db.{insert_event, upsert_device_state}
use iotflow_distributed_syst.Worker.Idempotency.{is_new, release}
use iotflow_distributed_syst.Worker.Retry.{with_retry}
use iotflow_distributed_syst.Worker.Dlq.{Failure, send}

-- `start_time` is read for the log line only.
pub record WorkerContext : Type 0 where
  pub raw_event : Dict
  pub trace_id : Text
  pub kafka_partition : Option ℕ
  pub kafka_offset : Option ℕ
  pub event : Option IoTEvent
  pub processed : Bool

abbrev pub failure : WorkerContext → Text → Text → ℕ → Failure
failure context error_type error_message retry_count = record {
  original_event = context.raw_event;
  error_type = error_type;
  error_message = error_message;
  retry_count = retry_count;
  original_partition = context.kafka_partition;
  original_offset = context.kafka_offset;
}

abbrev pub event_processed : Text → Metrics → Metrics
event_processed event_type m = record m { events_processed = inc event_type m.events_processed }

abbrev pub db_error : Text → Metrics → Metrics
db_error error_type m = record m { db_errors = inc error_type m.db_errors }

abbrev pub set_event : {W : Type 0} → IoTEvent → WorkerContext × State W → WorkerContext × State W
set_event event (context, s) = (record context { event = some event }, s)

abbrev pub set_processed : {W : Type 0} → WorkerContext × State W → WorkerContext × State W
set_processed (context, s) = (record context { processed = true }, s)

abbrev pub lift : {S A : Type 0} → Outcome A → Exec S A
lift r s = (r, s)

module _ {W : Type 0} (env : Environment W) where
  -- What a handler acts on: the context, and the state that all tasks share.
  abbrev pub Action : Type 0
  Action = Exec (WorkerContext × State W) (Unit {0})

  unfoldable pub claimed : Bool → Action → Action
  claimed true next_call = next_call
  claimed false next_call = pure tt

  unfoldable pub idempotency_handler : Handler (WorkerContext × State W)
  idempotency_handler next_call = do
    context ← gets (λ s. s.0)
    let event_id = get (str "event_id") context.raw_event
    (if is_truthy event_id
        then (do new ← on_state (is_new env event_id); claimed new next_call)
        else next_call)

  -- The `except` block of `ValidationHandler`; it reads the context as it is by then.
  unfoldable pub reject : Exception → Action
  reject exc = do
    context ← gets (λ s. s.0)
    on_state (send env (failure context (str "VALIDATION_ERROR") exc.message 0))

  unfoldable pub validation_handler : Handler (WorkerContext × State W)
  validation_handler next_call =
      try_except
        (do
          context ← gets (λ s. s.0)
          event ← lift (parse_event env.py context.raw_event)
          modify (set_event event)
          next_call)
        (except_exception (reject))

  -- The closure `_insert`, with the variable `retry_count` beside the state.
  unfoldable pub insert : IoTEvent → Exec (ℕ × State W) (Unit {0})
  insert event = do modify (λ s. (s.0 + 1, s.1)); on_state (insert_event env event); pure tt

  -- `retry_count = 0` and `with_retry(_insert)`: how it ended, with the value of `retry_count`.
  abbrev with_count :
      Outcome (Unit {0}) × (ℕ × State W) → Outcome (Outcome (Unit {0}) × ℕ) × State W
  with_count (r, (retry_count, s)) = (Outcome.ok (r, retry_count), s)

  unfoldable pub insert_with_retry : IoTEvent → Exec (State W) (Outcome (Unit {0}) × ℕ)
  insert_with_retry event s = with_count (with_retry env (insert event) (0, s))

  -- The two `except` blocks of `PersistenceHandler`.
  unfoldable pub give_up : IoTEvent → ℕ → Exception → Action
  give_up event retry_count exc =
      if is_postgres_error exc.class
      then (do
        on_state (modify (count (db_error exc.name)))
        on_state (release env (text event.event_id))
        context ← gets (λ s. s.0)
        on_state (send env (failure context (str "DB_ERROR") exc.message retry_count)))
      else if is_exception exc.class
      then (do
        on_state (release env (text event.event_id))
        context ← gets (λ s. s.0)
        on_state (send env (failure context exc.name exc.message retry_count)))
      else raise exc

  unfoldable pub persist : Option IoTEvent → Action → Action
  persist none next_call = pure tt
  persist (some event) next_call = do
    (result, retry_count) ← on_state (insert_with_retry event)
    try_except (do lift result; next_call) (give_up event retry_count)

  unfoldable pub persistence_handler : Handler (WorkerContext × State W)
  persistence_handler next_call = do context ← gets (λ s. s.0); persist context.event next_call

  unfoldable pub update_state : Option IoTEvent → Action → Action
  update_state none next_call = pure tt
  update_state (some event) next_call = do
    try_except
        (on_state (
          upsert_device_state env event.device_id event.event_id event.event_type event.timestamp
            event.payload))
        (except_exception λ exc. pure tt)
    on_state (modify (count (event_processed event.event_type)))
    modify set_processed
    next_call

  unfoldable pub device_state_handler : Handler (WorkerContext × State W)
  device_state_handler next_call = do
    context ← gets (λ s. s.0)
    update_state context.event next_call
