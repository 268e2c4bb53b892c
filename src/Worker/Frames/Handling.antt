-- ===== src/Worker/Frames/Handling.antt =====
-- The four handlers and `EventProcessor.process` keep a frame condition that the
-- services keep.
use iotflow_distributed_syst.Base.{
  str, ℕ, ◌+◌, ◌≡◌, Text, arith, refl, Bool, true, false, Option, none, some,
}
use iotflow_distributed_syst.Exec.{
  ◌>>=◌, ◌>>◌, on_state, try_except, except_exception, Outcome, Exec, Exception, modify, pure,
}
use iotflow_distributed_syst.Exec.Keeps.{
  IsFrame, Keeps-bind, Keeps-if, Keeps-pure, Keeps-on_state, Keeps-try_except,
  Keeps-except_exception, Keeps, Beside, Beside-IsFrame, keeps_rules,
}
use iotflow_distributed_syst.Python.{Value, get, is_truthy}
use iotflow_distributed_syst.Worker.Db.{insert_event}
use iotflow_distributed_syst.Shared.Models.{parse_event, IoTEvent}
use iotflow_distributed_syst.Worker.Services.{Environment, Metrics, State, count}
use iotflow_distributed_syst.Worker.Idempotency.{is_new, release}
use iotflow_distributed_syst.Worker.Retry.Frame.{with_retry-Keeps}
use iotflow_distributed_syst.Worker.Dlq.{Failure, send}
use iotflow_distributed_syst.Worker.Handlers.{
  WorkerContext, Action, claimed, idempotency_handler, reject, validation_handler, insert,
  insert_with_retry, give_up, persist, persistence_handler, update_state, device_state_handler,
  lift, set_event, db_error, event_processed, set_processed,
}
use iotflow_distributed_syst.Worker.Processor.{traced}
use iotflow_distributed_syst.Worker.Frames.{Allows, HasCounted}
use iotflow_distributed_syst.Shared.Pipeline.{ensure_trace_id}
use iotflow_distributed_syst.Worker.Frames.Services.{
  is_new-Keeps, release-Keeps, insert_event-Keeps, upsert_device_state-Keeps, send-Keeps,
  count-Keeps,
}

db_error-HasCounted : (l : Text) (m : Metrics) → HasCounted m (db_error l m)
db_error-HasCounted l m = ground arith

event_processed-HasCounted : (l : Text) (m : Metrics) → HasCounted m (event_processed l m)
event_processed-HasCounted l m = ground arith

module _ {W : Type 0} (env : Environment W) (R : State W → State W → Type 0)
    (allows : Allows env R) where
  -- The frame of a handler: its context may change.
  abbrev pub Framed : {A : Type 0} → Exec (WorkerContext × State W) A → Type 0
  Framed m = Keeps (Beside R) m

  frame : IsFrame (Beside {C = WorkerContext} R)
  frame = Beside-IsFrame R allows.frame

  lift-Framed : {A : Type 0} (r : Outcome A) → Framed (lift r)
  lift-Framed r = record { at = λ x. allows.frame.same x.1 }

  pub then_next :
      {A B : Type 0} (m : Exec (WorkerContext × State W) A)
      (f : A → Exec (WorkerContext × State W) B)
      → Framed m
      → ((a : A) → Framed (f a))
      → Framed (m >>= f)
  then_next m f km kf = Keeps-bind _ frame m f km kf

  -- Behind the last handler nothing happens.
  pub finished-Framed : Framed (pure tt)
  finished-Framed = Keeps-pure _ frame tt

  -- A change of the context alone.
  context-Framed :
      (f : WorkerContext × State W → WorkerContext × State W)
      → ((x : WorkerContext × State W) → (f x).1 ≡ x.1)
      → Framed (modify f)
  context-Framed f same = record { at = λ x. rw (same x) (allows.frame.same x.1) }

  set_event-Framed : (event : IoTEvent) → Framed (modify (set_event event))
  set_event-Framed event = context-Framed (set_event event) (λ x. refl)

  set_processed-Framed : Framed (modify set_processed)
  set_processed-Framed = context-Framed set_processed (λ x. refl)

  counts-Framed :
      (f : Metrics → Metrics)
      → ((m : Metrics) → HasCounted m (f m))
      → Framed (on_state (modify (count f)))
  counts-Framed f h = Keeps-on_state R _ (count-Keeps env R allows f h)

  db_error-Framed : (l : Text) → Framed (on_state (modify (count (db_error l))))
  db_error-Framed l = counts-Framed (db_error l) (db_error-HasCounted l)

  sends-Framed : (f : Failure) → Framed (on_state (send env f))
  sends-Framed f = Keeps-on_state R _ (send-Keeps env R allows f)

  releases-Framed : (event_id : Value) → Framed (on_state (release env event_id))
  releases-Framed event_id = Keeps-on_state R _ (release-Keeps env R allows event_id)

  attempt_frame : IsFrame (Beside {C = ℕ} R)
  attempt_frame = Beside-IsFrame R allows.frame

  counted-Keeps : Keeps (Beside {C = ℕ} R) (modify (λ x. (x.0 + 1, x.1)))
  counted-Keeps = record { at = λ x. allows.frame.same x.1 }

  inserts-Keeps : (event : IoTEvent) → Keeps (Beside {C = ℕ} R) (on_state (insert_event env event))
  inserts-Keeps event = Keeps-on_state R _ (insert_event-Keeps env R allows event)

  insert-Keeps : (event : IoTEvent) → Keeps (Beside {C = ℕ} R) (insert env event)
  unfolding insert
  insert-Keeps event = search (keeps_rules, attempt_frame, counted-Keeps, inserts-Keeps) depth 10

  insert_with_retry-Keeps : (event : IoTEvent) → Keeps R (insert_with_retry env event)
  unfolding insert_with_retry
  insert_with_retry-Keeps event = record {
    at = λ s. (with_retry-Keeps env R allows (insert env event) (insert-Keeps event)).at (0, s);
  }

  give_up-Framed : (event : IoTEvent) (n : ℕ) (e : Exception) → Framed (give_up env event n e)
  unfolding give_up
  give_up-Framed event n e =
      search (keeps_rules, frame, db_error-Framed, releases-Framed, sends-Framed) depth 14

  reject-Framed : (e : Exception) → Framed (reject env e)
  unfolding reject
  reject-Framed e = search (keeps_rules, frame, sends-Framed) depth 8

  module _ (next_call : Action env) (kept : Framed next_call) where
    claimed-Framed : (new : Bool) → Framed (claimed env new next_call)
    unfolding claimed
    claimed-Framed true = kept
    claimed-Framed false = search (keeps_rules, frame)

    pub idempotency_handler-Framed : Framed (idempotency_handler env next_call)
    unfolding idempotency_handler
    idempotency_handler-Framed = record {
      at = λ x.
          let event_id = get (str "event_id") x.0.raw_event in
          (Keeps-if _ frame (is_truthy event_id) _ next_call
              (then_next (on_state (is_new env event_id)) (λ new. claimed env new next_call)
                (Keeps-on_state R _ (is_new-Keeps env R allows event_id)) claimed-Framed)
              kept).at
            x;
    }

    pub validation_handler-Framed : Framed (validation_handler env next_call)
    unfolding validation_handler
    validation_handler-Framed = record {
      at = λ x.
          (Keeps-try_except _ frame _ (except_exception (reject env))
              (then_next (lift (parse_event env.py x.0.raw_event))
                (λ event. modify (set_event event) >> next_call) (lift-Framed _)
                (λ event.
                  then_next (modify (set_event event)) (λ _. next_call) (set_event-Framed event)
                    (λ _. kept)))
              (Keeps-except_exception _ frame (reject env) reject-Framed)).at
            x;
    }

    persist-Framed : (event : Option IoTEvent) → Framed (persist env event next_call)
    unfolding persist
    persist-Framed none = search (keeps_rules, frame)
    persist-Framed (some event) =
        then_next (on_state (insert_with_retry env event))
          (λ r. try_except (lift r.0 >> next_call) (give_up env event r.1))
          (Keeps-on_state R _ (insert_with_retry-Keeps event))
          λ r.
            Keeps-try_except _ frame _ (give_up env event r.1)
              (then_next (lift r.0) (λ _. next_call) (lift-Framed r.0) (λ _. kept))
              (give_up-Framed event r.1)

    pub persistence_handler-Framed : Framed (persistence_handler env next_call)
    unfolding persistence_handler
    persistence_handler-Framed = record { at = λ x. (persist-Framed x.0.event).at x }

    -- `DeviceStateHandler` after the upsert.
    counted-Framed :
        (event_type : Text)
        → Framed (
            on_state (modify (count (event_processed event_type)))
            >> (modify set_processed >> next_call))
    counted-Framed event_type =
        then_next (on_state (modify (count (event_processed event_type))))
          (λ _. modify set_processed >> next_call)
          (counts-Framed (event_processed event_type) (event_processed-HasCounted event_type))
          λ _. then_next (modify set_processed) (λ _. next_call) set_processed-Framed (λ _. kept)

    update_state-Framed : (event : Option IoTEvent) → Framed (update_state env event next_call)
    unfolding update_state
    update_state-Framed none = search (keeps_rules, frame)
    update_state-Framed (some event) =
        then_next _
          (λ _.
            on_state (modify (count (event_processed event.event_type)))
            >> (modify set_processed >> next_call))
          (Keeps-try_except _ frame _ _
            (Keeps-on_state R _ (
              upsert_device_state-Keeps env R allows event.device_id event.event_id event.event_type
                event.timestamp event.payload))
            (Keeps-except_exception _ frame _ (λ exc. Keeps-pure _ frame tt)))
          (λ _. counted-Framed event.event_type)

    pub device_state_handler-Framed : Framed (device_state_handler env next_call)
    unfolding device_state_handler
    device_state_handler-Framed = search (keeps_rules, frame, update_state-Framed)

  -- The pipeline's trace id.
  set_trace_id-Framed : (t : Text) → Framed (modify ((traced env).set_trace_id t))
  set_trace_id-Framed t = context-Framed ((traced env).set_trace_id t) (λ x. refl)

  draws_id-Framed : Framed (traced env).uuid4
  draws_id-Framed = Keeps-on_state R _ allows.draws_id

  pub ensure_trace_id-Framed : Framed (ensure_trace_id (traced env))
  unfolding ensure_trace_id
  ensure_trace_id-Framed = search (keeps_rules, frame, set_trace_id-Framed, draws_id-Framed)
