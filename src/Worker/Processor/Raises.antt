-- ===== src/Worker/Processor/Raises.antt =====
-- An event on which `EventProcessor.process` of apps/worker/processor.py raises.
use iotflow_distributed_syst.Base.{ℕ, ◌≡◌, refl, true, Option, some, Text, str, arith}
use iotflow_distributed_syst.Exec.{
  ErrorClass, ok, raised, Exception, is_exception, except_exception, on_state,
}
use iotflow_distributed_syst.Exec.Rules.{continue-raised, continue-ok}
use iotflow_distributed_syst.Python.{
  Value, number, Dict, empty, entry, get, get_or, lookup, encode, interpreter_error, text,
}
use iotflow_distributed_syst.Shared.Models.{
  UtcResult, utc, invalid, overflow, parse_event, finish, check_fields, ensure_utc,
  validation_error,
}
use iotflow_distributed_syst.Shared.Pipeline.{ensure_trace_id}
use iotflow_distributed_syst.Worker.Config.{idempotency_ttl_seconds}
use iotflow_distributed_syst.Worker.Services.{Environment, State, DlqEnvelope, perform, draw, count}
use iotflow_distributed_syst.Worker.Idempotency.{key, is_new}
use iotflow_distributed_syst.Worker.Dlq.{publish, send, Failure}
use iotflow_distributed_syst.Worker.Handlers.{
  WorkerContext, reject, claimed, idempotency_handler, validation_handler,
}
use iotflow_distributed_syst.Worker.Handlers.Settles.Claimed.{from_validation}
use iotflow_distributed_syst.Worker.Processor.{
  traced, context_of, run_pipeline, process, task_started,
}
use iotflow_distributed_syst.Worker.Processor.Accounts.{execute-pipeline, ensure_trace_id-raw_event}

pub get-lookup :
    (k : Text) (default v : Value) (d : Dict)
    → lookup k d ≡ some v
    → (get k d ≡ v) × (get_or k default d ≡ v)
unfolding get get_or lookup
get-lookup k default v empty h = absurd (cc)
get-lookup k default v (entry j u d) h = ground (arith, get-lookup k default v d)

-- Of an event whose identifier is a number.
module _ {W : Type 0} (env : Environment W) (label : Text) where
  abbrev pub no_encode : Exception
  no_encode = interpreter_error env.py ErrorClass.attribute_error (str "AttributeError")

  abbrev pub HasNumber : Dict → Type 0
  HasNumber d = lookup (str "event_id") d ≡ some (number label true)

  finish-raises :
      (d : Dict) (r : UtcResult)
      → HasNumber d
      → (exc : Exception) × (finish env.py d r ≡ raised exc) × (is_exception exc.class ≡ true)
  unfolding validation_error check_fields
  finish-raises d (utc t) h = (validation_error env.py d, rw h refl, refl)
  finish-raises d invalid h = (validation_error env.py d, refl, refl)
  finish-raises d overflow h = (_, refl, refl)

  publish-raises :
      (value : DlqEnvelope) (s : State W)
      → (publish env (number label true) value s).0 ≡ raised no_encode
  unfolding publish encode
  publish-raises value s = refl

  send-raises :
      (f : Failure) (s : State W) → HasNumber f.original_event → (send env f s).0 ≡ raised no_encode
  unfolding send draw
  send-raises f s h =
      rw
        ((get-lookup (str "event_id") (text (str "unknown")) (number label true) f.original_event
          h).1)
        (continue-raised _ _ no_encode (publish-raises _ _))

  rejected-raises :
      (exc : Exception) (x : WorkerContext × State W)
      → is_exception exc.class ≡ true
      → HasNumber x.0.raw_event
      → (except_exception (reject env) exc x).0 ≡ raised no_encode
  unfolding reject
  rejected-raises exc x caught h = rw caught (send-raises _ x.1 h)

  parse_event-raises :
      (d : Dict)
      → HasNumber d
      → (exc : Exception) × (parse_event env.py d ≡ raised exc) × (is_exception exc.class ≡ true)
  unfolding parse_event
  parse_event-raises d h = finish-raises d (ensure_utc env.py (lookup (str "timestamp") d)) h

  validation-raises :
      (raw : Dict) (x : WorkerContext × State W)
      → HasNumber x.0.raw_event
      → (from_validation env raw x).0 ≡ raised no_encode
  unfolding validation_handler
  validation-raises raw x h =
      let (exc, e, caught) = parse_event-raises x.0.raw_event h in
      rw e (rejected-raises exc x caught h)

  -- Redis answers that the key of this identifier was not there.
  abbrev pub IsUnclaimed : Type 0
  IsUnclaimed =
      (w : W)
      → (env.redis_set_nx (key env (number label true)) idempotency_ttl_seconds w).0 ≡ ok true

  is_new-unclaimed : IsUnclaimed → (s : State W) → (is_new env (number label true) s).0 ≡ ok true
  unfolding is_new perform
  is_new-unclaimed free s = ground (arith, free s.world)

  idempotency-raises :
      (raw : Dict) (x : WorkerContext × State W)
      → IsUnclaimed
      → HasNumber x.0.raw_event
      → (idempotency_handler env (from_validation env raw) x).0 ≡ raised no_encode
  unfolding idempotency_handler claimed
  idempotency-raises raw x free h =
      rw
        ((get-lookup (str "event_id") (text (str "unknown")) (number label true) x.0.raw_event h).0)
        (rw
          (continue-ok (λ new. claimed env new (from_validation env raw))
            (on_state (is_new env (number label true)) x) true (is_new-unclaimed free x.1))
          (validation-raises raw (on_state (is_new env (number label true)) x).1 h))

  ensure_trace_id-ok : (x : WorkerContext × State W) → (ensure_trace_id (traced env) x).0 ≡ ok tt
  unfolding ensure_trace_id draw
  ensure_trace_id-ok x = ground arith

  -- `process` is not free of exceptions: an event whose `event_id` is a number other than 0, and
  -- whose key Redis has not seen, ends it in an AttributeError, since neither validation accepts the
  -- number nor can the DLQ publisher encode it for a key.
  pub process-raises :
      (raw : Dict) (partition offset : Option ℕ) (s : State W)
      → lookup (str "event_id") raw ≡ some (number label true)
      → IsUnclaimed
      → (process env raw partition offset s).0 ≡ raised no_encode
  unfolding process run_pipeline
  process-raises raw partition offset s h free =
      let start : WorkerContext × State W =
        (context_of env.py raw partition offset, count task_started s) in
      let named = ensure_trace_id (traced env) start in
      rw (execute-pipeline env raw) (
        rw
          (continue-ok (λ _. idempotency_handler env (from_validation env raw)) named tt
            (ensure_trace_id-ok start))
          (idempotency-raises raw named.1 free (rw (ensure_trace_id-raw_event env start) h)))
