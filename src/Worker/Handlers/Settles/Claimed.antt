-- ===== src/Worker/Handlers/Settles/Claimed.antt =====
-- The handlers of apps/worker/handlers.py from the guard on account for every event.
use mathlib.Core.Path.{subst}
use iotflow_distributed_syst.Base.{true, false, ◌∙◌, sym, ap, ◌≡◌, refl, Any, str, Bool, false}
use iotflow_distributed_syst.Exec.{
  Outcome, ok, raised, Exception, is_exception, recover, continue, pure, on_state, except_exception,
  raise,
}
use iotflow_distributed_syst.Exec.Rules.{
  Returns, Returns-raised, Returns-if, Returns-continue, Returns-recover, Returns-ok,
}
use iotflow_distributed_syst.Python.{Dict, get, is_truthy}
use iotflow_distributed_syst.Shared.Models.{IoTEvent, parse_event}
use iotflow_distributed_syst.Worker.Services.{Environment, State}
use iotflow_distributed_syst.Worker.Services.Trace.{IsRefused}
use iotflow_distributed_syst.Worker.Idempotency.{is_new, key}
use iotflow_distributed_syst.Worker.Idempotency.Claims.{is_new-IsRefused}
use iotflow_distributed_syst.Worker.Handlers.{
  WorkerContext, Action, reject, device_state_handler, persistence_handler, validation_handler,
  claimed, idempotency_handler, set_event,
}
use iotflow_distributed_syst.Worker.Handlers.Settles.{duplicate, Done, send-Done}
use iotflow_distributed_syst.Worker.Handlers.Settles.Stored.{
  rest, persistence-Done, persistence-KeepsRaw,
}

module _ {W : Type 0} (env : Environment W) (raw : Dict) where
  reject-Done :
      (exc : Exception) (x : WorkerContext × State W)
      → x.0.raw_event ≡ raw
      → Returns (Done env raw) (reject env exc x)
  unfolding reject
  reject-Done exc x same = send-Done env raw (str "VALIDATION_ERROR") exc.message 0 x same

  -- The handlers behind `IdempotencyHandler`.
  abbrev pub from_validation : Action env
  from_validation =
      validation_handler env (persistence_handler env (device_state_handler env (pure tt)))

  rejected-Done :
      (exc : Exception) (x : WorkerContext × State W)
      → x.0.raw_event ≡ raw
      → Returns (Done env raw) (except_exception (reject env) exc x)
  rejected-Done exc x same =
      Returns-if (Done env raw) (is_exception exc.class) (reject env exc) (raise exc) x
        (λ caught. reject-Done exc x same) (λ base. Returns-raised (Done env raw) exc x)

  parsed-Done :
      (r : Outcome IoTEvent) (x : WorkerContext × State W)
      → parse_event env.py raw ≡ r
      → x.0.raw_event ≡ raw
      → Returns (Done env raw) (
          recover (except_exception (reject env)) (
            continue
              (λ event y.
                persistence_handler env (device_state_handler env (pure tt)) (set_event event y))
              (r, x)))
  parsed-Done (ok event) x valid same =
      let y = set_event event x in
      Returns-recover (Done env raw) (except_exception (reject env)) (rest env raw event valid y)
        (persistence-Done env raw event valid y same refl)
        λ exc ended.
          rejected-Done exc (rest env raw event valid y).1
            (persistence-KeepsRaw env raw event valid y same refl)
  parsed-Done (raised exc) x valid same = rejected-Done exc x same

  validation-Done :
      (x : WorkerContext × State W)
      → x.0.raw_event ≡ raw
      → Returns (Done env raw) (from_validation x)
  unfolding validation_handler
  validation-Done x same =
      parsed-Done (parse_event env.py x.0.raw_event) x (ap (parse_event env.py) (sym same)) same

  claimed-Done :
      (new : Bool) (x : WorkerContext × State W)
      → x.0.raw_event ≡ raw
      → (new ≡ false → Any (IsRefused (key env (get (str "event_id") raw))) x.1.calls)
      → Returns (Done env raw) (claimed env new from_validation x)
  unfolding claimed
  claimed-Done true x same refused = validation-Done x same
  claimed-Done false x same refused = Returns-ok (Done env raw) tt x (duplicate (refused refl))

  -- From any state with the raw event in its context, the handlers account for it if they return.
  pub idempotency-Done :
      (x : WorkerContext × State W)
      → x.0.raw_event ≡ raw
      → Returns (Done env raw) (idempotency_handler env from_validation x)
  unfolding idempotency_handler
  idempotency-Done x same =
      let event_id = get (str "event_id") x.0.raw_event in
      Returns-if (Done env raw) (is_truthy event_id) _ _ x
        (λ there.
          Returns-continue (Done env raw) (λ new. claimed env new from_validation)
            (on_state (is_new env event_id) x)
            λ new answer. claimed-Done new (on_state (is_new env event_id) x).1 same λ not_new.
              subst
                (λ d.
                  Any (IsRefused (key env (get (str "event_id") d)))
                    (is_new env event_id x.1).1.calls)
                same (is_new-IsRefused env event_id x.1 (answer ∙ ap ok not_new)))
        (λ missing. validation-Done x same)
