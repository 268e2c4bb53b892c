-- ===== src/Worker/Handlers/Settles/Stored.antt =====
-- `PersistenceHandler` and `DeviceStateHandler` of apps/worker/handlers.py account for a valid event.
use mathlib.Core.Path.{subst}
use iotflow_distributed_syst.Base.{sym, ℕ, ◌≡◌, refl, some, Any, arith}
use iotflow_distributed_syst.Exec.{Outcome, ok, raised, recover, continue, pure}
use iotflow_distributed_syst.Exec.Rules.{Returns, Returns-recover}
use iotflow_distributed_syst.Python.{Dict}
use iotflow_distributed_syst.Shared.Models.{IoTEvent, parse_event}
use iotflow_distributed_syst.Worker.Services.{Environment, State, perform}
use iotflow_distributed_syst.Worker.Services.Trace.{IsInserted}
use iotflow_distributed_syst.Worker.Db.{upsert_device_state, get_pool}
use iotflow_distributed_syst.Worker.Retry.{with_retry}
use iotflow_distributed_syst.Worker.Handlers.{
  WorkerContext, Action, give_up, insert_with_retry, persist, update_state, device_state_handler,
  insert, persistence_handler,
}
use iotflow_distributed_syst.Worker.Handlers.Persistence.{insert_with_retry-IsInserted}
use iotflow_distributed_syst.Worker.Handlers.Settles.{
  persisted, Done, KeepsRaw, give_up-Done, give_up-KeepsRaw,
}

module _ {W : Type 0} (env : Environment W) (raw : Dict) where
  module _ (event : IoTEvent) (valid : parse_event env.py raw ≡ ok event) where
    abbrev Inserted : WorkerContext × State W → Type 0
    Inserted x = (x.0.raw_event ≡ raw) × (x.0.event ≡ some event) × Any (IsInserted event) x.1.calls

    upsert_keeps :
        (s : State W)
        → Any (IsInserted event) s.calls
        → Any
            (IsInserted event)
            (upsert_device_state env event.device_id event.event_id event.event_type event.timestamp
              event.payload s).1.calls
    unfolding upsert_device_state get_pool perform
    upsert_keeps s h = ground arith

    update_state-keeps :
        (x : WorkerContext × State W)
        → Any (IsInserted event) x.1.calls
        → Any (IsInserted event) (update_state env (some event) (pure tt) x).1.1.calls
    unfolding update_state
    update_state-keeps x h = ground (arith, upsert_keeps x.1 h)

    device_state-Done :
        (x : WorkerContext × State W)
        → Inserted x
        → Returns (Done env raw) (device_state_handler env (pure tt) x)
    unfolding device_state_handler
    device_state-Done x h =
        subst (λ o. Returns (Done env raw) (update_state env o (pure tt) x)) (sym h.1)
          (record { post = λ a e. persisted event valid (update_state-keeps x h.2) })

    update_state-KeepsRaw : KeepsRaw env raw (update_state env (some event) (pure tt))
    unfolding update_state
    update_state-KeepsRaw x same = ground arith

    device_state-KeepsRaw :
        (x : WorkerContext × State W)
        → Inserted x
        → (device_state_handler env (pure tt) x).1.0.raw_event ≡ raw
    unfolding device_state_handler
    device_state-KeepsRaw x h =
        subst (λ o. (update_state env o (pure tt) x).1.0.raw_event ≡ raw) (sym h.1)
          (update_state-KeepsRaw x h.0)

    module _ (next : Action env)
        (keeps : (x : WorkerContext × State W) → Inserted x → (next x).1.0.raw_event ≡ raw)
        (done : (x : WorkerContext × State W) → Inserted x → Returns (Done env raw) (next x)) where
      after_insert :
          (context : WorkerContext) (run : Outcome (Unit {0}) × (ℕ × State W))
          → context.raw_event ≡ raw
          → context.event ≡ some event
          → (run.0 ≡ ok tt → Any (IsInserted event) run.1.1.calls)
          → Returns (Done env raw) (
              recover
                (give_up env event run.1.0)
                (continue (λ _. next) (run.0, (context, run.1.1))))
      after_insert context (ok _, (n, s)) same found in_table =
          let x : WorkerContext × State W = (context, s) in
          let inserted : Inserted x = (same, found, in_table refl) in
          Returns-recover (Done env raw) (give_up env event n) (next x) (done x inserted)
            λ exc ended. give_up-Done env raw event n exc (next x).1 (keeps x inserted)
      after_insert context (raised exc, (n, s)) same found in_table =
          give_up-Done env raw event n exc (context, s) same

      persist-Done :
          (x : WorkerContext × State W)
          → x.0.raw_event ≡ raw
          → x.0.event ≡ some event
          → Returns (Done env raw) (persist env (some event) next x)
      unfolding persist insert_with_retry
      persist-Done x same found =
          after_insert x.0 (with_retry env (insert env event) (0, x.1)) same found
            (insert_with_retry-IsInserted env event x.1)

      after_insert-KeepsRaw :
          (context : WorkerContext) (run : Outcome (Unit {0}) × (ℕ × State W))
          → context.raw_event ≡ raw
          → context.event ≡ some event
          → (run.0 ≡ ok tt → Any (IsInserted event) run.1.1.calls)
          → (recover
              (give_up env event run.1.0)
              (continue (λ _. next) (run.0, (context, run.1.1)))).1.0.raw_event
            ≡ raw
      after_insert-KeepsRaw context (ok _, (n, s)) same found in_table =
          let x : WorkerContext × State W = (context, s) in
          let inserted : Inserted x = (same, found, in_table refl) in
          recovered (next x) (keeps x inserted)
        where
          recovered :
              (out : Outcome (Unit {0}) × (WorkerContext × State W))
              → out.1.0.raw_event ≡ raw
              → (recover (give_up env event n) out).1.0.raw_event ≡ raw
          recovered (ok a, y) h = h
          recovered (raised e, y) h = give_up-KeepsRaw env raw event n e y h
      after_insert-KeepsRaw context (raised exc, (n, s)) same found in_table =
          give_up-KeepsRaw env raw event n exc (context, s) same

      persist-KeepsRaw :
          (x : WorkerContext × State W)
          → x.0.raw_event ≡ raw
          → x.0.event ≡ some event
          → (persist env (some event) next x).1.0.raw_event ≡ raw
      unfolding persist insert_with_retry
      persist-KeepsRaw x same found =
          after_insert-KeepsRaw x.0 (with_retry env (insert env event) (0, x.1)) same found
            (insert_with_retry-IsInserted env event x.1)

    abbrev pub rest : Action env
    rest = persistence_handler env (device_state_handler env (pure tt))

    pub persistence-Done :
        (x : WorkerContext × State W)
        → x.0.raw_event ≡ raw
        → x.0.event ≡ some event
        → Returns (Done env raw) (rest x)
    unfolding persistence_handler
    persistence-Done x same found =
        subst (λ o. Returns (Done env raw) (persist env o (device_state_handler env (pure tt)) x))
          (sym found)
          (persist-Done (device_state_handler env (pure tt)) device_state-KeepsRaw device_state-Done
            x same found)

    pub persistence-KeepsRaw :
        (x : WorkerContext × State W)
        → x.0.raw_event ≡ raw
        → x.0.event ≡ some event
        → (rest x).1.0.raw_event ≡ raw
    unfolding persistence_handler
    persistence-KeepsRaw x same found =
        subst (λ o. (persist env o (device_state_handler env (pure tt)) x).1.0.raw_event ≡ raw)
          (sym found)
          (persist-KeepsRaw (device_state_handler env (pure tt)) device_state-KeepsRaw
            device_state-Done x same found)
