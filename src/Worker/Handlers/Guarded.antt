-- ===== src/Worker/Handlers/Guarded.antt =====
-- What each answer of Redis makes `IdempotencyHandler` of apps/worker/handlers.py do.
use iotflow_distributed_syst.Base.{
  ◌∷◌, ◌≡◌, refl, Bool, true, false, str, if◌then◌else◌, Bool-cases, inl, inr,
}
use iotflow_distributed_syst.Exec.{Outcome, ok, raised, is_exception, continue, on_state}
use iotflow_distributed_syst.Python.{Value, get, is_truthy}
use iotflow_distributed_syst.Worker.Config.{idempotency_ttl_seconds}
use iotflow_distributed_syst.Worker.Services.{Environment, State, Call, perform, count}
use iotflow_distributed_syst.Worker.Idempotency.{key, is_new, duplicate_seen}
use iotflow_distributed_syst.Worker.Handlers.{WorkerContext, Action, claimed, idempotency_handler}

module _ {W : Type 0} (env : Environment W) (next : Action env) where
  -- The state after Redis was asked for the key of an identifier.
  abbrev pub asked : Value → State W → State W
  asked event_id s =
      let k = key env event_id in
      let (r, w) = env.redis_set_nx k idempotency_ttl_seconds s.world in
      record s { world = w; calls = Call.set_nx k r ∷ s.calls }

  -- A new event goes on, a duplicate is counted and ends here, a failure of Redis lets the event
  -- through, and a cancellation ends the task.
  abbrev pub guarded :
      Outcome Bool → WorkerContext × State W → Outcome (Unit {0}) × (WorkerContext × State W)
  guarded (ok true) x = next x
  guarded (ok false) (context, s) = (ok tt, (context, count duplicate_seen s))
  guarded (raised exc) x = if is_exception exc.class then next x else (raised exc, x)

  is_new-guarded :
      (context : WorkerContext) (event_id : Value) (s : State W) (r : Outcome Bool)
      → (env.redis_set_nx (key env event_id) idempotency_ttl_seconds s.world).0 ≡ r
      → continue (λ new. claimed env new next) (on_state (is_new env event_id) (context, s))
        ≡ guarded r (context, asked event_id s)
  unfolding is_new claimed perform
  is_new-guarded context event_id s (ok true) e = rw e refl
  is_new-guarded context event_id s (ok false) e = rw e refl
  is_new-guarded context event_id s (raised exc) e = elim (Bool-cases (is_exception exc.class)) [
    | inl caught ↦ rw (e, caught) refl
    | inr base ↦ rw (e, base) refl
  ]

  -- An event without an identifier goes to the next handler with nothing asked; for any other Redis
  -- is asked once, and its answer decides: True goes on, False counts a duplicate and makes no
  -- further call, an Exception lets the event through, and a cancellation is raised.
  pub idempotency_handler-eq-guarded :
      (x : WorkerContext × State W)
      → let event_id = get (str "event_id") x.0.raw_event in
        idempotency_handler env next x ≡ (
          if is_truthy event_id
          then guarded
              (env.redis_set_nx (key env event_id) idempotency_ttl_seconds x.1.world).0
              (x.0, asked event_id x.1)
          else next x)
  unfolding idempotency_handler
  idempotency_handler-eq-guarded x =
      elim (Bool-cases (is_truthy (get (str "event_id") x.0.raw_event))) [
        | inl there ↦ rw there (is_new-guarded x.0 (get (str "event_id") x.0.raw_event) x.1 _ refl)
        | inr missing ↦ rw missing refl
      ]
