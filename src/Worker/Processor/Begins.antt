-- ===== src/Worker/Processor/Begins.antt =====
-- What `EventProcessor.process` of apps/worker/processor.py does before the validation of an event
-- that Redis finds new.
use iotflow_distributed_syst.Base.{
  ap, arith, Bool-cases, ◌⊎◌, inl, inr, ◌≡◌, refl, ℕ, true, Option, Text, str,
}
use iotflow_distributed_syst.Exec.{ok, Outcome}
use iotflow_distributed_syst.Exec.Runs.{Runs, Runs-on_state}
use iotflow_distributed_syst.Python.{Dict, Value, get, is_truthy, is_empty_text}
use iotflow_distributed_syst.Shared.Pipeline.{ensure_trace_id}
use iotflow_distributed_syst.Worker.Config.{idempotency_ttl_seconds}
use iotflow_distributed_syst.Worker.Services.{
  Metrics, Environment, State, Call, perform, draw, count,
}
use iotflow_distributed_syst.Worker.Idempotency.{key, is_new}
use iotflow_distributed_syst.Worker.Handlers.{WorkerContext, idempotency_handler, claimed}
use iotflow_distributed_syst.Worker.Handlers.Settles.Claimed.{from_validation}
use iotflow_distributed_syst.Worker.Processor.{
  traced, context_of, run_pipeline, process, task_started, task_ended,
}
use iotflow_distributed_syst.Worker.Processor.Accounts.{execute-pipeline}
use iotflow_distributed_syst.Worker.Db.Answered.{noted}

-- The task that started has ended.
pub task_back : (m : Metrics) → task_ended (task_started m) ≡ m
task_back m = ap (λ n. record m { active_tasks = n }) (omega arith)

module _ {W : Type 0} (env : Environment W) where
  abbrev pub claimed_state : Text → State W → State W
  claimed_state k s =
      noted env (Call.set_nx k (ok true)) (env.redis_set_nx k idempotency_ttl_seconds s.world).1 s

  is_new-Runs :
      (event_id : Value) (k : Text) (s : State W)
      → key env event_id ≡ k
      → (env.redis_set_nx k idempotency_ttl_seconds s.world).0 ≡ ok true
      → Runs (is_new env event_id) s true (claimed_state k s)
  unfolding is_new perform
  is_new-Runs event_id k s same new = record { ends = rw (same, new) refl }

  -- The worlds from which the pipeline may send its first call: it may draw a trace id before.
  abbrev pub Begun : State W → W → Type 0
  Begun s w = (w ≡ s.world) ⊎ (w ≡ (env.uuid4 s.world).1)

  -- The trace id changes neither calls nor counters.
  ensure_trace_id-Runs :
      (c : WorkerContext) (s : State W)
      → (trace_id : Text) × (w : W) × (Begun s w)
        × Runs
            (ensure_trace_id (traced env))
            (c, s)
            tt
            (record c { trace_id = trace_id }, record s { world = w })
  unfolding ensure_trace_id draw
  ensure_trace_id-Runs c s = elim (Bool-cases (is_empty_text c.trace_id)) [
    | inl e ↦ ((env.uuid4 s.world).0, (env.uuid4 s.world).1, inr refl, record { ends = rw e refl })
    | inr e ↦ (c.trace_id, s.world, inl refl, record { ends = rw e refl })
  ]

  -- How a run of the handlers behind the guard ends `process`.
  abbrev pub ended : Outcome (Unit {0}) × (WorkerContext × State W) → Outcome (Unit {0}) × State W
  ended out = (out.0, count task_ended out.1.1)

  -- Of an event that Redis finds new, `process` is the handlers behind the guard, on a context with
  -- some trace id.
  pub process-from_validation :
      (raw : Dict) (partition offset : Option ℕ) (k : Text) (s : State W)
      → is_truthy (get (str "event_id") raw) ≡ true
      → key env (get (str "event_id") raw) ≡ k
      → ((w : W) → Begun s w → (env.redis_set_nx k idempotency_ttl_seconds w).0 ≡ ok true)
      → (trace_id : Text) × (w : W) × (Begun s w)
        × (process env raw partition offset s
            ≡ ended (
                from_validation env raw (
                  record (context_of env.py raw partition offset) { trace_id = trace_id },
                  claimed_state k (record s { world = w; metrics = task_started s.metrics }),
                )))
  unfolding process run_pipeline idempotency_handler claimed
  process-from_validation raw partition offset k s present same new =
      let c = context_of env.py raw partition offset in
      let (trace_id, w, begun, named) = ensure_trace_id-Runs c (count task_started s) in
      let t = record s { world = w; metrics = task_started s.metrics } in
      let x = record c { trace_id = trace_id } in
      let event_id = get (str "event_id") raw in
      let claim =
        Runs-on_state (is_new env event_id) x (is_new-Runs event_id k t same (new w begun)) in
      (trace_id, w, begun, rw (execute-pipeline env raw, named.ends, present, claim.ends) refl)
