-- ===== src/Worker/Processor/Frame.antt =====
-- What `EventProcessor.process` of apps/worker/processor.py leaves as it was.
use iotflow_distributed_syst.Base.{ℕ, arith, Option}
use iotflow_distributed_syst.Exec.{pure}
use iotflow_distributed_syst.Exec.Keeps.{Keeps}
use iotflow_distributed_syst.Python.{Dict}
use iotflow_distributed_syst.Shared.Pipeline.{execute, ensure_trace_id}
use iotflow_distributed_syst.Worker.Services.{Environment, State, count}
use iotflow_distributed_syst.Worker.Frames.{Allows}
use iotflow_distributed_syst.Worker.Frames.Counters.{Kept, Kept-Allows}
use iotflow_distributed_syst.Worker.Frames.Handling.{
  Framed, then_next, ensure_trace_id-Framed, idempotency_handler-Framed, validation_handler-Framed,
  persistence_handler-Framed, device_state_handler-Framed, finished-Framed,
}
use iotflow_distributed_syst.Worker.Handlers.{idempotency_handler}
use iotflow_distributed_syst.Worker.Handlers.Settles.Claimed.{from_validation}
use iotflow_distributed_syst.Worker.Processor.{
  traced, context_of, processing_pipeline, run_pipeline, process, task_started,
}
use iotflow_distributed_syst.Worker.Processor.Accounts.{execute-pipeline}

module _ {W : Type 0} (env : Environment W) (R : State W → State W → Type 0)
    (allows : Allows env R) where
  from_validation-Framed : (raw : Dict) → Framed env R allows (from_validation env raw)
  from_validation-Framed raw = validation_handler-Framed env R allows _ (
      persistence_handler-Framed env R allows _
        (device_state_handler-Framed env R allows (pure tt) (finished-Framed env R allows)))

  execute-Framed :
      (raw : Dict) → Framed env R allows (execute (traced env) (processing_pipeline env))
  execute-Framed raw = rw (execute-pipeline env raw) (
      then_next env R allows (ensure_trace_id (traced env))
        (λ _. idempotency_handler env (from_validation env raw))
        (ensure_trace_id-Framed env R allows)
        (λ _. idempotency_handler-Framed env R allows _ (from_validation-Framed raw)))

  -- The pipeline keeps every frame condition that the calls of the services keep.
  pub run_pipeline-Keeps :
      (raw : Dict) (partition offset : Option ℕ) → Keeps R (run_pipeline env raw partition offset)
  unfolding run_pipeline
  run_pipeline-Keeps raw partition offset = record {
    at = λ s. (execute-Framed raw).at (context_of env.py raw partition offset, s);
  }

module _ {W : Type 0} (env : Environment W) where
  -- Whatever the services answer, and however `process` ends, it leaves the gauge of the running
  -- tasks and the pool as they were before the call, and no counter below what it was.
  pub process-Kept :
      (raw : Dict) (partition offset : Option ℕ) (s : State W)
      → Kept s (process env raw partition offset s).1
  unfolding process
  process-Kept raw partition offset s =
      let started = count task_started s in
      let inside =
        (run_pipeline-Keeps env Kept (Kept-Allows env) raw partition offset).at started in
      ground (arith, inside)
