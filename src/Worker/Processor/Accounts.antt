-- ===== src/Worker/Processor/Accounts.antt =====
-- `EventProcessor.process` of apps/worker/processor.py loses no event that it returns from.
use mathlib.Core.Path.{subst}
use iotflow_distributed_syst.Base.{ℕ, ◌≡◌, refl, Option, [], ◌∷◌, ◌∙◌, arith, ap}
use iotflow_distributed_syst.Exec.{ok, ◌>>◌}
use iotflow_distributed_syst.Exec.Rules.{Returns, Returns-continue}
use iotflow_distributed_syst.Python.{Dict}
use iotflow_distributed_syst.Shared.Pipeline.{execute, ensure_trace_id}
use iotflow_distributed_syst.Shared.Pipeline.Chain.{execute-eq-chain}
use iotflow_distributed_syst.Worker.Services.{Environment, State, draw, count}
use iotflow_distributed_syst.Worker.Handlers.{
  WorkerContext, idempotency_handler, validation_handler, persistence_handler, device_state_handler,
}
use iotflow_distributed_syst.Worker.Handlers.Settles.{Accounted, Done}
use iotflow_distributed_syst.Worker.Handlers.Settles.Claimed.{from_validation, idempotency-Done}
use iotflow_distributed_syst.Worker.Processor.{
  traced, context_of, processing_pipeline, run_pipeline, process, task_started,
}

module _ {W : Type 0} (env : Environment W) where
  -- `_pipeline.execute` as the nesting of the four handlers.
  pub execute-pipeline :
      (raw : Dict)
      → execute (traced env) (processing_pipeline env)
        ≡ (ensure_trace_id (traced env) >> idempotency_handler env (from_validation env raw))
  unfolding processing_pipeline
  execute-pipeline raw =
      (execute-eq-chain (traced env) (idempotency_handler env)
        (validation_handler env ∷ persistence_handler env ∷ device_state_handler env ∷ [])).0

  pub ensure_trace_id-raw_event :
      (x : WorkerContext × State W) → (ensure_trace_id (traced env) x).1.0.raw_event ≡ x.0.raw_event
  unfolding ensure_trace_id draw
  ensure_trace_id-raw_event x = ground arith

  handled-Accounted :
      (raw : Dict) (x : WorkerContext × State W)
      → x.0.raw_event ≡ raw
      → Returns (Done env raw) (execute (traced env) (processing_pipeline env) x)
  handled-Accounted raw x same = rw (execute-pipeline raw) (
      Returns-continue (Done env raw) (λ _. idempotency_handler env (from_validation env raw))
        (ensure_trace_id (traced env) x)
        λ _ traced_now.
          idempotency-Done env raw (ensure_trace_id (traced env) x).1
            (ensure_trace_id-raw_event x ∙ same))

  run_pipeline-Accounted :
      (raw : Dict) (partition offset : Option ℕ) (s : State W)
      → Returns (λ _ t. Accounted env raw t.calls) (run_pipeline env raw partition offset s)
  unfolding run_pipeline
  run_pipeline-Accounted raw partition offset s = record {
    post = (handled-Accounted raw (context_of env.py raw partition offset, s) refl).post;
  }

  -- No event is lost between the consumer and the commit, whatever the services answer: when
  -- `process` returns, then during this call Redis refused the event as a duplicate, or the event
  -- was handed to the DLQ topic, however that send ended, or it is valid and its INSERT into
  -- `events` was executed, whether it added a row or found one there. (The trace starts empty, so these are calls of this run.)
  pub process-Accounted :
      (raw : Dict) (partition offset : Option ℕ) (s t : State W)
      → process env raw partition offset (record s { calls = [] }) ≡ (ok tt, t)
      → Accounted env raw t.calls
  unfolding process
  process-Accounted raw partition offset s t h =
      let start : State W = count task_started (record s { calls = [] }) in
      let done = (run_pipeline-Accounted raw partition offset start).post tt (ap (λ y. y.0) h) in
      subst (λ (u : State W). Accounted env raw u.calls) (ap (λ y. y.1) h) done
