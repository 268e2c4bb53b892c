-- ===== src/Worker/Processor.antt =====
-- apps/worker/processor.py: one event from Kafka through the pipeline.
pub mod Accounts
pub mod Raises
pub mod Frame
pub mod Begins
pub mod Stores
pub mod Rows
pub mod Rejects
use iotflow_distributed_syst.Base.{ℕ, ◌+◌, ◌-◌, Bool, false, Option, none, Text, str}
use iotflow_distributed_syst.Exec.{Exec, Outcome, pure, modify, ◌>>=◌, ◌>>◌, on_state, try_finally}
use iotflow_distributed_syst.Python.{Dict, Value, text, get_or, is_truthy, Runtime, to_text}
use iotflow_distributed_syst.Shared.Pipeline.{
  HasTraceId, Pipeline, new_pipeline, use_handler, execute,
}
use iotflow_distributed_syst.Worker.Services.{Environment, State, Metrics, draw, count}
use iotflow_distributed_syst.Worker.Handlers.{
  WorkerContext, idempotency_handler, validation_handler, persistence_handler, device_state_handler,
}

abbrev pub task_started : Metrics → Metrics
task_started m = record m { active_tasks = m.active_tasks + 1 }

abbrev pub task_ended : Metrics → Metrics
task_ended m = record m { active_tasks = m.active_tasks - 1 }

abbrev pub forget_context :
    {W : Type 0} → Outcome (Unit {0}) × (WorkerContext × State W) → Outcome (Unit {0}) × State W
forget_context (r, (context, s)) = (r, s)

-- `raw_event.get("_trace_id", "")`. The attribute is read for its truth value and for log lines
-- alone, so that a value that is no text is held as the text that `str` gives, if it is true.
abbrev trace_text : Runtime → Value → Text
trace_text py v = elim (is_truthy v) [ Bool.true ↦ to_text py v | Bool.false ↦ str "" ]

abbrev pub context_of : Runtime → Dict → Option ℕ → Option ℕ → WorkerContext
context_of py raw_event partition offset = record {
  raw_event = raw_event;
  trace_id = trace_text py (get_or (str "_trace_id") (text (str "")) raw_event);
  kafka_partition = partition;
  kafka_offset = offset;
  event = none;
  processed = false;
}

module _ {W : Type 0} (env : Environment W) where
  abbrev pub traced : HasTraceId (WorkerContext × State W)
  traced = record {
    trace_id = λ s. s.0.trace_id;
    set_trace_id = λ t s. (record (s.0) { trace_id = t }, s.1);
    uuid4 = on_state (draw env.uuid4);
  }

  -- `EventProcessor.__init__`
  unfoldable pub processing_pipeline : Pipeline (WorkerContext × State W)
  processing_pipeline =
      use_handler
        (use_handler
          (use_handler (use_handler new_pipeline (idempotency_handler env))
            (validation_handler env))
          (persistence_handler env))
        (device_state_handler env)

  -- `self._pipeline.execute(context)`
  unfoldable pub run_pipeline : Dict → Option ℕ → Option ℕ → Exec (State W) (Unit {0})
  unfolding processing_pipeline
  run_pipeline raw_event partition offset s =
      forget_context
        (execute traced processing_pipeline (context_of env.py raw_event partition offset, s))

  -- `EventProcessor.process`
  unfoldable pub process : Dict → Option ℕ → Option ℕ → Exec (State W) (Unit {0})
  process raw_event kafka_partition kafka_offset = do
    modify (count task_started)
    try_finally (run_pipeline raw_event kafka_partition kafka_offset) (count task_ended)
