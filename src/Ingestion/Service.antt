-- ===== src/Ingestion/Service.antt =====
-- apps/ingestion/main.py: the bounded queue, the dispatcher and the pipeline.
pub mod Stalled
pub mod Drained
pub mod Bounded
pub mod Gauge
use iotflow_distributed_syst.Base.{
  ℕ, ◌+◌, ◌-◌, Bool, true, false, List, [], ◌∷◌, ◌++◌, Option, none, some, Text, str, length, ltb,
  if◌then◌else◌,
}
use iotflow_distributed_syst.Exec.{
  ErrorClass, Exception, is_exception, Outcome, ok, raised, Exec, on_state,
}
use iotflow_distributed_syst.Shared.Pipeline.{
  HasTraceId, Pipeline, new_pipeline, use_handler, execute,
}
use iotflow_distributed_syst.Ingestion.Services.{Environment, State, draw, count, dropped}
use iotflow_distributed_syst.Ingestion.Handlers.{
  RawMessage, IngestionContext, logging_handler, validation_handler, rate_limit_handler,
  kafka_publish_handler,
}

-- `asyncio.Queue(maxsize=10_000)`
abbrev pub queue_maxsize : ℕ
queue_maxsize = 10000

-- `_MSG_QUEUE`, the oldest message first, with its count of unfinished tasks; and the rest.
pub record Service (W : Type 0) : Type 0 where
  pub queue : List RawMessage
  pub unfinished_tasks : ℕ
  pub state : State W

module _ {W : Type 0} where
  -- `_MSG_QUEUE.put_nowait(msg)` with its `except asyncio.QueueFull` block.
  unfoldable pub put_message : RawMessage → Service W → Service W
  put_message msg s =
      if ltb (length s.queue) queue_maxsize
      then record s { queue = s.queue ++ msg ∷ []; unfinished_tasks = s.unfinished_tasks + 1 }
      else record s { state = count (dropped (str "queue_full")) s.state }

  -- `_MSG_QUEUE.task_done()`, which follows a `get`, so that the count is not 0.
  abbrev pub task_done : Service W → Service W
  task_done s = record s { unfinished_tasks = s.unfinished_tasks - 1 }

  abbrev forget_context :
      Outcome (Unit {0}) × (IngestionContext × State W) → Outcome (Unit {0}) × State W
  forget_context (r, (context, s)) = (r, s)

abbrev pub new_context : RawMessage → IngestionContext
new_context msg = record {
  raw_message = msg;
  trace_id = str "";
  device_id = str "unknown";
  event = none;
  processed = false;
}

-- Whether the dispatcher goes on after a message.
pub data Dispatcher : Type 0 where
  waiting : Dispatcher
  looping : Dispatcher
  cancelled : Dispatcher

module _ {W : Type 0} (env : Environment W) where
  abbrev pub traced : HasTraceId (IngestionContext × State W)
  traced = record {
    trace_id = λ x. x.0.trace_id;
    set_trace_id = λ t x. (record (x.0) { trace_id = t }, x.1);
    uuid4 = on_state (draw env.uuid4);
  }

  -- The pipeline that `lifespan` builds.
  unfoldable pub ingestion_pipeline : Pipeline (IngestionContext × State W)
  ingestion_pipeline =
      use_handler
        (use_handler
          (use_handler (use_handler new_pipeline (logging_handler env)) (validation_handler env))
          (rate_limit_handler env))
        (kafka_publish_handler env)

  -- `_process_mqtt_message`
  unfoldable pub process_mqtt_message : RawMessage → Exec (State W) (Unit {0})
  process_mqtt_message msg s =
      forget_context (execute traced ingestion_pipeline (new_context msg, s))

  -- What follows `await _process_mqtt_message(...)` in one round of `_message_dispatcher`.
  abbrev after_message : Service W → Outcome (Unit {0}) × State W → Dispatcher × Service W
  after_message s (ok _, t) = (looping, task_done (record s { state = t }))
  after_message s (raised exc, t) =
      (if is_exception exc.class then looping else cancelled, record s { state = t })

  -- One round of `_message_dispatcher`; with an empty queue `get` waits.
  dispatch_from : List RawMessage → Service W → Dispatcher × Service W
  dispatch_from [] s = (waiting, s)
  dispatch_from (msg ∷ rest) s =
      after_message (record s { queue = rest }) (process_mqtt_message msg s.state)

  unfoldable pub dispatch_message : Service W → Dispatcher × Service W
  unfolding dispatch_from
  dispatch_message s = dispatch_from s.queue s
