-- ===== src/Ingestion/Service/Stalled.antt =====
-- `LoggingHandler` of apps/ingestion/handlers.py reads a name that is not there, so the dispatcher
-- of apps/ingestion/main.py publishes nothing.
use iotflow_distributed_syst.Base.{
  ◌+◌, ◌≤◌, length, length-append, ap, ◌≡◌, refl, [], ◌∷◌, arith, List,
}
use iotflow_distributed_syst.Ingestion.Service.Bounded.{
  Step, arrives, dispatches, Reach, here, next,
}
use iotflow_distributed_syst.Exec.{raised, ◌>>◌}
use iotflow_distributed_syst.Shared.Pipeline.{execute, ensure_trace_id}
use iotflow_distributed_syst.Shared.Pipeline.Chain.{chain, execute-eq-chain}
use iotflow_distributed_syst.Ingestion.Services.{Environment, State, draw}
use iotflow_distributed_syst.Ingestion.Handlers.{
  RawMessage, logging_handler, validation_handler, rate_limit_handler, kafka_publish_handler,
  name_error, Action,
}
use iotflow_distributed_syst.Ingestion.Service.{
  put_message, dispatch_from, dispatch_message, Service, traced, new_context, ingestion_pipeline,
  process_mqtt_message,
}

module _ {W : Type 0} (env : Environment W) where
  execute-pipeline : execute (traced env) (ingestion_pipeline env) ≡ (
      ensure_trace_id (traced env)
      >> chain (
          logging_handler env
          ∷ validation_handler env
          ∷ rate_limit_handler env
          ∷ kafka_publish_handler env
          ∷ []))
  unfolding ingestion_pipeline
  execute-pipeline =
      (execute-eq-chain (traced env) (logging_handler env)
        (validation_handler env ∷ rate_limit_handler env ∷ kafka_publish_handler env ∷ [])).0

  logged-raises :
      (next_call : Action env) (msg : RawMessage) (s : State W)
      → let out =
          (ensure_trace_id (traced env) >> logging_handler env next_call) (new_context msg, s) in
        (out.0 ≡ raised name_error) × (out.1.1.calls ≡ s.calls) × (out.1.1.metrics ≡ s.metrics)
  unfolding ensure_trace_id logging_handler draw
  logged-raises next_call msg s = (refl, refl, refl)

  -- Every MQTT message, valid or not, ends the pipeline in a NameError, before any service has been
  -- called and any counter moved.
  pub process_mqtt_message-raises :
      (msg : RawMessage) (s : State W)
      → let out = process_mqtt_message env msg s in
        (out.0 ≡ raised name_error) × (out.1.calls ≡ s.calls) × (out.1.metrics ≡ s.metrics)
  unfolding process_mqtt_message
  process_mqtt_message-raises msg s = rw execute-pipeline (logged-raises _ msg s)

  -- The service has called nothing, has validated nothing, and has called no `task_done`.
  pub record IsStalled (s t : Service W) : Type 0 where
    pub calls : t.state.calls ≡ s.state.calls
    pub validated : t.state.metrics.events_validated ≡ s.state.metrics.events_validated
    pub undone : s.unfinished_tasks + length t.queue ≤ t.unfinished_tasks + length s.queue
    pub growing : s.unfinished_tasks ≤ t.unfinished_tasks

  put_message-IsStalled : (msg : RawMessage) (s : Service W) → IsStalled s (put_message msg s)
  unfolding put_message
  put_message-IsStalled msg s = ground (arith, length-append s.queue (msg ∷ []))

  dispatch_from-IsStalled :
      (queue : List RawMessage) (s : Service W)
      → queue ≡ s.queue
      → IsStalled s (dispatch_from env queue s).1
  unfolding dispatch_from
  dispatch_from-IsStalled [] s e = ground arith
  dispatch_from-IsStalled (msg ∷ rest) s e =
      ground (arith, process_mqtt_message-raises msg s.state, ap length e)

  Step-IsStalled : {s t : Service W} → Step env s t → IsStalled s t
  unfolding dispatch_message
  Step-IsStalled {s} (arrives msg e) = rw e (put_message-IsStalled msg s)
  Step-IsStalled {s} (dispatches e) = rw e (dispatch_from-IsStalled s.queue s refl)

  -- In whatever order messages arrive and are dispatched, the service never calls Redis or Kafka,
  -- counts no validated event, and never lowers the count of unfinished tasks of its queue.
  pub Reach-IsStalled : {s t : Service W} → Reach env s t → IsStalled s t
  Reach-IsStalled here = ground arith
  Reach-IsStalled (next r step) = ground (arith, Reach-IsStalled r, Step-IsStalled step)
