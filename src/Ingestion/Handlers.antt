-- ===== src/Ingestion/Handlers.antt =====
-- apps/ingestion/handlers.py: the four handlers of the ingestion pipeline.
pub mod Publishes
use iotflow_distributed_syst.Base.{
  ℕ, ◌+◌, Bool, true, false, List, [], ◌∷◌, Option, none, some, Text, str, ◌==◌, if◌then◌else◌,
}
use iotflow_distributed_syst.Exec.{
  ErrorClass, Exception, is_exception, is_validation_error, Exec, pure, raise, gets, modify, ◌>>=◌,
  ◌>>◌, try_except, except_exception, on_state, Outcome,
}
use iotflow_distributed_syst.Python.{Value, Dict, text, get_or, insert, to_text, interpreter_error}
use iotflow_distributed_syst.Shared.Models.{IoTEvent, parse_event, to_kafka_dict}
use iotflow_distributed_syst.Shared.Pipeline.{Handler}
use iotflow_distributed_syst.Ingestion.Config.{kafka_topic_raw}
use iotflow_distributed_syst.Ingestion.Services.{
  Environment, State, Metrics, Message, count, inc, dropped,
}
use iotflow_distributed_syst.Ingestion.RateLimiter.{is_allowed}
use iotflow_distributed_syst.Ingestion.Producer.{produce}

-- The dict that the subscriber puts into the queue, and the two keys that `LoggingHandler` adds.
-- `received_at` is read by nothing.
pub record RawMessage : Type 0 where
  pub topic : Text
  pub payload : List ℕ
  pub parsed_payload : Option Dict
  pub message_trace_id : Option Text

-- `errors` is used by nothing.
pub record IngestionContext : Type 0 where
  pub raw_message : RawMessage
  pub trace_id : Text
  pub device_id : Text
  pub event : Option IoTEvent
  pub processed : Bool

-- `topic.split("/")` from its second part on: `part` is the part that is being read.
abbrev pub first_part : Text → Text
first_part [] = []
first_part (c ∷ s) = let more = first_part s in if c == b'/' then [] else c ∷ more

-- `parts[1] if len(parts) >= 2 else "unknown"`
unfoldable pub device_of : Text → Text
device_of [] = str "unknown"
device_of (c ∷ s) = let more = device_of s in if c == b'/' then first_part s else more

module _ {W : Type 0} where
  abbrev set_device_id : Text → IngestionContext × State W → IngestionContext × State W
  set_device_id device_id (context, s) = (record context { device_id = device_id }, s)

  abbrev set_parsed : Dict → IngestionContext × State W → IngestionContext × State W
  set_parsed payload (context, s) = (
    record context {
      raw_message = record (context.raw_message) {
        parsed_payload = some payload;
        message_trace_id = some context.trace_id;
      };
    },
    s,
  )

  abbrev pub set_event : IoTEvent → IngestionContext × State W → IngestionContext × State W
  set_event event (context, s) = (record context { event = some event }, s)

  abbrev set_processed : IngestionContext × State W → IngestionContext × State W
  set_processed (context, s) = (record context { processed = true }, s)

abbrev received : Text → Text → Metrics → Metrics
received device_id event_type m = record m {
  events_received = λ d.
      if iotflow_distributed_syst.Base.text_eq d device_id
      then inc event_type (m.events_received d)
      else m.events_received d;
}

abbrev validated : Metrics → Metrics
validated m = record m { events_validated = m.events_validated + 1 }

abbrev pub lift : {S A : Type 0} → Outcome A → Exec S A
lift r s = (r, s)

-- `name 'raw_payload' is not defined`
abbrev pub name_error : Exception
name_error = record {
  class = ErrorClass.name_error;
  name = str "NameError";
  message = str "name 'raw_payload' is not defined";
}

module _ {W : Type 0} (env : Environment W) where
  abbrev pub Action : Type 0
  Action = Exec (IngestionContext × State W) (Unit {0})

  -- The name `raw_payload` that `LoggingHandler` reads: it is no local of the method, no global of
  -- the module and no builtin.
  unfoldable pub raw_payload : Exec (IngestionContext × State W) Dict
  raw_payload = raise name_error

  unfoldable pub logging_handler : Handler (IngestionContext × State W)
  unfolding raw_payload
  logging_handler next_call = do
    context ← gets (λ x. x.0)
    modify (set_device_id (device_of context.raw_message.topic))
    payload ← raw_payload
    let event_type = get_or (str "event_type") (text (str "unknown")) payload
    on_state (
        modify (count (received (device_of context.raw_message.topic) (to_text env.py event_type))))
    modify (set_parsed payload)
    next_call

  -- `IoTEvent(**raw_payload)`, a TypeError where there is no payload.
  unfoldable pub parse_payload : Option Dict → Exec (IngestionContext × State W) IoTEvent
  parse_payload none = raise (interpreter_error env.py ErrorClass.type_error (str "TypeError"))
  parse_payload (some payload) = lift (parse_event env.py payload)

  unfoldable pub drop_invalid : Exception → Action
  drop_invalid exc =
      if is_validation_error exc.class
      then on_state (modify (count (dropped (str "schema_error"))))
      else raise exc

  unfoldable pub validation_handler : Handler (IngestionContext × State W)
  unfolding parse_payload drop_invalid
  validation_handler next_call = do
    context ← gets (λ x. x.0)
    try_except
        (do
          event ← parse_payload context.raw_message.parsed_payload
          modify (set_event event)
          next_call)
        drop_invalid

  unfoldable pub let_through : Bool → Action → Action
  let_through true next_call = next_call
  let_through false next_call = on_state (modify (count (dropped (str "rate_limited"))))

  unfoldable pub rate_limit_handler : Handler (IngestionContext × State W)
  unfolding let_through
  rate_limit_handler next_call = do
    context ← gets (λ x. x.0)
    allowed ← on_state (is_allowed env context.device_id)
    let_through allowed next_call

  -- The record that is published for an event: its dict with the trace id, keyed by its device.
  abbrev pub kafka_message : IoTEvent → Text → Message
  kafka_message event trace_id = record {
    topic = kafka_topic_raw;
    value = insert (str "_trace_id") (text trace_id) (to_kafka_dict env.py event);
    key = some event.device_id;
  }

  unfoldable pub publish : Option IoTEvent → Text → Action → Action
  publish none trace_id next_call = pure tt
  publish (some event) trace_id next_call =
      try_except
        (do
          on_state (produce env (kafka_message event trace_id))
          on_state (modify (count validated))
          modify set_processed
          next_call)
        (except_exception λ exc. on_state (modify (count (dropped (str "kafka_error")))))

  unfoldable pub kafka_publish_handler : Handler (IngestionContext × State W)
  unfolding publish
  kafka_publish_handler next_call = do
    context ← gets (λ x. x.0)
    publish context.event context.trace_id next_call
