-- ===== src/Ingestion/Handlers/Publishes.antt =====
-- What the handlers of apps/ingestion/handlers.py behind `LoggingHandler` publish, once a payload
-- has been parsed.
use iotflow_distributed_syst.Base.{◌≡◌, refl, true, some, Text, str}
use iotflow_distributed_syst.Exec.{ok, raised, Exception, is_validation_error, pure}
use iotflow_distributed_syst.Python.{Dict, Runtime, text, object, lookup}
use iotflow_distributed_syst.Shared.Models.{IoTEvent, parse_event}
use iotflow_distributed_syst.Shared.Models.Json.{dump_dict}
use iotflow_distributed_syst.Ingestion.Services.{Message, Environment, State, Call, count, dropped}
use iotflow_distributed_syst.Ingestion.Handlers.{
  IngestionContext, Action, validation_handler, rate_limit_handler, kafka_publish_handler,
  kafka_message, parse_payload, drop_invalid,
}

-- A record of the raw topic that carries this event and this trace id.
pub record IsRecordOf (py : Runtime) (event : IoTEvent) (trace_id : Text) (m : Message)
    : Type 0 where
  pub topic : m.topic ≡ str "iot.events.raw"
  pub key : m.key ≡ some event.device_id
  pub trace : lookup (str "_trace_id") m.value ≡ some (text trace_id)
  pub event_id : lookup (str "event_id") m.value ≡ some (text event.event_id)
  pub device_id : lookup (str "device_id") m.value ≡ some (text event.device_id)
  pub event_type : lookup (str "event_type") m.value ≡ some (text event.event_type)
  pub schema_version : lookup (str "schema_version") m.value ≡ some (text event.schema_version)
  pub timestamp : lookup (str "timestamp") m.value ≡ some (text (py.isoformat event.timestamp))
  pub payload : lookup (str "payload") m.value ≡ some (object (dump_dict py event.payload))
  pub metadata : lookup (str "metadata") m.value ≡ some (object (dump_dict py event.metadata))

module _ {W : Type 0} (env : Environment W) where
  abbrev pub from_validation : Action env
  from_validation =
      validation_handler env (rate_limit_handler env (kafka_publish_handler env (pure tt)))

  -- The call that publishes an event from this state.
  abbrev pub published : IoTEvent → Text → State W → Call
  published event trace_id s =
      Call.send_and_wait (kafka_message env event trace_id)
        (env.send_and_wait (kafka_message env event trace_id) s.world).0

  -- A payload that does not fit the model is counted and dropped, and nothing is called.
  pub invalid_payload_dropped :
      (d : Dict) (exc : Exception) (x : IngestionContext × State W)
      → x.0.raw_message.parsed_payload ≡ some d
      → parse_event env.py d ≡ raised exc
      → is_validation_error exc.class ≡ true
      → from_validation x ≡ (ok tt, (x.0, count (dropped (str "schema_error")) x.1))
  unfolding validation_handler parse_payload drop_invalid
  invalid_payload_dropped d exc x parsed invalid kind =
      rw (parsed, parse_payload, invalid, drop_invalid, kind) refl
