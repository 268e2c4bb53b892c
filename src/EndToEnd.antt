-- ===== src/EndToEnd.antt =====
-- An event on its way: the record that apps/ingestion makes of it, as apps/worker stores it.
use iotflow_distributed_syst.Base.{◌≡◌, ap, true, Option, ℕ, Text}
use iotflow_distributed_syst.Exec.{ok}
use iotflow_distributed_syst.Python.{Dict, text}
use iotflow_distributed_syst.Shared.Models.{IoTEvent, parse_event}
use iotflow_distributed_syst.Shared.Models.Json.{is_json_dict}
use iotflow_distributed_syst.Shared.Models.RoundTrip.{
  DatetimeLaws, parse_event-to_kafka_dict, event_id_present,
}
use iotflow_distributed_syst.Ingestion.Services as Ingestion
use iotflow_distributed_syst.Ingestion.Handlers.{kafka_message}
use iotflow_distributed_syst.Worker.Config.{idempotency_ttl_seconds}
use iotflow_distributed_syst.Worker.Services.{Environment, State}
use iotflow_distributed_syst.Worker.Db.Tables.{has_partition}
use iotflow_distributed_syst.Worker.Db.Tables.Statements.{state_of, has_room}
use iotflow_distributed_syst.Worker.Db.Tables.Connected.{Connected}
use iotflow_distributed_syst.Worker.Idempotency.{key}
use iotflow_distributed_syst.Worker.Processor.{process}
use iotflow_distributed_syst.Worker.Processor.Begins.{Begun}
use iotflow_distributed_syst.Worker.Processor.Rows.{HasProcessed, process-HasProcessed}

module _ {V W : Type 0} (ingestion : Ingestion.Environment V) (worker : Environment W)
    (same_runtime : ingestion.py ≡ worker.py) (laws : DatetimeLaws ingestion.py) where
  -- The record that Kafka gets for an event is one that the worker accepts as this event.
  received :
      (d : Dict) (event : IoTEvent) (trace_id : Text)
      → is_json_dict d ≡ true
      → parse_event ingestion.py d ≡ ok event
      → parse_event worker.py (kafka_message ingestion event trace_id).value ≡ ok event
  received d event trace_id json valid =
      rw⁻¹ same_runtime
        (parse_event-to_kafka_dict ingestion.py laws d event (text trace_id) json valid)

  -- An event that one service accepts, the other stores as it came. Let the model accept a dict of
  -- JSON as an event, and let the worker get the value of the record that `KafkaPublishHandler` makes
  -- for that event. When Redis says that the identifier is new, and PostgreSQL can be reached by this
  -- worker alone, at a time that lies in a partition, with a count of the device that is no BIGINT's
  -- last, then `process` returns, and leaves in the tables the event as it was accepted, its device,
  -- and the event as the state of the device.
  pub forwarded_event_in_tables :
      (tables : Connected worker) (d : Dict) (event : IoTEvent) (trace_id : Text)
      (partition offset : Option ℕ) (s : State W)
      → is_json_dict d ≡ true
      → parse_event ingestion.py d ≡ ok event
      → s.pool ≡ true
      → ((w : W)
          → Begun worker s w
          → (worker.redis_set_nx (key worker (text event.event_id)) idempotency_ttl_seconds w).0
            ≡ ok true)
      → ((w : W)
          → Begun worker s w
          → has_partition (
              tables.clock
                (worker.redis_set_nx
                  (key worker (text event.event_id))
                  idempotency_ttl_seconds
                  w).1)
            ≡ true)
      → has_room (state_of event.device_id (tables.tables s.world).states) ≡ true
      → let out =
          process worker (kafka_message ingestion event trace_id).value partition offset s in
        (out.0 ≡ ok tt)
        × ((now : ℕ) × HasProcessed event now (tables.tables s.world) (tables.tables out.1.world))
  forwarded_event_in_tables tables d event trace_id partition offset s json valid pool claims lies
        room =
      let (found, present) = event_id_present ingestion.py laws d event (text trace_id) valid in
      process-HasProcessed worker tables event (kafka_message ingestion event trace_id).value
        partition offset (key worker (text event.event_id)) s pool
        (received d event trace_id json valid) present (ap (key worker) found) claims lies room
