-- ===== src/Tests/IngestionRuns.antt =====
-- The theorems on the ingestion service (apps/ingestion) at concrete runs.
use iotflow_distributed_syst.Base.{
  ◌≡◌, refl, ℕ, Text, str, some, none, [], ◌∷◌, true, false, ◌*◌, ◌^◌, min, replicate, List, All,
}
use iotflow_distributed_syst.Ingestion.Config.{mqtt_reconnect_delay_min, mqtt_reconnect_delay_max}
use iotflow_distributed_syst.Exec.{ErrorClass, Exception, raised}
use iotflow_distributed_syst.Ingestion.Handlers.{RawMessage, IngestionContext}
use iotflow_distributed_syst.Ingestion.Service.{Service, put_message, dispatch_message}
use iotflow_distributed_syst.Ingestion.Service.Bounded.{arrives, dispatches, Reach, here, next}
use iotflow_distributed_syst.Ingestion.Service.Stalled.{IsStalled, Reach-IsStalled}
use iotflow_distributed_syst.Ingestion.Mqtt.{
  Session, refused, lost, ended, connect, reconnect, on_error, run_session, subscriber_loop,
  start_subscriber,
}
use iotflow_distributed_syst.Ingestion.Mqtt.Backoff.{
  InRange, wait_after_refusals, subscriber_loop-InRange,
}
use iotflow_distributed_syst.Ingestion.Mqtt.Gauge.{Ends, subscriber_loop-Ends}
use iotflow_distributed_syst.Ingestion.Service.Gauge as Gauge
use iotflow_distributed_syst.Ingestion.Service.Gauge.{Gauged, update_queue_gauge}
use iotflow_distributed_syst.Python.{Dict}
use iotflow_distributed_syst.Tests.Samples.{event, ingestion_services, ingestion_start}

abbrev message : RawMessage
message = record {
  topic = str "devices/sensor-1/events";
  payload = b'{' ∷ b'}' ∷ [];
  parsed_payload = none;
  message_trace_id = none;
}

abbrev context_with : Dict → IngestionContext
context_with payload = record {
  raw_message = record message { parsed_payload = some payload };
  trace_id = str "t1";
  device_id = str "sensor-1";
  event = none;
  processed = false;
}

abbrev service : Service (Text → ℕ)
service = record { queue = []; unfinished_tasks = 0; state = ingestion_start }

-- Two messages arrive, and one round of the dispatcher takes the first.
abbrev busy : Service (Text → ℕ)
busy = (dispatch_message ingestion_services (put_message message (put_message message service))).1

one_round : Reach ingestion_services service busy
one_round = next (next (next here (arrives message refl)) (arrives message refl)) (dispatches refl)

Reach-IsStalled_example : IsStalled ingestion_services service busy
Reach-IsStalled_example = Reach-IsStalled ingestion_services one_round

wait_after_refusals_example :
    let why = str "down" in
    let after_loss =
      (subscriber_loop
        (lost (message ∷ []) why ∷ replicate 2 (refused why))
        (start_subscriber service)).1 in
    let after_end =
      (subscriber_loop
        (ended (message ∷ []) ∷ replicate 2 (refused why))
        (start_subscriber service)).1 in
    ((subscriber_loop (refused why ∷ []) after_loss).1.slept
      ≡ min (mqtt_reconnect_delay_min * 2 ^ 3) mqtt_reconnect_delay_max ∷ after_loss.slept)
    × ((subscriber_loop (refused why ∷ []) after_end).1.slept
        ≡ min (mqtt_reconnect_delay_min * 2 ^ 2) mqtt_reconnect_delay_max ∷ after_end.slept)
wait_after_refusals_example =
    wait_after_refusals (start_subscriber service) (message ∷ []) (str "down") 2

abbrev task_cancelled : Exception
task_cancelled = record {
  class = ErrorClass.cancelled_error;
  name = str "CancelledError";
  message = [];
}

-- The task is cancelled in the sleep after a refused connection.
abbrev sessions : List Session
sessions =
    lost (message ∷ []) (str "down")
    ∷ record (refused (str "down")) { waited = raised task_cancelled }
    ∷ []

subscriber_loop-Ends_example : Ends sessions (subscriber_loop sessions (start_subscriber service))
subscriber_loop-Ends_example = subscriber_loop-Ends sessions (start_subscriber service)

cancelled_in_the_sleep :
    ((subscriber_loop sessions (start_subscriber service)).0 ≡ raised task_cancelled)
    × ((subscriber_loop sessions (start_subscriber service)).1.connected ≡ false)
unfolding subscriber_loop run_session connect on_error reconnect
cancelled_in_the_sleep = (refl, refl)

subscriber_loop-InRange_example :
    All InRange (subscriber_loop sessions (start_subscriber service)).1.slept
subscriber_loop-InRange_example = subscriber_loop-InRange sessions service

abbrev ungauged : Gauged (Text → ℕ)
ungauged = record { service = service; queue_size = 0; running = true }

abbrev arrived : Gauged (Text → ℕ)
arrived = record ungauged { service = put_message message service }

-- A message arrives, the updater goes round, and another message arrives.
abbrev one_seen : Gauge.Reach ingestion_services ungauged (update_queue_gauge arrived)
one_seen =
    Gauge.next arrived
      (Gauge.next ungauged Gauge.here
        (Gauge.works (put_message message service) (arrives message refl) refl))
      (Gauge.updates refl)
