-- ===== src/Tests/Samples.antt =====
-- Concrete services and events for the tests. A world is a number that some services read.
use iotflow_distributed_syst.Base.{
  ℕ, ◌+◌, ◌-◌, ◌++◌, [], ◌∷◌, Bool, true, false, Option, none, some, Text, str, ltb, length,
  if◌then◌else◌,
}
use iotflow_distributed_syst.Exec.{ErrorClass, Exception, Outcome, ok, raised}
use iotflow_distributed_syst.Python.{text, object, number, Dict, empty, entry, Datetime, Runtime}
use iotflow_distributed_syst.Shared.Models.{IoTEvent}
use iotflow_distributed_syst.Worker.Services as WorkerServices
use iotflow_distributed_syst.Ingestion.Services as IngestionServices

-- A datetime is printed as one code point for its clock, and the `Z`.
abbrev pub datetime_stamp : Datetime → Text
datetime_stamp t = (t.clock + 1000) ∷ []

abbrev read_stamp : Text → Option Datetime
read_stamp [] = none
read_stamp (c ∷ s) = some (record { clock = c - 1000; offset = some 0 })

abbrev pub runtime : Runtime
runtime = record {
  fromisoformat = read_stamp;
  to_utc = λ clock offset. some (record { clock = clock - offset; offset = some 0 });
  isoformat = λ t. datetime_stamp t ++ str "Z";
  validation_message = λ d. str "invalid";
  repr = λ v. str "value";
  wording = λ c. str "error";
}

abbrev pub raw_event : Dict
raw_event = entry (str "event_id") (text (str "01arz3ndektsv4rrffq69g5fav")) (
    entry (str "device_id") (text (str "sensor-1")) (
      entry (str "event_type") (text (str "temperature")) (
        entry (str "timestamp") (text (2000 ∷ str "Z")) (
          entry (str "payload") (object (entry (str "celsius") (number (str "21") true) empty))
            empty))))

-- An event whose identifier is no ULID.
abbrev pub bad_event : Dict
bad_event = entry (str "event_id") (text (str "17")) empty

-- An event whose identifier is the number 17.
abbrev pub numbered_event : Dict
numbered_event = entry (str "event_id") (number (str "17") true) empty

abbrev pub postgres_down : Exception
postgres_down = record {
  class = ErrorClass.postgres_error;
  name = str "PostgresConnectionError";
  message = str "down";
}

abbrev pub kafka_down : Exception
kafka_down = record {
  class = ErrorClass.kafka_error;
  name = str "KafkaConnectionError";
  message = str "down";
}

-- The worker's services: the first two statements fail, and then all succeed.
abbrev answer_statement : ℕ → Outcome Text × ℕ
answer_statement w = if ltb w 2 then (raised postgres_down, w + 1) else (ok (str "INSERT 0 1"), w)

abbrev pub worker_services : WorkerServices.Environment ℕ
worker_services = record {
  py = runtime;
  redis_set_nx = λ key ttl w. (ok true, w);
  redis_pipeline = λ cs w. (ok [], w);
  redis_delete = λ key w. (ok tt, w);
  pool_execute = λ statement w. answer_statement w;
  send_and_wait = λ topic value key w. (raised kafka_down, w);
  sleep = λ delay w. (ok tt, w);
  uniform = λ width w. (width, w);
  uuid4 = λ w. (str "id", w);
  now = λ w. (str "now", w);
}

abbrev pub worker_start : WorkerServices.State ℕ
worker_start = record {
  world = 0;
  calls = [];
  pool = true;
  metrics = record {
    events_processed = λ l. 0;
    events_duplicate = 0;
    events_dlq = λ l. 0;
    retry_attempts = λ n. 0;
    db_errors = λ l. 0;
    active_tasks = 0;
  };
}

-- The ingestion service's: the world is the one counter of Redis.
abbrev pub ingestion_services : IngestionServices.Environment (Text → ℕ)
ingestion_services = record {
  py = runtime;
  redis_incr = λ key w.
      (w key + 1, λ k. if iotflow_distributed_syst.Base.text_eq k key then w k + 1 else w k);
  redis_expire = λ key seconds w. w;
  run_script = λ script w. let (result, w') = script w in (ok result, w');
  send_and_wait = λ message w. (ok tt, w);
  send = λ message w. (ok tt, w);
  flush = λ w. (ok tt, w);
  uuid4 = λ w. (str "id", w);
  producer_start = λ options w. (ok tt, w);
  producer_stop = λ w. (ok tt, w);
  redis_ping = λ w. (ok tt, w);
  redis_close = λ w. (ok tt, w);
  start_http_server = λ port w. (ok tt, w);
}

abbrev pub ingestion_start : IngestionServices.State (Text → ℕ)
ingestion_start = record {
  world = λ key. 98;
  calls = [];
  started = true;
  metrics = record {
    events_received = λ d l. 0;
    events_validated = 0;
    events_dropped = λ l. 0;
    kafka_produce_errors = λ l. 0;
  };
}

abbrev pub event : IoTEvent
event = record {
  event_id = str "01ARZ3NDEKTSV4RRFFQ69G5FAV";
  device_id = str "sensor-1";
  event_type = str "temperature";
  schema_version = str "1.0";
  timestamp = record { clock = 1000; offset = some 0 };
  payload = entry (str "celsius") (number (str "21") true) empty;
  metadata = empty;
}
