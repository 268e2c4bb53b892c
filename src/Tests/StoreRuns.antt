-- ===== src/Tests/StoreRuns.antt =====
-- The theorems on an event that is stored, and on the guard, at concrete runs.
use iotflow_distributed_syst.Base.{◌≡◌, refl, true, false, some, [], ◌∷◌, List, Text, str, ℕ}
use iotflow_distributed_syst.Exec.{ok, ErrorClass, Exception}
use iotflow_distributed_syst.Python.{text, lookup, get}
use iotflow_distributed_syst.Shared.Models.{
  validation_error, parse_event, ensure_utc, check_fields, validate_ulid, all_match,
  matches_ulid_class, replace_z, upper, upper_code,
}
use iotflow_distributed_syst.Worker.Services.{DlqEnvelope, Environment, Statement, Call}
use iotflow_distributed_syst.Worker.Db.Answered.{tag_of, upsert}
use iotflow_distributed_syst.Worker.Idempotency.{key}
use iotflow_distributed_syst.Worker.Idempotency.Ledger.{Request, serve_all, promise_all}
use iotflow_distributed_syst.Worker.Idempotency.Ledger.Refines.{view, serve_all_refines}
use iotflow_distributed_syst.Worker.Handlers.{event_processed}
use iotflow_distributed_syst.Worker.Frames.Counters.{Kept}
use iotflow_distributed_syst.Worker.Processor.{process}
use iotflow_distributed_syst.Worker.Processor.Frame.{process-Kept}
use iotflow_distributed_syst.Worker.Processor.Begins.{Begun}
use iotflow_distributed_syst.Worker.Processor.Stores.{Answers, stored, process_stores}
use iotflow_distributed_syst.Worker.Config.{kafka_topic_dlq}
use iotflow_distributed_syst.Worker.Dlq.{dead_lettered}
use iotflow_distributed_syst.Worker.Processor.Rejects.{
  TakesFailures, dlq_row, rejection, process_rejects,
}
use iotflow_distributed_syst.Tests.Samples.{
  bad_event, raw_event, event, worker_services, worker_start,
}
use iotflow_distributed_syst.Tests.ClaimRuns.{key_services, key_laws, no_keys}

-- The run in which two inserts fail.
process-Kept_example :
    Kept worker_start (process worker_services raw_event (some 3) (some 7) worker_start).1
process-Kept_example = process-Kept worker_services raw_event (some 3) (some 7) worker_start

-- The worker's services when all is well.
abbrev calm_services : Environment ℕ
calm_services = record worker_services { pool_execute = λ statement w. (ok (str "INSERT 0 1"), w) }

-- As the raw event has it.
abbrev raw_key : Text
raw_key = key calm_services (text (str "01arz3ndektsv4rrffq69g5fav"))

calm-Answers : (w : ℕ) → Answers calm_services event w
calm-Answers w = record {
  there_already = false;
  device_tag = str "INSERT 0 1";
  state_tag = str "INSERT 0 1";
  inserts = refl;
  devices = refl;
  states = refl;
}

process_stores_example :
    (w : ℕ) × (Begun calm_services worker_start w)
    × (let out = process calm_services raw_event (some 3) (some 7) worker_start in
        (a : Answers calm_services event w) × ((out.0 ≡ ok tt)
          × (out.1.calls
              ≡ Call.execute (upsert calm_services event) (ok a.state_tag)
                ∷ Call.execute (Statement.insert_device (str "sensor-1")) (ok a.device_tag)
                ∷ Call.execute (Statement.insert_event event) (ok (tag_of a.there_already))
                ∷ Call.set_nx raw_key (ok true)
                ∷ [])
          × (out.1.metrics ≡ event_processed (str "temperature") worker_start.metrics)
          × (out.1.world ≡ stored calm_services event w)))
unfolding parse_event ensure_utc check_fields validate_ulid all_match matches_ulid_class upper
    upper_code lookup replace_z get
process_stores_example =
    process_stores calm_services event raw_event (some 3) (some 7) raw_key worker_start refl refl
      refl refl (λ w begun. refl) (λ w begun. calm-Answers w)

-- Of an event whose identifier is no ULID.
abbrev taking_services : Environment ℕ
taking_services = record calm_services { send_and_wait = λ topic value key w. (ok tt, w) }

takes_failures : TakesFailures taking_services (str "INSERT 0 1")
takes_failures = record { sends = λ topic value k w. refl; records = λ st w. refl }

abbrev rejected : Exception
rejected = record {
  class = ErrorClass.validation_error;
  name = str "ValidationError";
  message = str "invalid";
}

process_rejects_example :
    let out = process taking_services bad_event (some 3) (some 7) worker_start in
    (out.0 ≡ ok tt)
    × ((value : DlqEnvelope) × (value.original_event ≡ bad_event)
        × (value.error_type ≡ str "VALIDATION_ERROR")
        × (value.retry_count ≡ 0)
        × (out.1.calls
            ≡ Call.execute
                (dlq_row taking_services
                  (rejection taking_services bad_event rejected (some 3) (some 7))
                  (text (str "17")))
                (ok (str "INSERT 0 1"))
              ∷ Call.dlq_send kafka_topic_dlq value (str "17") (ok tt)
              ∷ Call.set_nx (key taking_services (text (str "17"))) (ok true)
              ∷ []))
    × (out.1.metrics ≡ dead_lettered (str "VALIDATION_ERROR") worker_start.metrics)
unfolding lookup parse_event ensure_utc validation_error
process_rejects_example =
    process_rejects taking_services (str "INSERT 0 1") takes_failures bad_event b'1' (str "7")
      rejected (some 3) (some 7) worker_start refl refl refl refl refl (λ w begun. refl)

-- A claim, a batch with the same identifier in it, a release and a claim again.
abbrev requests : List Request
requests =
    Request.ask (text (str "e1"))
    ∷ Request.ask_batch (text (str "e2") ∷ text (str "e1") ∷ [])
    ∷ Request.give_back (text (str "e1"))
    ∷ Request.ask (text (str "e1"))
    ∷ []

serve_all_refines_example :
    ((serve_all key_services requests no_keys).0
      ≡ ok (promise_all key_services requests (view key_services key_laws no_keys)).0)
    × (view key_services key_laws (serve_all key_services requests no_keys).1
        ≡ (promise_all key_services requests (view key_services key_laws no_keys)).1)
serve_all_refines_example = serve_all_refines key_services key_laws (λ k w. refl) requests no_keys
