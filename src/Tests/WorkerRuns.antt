-- ===== src/Tests/WorkerRuns.antt =====
-- The theorems on the worker (apps/worker) at concrete runs.
use iotflow_distributed_syst.Base.{
  Option, Text, str, ℕ, ◌≡◌, ◌≤◌, ◌<◌, ◌*◌, min, refl, none, some, true, false, Any, arith, ◌+◌, [],
  ◌∷◌, suc, length, ◌⊎◌, inl, inr,
}
use iotflow_distributed_syst.Exec.{ok, raised}
use iotflow_distributed_syst.Exec.Rules.{Returns}
use iotflow_distributed_syst.Tests.Samples.{
  runtime, numbered_event, worker_services, worker_start, raw_event, bad_event, event,
}
use iotflow_distributed_syst.Python.{text, get, get_or, lookup}
use iotflow_distributed_syst.Shared.Models.{
  parse_event, ensure_utc, check_fields, validate_ulid, all_match, matches_ulid_class, replace_z,
  upper, upper_code,
}
use iotflow_distributed_syst.Shared.Pipeline.{execute, dispatch, ensure_trace_id}
use iotflow_distributed_syst.Worker.Db.{get_pool, insert_event, rows_affected, upsert_device_state}
use iotflow_distributed_syst.Worker.Idempotency.{key, is_new}
use iotflow_distributed_syst.Worker.Retry.{
  backoff, base_delay, compute_delay, jitter_range, with_retry,
}
use iotflow_distributed_syst.Worker.Handlers.{
  claimed, idempotency_handler, validation_handler, insert, insert_with_retry, persist,
  persistence_handler, update_state, device_state_handler,
}
use iotflow_distributed_syst.Worker.Handlers.{WorkerContext}
use iotflow_distributed_syst.Worker.Handlers.Guarded.{
  asked, guarded, idempotency_handler-eq-guarded,
}
use iotflow_distributed_syst.Worker.Processor.{
  context_of, processing_pipeline, run_pipeline, process,
}
use iotflow_distributed_syst.Worker.Config.{max_concurrent_tasks}
use iotflow_distributed_syst.Worker.Retry.Attempts.{inserts, sleeps}
use iotflow_distributed_syst.Worker.Handlers.Persistence.{insert_with_retry_attempts}
use iotflow_distributed_syst.Worker.Consumer.{Delivery, Consumer, initial, start_task, end_task}
use iotflow_distributed_syst.Worker.Consumer.Tasks.{
  starts, ends, Reach, here, next, in_flight_bounded,
}
use iotflow_distributed_syst.Worker.Consumer.Commits.{later_commit_passes_earlier}
use iotflow_distributed_syst.Worker.Processor.Raises.{no_encode, process-raises}
use iotflow_distributed_syst.Worker.Processor.Accounts.{process-Accounted}
use iotflow_distributed_syst.Worker.Handlers.Settles.{Accounted}
use iotflow_distributed_syst.Worker.Services.Trace.{IsDeadLettered}
use iotflow_distributed_syst.Worker.Services.{State, perform, draw}
use iotflow_distributed_syst.Worker.Dlq.{Failure, send, envelope}
use iotflow_distributed_syst.Worker.Dlq.Conforms.{to_dict, event_of, parse_dlq_event-to_dict}
use iotflow_distributed_syst.Shared.Models.DlqEvent.{Reads, parse_dlq_event, to_kafka_dict}
use iotflow_distributed_syst.Worker.Dlq.Sends.{send-IsDeadLettered}

-- Two attempts fail and the third one inserts the event.
process-Accounted_example :
    Accounted worker_services raw_event
      (process worker_services raw_event (some 3) (some 7) worker_start).1.calls
unfolding process run_pipeline execute get_or draw idempotency_handler get is_new perform claimed
    validation_handler parse_event ensure_utc lookup check_fields validate_ulid persistence_handler
    persist all_match matches_ulid_class replace_z upper upper_code dispatch ensure_trace_id
    get_pool insert_event rows_affected upsert_device_state device_state_handler insert
    insert_with_retry update_state key processing_pipeline backoff base_delay compute_delay
    jitter_range with_retry
process-Accounted_example =
    process-Accounted worker_services raw_event (some 3) (some 7) worker_start
      (process worker_services raw_event (some 3) (some 7) worker_start).1 refl

abbrev lost_event : Failure
lost_event = record {
  original_event = raw_event;
  error_type = iotflow_distributed_syst.Base.str "DB_ERROR";
  error_message = iotflow_distributed_syst.Base.str "down";
  retry_count = 5;
  original_partition = some 3;
  original_offset = some 7;
}

send-IsDeadLettered_example :
    Returns {S = State ℕ}
      (λ _ t. Any (IsDeadLettered raw_event) t.calls)
      (send worker_services lost_event worker_start)
send-IsDeadLettered_example = send-IsDeadLettered worker_services lost_event worker_start

-- The third INSERT succeeds, after two waits.
insert_with_retry_attempts_example :
    let s = (insert_with_retry worker_services event worker_start).1 in
    (1 ≤ 3)
    × (3 ≤ 5)
    × (inserts s ≡ 0 + 3)
    × (false ≡ false → sleeps s + 1 ≡ 0 + 3)
    × (false ≡ true → ◌≡◌ {A = ℕ} 3 5)
unfolding insert_with_retry insert insert_event get_pool perform draw rows_affected with_retry
    backoff base_delay compute_delay jitter_range
insert_with_retry_attempts_example =
    insert_with_retry_attempts worker_services event (λ delay w e h. absurd (cc)) worker_start
      (insert_with_retry worker_services event worker_start).1 (ok tt) 3 refl refl

abbrev delivery : ℕ → Delivery
delivery n = record { event = raw_event; partition = 0; offset = n }

abbrev one_task : Consumer
one_task = record {
  permits = 49;
  tasks = delivery 7 ∷ [];
  committed = λ partition. 0;
  handled = [];
}

abbrev two_tasks : Consumer
two_tasks = record {
  permits = 48;
  tasks = delivery 7 ∷ delivery 8 ∷ [];
  committed = λ partition. 0;
  handled = [];
}

two_started : Reach initial two_tasks
unfolding start_task
two_started = next {d = one_task} (next here (starts (delivery 7) refl)) (starts (delivery 8) refl)

later_ended : Reach initial (end_task 1 (ok tt) (ok tt) two_tasks)
later_ended = next two_started (ends 1 (ok tt) (ok tt) refl)

in_flight_bounded_example :
    let c = end_task 1 (ok tt) (ok tt) two_tasks in
    (length c.tasks ≤ max_concurrent_tasks) × (c.permits + length c.tasks ≡ max_concurrent_tasks)
in_flight_bounded_example = in_flight_bounded (end_task 1 (ok tt) (ok tt) two_tasks) later_ended

later_commit_passes_earlier_example :
    let d = end_task 1 (ok tt) (ok tt) two_tasks in
    Any (λ x. x ≡ delivery 7) d.tasks
    × (d.committed 0 ≡ 9)
    × ((end_task 0 (ok tt) (ok tt) d).committed 0 ≡ 8)
unfolding end_task
later_commit_passes_earlier_example =
    later_commit_passes_earlier two_tasks (end_task 1 (ok tt) (ok tt) two_tasks) 1 0 0 (delivery 7)
      (delivery 8) (ok tt) (ok tt) (ok tt) (ok tt) refl refl refl (omega arith) refl

process-raises_example :
    (process worker_services numbered_event (some 3) (some 7) worker_start).0
    ≡ raised (no_encode worker_services (str "17"))
unfolding lookup
process-raises_example =
    process-raises worker_services (str "17") numbered_event (some 3) (some 7) worker_start refl
      (λ w. refl)

-- A new event reaches the next handler.
abbrev one_context : WorkerContext
one_context = context_of runtime raw_event (some 3) (some 7)

idempotency_handler-eq-guarded_example :
    idempotency_handler worker_services
      (device_state_handler worker_services (λ x. (ok tt, x)))
      (one_context, worker_start)
    ≡ guarded worker_services (device_state_handler worker_services (λ x. (ok tt, x))) (ok true) (
      one_context,
      asked worker_services
          (device_state_handler worker_services (λ x. (ok tt, x)))
          (text (str "01arz3ndektsv4rrffq69g5fav"))
          worker_start,
    )
unfolding get key
idempotency_handler-eq-guarded_example =
    idempotency_handler-eq-guarded worker_services
      (device_state_handler worker_services (λ x. (ok tt, x))) (one_context, worker_start)

-- An int is printed as one code point.
abbrev int_of : Text → Option ℕ
int_of (n ∷ []) = some n
int_of _ = none

abbrev reads : Reads
reads = record { int = int_of; datetime = λ s. some (record { clock = 5; offset = some 0 }) }

abbrev stale : Failure
stale = record {
  original_event = bad_event;
  error_type = str "DB_ERROR";
  error_message = str "down";
  retry_count = 5;
  original_partition = some 3;
  original_offset = none;
}

parse_dlq_event-to_dict_example :
    let event =
      event_of (envelope stale (str "id") (str "now")) (record { clock = 5; offset = some 0 }) in
    (parse_dlq_event reads (to_dict (λ n. n ∷ []) (envelope stale (str "id") (str "now")))
      ≡ some event)
    × (parse_dlq_event reads (to_kafka_dict runtime (λ n. n ∷ []) event) ≡ some event)
parse_dlq_event-to_dict_example =
    parse_dlq_event-to_dict reads (λ n. n ∷ []) (λ n. refl) runtime stale (str "id") (str "now")
      (record { clock = 5; offset = some 0 }) refl refl
