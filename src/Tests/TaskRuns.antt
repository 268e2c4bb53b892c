-- ===== src/Tests/TaskRuns.antt =====
-- The theorems on a task as a whole, and on the claim of an event that fails, at concrete runs.
use iotflow_distributed_syst.Base.{◌≡◌, refl, ℕ, Bool, true, false, some, [], ◌∷◌, Text}
use iotflow_distributed_syst.Exec.{ok, raised}
use iotflow_distributed_syst.Python.{text}
use iotflow_distributed_syst.Worker.Services.{Environment, perform, draw}
use iotflow_distributed_syst.Worker.Db.{get_pool, insert_event, rows_affected}
use iotflow_distributed_syst.Worker.Retry.{
  with_retry, backoff, compute_delay, base_delay, jitter_range,
}
use iotflow_distributed_syst.Worker.Idempotency.{key, is_new}
use iotflow_distributed_syst.Worker.Handlers.{insert, insert_with_retry, persist, Action}
use iotflow_distributed_syst.Worker.Handlers.Frees.{LeavesKeys, persist_frees}
use iotflow_distributed_syst.Worker.Processor.{context_of}
use iotflow_distributed_syst.Worker.Consumer.{Delivery, Consumer, start_task}
use iotflow_distributed_syst.Worker.Consumer.Running.{
  Node, start_node, run_task, Reach, starts, ends, here, next,
}
use iotflow_distributed_syst.Worker.Consumer.Running.Accounts.{IsCovered, Reach-IsCovered}
use iotflow_distributed_syst.Tests.Samples.{
  runtime, raw_event, event, worker_services, worker_start, postgres_down,
}
use iotflow_distributed_syst.Tests.ClaimRuns.{key_services, key_laws, no_keys}

abbrev delivery : Delivery
delivery = record { event = raw_event; partition = 3; offset = 7 }

abbrev one_task : Consumer
one_task = record { permits = 49; tasks = delivery ∷ []; committed = λ partition. 0; handled = [] }

abbrev one_started : Node ℕ
one_started = record (start_node worker_start) { consumer = one_task }

-- One event is taken, and its task ends with a commit.
one_ended :
    Reach worker_services (start_node worker_start) (run_task worker_services 0 (ok tt) one_started)
unfolding start_task
one_ended =
    next {m = one_started}
      (next {m = start_node worker_start} here (starts delivery one_task refl refl))
      (ends 0 (ok tt) refl)

Reach-IsCovered_example :
    let n = run_task worker_services 0 (ok tt) one_started in
    IsCovered worker_services n.consumer n.returned
Reach-IsCovered_example = Reach-IsCovered worker_services worker_start one_ended

-- PostgreSQL is out of reach.
abbrev no_database : Environment (Text → Bool)
no_database = record key_services { pool_execute = λ statement w. (raised postgres_down, w) }

abbrev no_database_laws : iotflow_distributed_syst.Worker.Idempotency.Claims.ClaimLaws no_database
no_database_laws = record {
  held = λ k w. w k;
  set_nx_answers = λ k ttl w. refl;
  set_nx_holds = λ j k ttl w. refl;
  delete_frees = λ j k w. refl;
  replies = key_laws.replies;
  replies_end = λ w. refl;
  replies_next = λ k ttl cs w. refl;
  pipeline_runs = λ cs w. refl;
}

leaves_keys : LeavesKeys no_database (λ k w. w k)
leaves_keys = record {
  by_kafka = λ topic value k j w. refl;
  by_postgres = λ st j w. refl;
  by_uuid4 = λ j w. refl;
  by_now = λ j w. refl;
}

-- What comes after the event is stored.
abbrev nothing_more : Action no_database
nothing_more x = (ok tt, x)

persist_frees_example :
    let v = text (event.event_id) in
    let after =
      (persist no_database
        (some event)
        nothing_more
        (context_of runtime raw_event (some 3) (some 7), no_keys)).1.1 in
    (after.world (key no_database v) ≡ false) × ((is_new no_database v after).0 ≡ ok true)
unfolding insert_with_retry insert insert_event get_pool perform draw rows_affected with_retry
    backoff base_delay compute_delay jitter_range
persist_frees_example =
    persist_frees no_database no_database_laws leaves_keys event nothing_more
      (context_of runtime raw_event (some 3) (some 7), no_keys) postgres_down 5 refl refl
