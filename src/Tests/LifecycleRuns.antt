-- ===== src/Tests/LifecycleRuns.antt =====
-- The theorems on the start and the stop of the services at concrete runs.
use iotflow_distributed_syst.Base.{◌≡◌, refl, ℕ, ◌+◌, Bool, true, false, [], Text, ◌⊎◌}
use iotflow_distributed_syst.Exec.{Outcome, ok, raised, Exception}
use iotflow_distributed_syst.Ingestion.Services as Ingestion
use iotflow_distributed_syst.Ingestion.Producer.{start, stop}
use iotflow_distributed_syst.Ingestion.Lifespan.{readyz, lifespan}
use iotflow_distributed_syst.Ingestion.Lifespan.Releases.{
  IsReleased, begun, lifespan-IsReleased, readyz_after_start,
}
use iotflow_distributed_syst.Worker.Lifecycle.{Clients, Process, run_consumer_loop, main}
use iotflow_distributed_syst.Worker.Lifecycle.Releases.{
  IsStopped, IsClosed, run_consumer_loop-IsStopped, main-IsClosed, main_returns,
}
use iotflow_distributed_syst.Tests.Samples.{kafka_down, ingestion_services, ingestion_start}

abbrev answer : Outcome (Unit {0}) → ℕ → Outcome (Unit {0}) × ℕ
answer r w = (r, w + 1)

-- Kafka refuses the consumer, and Redis does not answer the ping.
abbrev clients : Clients ℕ
clients = record {
  create_pool = λ options. answer (ok tt);
  pool_close = answer (ok tt);
  redis_ping = answer (raised kafka_down);
  redis_close = answer (ok tt);
  start_http_server = λ port. answer (ok tt);
  dlq_start = answer (ok tt);
  dlq_stop = answer (ok tt);
  consumer_start = λ options. answer (raised kafka_down);
  consumer_stop = answer (ok tt);
  consume = answer (ok tt);
}

abbrev process : Process ℕ
process = record { world = 0; pool = false; actions = [] }

run_consumer_loop-IsStopped_example : IsStopped (run_consumer_loop clients process).1.actions
run_consumer_loop-IsStopped_example = run_consumer_loop-IsStopped clients process refl

main-IsClosed_example : IsClosed (main clients process).1.actions
main-IsClosed_example = main-IsClosed clients process (refl, refl) (λ w. refl)

main_returns_example : (main clients process).0 ≡ ok tt
main_returns_example = main_returns clients process (refl, refl) (λ w. refl) (λ w. refl) (λ w. refl)

-- The run of the service raises.
abbrev serve : Ingestion.State (Text → ℕ) → Outcome (Unit {0}) × Ingestion.State (Text → ℕ)
serve s = (raised kafka_down, s)

-- The tasks are gathered.
abbrev gather : Ingestion.State (Text → ℕ) → Outcome (Unit {0}) × Ingestion.State (Text → ℕ)
gather s = (ok tt, s)

lifespan-IsReleased_example :
    IsReleased (lifespan ingestion_services serve gather ingestion_start).1.calls
    ⊎ ((exc : Exception) × ((gather (serve (begun ingestion_services ingestion_start)).1).0
          ≡ raised exc)
        × ((lifespan ingestion_services serve gather ingestion_start).1
            ≡ (gather (serve (begun ingestion_services ingestion_start)).1).1))
lifespan-IsReleased_example =
    lifespan-IsReleased ingestion_services serve gather ingestion_start (λ t. refl) (λ t. refl) refl
      refl

-- The services with Kafka out of reach: the producer does not start.
abbrev no_kafka : Ingestion.Environment (Text → ℕ)
no_kafka = record ingestion_services { producer_start = λ options w. (raised kafka_down, w) }

readyz_after_start_example :
    let begun = (start no_kafka ingestion_start).1 in
    let ended = (stop no_kafka begun).1 in
    ((redis : Bool) × ((readyz no_kafka true begun).0
        ≡ ok (record { http_code = 200; kafka_ok = true; redis_ok = redis })))
    × ((redis : Bool) × ((readyz no_kafka true ended).0
          ≡ ok (record { http_code = 200; kafka_ok = true; redis_ok = redis })))
readyz_after_start_example = readyz_after_start no_kafka true ingestion_start (λ w. refl)
