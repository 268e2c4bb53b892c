-- ===== src/Tests/LoopRuns.antt =====
-- The theorems on the loops of the worker's consumer and of the dispatcher at concrete runs.
use iotflow_distributed_syst.Base.{
  ◌≡◌, ◌<◌, ◌⊎◌, refl, false, ℕ, ◌==◌, some, none, Option, [], ◌∷◌, List, length, if◌then◌else◌,
  arith,
}
use iotflow_distributed_syst.Exec.{ok}
use iotflow_distributed_syst.Worker.Config.{max_concurrent_tasks}
use iotflow_distributed_syst.Python.{Dict}
use iotflow_distributed_syst.Worker.Consumer.Reading as Reading
use iotflow_distributed_syst.Worker.Consumer.Reading.{Record, Reader, read, task_ends}
use iotflow_distributed_syst.Worker.Consumer.Reading.Held.{IsHeld, Reach-IsHeld}
use iotflow_distributed_syst.Worker.Consumer.{Delivery, Consumer, initial, start_task, end_task}
use iotflow_distributed_syst.Worker.Consumer.Tasks.{starts, Reach, here, next}
use iotflow_distributed_syst.Worker.Consumer.Progress.{Ending, CanStart, start_or_wait}
use iotflow_distributed_syst.Worker.Consumer.Sampling.{Broker, Sampler, maybe_sample_lag}
use iotflow_distributed_syst.Worker.Consumer.Sampling.Gauges.{maybe_sample_lag_sets}
use iotflow_distributed_syst.Tests.Samples.{raw_event}

abbrev delivery : ℕ → Delivery
delivery n = record { event = raw_event; partition = 0; offset = n }

-- One task is running.
abbrev one_task : Consumer
one_task = record {
  permits = 49;
  tasks = delivery 7 ∷ [];
  committed = λ partition. 0;
  handled = [];
}

one_started : Reach initial one_task
unfolding start_task
one_started = next {d = initial} here (starts (delivery 7) refl)

start_or_wait_example :
    CanStart (delivery 8) one_task
    ⊎ ((length one_task.tasks ≡ max_concurrent_tasks)
        × ((i : ℕ) (ending : Ending)
            → i < length one_task.tasks
            → CanStart (delivery 8) (end_task i ending.0 ending.1 one_task)))
start_or_wait_example = start_or_wait (delivery 8) one_task one_started

-- A broker with two partitions; the second one has no commit.
abbrev committed_at : ℕ → Option ℕ
committed_at p = if p == 0 then some 40 else none

abbrev broker : Broker ℕ
broker = record {
  monotonic = λ w. (w, w);
  assignment = λ w. (ok (0 ∷ 1 ∷ []), w);
  end_offsets = λ partitions w. (ok ((0, 50) ∷ (1, 3) ∷ []), w);
  committed = λ p w. (ok (committed_at p), w);
}

abbrev sampler : Sampler ℕ
sampler = record { world = 9000; events_consumed = 4; last_sample = 1000; lag = λ p. 0 }

maybe_sample_lag_sets_example :
    ((maybe_sample_lag broker sampler).1.lag 0 ≡ 9)
    × ((maybe_sample_lag broker sampler).1.last_sample ≡ 9000)
maybe_sample_lag_sets_example =
    maybe_sample_lag_sets broker committed_at (λ p w. refl) 0 50 0 (1 ∷ []) ((0, 50) ∷ (1, 3) ∷ [])
      sampler (omega arith) (λ w. refl) (λ w. refl) (λ same. refl, (λ other. absurd (cc), tt))

-- A value is understood if it begins with a brace.
abbrev deserialize : List ℕ → Option Dict
deserialize [] = none
deserialize (c ∷ s) = if c == b'{' then some raw_event else none

abbrev record_at : List ℕ → ℕ → Record
record_at value offset = record { value = value; partition = 0; offset = offset }

abbrev reader : Reader
reader = record {
  consumer = initial;
  to_come = record_at (b'{' ∷ []) 0 ∷ record_at (b'?' ∷ []) 1 ∷ record_at (b'{' ∷ []) 2 ∷ [];
  failed = false;
}

-- Two rounds, and the task of the first record ends.
abbrev stopped : Reader
stopped = task_ends deserialize 0 (ok tt) (ok tt) (read deserialize (read deserialize reader))

stopped_so : Reading.Reach deserialize reader stopped
stopped_so =
    Reading.next
      (Reading.next (Reading.next Reading.here (Reading.reads refl)) (Reading.reads refl))
      (Reading.ends 0 (ok tt) (ok tt) refl)

Reach-IsHeld_example :
    IsHeld deserialize (record_at (b'?' ∷ []) 1) (record_at (b'{' ∷ []) 2 ∷ []) refl stopped
Reach-IsHeld_example =
    Reach-IsHeld deserialize (record_at (b'?' ∷ []) 1) (record_at (b'{' ∷ []) 2 ∷ []) refl
      stopped_so
      (record {
        tasks = tt;
        committed = omega arith;
        before = record_at (b'{' ∷ []) 0 ∷ [];
        earlier = (λ e. omega arith, tt);
        to_come = refl;
      })
