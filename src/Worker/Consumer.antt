-- ===== src/Worker/Consumer.antt =====
-- apps/worker/consumer.py: the consume loop with its semaphore and manual commits, and the lag.
pub mod Tasks
pub mod Commits
pub mod Progress
pub mod Lag
pub mod Sampling
pub mod Running
pub mod Reading
use iotflow_distributed_syst.Base.{
  ℕ, zero, suc, ◌+◌, ◌-◌, Bool, true, false, List, [], ◌∷◌, ◌++◌, Option, none, some, ltb, ◌==◌,
  if◌then◌else◌, get_elem?,
}
use iotflow_distributed_syst.Exec.{Outcome, ok, raised}
use iotflow_distributed_syst.Python.{Dict}
use iotflow_distributed_syst.Worker.Config.{max_concurrent_tasks}

-- A message from the raw topic: what a task gets of it.
pub record Delivery : Type 0 where
  pub event : Dict
  pub partition : ℕ
  pub offset : ℕ

-- The permits of `_semaphore`, the running tasks in the order of their start, and the offset that
-- the consumer group has committed for each partition, from which Kafka delivers after a restart.
-- `handled` lists the deliveries whose `process` has returned, the latest first.
pub record Consumer : Type 0 where
  pub permits : ℕ
  pub tasks : List Delivery
  pub committed : ℕ → ℕ
  pub handled : List Delivery

abbrev pub initial : Consumer
initial = record {
  permits = max_concurrent_tasks;
  tasks = [];
  committed = λ partition. 0;
  handled = [];
}

-- One round of `async for msg in consumer`: `_semaphore.acquire()`, which waits where this is
-- `none`, and `create_task`.
unfoldable pub start_task : Delivery → Consumer → Option Consumer
start_task d c =
    if ltb 0 c.permits
    then some (record c { permits = c.permits - 1; tasks = c.tasks ++ d ∷ [] })
    else none

abbrev pub remove_at {ℓ} : {A : Type ℓ} → ℕ → List A → List A
remove_at i [] = []
remove_at zero (x ∷ xs) = xs
remove_at (suc i) (x ∷ xs) = x ∷ remove_at i xs

-- `consumer.commit({tp: offset + 1})` sets the committed offset, whatever it was.
abbrev pub commit : Delivery → (ℕ → ℕ) → ℕ → ℕ
commit d committed partition =
    if partition == d.partition then d.offset + 1 else committed partition

-- `_task_wrapper` from the end of `processor.process` on, given how that ended and how the commit
-- would end; the semaphore is released in any case.
unfoldable pub finish_task :
    Delivery → Outcome (Unit {0}) → Outcome (Unit {0}) → Consumer → Consumer
finish_task d (ok _) (ok _) c = record c {
  permits = c.permits + 1;
  committed = commit d c.committed;
  handled = d ∷ c.handled;
}
finish_task d (ok _) (raised exc) c = record c { permits = c.permits + 1; handled = d ∷ c.handled }
finish_task d (raised exc) committing c = record c { permits = c.permits + 1 }

-- The task at this position ends; the callback discards it from the set.
end_task_at : Option Delivery → ℕ → Outcome (Unit {0}) → Outcome (Unit {0}) → Consumer → Consumer
end_task_at none i processed committing c = c
end_task_at (some d) i processed committing c =
    finish_task d processed committing (record c { tasks = remove_at i c.tasks })

unfoldable pub end_task : ℕ → Outcome (Unit {0}) → Outcome (Unit {0}) → Consumer → Consumer
unfolding finish_task end_task_at
end_task i processed committing c = end_task_at (get_elem? c.tasks i) i processed committing c

-- `_LAG_SAMPLE_INTERVAL_SECONDS`, in milliseconds.
abbrev pub lag_sample_interval : ℕ
lag_sample_interval = 5000

-- Whether `_maybe_sample_lag` goes on, and `_last_lag_sample` after it; the clock is monotonic.
unfoldable pub maybe_sample : ℕ → ℕ → Bool × ℕ
maybe_sample last now = if ltb (now - last) lag_sample_interval then (false, last) else (true, now)

-- The lag that the gauge is set to, from the end offset and the committed offset of a partition.
unfoldable pub sampled_lag : ℕ → Option ℕ → ℕ
sampled_lag end_offset none = end_offset - 0 - 1
sampled_lag end_offset (some committed) = end_offset - committed - 1
