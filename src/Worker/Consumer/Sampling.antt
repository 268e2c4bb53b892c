-- ===== src/Worker/Consumer/Sampling.antt =====
-- apps/worker/consumer.py: `_maybe_sample_lag`, and the part of `_consume` before the semaphore.
pub mod Gauges
use iotflow_distributed_syst.Base.{
  Bool, true, false, ℕ, ◌+◌, List, [], ◌∷◌, ◌==◌, Option, if◌then◌else◌,
}
use iotflow_distributed_syst.Exec.{
  Outcome, ok, Exec, pure, gets, modify, ◌>>=◌, ◌>>◌, try_except, except_exception,
}
use iotflow_distributed_syst.Worker.Consumer.{maybe_sample, sampled_lag}

-- The calls of the consumer client and the clock, each answered in a world `W`. A TopicPartition is
-- its partition, since the consumer subscribes to one topic.
pub record Broker (W : Type 0) : Type 0 where
  -- `time.monotonic()`, in milliseconds.
  pub monotonic : W → ℕ × W
  pub assignment : W → Outcome (List ℕ) × W
  -- The items of the dict that `end_offsets` returns.
  pub end_offsets : List ℕ → W → Outcome (List (ℕ × ℕ)) × W
  pub committed : ℕ → W → Outcome (Option ℕ) × W

-- `last_sample` is `_last_lag_sample`; `lag` is the gauge CONSUMER_LAG, by its label.
pub record Sampler (W : Type 0) : Type 0 where
  pub world : W
  pub events_consumed : ℕ
  pub last_sample : ℕ
  pub lag : ℕ → ℕ

module _ {W A : Type 0} where
  abbrev replied : Sampler W → Outcome A × W → Outcome A × Sampler W
  replied s (r, w) = (r, record s { world = w })

  unfoldable pub call : (W → Outcome A × W) → Exec (Sampler W) A
  call op s = replied s (op s.world)

  abbrev drawn : Sampler W → A × W → Outcome A × Sampler W
  drawn s (a, w) = (ok a, record s { world = w })

  unfoldable pub clock : (W → A × W) → Exec (Sampler W) A
  clock op s = drawn s (op s.world)

abbrev pub set_gauge : ℕ → ℕ → (ℕ → ℕ) → ℕ → ℕ
set_gauge partition value lag p = if p == partition then value else lag p

abbrev pub set_lag : {W : Type 0} → ℕ → ℕ → Sampler W → Sampler W
set_lag partition value s = record s { lag = set_gauge partition value s.lag }

module _ {W : Type 0} (broker : Broker W) where
  -- The loop over the end offsets.
  unfoldable pub sample_each : List (ℕ × ℕ) → Exec (Sampler W) (Unit {0})
  sample_each [] = pure tt
  sample_each ((partition, end_offset) ∷ rest) = do
    committed ← call (broker.committed partition)
    modify (set_lag partition (sampled_lag end_offset committed))
    sample_each rest

  unfoldable pub sample_assigned : List ℕ → Exec (Sampler W) (Unit {0})
  unfolding sample_each
  sample_assigned [] = pure tt
  sample_assigned (p ∷ ps) = do ends ← call (broker.end_offsets (p ∷ ps)); sample_each ends

  -- The `try` block.
  unfoldable pub sample_lag : Exec (Sampler W) (Unit {0})
  unfolding sample_assigned
  sample_lag =
      try_except (do assigned ← call broker.assignment; sample_assigned assigned)
        (except_exception λ exc. pure tt)

  -- The early return, or the new value of `_last_lag_sample` and the sample.
  unfoldable pub sample_if : Bool × ℕ → Exec (Sampler W) (Unit {0})
  unfolding sample_lag
  sample_if (false, last) = pure tt
  sample_if (true, now) = do modify (λ s. record s { last_sample = now }); sample_lag

  unfoldable pub maybe_sample_lag : Exec (Sampler W) (Unit {0})
  unfolding sample_if
  maybe_sample_lag = do
    now ← clock broker.monotonic
    last ← gets (λ s. s.last_sample)
    sample_if (maybe_sample last now)

  -- What `_consume` does with a message before it waits for the semaphore.
  unfoldable pub on_message : Exec (Sampler W) (Unit {0})
  unfolding maybe_sample_lag
  on_message = do
    modify (λ s. record s { events_consumed = s.events_consumed + 1 })
    maybe_sample_lag
