-- ===== src/Worker/Consumer/Lag.antt =====
-- The lag metric of apps/worker/consumer.py.
use iotflow_distributed_syst.Base.{
  ℕ, suc, ◌+◌, ◌-◌, ◌≤◌, ◌≡◌, List, [], ◌∷◌, some, none, arith, Bool-cases, inl, inr, if◌then◌else◌,
  ltb,
}
use iotflow_distributed_syst.Worker.Consumer.{lag_sample_interval, maybe_sample, sampled_lag}

-- The times at which the broker is asked, from the times at which messages come.
pub sample_times : ℕ → List ℕ → List ℕ
sample_times last [] = []
sample_times last (now ∷ later) =
    let (sampled, last') = maybe_sample last now in
    let times = sample_times last' later in if sampled then now ∷ times else times

-- Each time is at least the interval behind the one before it.
abbrev pub Spaced : ℕ → List ℕ → Type 0
Spaced last [] = Unit
Spaced last (t ∷ ts) = (last + lag_sample_interval ≤ t) × Spaced t ts

-- However many messages come, and whenever, the broker is asked for the lag at most once in five
-- seconds.
pub sample_times-Spaced : (last : ℕ) (nows : List ℕ) → Spaced last (sample_times last nows)
unfolding sample_times maybe_sample
sample_times-Spaced last [] = tt
sample_times-Spaced last (now ∷ later) = elim (Bool-cases (ltb (now - last) lag_sample_interval)) [
  | inl early ↦ rw early (sample_times-Spaced last later)
  | inr due ↦ rw due (ground arith, sample_times-Spaced now later)
]

-- The gauge is one less than the number of messages behind the committed offset, and says 0 of a
-- partition with one message to go; with no commit it counts from the offset 0.
pub sampled_lag-one_less :
    (committed behind : ℕ)
    → (sampled_lag (committed + suc behind) (some committed) ≡ behind)
      × (sampled_lag (suc behind) none ≡ behind)
unfolding sampled_lag
sampled_lag-one_less committed behind = omega arith
