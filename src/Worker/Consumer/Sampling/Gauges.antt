-- ===== src/Worker/Consumer/Sampling/Gauges.antt =====
-- What `_maybe_sample_lag` of apps/worker/consumer.py raises, and what the gauge says after it.
use iotflow_distributed_syst.Base.{
  ℕ, sym, ◌∙◌, ◌+◌, ◌≤◌, ◌≡◌, refl, Bool, true, false, List, [], ◌∷◌, Option, none, some, ◌-◌,
  if◌then◌else◌, ◌==◌, ◌||◌, arith, ap₂, ap,
}
use iotflow_distributed_syst.Exec.{
  Outcome, ok, raised, Exception, is_exception, modify, recover, except_exception, pure,
}
use iotflow_distributed_syst.Exec.Keeps.{Keeps, IsFrame, keeps_rules, Keeps-bind}
use iotflow_distributed_syst.Worker.Consumer.{sampled_lag, maybe_sample, lag_sample_interval}
use iotflow_distributed_syst.Worker.Consumer.Sampling.{
  sample_if, Broker, Sampler, call, clock, sample_each, sample_assigned, sample_lag, sample_if,
  maybe_sample_lag, on_message,
}

-- The dict of end offsets has this one for the partition, if it has one.
abbrev pub EndsAt : ℕ → ℕ → List (ℕ × ℕ) → Type 0
EndsAt p e [] = Unit
EndsAt p e ((q, x) ∷ ends) = ((p == q) ≡ true → x ≡ e) × EndsAt p e ends

abbrev pub is_listed : ℕ → List (ℕ × ℕ) → Bool
is_listed p [] = false
is_listed p ((q, x) ∷ ends) = (p == q) || is_listed p ends

-- Where a partition without a commit is read from.
abbrev pub offset_of : Option ℕ → ℕ
offset_of none = 0
offset_of (some n) = n

sampled_lag-eq : (e : ℕ) (o : Option ℕ) → sampled_lag e o ≡ e - offset_of o - 1
unfolding sampled_lag
sampled_lag-eq e none = refl
sampled_lag-eq e (some n) = refl

later_wins :
    (b listed : Bool) (v w old : ℕ)
    → (b ≡ true → v ≡ w)
    → (if listed then w else (if b then v else old)) ≡ (if b || listed then w else old)
later_wins true true v w old h = refl
later_wins true false v w old h = h refl
later_wins false true v w old h = refl
later_wins false false v w old h = refl

eq_of : (p q : ℕ) → (p == q) ≡ true → p ≡ q
eq_of p q h = ground arith

maybe_sample-due :
    (last now : ℕ) → last + lag_sample_interval ≤ now → maybe_sample last now ≡ (true, now)
unfolding maybe_sample
maybe_sample-due last now h = ground arith

module _ {W : Type 0} (broker : Broker W) where
  -- The swallowed exceptions: what comes out of the `try` block is a cancellation.
  recovered_raised :
      (out : Outcome (Unit {0}) × Sampler W) (exc : Exception)
      → (recover (except_exception λ e. pure tt) out).0 ≡ raised exc
      → is_exception exc.class ≡ false
  recovered_raised (ok a, s) exc h = absurd (cc)
  recovered_raised (raised e, s) exc h = ground arith

  recovered_state :
      (out : Outcome (Unit {0}) × Sampler W)
      → (recover (except_exception λ e. pure tt) out).1 ≡ out.1
  recovered_state (ok a, s) = refl
  recovered_state (raised e, s) = ground arith

  sample_if_raised :
      (x : Bool × ℕ) (s : Sampler W) (exc : Exception)
      → (sample_if broker x s).0 ≡ raised exc
      → is_exception exc.class ≡ false
  unfolding sample_if sample_lag
  sample_if_raised (false, last) s exc h = absurd (cc)
  sample_if_raised (true, now) s exc h = recovered_raised _ exc h

  maybe_sample_lag_raised :
      (s : Sampler W) (exc : Exception)
      → (maybe_sample_lag broker s).0 ≡ raised exc
      → is_exception exc.class ≡ false
  unfolding maybe_sample_lag clock
  maybe_sample_lag_raised s exc h = sample_if_raised _ _ exc h

  abbrev SameCount : Sampler W → Sampler W → Type 0
  SameCount s t = t.events_consumed ≡ s.events_consumed

  SameCount-IsFrame : IsFrame SameCount
  SameCount-IsFrame = record { same = λ s. refl; step = λ s t u h g. g ∙ h }

  call-SameCount : {A : Type 0} (op : W → Outcome A × W) → Keeps SameCount (call op)
  unfolding call
  call-SameCount op = record { at = λ s. refl }

  clock-SameCount : {A : Type 0} (op : W → A × W) → Keeps SameCount (clock op)
  unfolding clock
  clock-SameCount op = record { at = λ s. refl }

  modify-SameCount :
      (f : Sampler W → Sampler W)
      → ((s : Sampler W) → (f s).events_consumed ≡ s.events_consumed)
      → Keeps SameCount (modify f)
  modify-SameCount f same = record { at = same }

  ruleset count_rules =
      (keeps_rules, SameCount-IsFrame, call-SameCount, clock-SameCount, modify-SameCount)

  sample_each-SameCount : (ends : List (ℕ × ℕ)) → Keeps SameCount (sample_each broker ends)
  unfolding sample_each
  sample_each-SameCount [] = search count_rules depth 10
  sample_each-SameCount ((q, x) ∷ ends) =
      let rest = sample_each-SameCount ends in
      Keeps-bind SameCount SameCount-IsFrame _ _ (call-SameCount _)
        (λ committed. record { at = λ s. rest.at _ })

  sample_assigned-SameCount :
      (assigned : List ℕ) → Keeps SameCount (sample_assigned broker assigned)
  unfolding sample_assigned
  sample_assigned-SameCount [] = search count_rules depth 10
  sample_assigned-SameCount (p ∷ ps) = search (count_rules, sample_each-SameCount) depth 10

  sample_if-SameCount : (x : Bool × ℕ) → Keeps SameCount (sample_if broker x)
  unfolding sample_if sample_lag
  sample_if-SameCount (false, last) = search count_rules depth 10
  sample_if-SameCount (true, now) = search (count_rules, sample_assigned-SameCount) depth 14

  maybe_sample_lag-SameCount : Keeps SameCount (maybe_sample_lag broker)
  unfolding maybe_sample_lag
  maybe_sample_lag-SameCount = search (count_rules, sample_if-SameCount) depth 10

  -- A message is counted before anything else is done with it, however sampling the lag ends; and no
  -- failure of the broker keeps it from the semaphore: what sampling raises is a cancellation.
  pub on_message_counts :
      (s : Sampler W)
      → ((on_message broker s).1.events_consumed ≡ s.events_consumed + 1)
        × ((exc : Exception)
            → (on_message broker s).0 ≡ raised exc
            → is_exception exc.class ≡ false)
  unfolding on_message
  on_message_counts s = (maybe_sample_lag-SameCount.at _, λ exc. maybe_sample_lag_raised _ exc)

  module _ (committed : ℕ → Option ℕ)
      (answers : (p : ℕ) (w : W) → (broker.committed p w).0 ≡ ok (committed p)) where
    sample_each-lag :
        (p e : ℕ) (ends : List (ℕ × ℕ)) (s : Sampler W)
        → EndsAt p e ends
        → (sample_each broker ends s).1.lag p
          ≡ (if is_listed p ends then sampled_lag e (committed p) else s.lag p)
    unfolding sample_each call
    sample_each-lag p e [] s h = refl
    sample_each-lag p e ((q, x) ∷ ends) s h = rw (answers q s.world) (
        sample_each-lag p e ends _ h.1
        ∙ later_wins (p == q) (is_listed p ends) (sampled_lag x (committed q))
            (sampled_lag e (committed p)) (s.lag p)
            (λ same. ap₂ sampled_lag (h.0 same) (ap committed (sym (eq_of p q same)))))

    sample_each-last :
        (ends : List (ℕ × ℕ)) (s : Sampler W)
        → (sample_each broker ends s).1.last_sample ≡ s.last_sample
    unfolding sample_each call
    sample_each-last [] s = refl
    sample_each-last ((q, x) ∷ ends) s = rw (answers q s.world) (sample_each-last ends _)

    -- The state in which the loop over the end offsets begins.
    abbrev asked : ℕ → List ℕ → Sampler W → Sampler W
    asked q qs s = record s {
      world = (broker.end_offsets (q ∷ qs) (broker.assignment s.world).1).1;
    }

    sample_lag-asked :
        (q : ℕ) (qs : List ℕ) (ends : List (ℕ × ℕ)) (s : Sampler W)
        → ((w : W) → (broker.assignment w).0 ≡ ok (q ∷ qs))
        → ((w : W) → (broker.end_offsets (q ∷ qs) w).0 ≡ ok ends)
        → (sample_lag broker s).1 ≡ (sample_each broker ends (asked q qs s)).1
    unfolding sample_lag sample_assigned call
    sample_lag-asked q qs ends s assigned ended =
        rw (assigned s.world, ended (broker.assignment s.world).1) (recovered_state _)

    -- Where five seconds have passed since the last sample and the broker answers, with partitions
    -- assigned, the gauge of each partition that it gives an end offset for is one less than the number
    -- of messages from the committed offset on, of all of them where there is no commit, and 0 if there
    -- are none; the others are as before, and the time of the sample is noted.
    pub maybe_sample_lag_sets :
        (p e q : ℕ) (qs : List ℕ) (ends : List (ℕ × ℕ)) (s : Sampler W)
        → s.last_sample + lag_sample_interval ≤ (broker.monotonic s.world).0
        → ((w : W) → (broker.assignment w).0 ≡ ok (q ∷ qs))
        → ((w : W) → (broker.end_offsets (q ∷ qs) w).0 ≡ ok ends)
        → EndsAt p e ends
        → ((maybe_sample_lag broker s).1.lag p
            ≡ (if is_listed p ends then e - offset_of (committed p) - 1 else s.lag p))
          × ((maybe_sample_lag broker s).1.last_sample ≡ (broker.monotonic s.world).0)
    unfolding maybe_sample_lag sample_if clock
    maybe_sample_lag_sets p e q qs ends s due assigned ended h =
        let now = (broker.monotonic s.world).0 in
        let t = record s { world = (broker.monotonic s.world).1; last_sample = now } in
        let same = sample_lag-asked q qs ends t assigned ended in
        rw (maybe_sample-due s.last_sample now due, same)
          (
            sample_each-lag p e ends (asked q qs t) h
                ∙ ap (λ n. if is_listed p ends then n else s.lag p)
                    (sampled_lag-eq e (committed p)),
            sample_each-last ends (asked q qs t),
          )
