-- ===== src/Worker/Retry/Attempts.antt =====
-- How often `with_retry` of apps/worker/retry.py runs a closure that counts its runs, and how it
-- ends.
use iotflow_distributed_syst.Base.{
  ℕ, zero, suc, ◌+◌, ◌≤◌, ◌≡◌, refl, true, false, Option, none, some, arith, ltb, ◌<◌, inl, inr,
  Bool-cases, ◌<◌,
}
use iotflow_distributed_syst.Exec.{
  Outcome, ok, raised, Exception, Exec, continue, recover, is_cancelled, is_transient, is_exception,
  is_value_error,
}
use iotflow_distributed_syst.Exec.Rules.{
  Returns, Returns-if, Returns-continue, Returns-recover, Returns-raised,
}
use iotflow_distributed_syst.Worker.Services.{Environment, State, perform, draw}
use iotflow_distributed_syst.Worker.Services.Trace.{is_insert, is_sleep, count_calls}
use iotflow_distributed_syst.Worker.Retry.{
  assertion_error, retried, compute_delay, backoff, on_failure, retry_from, count, retried,
  with_retry,
}

-- asyncio.sleep raises nothing but CancelledError.
abbrev pub SleepOnlyCancelled : {W : Type 0} → Environment W → Type 0
SleepOnlyCancelled {W} env =
    (delay : ℕ) (w : W) (e : Exception)
    → (env.sleep delay w).0 ≡ raised e
    → is_exception e.class ≡ false

module _ {W : Type 0} where
  -- Between two states: the numbers of inserts and of sleeps that were called.
  abbrev pub inserts : State W → ℕ
  inserts s = count_calls is_insert s.calls

  abbrev pub sleeps : State W → ℕ
  sleeps s = count_calls is_sleep s.calls

  -- What one run of the closure does to the counter and the trace.
  abbrev pub CountsRuns : {A : Type 0} → Exec (ℕ × State W) A → Type 0
  CountsRuns coro =
      (c : ℕ) (s : State W)
      → s.pool ≡ true
      → ((coro (c, s)).1.0 ≡ suc c)
        × (inserts (coro (c, s)).1.1 ≡ suc (inserts s))
        × (sleeps (coro (c, s)).1.1 ≡ sleeps s)
        × ((coro (c, s)).1.1.pool ≡ true)

  -- The state after `left` more attempts at most, from the counter `c` and the state `s`.
  pub record Tally {A : Type 0} (left c : ℕ) (s : State W) (out : Outcome A × (ℕ × State W))
      : Type 0 where
    pub bounded : out.1.0 ≤ c + left
    pub started : 0 < left → c < out.1.0
    pub inserted : inserts out.1.1 + c ≡ inserts s + out.1.0
    pub slept : 0 < left → is_cancelled out.0 ≡ false → sleeps out.1.1 + suc c ≡ sleeps s + out.1.0
    pub unslept : left ≡ 0 → (sleeps out.1.1 ≡ sleeps s) × (out.1.0 ≡ c)
    pub exhausted : is_transient out.0 ≡ true → out.1.0 ≡ c + left

  module _ (env : Environment W) (law : SleepOnlyCancelled env) where
    backoff-trace :
        (attempt : ℕ) (s : State W)
        → (inserts (backoff env attempt s).1 ≡ inserts s)
          × (sleeps (backoff env attempt s).1 ≡ suc (sleeps s))
          × ((backoff env attempt s).1.pool ≡ s.pool)
    unfolding backoff compute_delay perform draw
    backoff-trace attempt s = ground arith

    backoff-cancelled :
        (attempt : ℕ) (s : State W) (e : Exception)
        → (backoff env attempt s).0 ≡ raised e
        → is_exception e.class ≡ false
    unfolding backoff compute_delay perform draw
    backoff-cancelled attempt s e h = law _ _ e h

    module _ {A : Type 0} (coro : Exec (ℕ × State W) A) where
      module _ (left c : ℕ) (before s : State W) (ran : inserts s ≡ suc (inserts before))
          (idle : sleeps s ≡ sleeps before) where
        -- The exception ends the loop.
        ended-Tally :
            (e : Exception)
            → is_transient {A = A} (raised e) ≡ false
            → Tally {A = A} (suc left) c before (raised e, (suc c, s))
        ended-Tally e final = ground arith

        -- The last attempt: no pause, and nothing is run behind it.
        last-Tally :
            (out : Outcome A × (ℕ × State W))
            → left ≡ 0
            → Tally left (suc c) s out
            → Tally (suc left) c before out
        last-Tally out none_left rest = ground (arith, rest.unslept none_left)

        -- The pause of `backoff`, by how it ended.
        paused-Tally :
            (again : Exec (ℕ × State W) A) (pause : Outcome (Unit {0}) × State W)
            → 0 < left
            → inserts pause.1 ≡ inserts s
            → sleeps pause.1 ≡ suc (sleeps s)
            → ((e : Exception) → pause.0 ≡ raised e → is_exception e.class ≡ false)
            → Tally left (suc c) pause.1 (again (suc c, pause.1))
            → Tally (suc left) c before (continue (λ _. again) (pause.0, (suc c, pause.1)))
        paused-Tally again (ok _, t) some_left same one_more cancelled rest =
            ground (arith, rest.started some_left, rest.slept some_left)
        paused-Tally again (raised e, t) some_left same one_more cancelled rest =
            ground (arith, cancelled e refl)

      -- A failed run has counted itself; then the exception goes on, or the rest of the loop runs.
      on_failure-Tally :
          (left attempt c : ℕ) (before s : State W) (e : Exception)
          (again : Exception → Exec (ℕ × State W) A)
          → left + attempt ≡ 5
          → ((t : State W) → t.pool ≡ true → Tally left (suc c) t (again e (suc c, t)))
          → inserts s ≡ suc (inserts before)
          → sleeps s ≡ sleeps before
          → s.pool ≡ true
          → Tally (suc left) c before (on_failure env coro attempt again e (suc c, s))
      unfolding on_failure
      on_failure-Tally left attempt c before s e again sum rest ran idle open_pool =
          let counted : State W = count (retried attempt) s in
          let waited : State W = (backoff env attempt counted).1 in
          let made = backoff-trace attempt counted in
          elim (Bool-cases (is_value_error e.class)) [
            | inl value ↦ rw value (ended-Tally left c before s ran idle e (ground arith))
            | inr other ↦ elim (Bool-cases (is_exception e.class)) [
              | inr base ↦ rw (other, base) (ended-Tally left c before s ran idle e (ground arith))
              | inl retry ↦ elim (Bool-cases (ltb attempt 5)) [
                | inl again_later ↦
                    rw (other, retry, again_later)
                      (paused-Tally left c before counted ran idle (again e)
                        (backoff env attempt counted) (ground arith) made.0 made.1
                        (backoff-cancelled attempt counted) (rest waited (ground arith)))
                | inr last ↦
                    rw (other, retry, last)
                      (last-Tally left c before counted ran idle (again e (suc c, counted))
                        (ground arith) (rest counted open_pool))
              ]
            ]
          ]

      ran-Tally :
          (left attempt c : ℕ) (before : State W) (run : Outcome A × (ℕ × State W))
          (again : Exception → Exec (ℕ × State W) A)
          → left + attempt ≡ 5
          → ((e : Exception) (t : State W)
              → t.pool ≡ true
              → Tally left (suc c) t (again e (suc c, t)))
          → run.1.0 ≡ suc c
          → inserts run.1.1 ≡ suc (inserts before)
          → sleeps run.1.1 ≡ sleeps before
          → run.1.1.pool ≡ true
          → Tally (suc left) c before (recover (on_failure env coro attempt again) run)
      ran-Tally left attempt c before (ok a, (c', s)) again sum rest one ran idle open_pool =
          ground arith
      ran-Tally left attempt c before (raised e, (c', s)) again sum rest one ran idle open_pool =
          rw one (on_failure-Tally left attempt c before s e again sum (rest e) ran idle open_pool)

      retry_from-Tally :
          CountsRuns coro
          → (left attempt c : ℕ) (last : Option Exception) (s : State W) → left + attempt ≡ 6
          → s.pool ≡ true
          → Tally left c s (retry_from env coro left attempt last (c, s))
      unfolding retry_from
      retry_from-Tally counts zero attempt c none s sum open_pool = omega arith
      retry_from-Tally counts zero attempt c (some e) s sum open_pool = omega arith
      retry_from-Tally counts (suc left) attempt c last s sum open_pool =
          let one = counts c s open_pool in
          ran-Tally left attempt c s (coro (c, s))
            (λ exc. retry_from env coro left (attempt + 1) (some exc)) (omega arith)
            (λ e t. retry_from-Tally counts left (attempt + 1) (suc c) (some e) t (omega arith))
            one.0 one.1 one.2 one.3

      -- Of five attempts, the counter tells how many were made.
      pub with_retry-Tally :
          CountsRuns coro → (s : State W) → s.pool ≡ true → Tally 5 0 s (with_retry env coro (0, s))
      unfolding with_retry
      with_retry-Tally counts s open_pool = retry_from-Tally counts 5 1 0 none s refl open_pool

-- What holds after each run of the closure that returns holds when `with_retry` returns.
module _ {W C A : Type 0} (env : Environment W) (coro : Exec (C × State W) A)
    (Q : A → C × State W → Type 0) (one : (x : C × State W) → Returns Q (coro x)) where
  on_failure-Returns :
      (attempt : ℕ) (again : Exception → Exec (C × State W) A) (e : Exception) (x : C × State W)
      → ((y : C × State W) → Returns Q (again e y))
      → Returns Q (on_failure env coro attempt again e x)
  unfolding on_failure
  on_failure-Returns attempt again e x rest =
      Returns-if Q (is_value_error e.class) _ _ x (λ value. Returns-raised Q e x)
        λ other.
          Returns-if Q (is_exception e.class) _ _ x
            (λ retry. Returns-continue Q (λ _. again e) _ (λ b waited. rest _))
            (λ base. Returns-raised Q e x)

  retry_from-Returns :
      (left attempt : ℕ) (last : Option Exception) (x : C × State W)
      → Returns Q (retry_from env coro left attempt last x)
  unfolding retry_from
  retry_from-Returns zero attempt none x = Returns-raised Q assertion_error x
  retry_from-Returns zero attempt (some e) x = Returns-raised Q e x
  retry_from-Returns (suc left) attempt last x =
      let again = λ (e : Exception). retry_from env coro left (attempt + 1) (some e) in
      Returns-recover Q (on_failure env coro attempt again) (coro x) (one x) λ e ended.
        on_failure-Returns attempt again e (coro x).1
          (retry_from-Returns left (attempt + 1) (some e))

  pub with_retry-Returns : (x : C × State W) → Returns Q (with_retry env coro x)
  unfolding with_retry
  with_retry-Returns = retry_from-Returns 5 1 none
