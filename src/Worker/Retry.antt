-- ===== src/Worker/Retry.antt =====
-- apps/worker/retry.py: `_compute_delay` and `with_retry`.
pub mod Delay
pub mod Attempts
pub mod Frame
use iotflow_distributed_syst.Base.{
  ℕ, zero, suc, ◌+◌, ◌-◌, ◌*◌, ◌/◌, ◌^◌, min, Bool, Option, none, some, Text, str, ltb, ◌==◌,
  if◌then◌else◌,
}
use iotflow_distributed_syst.Exec.{
  ErrorClass, Exception, is_exception, is_value_error, Exec, pure, raise, modify, ◌>>=◌, ◌>>◌,
  try_except, on_state,
}
use iotflow_distributed_syst.Worker.Config.{
  retry_max_attempts, retry_base_delay, retry_multiplier, retry_max_delay, retry_jitter_percent,
}
use iotflow_distributed_syst.Worker.Services.{
  Environment, State, Metrics, Call, perform, draw, count,
}

-- The delay before the jitter, in milliseconds.
unfoldable pub base_delay : ℕ → ℕ
base_delay attempt = min (retry_base_delay * retry_multiplier ^ (attempt - 1)) retry_max_delay

unfoldable pub jitter_range : ℕ → ℕ
jitter_range delay = delay * retry_jitter_percent / 100

abbrev pub retried : ℕ → Metrics → Metrics
retried attempt m = record m {
  retry_attempts = λ n. if n == attempt then m.retry_attempts n + 1 else m.retry_attempts n;
}

-- `assert last_exc is not None`
abbrev pub assertion_error : Exception
assertion_error = record {
  class = ErrorClass.other_error;
  name = str "AssertionError";
  message = str "";
}

module _ {W : Type 0} (env : Environment W) where
  -- `delay + random.uniform(-jitter_range, jitter_range)`
  unfoldable pub compute_delay : ℕ → Exec (State W) ℕ
  compute_delay attempt = do
    let delay = base_delay attempt
    let range = jitter_range delay
    distance ← draw (env.uniform (2 * range))
    pure (delay - range + distance)

  unfoldable pub backoff : ℕ → Exec (State W) (Unit {0})
  unfolding compute_delay
  backoff attempt = do delay ← compute_delay attempt; perform (env.sleep delay) (Call.sleep delay)

module _ {W C A : Type 0} (env : Environment W) (coro : Exec (C × State W) A) where
  -- The two `except` blocks; `again` is the rest of the loop.
  on_failure : ℕ → (Exception → Exec (C × State W) A) → Exception → Exec (C × State W) A
  on_failure attempt again exc =
      if is_value_error exc.class
      then raise exc
      else if is_exception exc.class
      then (do
        on_state (modify (count (retried attempt)))
        (if ltb attempt retry_max_attempts then on_state (backoff env attempt) else pure tt)
        again exc)
      else raise exc

  -- The loop from this attempt on, with the number of attempts that are left and `last_exc`.
  retry_from : ℕ → ℕ → Option Exception → Exec (C × State W) A
  unfolding on_failure
  retry_from zero attempt none = raise assertion_error
  retry_from zero attempt (some last_exc) = raise last_exc
  retry_from (suc left) attempt last_exc =
      try_except coro (on_failure attempt (λ exc. retry_from left (attempt + 1) (some exc)))

  -- `with_retry(coro_fn)`: `C` holds the variables that the closure changes.
  unfoldable pub with_retry : Exec (C × State W) A
  unfolding retry_from
  with_retry = retry_from retry_max_attempts 1 none
