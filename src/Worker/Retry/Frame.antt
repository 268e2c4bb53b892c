-- ===== src/Worker/Retry/Frame.antt =====
-- `with_retry` of apps/worker/retry.py keeps a frame condition if the closure does.
use iotflow_distributed_syst.Base.{ℕ, zero, suc, ◌+◌, Option, none, some}
use iotflow_distributed_syst.Exec.{Exec, Exception, modify, on_state}
use iotflow_distributed_syst.Exec.Keeps.{
  Keeps, Keeps-on_state, IsFrame, Beside, Beside-IsFrame, keeps_rules,
}
use iotflow_distributed_syst.Worker.Services.{Environment, State, count}
use iotflow_distributed_syst.Worker.Retry.{backoff, retried, on_failure, retry_from, with_retry}
use iotflow_distributed_syst.Worker.Frames.{Allows}
use iotflow_distributed_syst.Worker.Frames.Services.{backoff-Keeps, retried-Keeps}

module _ {W C A : Type 0} (env : Environment W) (R : State W → State W → Type 0)
    (allows : Allows env R) (coro : Exec (C × State W) A)
    (kept : Keeps (Beside {C = C} R) coro) where
  beside : IsFrame (Beside {C = C} R)
  beside = Beside-IsFrame R allows.frame

  retries : (n : ℕ) → Keeps (Beside {C = C} R) (on_state (modify (count (retried n))))
  retries n = Keeps-on_state R _ (retried-Keeps env R allows n)

  backs_off : (n : ℕ) → Keeps (Beside {C = C} R) (on_state (backoff env n))
  backs_off n = Keeps-on_state R _ (backoff-Keeps env R allows n)

  on_failure-Keeps :
      (attempt : ℕ) (again : Exception → Exec (C × State W) A)
      → ((e : Exception) → Keeps (Beside {C = C} R) (again e))
      → (e : Exception) → Keeps (Beside {C = C} R) (on_failure env coro attempt again e)
  unfolding on_failure
  on_failure-Keeps attempt again rest e =
      search (keeps_rules, beside, retries, backs_off, rest) depth 12

  retry_from-Keeps :
      (left attempt : ℕ) (last : Option Exception)
      → Keeps (Beside {C = C} R) (retry_from env coro left attempt last)
  unfolding retry_from
  retry_from-Keeps zero attempt none = search (keeps_rules, beside)
  retry_from-Keeps zero attempt (some e) = search (keeps_rules, beside)
  retry_from-Keeps (suc left) attempt last = search (
    keeps_rules,
    beside,
    kept,
    on_failure-Keeps,
    λ (e : Exception). retry_from-Keeps left (attempt + 1) (some e),
  )

  pub with_retry-Keeps : Keeps (Beside {C = C} R) (with_retry env coro)
  unfolding with_retry
  with_retry-Keeps = retry_from-Keeps 5 1 none
