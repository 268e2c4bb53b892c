-- ===== src/Worker/Retry/Delay.antt =====
-- The bounds of the backoff of apps/worker/retry.py.
use iotflow_distributed_syst.Base.{ℕ, suc, min, ◌-◌, ◌*◌, ◌≤◌, ◌≡◌, refl, arith}
use native.Mathlib.Nat.{pow-suc}
use iotflow_distributed_syst.Exec.{ok}
use iotflow_distributed_syst.Worker.Config.{retry_max_delay}
use iotflow_distributed_syst.Worker.Services.{Environment, State, draw}
use iotflow_distributed_syst.Worker.Retry.{base_delay, jitter_range, compute_delay}

-- What random.uniform documents: the value lies between its two arguments.
abbrev pub UniformInRange : {W : Type 0} → Environment W → Type 0
UniformInRange {W} env = (width : ℕ) (w : W) → (env.uniform width w).0 ≤ width

sub_suc_one : (n : ℕ) → suc n - 1 ≡ n
sub_suc_one n = omega arith

-- The first delay is one second, each one doubles the one before it, and none passes 30 seconds.
pub base_delay-suc :
    (attempt : ℕ)
    → (base_delay 1 ≡ 1000)
      × (base_delay (suc (suc attempt)) ≡ min (2 * base_delay (suc attempt)) retry_max_delay)
      × (base_delay attempt ≤ retry_max_delay)
unfolding base_delay
base_delay-suc attempt = (refl, doubled attempt, omega arith)
  where
    doubled : (n : ℕ) → base_delay (suc (suc n)) ≡ min (2 * base_delay (suc n)) retry_max_delay
    doubled n = rw (sub_suc_one n, sub_suc_one (suc n), pow-suc) (omega arith)

-- Whatever is drawn, the delay before the next attempt is within a quarter of the exponential
-- delay, and drawing it makes no call of a service.
pub compute_delay_bounds :
    {W : Type 0} (env : Environment W)
    → UniformInRange env
    → (attempt : ℕ) (s s' : State W) (d : ℕ) → compute_delay env attempt s ≡ (ok d, s')
    → (3 * base_delay attempt ≤ 4 * d) × (4 * d ≤ 5 * base_delay attempt) × (s'.calls ≡ s.calls)
unfolding compute_delay draw jitter_range
compute_delay_bounds env law attempt s s' d h =
    ground (arith, law (2 * jitter_range (base_delay attempt)) s.world)
