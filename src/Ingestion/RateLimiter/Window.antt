-- ===== src/Ingestion/RateLimiter/Window.antt =====
-- The per-device limit of apps/ingestion/rate_limiter.py within one window.
use iotflow_distributed_syst.Base.{
  ℕ, zero, suc, ◌+◌, ◌-◌, ◌≡◌, ◌≢◌, min, Bool, true, Text, ltb, arith, if◌then◌else◌,
}
use iotflow_distributed_syst.Exec.{Outcome, ok, raised, Exception, is_exception}
use iotflow_distributed_syst.Ingestion.Config.{rate_limit_max_events, rate_limit_window_seconds}
use iotflow_distributed_syst.Ingestion.Services.{Environment, State, perform}
use iotflow_distributed_syst.Ingestion.RateLimiter.{rate_limit_lua, limit_key, is_allowed}

-- What Redis documents of INCR and EXPIRE, for the time in which no counter expires: INCR adds one
-- to the counter of its key and returns the sum, EXPIRE changes no counter; and, while Redis can be
-- reached, a script is run once, as one step, and its result returned.
pub record CounterLaws {W : Type 0} (env : Environment W) : Type 0 where
  pub counter : Text → W → ℕ
  pub incr_returns : (k : Text) (w : W) → (env.redis_incr k w).0 ≡ counter k w + 1
  pub incr_counts : (k : Text) (w : W) → counter k (env.redis_incr k w).1 ≡ counter k w + 1
  pub incr_others : (j k : Text) (w : W) → j ≢ k → counter j (env.redis_incr k w).1 ≡ counter j w
  pub expire_keeps :
      (j k : Text) (seconds : ℕ) (w : W) → counter j (env.redis_expire k seconds w) ≡ counter j w
  pub script_runs :
      (script : W → ℕ × W) (w : W) → env.run_script script w ≡ (ok (script w).0, (script w).1)

module _ {W : Type 0} (env : Environment W) (laws : CounterLaws env) where
  lua-counts :
      (key : Text) (limit window : ℕ) (w : W)
      → ((rate_limit_lua env key limit window w).0
          ≡ (if ltb limit (laws.counter key w + 1) then 0 else 1))
        × (laws.counter key (rate_limit_lua env key limit window w).1 ≡ laws.counter key w + 1)
  unfolding rate_limit_lua
  lua-counts key limit window w = ground (
    arith,
    laws.incr_returns key w,
    laws.incr_counts key w,
    laws.expire_keeps key key window (env.redis_incr key w).1,
  )

  -- One call: allowed exactly while fewer than 100 have been counted, and it is counted itself.
  is_allowed-counts :
      (device_id : Text) (s : State W)
      → ((is_allowed env device_id s).0
          ≡ ok (ltb (laws.counter (limit_key env device_id) s.world) rate_limit_max_events))
        × (laws.counter (limit_key env device_id) (is_allowed env device_id s).1.world
            ≡ laws.counter (limit_key env device_id) s.world + 1)
  unfolding is_allowed perform
  is_allowed-counts device_id s =
      let key = limit_key env device_id in
      ground (
        arith,
        laws.script_runs (rate_limit_lua env key rate_limit_max_events rate_limit_window_seconds)
            s.world,
        lua-counts key rate_limit_max_events rate_limit_window_seconds s.world,
      )

  abbrev allowed : Outcome Bool → ℕ
  allowed (ok true) = 1
  allowed _ = 0

  -- How many of `n` calls for the device are allowed.
  pub allowed_of : Text → ℕ → State W → ℕ
  allowed_of device_id zero s = 0
  allowed_of device_id (suc n) s =
      let out = is_allowed env device_id s in allowed out.0 + allowed_of device_id n out.1

  -- Of any number of events of one device within a window, those are let through that the limit
  -- of 100 still leaves, no more and no fewer.
  pub allowed_of-eq-min :
      (device_id : Text) (n : ℕ) (s : State W)
      → allowed_of device_id n s
        ≡ min n (rate_limit_max_events - laws.counter (limit_key env device_id) s.world)
  unfolding allowed_of
  allowed_of-eq-min device_id zero s = omega arith
  allowed_of-eq-min device_id (suc n) s = ground (
    arith,
    is_allowed-counts device_id s,
    allowed_of-eq-min device_id n (is_allowed env device_id s).1,
  )

-- When Redis fails, every event is let through.
pub is_allowed_fails_open :
    {W : Type 0} (env : Environment W) (device_id : Text) (s : State W) (exc : Exception)
    → (env.run_script
        (rate_limit_lua env
          (limit_key env device_id)
          rate_limit_max_events
          rate_limit_window_seconds)
        s.world).0
      ≡ raised exc
    → is_exception exc.class ≡ true
    → (is_allowed env device_id s).0 ≡ ok true
unfolding is_allowed perform
is_allowed_fails_open env device_id s exc failed caught = ground arith
