-- ===== src/Ingestion/RateLimiter.antt =====
-- apps/ingestion/rate_limiter.py: the Lua script, and the call of it.
pub mod Window
pub mod FixedWindow
use iotflow_distributed_syst.Base.{ℕ, ◌++◌, Bool, true, not, Text, str, ltb, ◌==◌, if◌then◌else◌}
use iotflow_distributed_syst.Exec.{Exec, pure, ◌>>=◌, try_except, except_exception}
use iotflow_distributed_syst.Ingestion.Config.{
  rate_limit_window_seconds, rate_limit_window_text, rate_limit_max_events,
}
use iotflow_distributed_syst.Ingestion.Services.{Environment, State, Call, perform}

module _ {W : Type 0} (env : Environment W) where
  abbrev expire_first : Text → ℕ → ℕ × W → W
  expire_first key window (current, w) = if current == 1 then env.redis_expire key window w else w

  abbrev verdict : Text → ℕ → ℕ → ℕ × W → ℕ × W
  verdict key limit window (current, w) =
      (if ltb limit current then 0 else 1, expire_first key window (current, w))

  -- `_RATE_LIMIT_LUA`, with its KEYS and ARGV.
  unfoldable pub rate_limit_lua : Text → ℕ → ℕ → W → ℕ × W
  rate_limit_lua key limit window w = verdict key limit window (env.redis_incr key w)

  unfoldable pub limit_key : Text → Text
  limit_key device_id =
      str "iotflow:ratelimit:" ++ (device_id ++ (str ":" ++ (rate_limit_window_text ++ str "s")))

  unfoldable pub is_allowed : Text → Exec (State W) Bool
  is_allowed device_id =
      try_except
        (do
          result ←
              perform
                (env.run_script (
                  rate_limit_lua (limit_key device_id) rate_limit_max_events
                    rate_limit_window_seconds))
                (Call.script (limit_key device_id))
          pure (not (result == 0)))
        (except_exception λ exc. pure true)
