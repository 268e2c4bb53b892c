-- ===== src/Ingestion/Lifespan.antt =====
-- apps/ingestion/main.py: `lifespan` around the run of the service, `healthz` and `readyz`.
pub mod Releases
use iotflow_distributed_syst.Base.{ℕ, Bool, true, false, if◌then◌else◌}
use iotflow_distributed_syst.Exec.{
  Outcome, Exec, pure, gets, ◌>>=◌, ◌>>◌, try_except, finally_call, except_exception,
}
use iotflow_distributed_syst.Ingestion.Config.{metrics_port}
use iotflow_distributed_syst.Ingestion.Services.{Environment, State, Call, perform}
use iotflow_distributed_syst.Ingestion.Producer.{start, stop}

-- The HTTP code of `healthz`.
abbrev pub healthz : ℕ
healthz = 200

-- The answer of `readyz`: the HTTP code and the two checks, whether each reads "ok".
pub record Readiness : Type 0 where
  pub http_code : ℕ
  pub kafka_ok : Bool
  pub redis_ok : Bool

module _ {W : Type 0} (env : Environment W) where
  -- `start_metrics_server`, by way of `start_shared_metrics_server`.
  unfoldable pub start_metrics_server : Exec (State W) (Unit {0})
  start_metrics_server =
      perform (env.start_http_server metrics_port) (Call.metrics_started metrics_port)

  -- The check of Redis, where there is a client.
  ping : Bool → Exec (State W) Bool
  ping true =
      try_except (do perform env.redis_ping Call.redis_pinged; pure true)
        (except_exception λ exc. pure false)
  ping false = pure true

  -- `readyz`, by whether `redis_client` is set.
  unfoldable pub readyz : Bool → Exec (State W) Readiness
  unfolding ping
  readyz redis_client = do
    started ← gets (λ s. s.started)
    redis ← ping redis_client
    pure (record { http_code = if started then 200 else 503; kafka_ok = started; redis_ok = redis })

  -- `lifespan`. `serve` is what happens from the start of the three tasks to the end of the `yield`,
  -- and `gather` what happens while the `finally` block waits for the tasks that it has cancelled: a
  -- cancellation of `lifespan` may be raised in either.
  unfoldable pub lifespan :
      Exec (State W) (Unit {0}) → Exec (State W) (Unit {0}) → Exec (State W) (Unit {0})
  unfolding start stop start_metrics_server
  lifespan serve gather = do
    start_metrics_server
    start env
    finally_call serve (do gather; stop env; perform env.redis_close Call.redis_closed)
