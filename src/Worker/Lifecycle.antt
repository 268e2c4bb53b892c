-- ===== src/Worker/Lifecycle.antt =====
-- apps/worker/main.py, with `init_pool` and `close_pool` of apps/worker/db.py and
-- `run_consumer_loop` of apps/worker/consumer.py: how the clients are started and stopped.
pub mod Releases
use iotflow_distributed_syst.Base.{ℕ, Bool, true, false, List, [], ◌∷◌, Text, if◌then◌else◌}
use iotflow_distributed_syst.Exec.{
  Outcome, ok, raised, Exception, is_exception, Exec, pure, raise, modify, ◌>>=◌, ◌>>◌, try_except,
  finally_call, except_exception,
}
use iotflow_distributed_syst.Worker.Config.{
  kafka_topic_raw, kafka_consumer_group, kafka_auto_offset_reset, kafka_max_poll_records,
  kafka_session_timeout, kafka_heartbeat_interval, db_pool_min_size, db_pool_max_size,
  db_command_timeout, metrics_port,
}

-- What `asyncpg.create_pool` is given, but for the address and the name; times in milliseconds.
pub record PoolOptions : Type 0 where
  pub min_size : ℕ
  pub max_size : ℕ
  pub command_timeout : ℕ

-- What `AIOKafkaConsumer` is given, but for the address and the deserializers.
pub record ConsumerOptions : Type 0 where
  pub topic : Text
  pub group_id : Text
  pub auto_offset_reset : Text
  pub enable_auto_commit : Bool
  pub max_poll_records : ℕ
  pub session_timeout : ℕ
  pub heartbeat_interval : ℕ

abbrev pub pool_options : PoolOptions
pool_options = record {
  min_size = db_pool_min_size;
  max_size = db_pool_max_size;
  command_timeout = db_command_timeout;
}

abbrev pub consumer_options : ConsumerOptions
consumer_options = record {
  topic = kafka_topic_raw;
  group_id = kafka_consumer_group;
  auto_offset_reset = kafka_auto_offset_reset;
  enable_auto_commit = false;
  max_poll_records = kafka_max_poll_records;
  session_timeout = kafka_session_timeout;
  heartbeat_interval = kafka_heartbeat_interval;
}

-- The clients, each call answered in a world `W`. `consume` is the run of `_consume`, until the
-- iteration over the consumer ends, raises or is cancelled.
pub record Clients (W : Type 0) : Type 0 where
  -- `start_http_server(port)` of prometheus_client.
  pub start_http_server : ℕ → W → Outcome (Unit {0}) × W
  pub create_pool : PoolOptions → W → Outcome (Unit {0}) × W
  pub pool_close : W → Outcome (Unit {0}) × W
  pub redis_ping : W → Outcome (Unit {0}) × W
  pub redis_close : W → Outcome (Unit {0}) × W
  pub dlq_start : W → Outcome (Unit {0}) × W
  pub dlq_stop : W → Outcome (Unit {0}) × W
  pub consumer_start : ConsumerOptions → W → Outcome (Unit {0}) × W
  pub consumer_stop : W → Outcome (Unit {0}) × W
  pub consume : W → Outcome (Unit {0}) × W

-- A call of a client and its answer.
pub data Action : Type 0 where
  metrics_started : ℕ → Outcome (Unit {0}) → Action
  pool_created : PoolOptions → Outcome (Unit {0}) → Action
  pool_closed : Outcome (Unit {0}) → Action
  redis_pinged : Outcome (Unit {0}) → Action
  redis_closed : Outcome (Unit {0}) → Action
  dlq_started : Outcome (Unit {0}) → Action
  dlq_stopped : Outcome (Unit {0}) → Action
  consumer_started : ConsumerOptions → Outcome (Unit {0}) → Action
  consumer_stopped : Outcome (Unit {0}) → Action
  consumed : Outcome (Unit {0}) → Action

-- `pool` is `db._pool is not None`; `actions` lists what was called, the latest first.
pub record Process (W : Type 0) : Type 0 where
  pub world : W
  pub pool : Bool
  pub actions : List Action

module _ {W : Type 0} where
  abbrev acted :
      (Outcome (Unit {0}) → Action)
      → Process W
      → Outcome (Unit {0}) × W
      → Outcome (Unit {0}) × Process W
  acted action p (r, w) = (r, record p { world = w; actions = action r ∷ p.actions })

  unfoldable pub act :
      (W → Outcome (Unit {0}) × W) → (Outcome (Unit {0}) → Action) → Exec (Process W) (Unit {0})
  act op action p = acted action p (op p.world)

-- How a task ended is dropped: the process goes on as if it had returned.
abbrev dropped : {S : Type 0} → Outcome (Unit {0}) × S → Outcome (Unit {0}) × S
dropped (r, s) = (ok tt, s)

module _ {W : Type 0} (clients : Clients W) where
  -- `_pool` is set when `create_pool` has returned.
  unfoldable pub init_pool : Exec (Process W) (Unit {0})
  init_pool = do
    act (clients.create_pool pool_options) (Action.pool_created pool_options)
    modify (λ p. record p { pool = true })

  -- `_pool` is not reset.
  unfoldable pub close_pool : Exec (Process W) (Unit {0})
  close_pool p = if p.pool then act clients.pool_close Action.pool_closed p else pure tt p

  -- The two `except` blocks of `run_consumer_loop`: a cancellation ends it, a KafkaError goes on, as
  -- does what neither block takes.
  abbrev loop_ended : Exception → Exec (Process W) (Unit {0})
  loop_ended exc = if is_exception exc.class then raise exc else pure tt

  unfoldable pub run_consumer_loop : Exec (Process W) (Unit {0})
  run_consumer_loop = do
    act clients.dlq_start Action.dlq_started
    finally_call
        (try_except
          (do
            act (clients.consumer_start consumer_options) (Action.consumer_started consumer_options)
            act clients.consume Action.consumed)
          loop_ended)
        (do
          act clients.consumer_stop Action.consumer_stopped
          act clients.dlq_stop Action.dlq_stopped)

  -- The `try` block of `main`. If the consumer's task ends first, it is in `done`, which nobody
  -- reads; if the signal comes first, the task is cancelled, and `gather` drops how it ended. A
  -- cancellation of `main` itself is left out.
  unfoldable pub wait_for_consumer : Exec (Process W) (Unit {0})
  unfolding run_consumer_loop
  wait_for_consumer p = dropped (run_consumer_loop p)

  -- `start_metrics_server`, by way of `start_shared_metrics_server`.
  unfoldable pub start_metrics_server : Exec (Process W) (Unit {0})
  start_metrics_server =
      act (clients.start_http_server metrics_port) (Action.metrics_started metrics_port)

  unfoldable pub main : Exec (Process W) (Unit {0})
  unfolding init_pool close_pool wait_for_consumer start_metrics_server
  main = do
    start_metrics_server
    init_pool
    try_except (act clients.redis_ping Action.redis_pinged) (except_exception λ exc. pure tt)
    finally_call wait_for_consumer (do close_pool; act clients.redis_close Action.redis_closed)
