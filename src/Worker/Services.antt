-- ===== src/Worker/Services.antt =====
-- What the worker calls and does not implement (Redis, PostgreSQL through asyncpg, the Kafka
-- clients, the clock, uuid4, random), and the state that its functions share.
pub mod Trace
use iotflow_distributed_syst.Base.{
  ℕ, ◌+◌, Bool, List, [], ◌∷◌, Option, Text, text_eq, if◌then◌else◌,
}
use iotflow_distributed_syst.Exec.{Outcome, Exec}
use iotflow_distributed_syst.Python.{Value, Dict, Datetime, Runtime}
use iotflow_distributed_syst.Shared.Models.{IoTEvent}

-- The SQL statements of apps/worker/db.py with their arguments; a dict stands for its JSON text.
pub data Statement : Type 0 where
  -- INSERT INTO events … ON CONFLICT (event_id, ingested_at) DO NOTHING
  insert_event : IoTEvent → Statement
  -- INSERT INTO devices … ON CONFLICT DO NOTHING
  insert_device : Text → Statement
  -- INSERT INTO device_state … ON CONFLICT (device_id) DO UPDATE …
  upsert_device_state : Text → Text → Text → Datetime → Dict → Statement
  -- INSERT INTO dlq_events … ON CONFLICT DO NOTHING
  insert_dlq_event : Value → Value → Text → Dict → Text → ℕ → Statement

-- The dict `dlq_envelope` of apps/worker/retry.py.
pub record DlqEnvelope : Type 0 where
  pub dlq_id : Text
  pub original_event : Dict
  pub original_topic : Text
  pub original_partition : Option ℕ
  pub original_offset : Option ℕ
  pub error_type : Text
  pub error_message : Text
  pub retry_count : ℕ
  pub failed_at : Text
  pub worker_id : Text

-- Each answers a call in a world `W`, and leaves another world.
pub record Environment (W : Type 0) : Type 0 where
  pub py : Runtime
  -- `redis.set(key, "1", nx=True, ex=ttl)`: whether the reply is not None.
  pub redis_set_nx : Text → ℕ → W → Outcome Bool × W
  -- `pipe.execute()` of a pipeline of such commands.
  pub redis_pipeline : List (Text × ℕ) → W → Outcome (List Bool) × W
  pub redis_delete : Text → W → Outcome (Unit {0}) × W
  -- `pool.execute`, which returns the command tag.
  pub pool_execute : Statement → W → Outcome Text × W
  -- `producer.send_and_wait(topic, value, key)` of the DLQ producer.
  pub send_and_wait : Text → DlqEnvelope → Text → W → Outcome (Unit {0}) × W
  pub sleep : ℕ → W → Outcome (Unit {0}) × W
  -- `random.uniform(a, b)` as its distance from `a`, given `b - a`.
  pub uniform : ℕ → W → ℕ × W
  pub uuid4 : W → Text × W
  -- `datetime.now(timezone.utc).isoformat()`
  pub now : W → Text × W

-- A call and its answer.
pub data Call : Type 0 where
  set_nx : Text → Outcome Bool → Call
  pipeline : List (Text × ℕ) → Outcome (List Bool) → Call
  delete : Text → Outcome (Unit {0}) → Call
  execute : Statement → Outcome Text → Call
  dlq_send : Text → DlqEnvelope → Text → Outcome (Unit {0}) → Call
  sleep : ℕ → Outcome (Unit {0}) → Call

-- A Prometheus counter with one label: its value at each label.
abbrev pub Counter : Type 0
Counter = Text → ℕ

abbrev pub inc : Text → Counter → Counter
inc label c l = if text_eq l label then c l + 1 else c l

-- apps/worker/metrics.py, but for the histograms and the consumer's metrics.
pub record Metrics : Type 0 where
  pub events_processed : Counter
  pub events_duplicate : ℕ
  pub events_dlq : Counter
  -- by the attempt's number
  pub retry_attempts : ℕ → ℕ
  pub db_errors : Counter
  pub active_tasks : ℕ

-- `calls` lists the calls with their answers, the latest first; the program does not read it.
pub record State (W : Type 0) : Type 0 where
  pub world : W
  pub calls : List Call
  -- `db._pool is not None`
  pub pool : Bool
  pub metrics : Metrics

module _ {W A : Type 0} where
  abbrev answered : (Outcome A → Call) → State W → Outcome A × W → Outcome A × State W
  answered call s (r, w) = (r, record s { world = w; calls = call r ∷ s.calls })

  -- An awaited call of a service, noted in the trace.
  unfoldable pub perform : (W → Outcome A × W) → (Outcome A → Call) → Exec (State W) A
  perform op call s = answered call s (op s.world)

  abbrev drawn : State W → A × W → Outcome A × State W
  drawn s (a, w) = (Outcome.ok a, record s { world = w })

  -- A call that always returns and that no property depends on: a clock, a source of randomness.
  unfoldable pub draw : (W → A × W) → Exec (State W) A
  draw op s = drawn s (op s.world)

abbrev pub count : {W : Type 0} → (Metrics → Metrics) → State W → State W
count f s = record s { metrics = f s.metrics }
