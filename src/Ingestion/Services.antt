-- ===== src/Ingestion/Services.antt =====
-- What the ingestion service calls and does not implement (Redis, aiokafka, uuid4), and the state
-- that its functions share.
use iotflow_distributed_syst.Base.{ℕ, ◌+◌, Bool, List, ◌∷◌, Option, Text, text_eq, if◌then◌else◌}
use iotflow_distributed_syst.Exec.{Outcome, Exec}
use iotflow_distributed_syst.Python.{Dict, Runtime}

-- A record for Kafka: topic, value and key.
pub record Message : Type 0 where
  pub topic : Text
  pub value : Dict
  pub key : Option Text

-- What `AIOKafkaProducer` is given, but for the address and the serializers; the linger is in
-- milliseconds.
pub record ProducerOptions : Type 0 where
  pub acks : Text
  pub linger : ℕ
  pub compression_type : Option Text
  pub enable_idempotence : Bool

-- Each answers a call in a world `W`, and leaves another world.
pub record Environment (W : Type 0) : Type 0 where
  pub py : Runtime
  -- The commands that the Lua script calls.
  pub redis_incr : Text → W → ℕ × W
  pub redis_expire : Text → ℕ → W → W
  -- Runs a registered script in Redis.
  pub run_script : (W → ℕ × W) → W → Outcome ℕ × W
  pub send_and_wait : Message → W → Outcome (Unit {0}) × W
  pub send : Message → W → Outcome (Unit {0}) × W
  pub flush : W → Outcome (Unit {0}) × W
  pub uuid4 : W → Text × W
  -- `start` and `stop` of the AIOKafkaProducer, given its options.
  pub producer_start : ProducerOptions → W → Outcome (Unit {0}) × W
  pub producer_stop : W → Outcome (Unit {0}) × W
  -- `start_http_server(port)` of prometheus_client.
  pub start_http_server : ℕ → W → Outcome (Unit {0}) × W
  -- `ping` and `aclose` of the Redis client.
  pub redis_ping : W → Outcome (Unit {0}) × W
  pub redis_close : W → Outcome (Unit {0}) × W

-- A call and its answer.
pub data Call : Type 0 where
  script : Text → Outcome ℕ → Call
  send_and_wait : Message → Outcome (Unit {0}) → Call
  send : Message → Outcome (Unit {0}) → Call
  flush : Outcome (Unit {0}) → Call
  metrics_started : ℕ → Outcome (Unit {0}) → Call
  producer_started : ProducerOptions → Outcome (Unit {0}) → Call
  producer_stopped : Outcome (Unit {0}) → Call
  redis_pinged : Outcome (Unit {0}) → Call
  redis_closed : Outcome (Unit {0}) → Call

-- A Prometheus counter with one label: its value at each label.
abbrev pub Counter : Type 0
Counter = Text → ℕ

abbrev pub inc : Text → Counter → Counter
inc label c l = if text_eq l label then c l + 1 else c l

-- The counters of apps/ingestion/metrics.py.
pub record Metrics : Type 0 where
  -- by device_id and event_type
  pub events_received : Text → Counter
  pub events_validated : ℕ
  pub events_dropped : Counter
  pub kafka_produce_errors : Counter

-- `calls` lists the calls with their answers, the latest first; the program does not read it.
pub record State (W : Type 0) : Type 0 where
  pub world : W
  pub calls : List Call
  -- `KafkaProducerClient._producer is not None`
  pub started : Bool
  pub metrics : Metrics

module _ {W A : Type 0} where
  abbrev answered : (Outcome A → Call) → State W → Outcome A × W → Outcome A × State W
  answered call s (r, w) = (r, record s { world = w; calls = call r ∷ s.calls })

  unfoldable pub perform : (W → Outcome A × W) → (Outcome A → Call) → Exec (State W) A
  perform op call s = answered call s (op s.world)

  abbrev drawn : State W → A × W → Outcome A × State W
  drawn s (a, w) = (Outcome.ok a, record s { world = w })

  unfoldable pub draw : (W → A × W) → Exec (State W) A
  draw op s = drawn s (op s.world)

abbrev pub count : {W : Type 0} → (Metrics → Metrics) → State W → State W
count f s = record s { metrics = f s.metrics }

abbrev pub dropped : Text → Metrics → Metrics
dropped reason m = record m { events_dropped = inc reason m.events_dropped }
