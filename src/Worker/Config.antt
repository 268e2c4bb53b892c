-- ===== src/Worker/Config.antt =====
-- apps/worker/config.py: the settings that the modelled code reads, at their defaults. Times are in
-- milliseconds, and the jitter factor is in hundredths.
use iotflow_distributed_syst.Base.{ℕ, Text, str}

abbrev pub kafka_topic_raw : Text
kafka_topic_raw = str "iot.events.raw"

abbrev pub kafka_topic_dlq : Text
kafka_topic_dlq = str "iot.events.dlq"

abbrev pub worker_id : Text
worker_id = str "worker-1"

abbrev pub retry_max_attempts : ℕ
retry_max_attempts = 5

abbrev pub retry_base_delay : ℕ
retry_base_delay = 1000

abbrev pub retry_multiplier : ℕ
retry_multiplier = 2

abbrev pub retry_max_delay : ℕ
retry_max_delay = 30000

abbrev pub retry_jitter_percent : ℕ
retry_jitter_percent = 25

abbrev pub max_concurrent_tasks : ℕ
max_concurrent_tasks = 50

abbrev pub idempotency_ttl_seconds : ℕ
idempotency_ttl_seconds = 259200

abbrev pub kafka_consumer_group : Text
kafka_consumer_group = str "iotflow-workers"

abbrev pub kafka_auto_offset_reset : Text
kafka_auto_offset_reset = str "earliest"

abbrev pub kafka_max_poll_records : ℕ
kafka_max_poll_records = 100

abbrev pub kafka_session_timeout : ℕ
kafka_session_timeout = 30000

abbrev pub kafka_heartbeat_interval : ℕ
kafka_heartbeat_interval = 10000

abbrev pub db_pool_min_size : ℕ
db_pool_min_size = 5

abbrev pub db_pool_max_size : ℕ
db_pool_max_size = 20

abbrev pub db_command_timeout : ℕ
db_command_timeout = 10000

abbrev pub metrics_port : ℕ
metrics_port = 9101
