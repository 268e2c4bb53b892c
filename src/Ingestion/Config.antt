-- ===== src/Ingestion/Config.antt =====
-- apps/ingestion/config.py: the settings that the modelled code reads, at their defaults. Times
-- that the code sleeps are in milliseconds.
use iotflow_distributed_syst.Base.{ℕ, Text, str}

abbrev pub kafka_topic_raw : Text
kafka_topic_raw = str "iot.events.raw"

abbrev pub mqtt_reconnect_delay_min : ℕ
mqtt_reconnect_delay_min = 1000

abbrev pub mqtt_reconnect_delay_max : ℕ
mqtt_reconnect_delay_max = 30000

abbrev pub rate_limit_window_seconds : ℕ
rate_limit_window_seconds = 60

-- RATE_LIMIT_WINDOW_SECONDS as the f-string of the key prints it.
abbrev pub rate_limit_window_text : Text
rate_limit_window_text = str "60"

abbrev pub rate_limit_max_events : ℕ
rate_limit_max_events = 100

abbrev pub kafka_acks : Text
kafka_acks = str "all"

abbrev pub kafka_linger : ℕ
kafka_linger = 5

abbrev pub kafka_compression_type : Text
kafka_compression_type = str "none"

abbrev pub metrics_port : ℕ
metrics_port = 9100
