-- ===== src/Ingestion/Producer.antt =====
-- apps/ingestion/kafka_producer.py: `KafkaProducerClient`, once `start` has been called or not.
pub mod Batches
use iotflow_distributed_syst.Base.{
  true, Option, none, some, text_eq, Bool, List, [], ◌∷◌, Text, str, if◌then◌else◌,
}
use iotflow_distributed_syst.Exec.{
  ErrorClass, Exception, is_kafka_error, Exec, ok, raised, pure, raise, modify, ◌>>=◌, ◌>>◌,
  try_except,
}
use iotflow_distributed_syst.Ingestion.Config.{kafka_acks, kafka_linger, kafka_compression_type}
use iotflow_distributed_syst.Ingestion.Services.{
  ProducerOptions, Environment, State, Metrics, Message, Call, perform, count, inc,
}

abbrev not_started : Exception
not_started = record {
  class = ErrorClass.runtime_error;
  name = str "RuntimeError";
  message = str "KafkaProducerClient not started";
}

abbrev produce_error : Text → Metrics → Metrics
produce_error error_type m = record m {
  kafka_produce_errors = inc error_type m.kafka_produce_errors;
}

-- The compression of the settings, where "none" stands for no compression.
abbrev pub producer_options : ProducerOptions
producer_options = record {
  acks = kafka_acks;
  linger = kafka_linger;
  compression_type =
      if text_eq kafka_compression_type (str "none") then none else some kafka_compression_type;
  enable_idempotence = true;
}

module _ {W : Type 0} (env : Environment W) where
  -- `if self._producer is None: raise RuntimeError`
  unfoldable pub require_started : Exec (State W) (Unit {0})
  require_started s = if s.started then (ok tt, s) else (raised not_started, s)

  -- The `except KafkaError` block of both methods.
  unfoldable pub count_kafka_error : Exception → Exec (State W) (Unit {0})
  count_kafka_error exc =
      if is_kafka_error exc.class
      then (do modify (count (produce_error exc.name)); raise exc)
      else raise exc

  -- `self._producer` is set before its `start` is awaited.
  unfoldable pub start : Exec (State W) (Unit {0})
  start = do
    modify (λ s. record s { started = true })
    perform (env.producer_start producer_options) (Call.producer_started producer_options)

  -- `self._producer` is not reset.
  unfoldable pub stop : Exec (State W) (Unit {0})
  stop s = if s.started then perform env.producer_stop Call.producer_stopped s else pure tt s

  unfoldable pub produce : Message → Exec (State W) (Unit {0})
  unfolding require_started count_kafka_error
  produce message = do
    require_started
    try_except (perform (env.send_and_wait message) (Call.send_and_wait message)) count_kafka_error

  -- The loop of `produce_batch`; the futures are kept and never awaited.
  unfoldable pub send_all : List Message → Exec (State W) (Unit {0})
  send_all [] = pure tt
  send_all (message ∷ rest) = do perform (env.send message) (Call.send message); send_all rest

  unfoldable pub produce_batch : List Message → Exec (State W) (Unit {0})
  unfolding require_started count_kafka_error send_all
  produce_batch [] = require_started
  produce_batch (message ∷ rest) = do
    require_started
    try_except (do send_all (message ∷ rest); perform env.flush Call.flush) count_kafka_error
