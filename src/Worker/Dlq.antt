-- ===== src/Worker/Dlq.antt =====
-- apps/worker/retry.py: `DLQPublisher`.
pub mod Sends
pub mod Conforms
use iotflow_distributed_syst.Base.{ℕ, ◌++◌, Option, Text, str, if◌then◌else◌}
use iotflow_distributed_syst.Exec.{
  Exception, is_kafka_error, Exec, pure, raise, modify, ◌>>=◌, ◌>>◌, try_except, except_exception,
}
use iotflow_distributed_syst.Python.{Value, Dict, text, get, get_or, is_truthy, encode}
use iotflow_distributed_syst.Worker.Config.{kafka_topic_raw, kafka_topic_dlq, worker_id}
use iotflow_distributed_syst.Worker.Services.{
  Environment, State, Metrics, DlqEnvelope, Call, perform, draw, count, inc,
}
use iotflow_distributed_syst.Worker.Db.{record_dlq_event}

abbrev pub dead_lettered : Text → Metrics → Metrics
dead_lettered error_type m = record m { events_dlq = inc error_type m.events_dlq }

-- The arguments of `send`; the topic has its default in every call.
pub record Failure : Type 0 where
  pub original_event : Dict
  pub error_type : Text
  pub error_message : Text
  pub retry_count : ℕ
  pub original_partition : Option ℕ
  pub original_offset : Option ℕ

abbrev pub envelope : Failure → Text → Text → DlqEnvelope
envelope f dlq_id failed_at = record {
  dlq_id = dlq_id;
  original_event = f.original_event;
  original_topic = kafka_topic_raw;
  original_partition = f.original_partition;
  original_offset = f.original_offset;
  error_type = f.error_type;
  error_message = f.error_message;
  retry_count = f.retry_count;
  failed_at = failed_at;
  worker_id = worker_id;
}

-- `event_id or "unknown"`
abbrev pub or_unknown : Value → Value
or_unknown v = if is_truthy v then v else text (str "unknown")

abbrev pub except_kafka_error : {S : Type 0} → Exception → Exec S (Unit {0})
except_kafka_error exc = if is_kafka_error exc.class then pure tt else raise exc

module _ {W : Type 0} (env : Environment W) where
  -- The first `try` block of `send`.
  unfoldable pub publish : Value → DlqEnvelope → Exec (State W) (Unit {0})
  unfolding encode
  publish event_id value =
      try_except
        (do
          key ← encode env.py (or_unknown event_id)
          perform (env.send_and_wait kafka_topic_dlq value key)
              (Call.dlq_send kafka_topic_dlq value key))
        except_kafka_error

  -- The second one.
  unfoldable pub record_failure : Value → Value → Failure → Exec (State W) (Unit {0})
  record_failure event_id device_id f =
      try_except
        (record_dlq_event env event_id device_id kafka_topic_raw f.original_event
          (str "[" ++ (f.error_type ++ (str "] " ++ f.error_message))) f.retry_count)
        (except_exception λ exc. pure tt)

  unfoldable pub send : Failure → Exec (State W) (Unit {0})
  send f = do
    let event_id = get_or (str "event_id") (text (str "unknown")) f.original_event
    let device_id = get (str "device_id") f.original_event
    modify (count (dead_lettered f.error_type))
    dlq_id ← draw env.uuid4
    failed_at ← draw env.now
    publish event_id (envelope f dlq_id failed_at)
    record_failure event_id device_id f
