-- ===== src/Worker/Dlq/Conforms.antt =====
-- The envelope of `DLQPublisher.send` in apps/worker/retry.py against `DLQEvent` of
-- libs/shared/models.py.
use iotflow_distributed_syst.Base.{ℕ, ◌≡◌, refl, some, Text, str}
use iotflow_distributed_syst.Python.{text, object, Dict, Datetime, Runtime, entry, empty, lookup}
use iotflow_distributed_syst.Shared.Models.DlqEvent.{
  DlqEvent, Reads, parse_dlq_event, int_value, optional_value, optional_int_read, to_kafka_dict,
  parse_dlq_event-to_kafka_dict,
}
use iotflow_distributed_syst.Worker.Services.{DlqEnvelope}
use iotflow_distributed_syst.Worker.Dlq.{Failure, envelope}

-- The dict that a reader of the DLQ topic gets: `json.loads` of `json.dumps(dlq_envelope)`.
unfoldable pub to_dict : (ℕ → Text) → DlqEnvelope → Dict
to_dict digits e = entry (str "dlq_id") (text e.dlq_id) (
    entry (str "original_event") (object e.original_event) (
      entry (str "original_topic") (text e.original_topic) (
        entry (str "original_partition") (optional_value digits e.original_partition) (
          entry (str "original_offset") (optional_value digits e.original_offset) (
            entry (str "error_type") (text e.error_type) (
              entry (str "error_message") (text e.error_message) (
                entry (str "retry_count") (int_value digits e.retry_count) (
                  entry (str "failed_at") (text e.failed_at)
                    (entry (str "worker_id") (text e.worker_id) empty)))))))))

-- The envelope as the model has it, with the time that was read.
abbrev pub event_of : DlqEnvelope → Datetime → DlqEvent
event_of e at = record {
  dlq_id = e.dlq_id;
  original_event = e.original_event;
  original_topic = e.original_topic;
  original_partition = e.original_partition;
  original_offset = e.original_offset;
  error_type = e.error_type;
  error_message = e.error_message;
  retry_count = e.retry_count;
  failed_at = at;
  worker_id = some e.worker_id;
}

module _ (reads : Reads) (digits : ℕ → Text)
    (read_back : (n : ℕ) → reads.int (digits n) ≡ some n) where
  -- Every envelope that `send` builds has the type of the shared model: from the JSON that is sent,
  -- `DLQEvent` takes all ten fields as they were, where pydantic reads the ints as they were printed
  -- and the time of the failure as a datetime; and where it reads its own form of that datetime back,
  -- the dict that `to_kafka_dict` prints is read as the same event.
  pub parse_dlq_event-to_dict :
      (py : Runtime) (f : Failure) (dlq_id failed_at : Text) (at : Datetime)
      → reads.datetime failed_at ≡ some at
      → reads.datetime (py.isoformat at) ≡ some at
      → let e = envelope f dlq_id failed_at in
        (parse_dlq_event reads (to_dict digits e) ≡ some (event_of e at))
        × (parse_dlq_event reads (to_kafka_dict py digits (event_of e at)) ≡ some (event_of e at))
  unfolding parse_dlq_event to_dict lookup
  parse_dlq_event-to_dict py f dlq_id failed_at at time again =
      let e = envelope f dlq_id failed_at in
      (
        rw
            (
              optional_int_read reads digits read_back f.original_partition,
              optional_int_read reads digits read_back f.original_offset,
              read_back f.retry_count,
              time,
            )
            refl,
        parse_dlq_event-to_kafka_dict reads digits read_back py (event_of e at) again,
      )
