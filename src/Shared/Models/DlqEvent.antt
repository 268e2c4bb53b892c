-- ===== src/Shared/Models/DlqEvent.antt =====
-- libs/shared/models.py: `DLQEvent`, the envelope of a failed event.
use iotflow_distributed_syst.Base.{ℕ, ◌≡◌, refl, Option, none, some, Text, str, ltb}
use iotflow_distributed_syst.Python.{
  Value, null, number, text, object, Dict, Datetime, Runtime, lookup, entry, empty,
}

pub record DlqEvent : Type 0 where
  pub dlq_id : Text
  pub original_event : Dict
  pub original_topic : Text
  pub original_partition : Option ℕ
  pub original_offset : Option ℕ
  pub error_type : Text
  pub error_message : Text
  pub retry_count : ℕ
  pub failed_at : Datetime
  pub worker_id : Option Text

-- What pydantic reads from the text of a number and from the text of a datetime.
pub record Reads : Type 0 where
  pub int : Text → Option ℕ
  pub datetime : Text → Option Datetime

-- The types of the fields, each given the value of its key, if there is one.
abbrev str_field : Option Value → Option Text
str_field (some (text s)) = some s
str_field _ = none

abbrev dict_field : Option Value → Option Dict
dict_field (some (object d)) = some d
dict_field _ = none

abbrev int_field : Reads → Option Value → Option ℕ
int_field reads (some (number s t)) = reads.int s
int_field reads _ = none

abbrev present : {A : Type 0} → Option A → Option (Option A)
present none = none
present (some a) = some (some a)

-- `int | None = None` and `str | None = None`.
abbrev pub optional_int : Reads → Option Value → Option (Option ℕ)
optional_int reads none = some none
optional_int reads (some null) = some none
optional_int reads v = present (int_field reads v)

abbrev optional_str : Option Value → Option (Option Text)
optional_str none = some none
optional_str (some null) = some none
optional_str v = present (str_field v)

abbrev datetime_field : Reads → Option Value → Option Datetime
datetime_field reads (some (text s)) = reads.datetime s
datetime_field reads _ = none

infixl 5 ◌>>=◌
abbrev ◌>>=◌ : {A B : Type 0} → Option A → (A → Option B) → Option B
none >>= f = none
some a >>= f = f a

-- `DLQEvent(**d)`, of the values that `json.dumps` gives for the types of the fields; `none` stands for
-- anything else, some of which pydantic converts too.
unfoldable pub parse_dlq_event : Reads → Dict → Option DlqEvent
parse_dlq_event reads d = do
  dlq_id ← str_field (lookup (str "dlq_id") d)
  original_event ← dict_field (lookup (str "original_event") d)
  original_topic ← str_field (lookup (str "original_topic") d)
  original_partition ← optional_int reads (lookup (str "original_partition") d)
  original_offset ← optional_int reads (lookup (str "original_offset") d)
  error_type ← str_field (lookup (str "error_type") d)
  error_message ← str_field (lookup (str "error_message") d)
  retry_count ← int_field reads (lookup (str "retry_count") d)
  failed_at ← datetime_field reads (lookup (str "failed_at") d)
  worker_id ← optional_str (lookup (str "worker_id") d)
  some (record {
    dlq_id = dlq_id;
    original_event = original_event;
    original_topic = original_topic;
    original_partition = original_partition;
    original_offset = original_offset;
    error_type = error_type;
    error_message = error_message;
    retry_count = retry_count;
    failed_at = failed_at;
    worker_id = worker_id;
  })

-- A printed int, as `json.loads` reads it back.
abbrev pub int_value : (ℕ → Text) → ℕ → Value
int_value digits n = number (digits n) (ltb 0 n)

abbrev pub optional_value : (ℕ → Text) → Option ℕ → Value
optional_value digits none = null
optional_value digits (some n) = int_value digits n

abbrev optional_text : Option Text → Value
optional_text none = null
optional_text (some s) = text s

-- `DLQEvent.to_kafka_dict`: `model_dump(mode="json")`, the fields in their order, where `str` gives
-- an int its digits. The original event came from JSON, whose values are printed as they are.
unfoldable pub to_kafka_dict : Runtime → (ℕ → Text) → DlqEvent → Dict
to_kafka_dict py digits e = entry (str "dlq_id") (text e.dlq_id) (
    entry (str "original_event") (object e.original_event) (
      entry (str "original_topic") (text e.original_topic) (
        entry (str "original_partition") (optional_value digits e.original_partition) (
          entry (str "original_offset") (optional_value digits e.original_offset) (
            entry (str "error_type") (text e.error_type) (
              entry (str "error_message") (text e.error_message) (
                entry (str "retry_count") (int_value digits e.retry_count) (
                  entry (str "failed_at") (text (py.isoformat e.failed_at))
                    (entry (str "worker_id") (optional_text e.worker_id) empty)))))))))

module _ (reads : Reads) (digits : ℕ → Text)
    (read_back : (n : ℕ) → reads.int (digits n) ≡ some n) where
  pub optional_int_read :
      (o : Option ℕ) → optional_int reads (some (optional_value digits o)) ≡ some o
  optional_int_read none = refl
  optional_int_read (some n) = rw (read_back n) refl

  optional_str_read : (o : Option Text) → optional_str (some (optional_text o)) ≡ some o
  optional_str_read none = refl
  optional_str_read (some s) = refl

  -- What `DLQEvent.to_kafka_dict` prints is read as the same event.
  pub parse_dlq_event-to_kafka_dict :
      (py : Runtime) (e : DlqEvent)
      → reads.datetime (py.isoformat e.failed_at) ≡ some e.failed_at
      → parse_dlq_event reads (to_kafka_dict py digits e) ≡ some e
  unfolding parse_dlq_event to_kafka_dict lookup
  parse_dlq_event-to_kafka_dict py e time =
      rw
        (
          optional_int_read e.original_partition,
          optional_int_read e.original_offset,
          read_back e.retry_count,
          time,
          optional_str_read e.worker_id,
        )
        refl
