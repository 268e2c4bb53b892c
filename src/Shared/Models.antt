-- ===== src/Shared/Models.antt =====
-- libs/shared/models.py: the event that all services exchange, and its validation.
pub mod Ulid
pub mod RoundTrip
pub mod DlqEvent
pub mod Json
pub mod Fields
use iotflow_distributed_syst.Base.{
  ℕ, ◌-◌, Bool, true, false, ◌&&◌, ◌||◌, List, [], ◌∷◌, ◌++◌, Option, none, some, Text, str, length,
  leb, ◌==◌, not, if◌then◌else◌,
}
use iotflow_distributed_syst.Shared.Models.Json.{dump_dict}
use iotflow_distributed_syst.Exec.{ErrorClass, Exception, Outcome, ok, raised}
use iotflow_distributed_syst.Python.{
  Value, Dict, Datetime, Runtime, lookup, is_empty_dict, has_surrogate, text, datetime, object,
  entry, empty,
}

pub record IoTEvent : Type 0 where
  pub event_id : Text
  pub device_id : Text
  pub event_type : Text
  pub schema_version : Text
  pub timestamp : Datetime
  pub payload : Dict
  pub metadata : Dict

-- The upper-case half of `[0-9A-HJKMNP-TV-Z]`.
abbrev in_ulid_class : ℕ → Bool
in_ulid_class c =
    (leb b'0' c && leb c b'9')
    || (leb b'A' c && leb c b'H')
    || (c == b'J')
    || (c == b'K')
    || (c == b'M')
    || (c == b'N')
    || (leb b'P' c && leb c b'T')
    || (leb b'V' c && leb c b'Z')

-- A code point that the class matches under re.IGNORECASE. Besides the lower-case letters these
-- are the two that Unicode folds to letters of the class: U+017F to S, and U+212A to K.
unfoldable pub matches_ulid_class : ℕ → Bool
matches_ulid_class c =
    in_ulid_class c
    || (leb b'a' c && leb c b'z' && in_ulid_class (c - 32))
    || (c == 0x17f)
    || (c == 0x212a)

-- `str.upper` at a code point that the class matches: U+212A is an upper-case letter already.
unfoldable pub upper_code : ℕ → ℕ
upper_code c = if leb b'a' c && leb c b'z' then c - 32 else if c == 0x17f then b'S' else c

unfoldable pub all_match : Text → Bool
unfolding matches_ulid_class
all_match [] = true
all_match (c ∷ s) = matches_ulid_class c && all_match s

unfoldable pub upper : Text → Text
unfolding upper_code
upper [] = []
upper (c ∷ s) = upper_code c ∷ upper s

-- `re.fullmatch` of 26 letters of the class, and `v.upper()`.
unfoldable pub validate_ulid : Text → Option Text
unfolding all_match upper
validate_ulid v = if (length v == 26) && all_match v then some (upper v) else none

-- A value of type `str` whose length lies between the bounds of its `Field`. The check of the length
-- reads it as UTF-8, which a lone surrogate has no form in.
abbrev bounded_text : ℕ → ℕ → Option Value → Option Text
bounded_text lo hi (some (text s)) =
    if leb lo (length s) && leb (length s) hi && not (has_surrogate s) then some s else none
bounded_text lo hi _ = none

abbrev and_ulid : Option Text → Option Text
and_ulid none = none
and_ulid (some s) = validate_ulid s

-- The fields with a default keep it where the key is missing.
abbrev schema_version_field : Option Value → Option Text
schema_version_field none = some (str "1.0")
schema_version_field (some (text s)) = some s
schema_version_field (some _) = none

abbrev pub payload_field : Option Value → Option Dict
payload_field (some (object d)) = some d
payload_field _ = none

abbrev pub metadata_field : Option Value → Option Dict
metadata_field none = some empty
metadata_field (some (object d)) = some d
metadata_field (some _) = none

-- `v.replace("Z", "+00:00")`
unfoldable pub replace_z : Text → Text
replace_z [] = []
replace_z (c ∷ s) = (if c == b'Z' then str "+00:00" else c ∷ []) ++ replace_z s

-- How the validator of the timestamp ends: pydantic collects a ValueError, and lets the
-- OverflowError of `astimezone` through.
pub data UtcResult : Type 0 where
  utc : Datetime → UtcResult
  invalid : UtcResult
  overflow : UtcResult

abbrev converted : Option Datetime → UtcResult
converted none = overflow
converted (some d) = utc d

abbrev with_offset : Runtime → ℕ → Option ℕ → UtcResult
with_offset py clock none = invalid
with_offset py clock (some offset) = converted (py.to_utc clock offset)

abbrev parsed : Runtime → Option Datetime → UtcResult
parsed py none = invalid
parsed py (some dt) = with_offset py dt.clock dt.offset

unfoldable pub ensure_utc : Runtime → Option Value → UtcResult
unfolding replace_z
ensure_utc py (some (text v)) = parsed py (py.fromisoformat (replace_z v))
ensure_utc py (some (datetime dt)) = parsed py (some dt)
ensure_utc py _ = invalid

infixl 5 ◌>>=◌
abbrev ◌>>=◌ : {A B : Type 0} → Option A → (A → Option B) → Option B
none >>= f = none
some a >>= f = f a

-- The fields, and then the validator of the whole model: the payload must not be empty.
unfoldable pub check_fields : Dict → Datetime → Option IoTEvent
check_fields d timestamp = do
  event_id ← and_ulid (bounded_text 26 26 (lookup (str "event_id") d))
  device_id ← bounded_text 1 128 (lookup (str "device_id") d)
  event_type ← bounded_text 1 64 (lookup (str "event_type") d)
  schema_version ← schema_version_field (lookup (str "schema_version") d)
  payload ← payload_field (lookup (str "payload") d)
  metadata ← metadata_field (lookup (str "metadata") d)
  if is_empty_dict payload
      then none
      else some (record {
        event_id = event_id;
        device_id = device_id;
        event_type = event_type;
        schema_version = schema_version;
        timestamp = timestamp;
        payload = payload;
        metadata = metadata;
      })

unfoldable pub validation_error : Runtime → Dict → Exception
validation_error py d = record {
  class = ErrorClass.validation_error;
  name = str "ValidationError";
  message = py.validation_message d;
}

abbrev checked : Runtime → Dict → Option IoTEvent → Outcome IoTEvent
checked py d none = raised (validation_error py d)
checked py d (some event) = ok event

abbrev pub finish : Runtime → Dict → UtcResult → Outcome IoTEvent
finish py d overflow = raised (record {
  class = ErrorClass.other_error;
  name = str "OverflowError";
  message = py.wording ErrorClass.other_error;
})
finish py d invalid = raised (validation_error py d)
finish py d (utc t) = checked py d (check_fields d t)

-- `IoTEvent(**d)`; keys that are no fields are ignored.
unfoldable pub parse_event : Runtime → Dict → Outcome IoTEvent
unfolding validation_error
parse_event py d = finish py d (ensure_utc py (lookup (str "timestamp") d))

-- `IoTEvent.to_kafka_dict`: `model_dump(mode="json")`, the fields in their order.
unfoldable pub to_kafka_dict : Runtime → IoTEvent → Dict
unfolding dump_dict
to_kafka_dict py event = entry (str "event_id") (text event.event_id) (
    entry (str "device_id") (text event.device_id) (
      entry (str "event_type") (text event.event_type) (
        entry (str "schema_version") (text event.schema_version) (
          entry (str "timestamp") (text (py.isoformat event.timestamp)) (
            entry (str "payload") (object (dump_dict py event.payload))
              (entry (str "metadata") (object (dump_dict py event.metadata)) empty))))))
