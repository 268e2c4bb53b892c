-- ===== src/Simulator/Payload.antt =====
-- The payload and the topic of scripts/simulate_iot.py, read by libs/shared/models.py and by
-- apps/ingestion/handlers.py.
use iotflow_distributed_syst.Base.{
  ℕ, ◌≤◌, ◌≡◌, refl, ap₂, Bool, true, false, ◌&&◌, ◌||◌, not, ◌==◌, [], ◌∷◌, ◌++◌, some, Text, str,
  length, arith,
}
use iotflow_distributed_syst.Exec.{ok}
use iotflow_distributed_syst.Python.{Datetime, Runtime, Value, has_surrogate, lookup, text}
use iotflow_distributed_syst.Shared.Models.{
  IoTEvent, utc, matches_ulid_class, all_match, upper_code, upper, validate_ulid, replace_z,
  ensure_utc, check_fields, parse_event,
}
use iotflow_distributed_syst.Shared.Models.RoundTrip.{lacks_z}
use iotflow_distributed_syst.Shared.Models.Fields.{validate_ulid-encodes}
use iotflow_distributed_syst.Ingestion.Handlers.{device_of, first_part}
use iotflow_distributed_syst.Simulator.{measurements, firmware, ulid_chars, topic_of, payload_of}

abbrev contains : Text → ℕ → Bool
contains [] c = false
contains (d ∷ s) c = (c == d) || contains s c

abbrev pub drawn_from : Text → Text → Bool
drawn_from chars [] = true
drawn_from chars (c ∷ s) = contains chars c && drawn_from chars s

abbrev pub lacks_slash : Text → Bool
lacks_slash [] = true
lacks_slash (c ∷ s) = not (c == b'/') && lacks_slash s

-- A topic with this part gives it back, and it has a form in UTF-8.
abbrev pub is_plain : Text → Bool
is_plain s = lacks_slash s && not (has_surrogate s)

ulid_chars-matches : (c : ℕ) → contains ulid_chars c ≡ true → matches_ulid_class c ≡ true
unfolding matches_ulid_class
ulid_chars-matches c h = ground arith

ulid_chars-upper_code : (c : ℕ) → contains ulid_chars c ≡ true → upper_code c ≡ c
unfolding upper_code
ulid_chars-upper_code c h = ground arith

drawn-all_match : (s : Text) → drawn_from ulid_chars s ≡ true → (all_match s ≡ true) × (upper s ≡ s)
unfolding all_match upper
drawn-all_match [] h = (refl, refl)
drawn-all_match (c ∷ s) h =
    let rest = drawn-all_match s (ground arith) in
    (
      ground (arith, ulid_chars-matches c, rest.0),
      ap₂ ◌∷◌ (ulid_chars-upper_code c (ground arith)) rest.1,
    )

pub drawn-validate_ulid :
    (s : Text) → length s ≡ 26 → drawn_from ulid_chars s ≡ true → validate_ulid s ≡ some s
unfolding validate_ulid
drawn-validate_ulid s n h = ground (arith, drawn-all_match s h)

first_part-append : (d : Text) → lacks_slash d ≡ true → first_part (d ++ str "/events") ≡ d
first_part-append [] h = refl
first_part-append (c ∷ d) h = ground (arith, first_part-append d)

pub device_of-topic_of : (d : Text) → lacks_slash d ≡ true → device_of (topic_of d) ≡ d
unfolding device_of
device_of-topic_of d h = first_part-append d h

pub replace_z-lacks : (s : Text) → lacks_z s ≡ true → replace_z s ≡ s
unfolding replace_z
replace_z-lacks [] h = refl
replace_z-lacks (c ∷ s) h = ground (arith, replace_z-lacks s)

lookup-timestamp :
    (event_id device_id timestamp : Text) (temperature humidity battery : Value)
    → lookup
        (str "timestamp")
        (payload_of event_id device_id timestamp temperature humidity battery)
      ≡ some (text timestamp)
unfolding lookup payload_of
lookup-timestamp event_id device_id timestamp temperature humidity battery = refl

module _ (py : Runtime) where
  -- The event that a round sends.
  unfoldable pub event_of : Text → Text → Value → Value → Value → Datetime → IoTEvent
  event_of event_id device_id temperature humidity battery t = record {
    event_id = event_id;
    device_id = device_id;
    event_type = str "telemetry";
    schema_version = str "1.0";
    timestamp = t;
    payload = measurements temperature humidity battery;
    metadata = firmware;
  }

  check_fields-payload_of :
      (event_id device_id timestamp : Text) (temperature humidity battery : Value) (t : Datetime)
      → validate_ulid event_id ≡ some event_id
      → length event_id ≡ 26
      → 1 ≤ length device_id
      → length device_id ≤ 128
      → has_surrogate device_id ≡ false
      → check_fields (payload_of event_id device_id timestamp temperature humidity battery) t
        ≡ some (event_of event_id device_id temperature humidity battery t)
  unfolding check_fields payload_of event_of lookup
  check_fields-payload_of event_id device_id timestamp temperature humidity battery t valid n lo hi
        encodes =
      ground (arith, validate_ulid-encodes event_id valid)

  pub parse_event-payload_of :
      (event_id device_id timestamp : Text) (temperature humidity battery : Value) (t : Datetime)
      → validate_ulid event_id ≡ some event_id
      → length event_id ≡ 26
      → 1 ≤ length device_id
      → length device_id ≤ 128
      → has_surrogate device_id ≡ false
      → ensure_utc py (some (text timestamp)) ≡ utc t
      → parse_event py (payload_of event_id device_id timestamp temperature humidity battery)
        ≡ ok (event_of event_id device_id temperature humidity battery t)
  unfolding parse_event
  parse_event-payload_of event_id device_id timestamp temperature humidity battery t valid n lo hi
        encodes read =
      rw
        (
          lookup-timestamp event_id device_id timestamp temperature humidity battery,
          read,
          check_fields-payload_of event_id device_id timestamp temperature humidity battery t valid
              n lo hi encodes,
        )
        refl
