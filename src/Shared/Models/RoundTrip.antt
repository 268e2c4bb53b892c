-- ===== src/Shared/Models/RoundTrip.antt =====
-- `IoTEvent(**d)` on what `to_kafka_dict` of libs/shared/models.py gave: the two services agree.
use iotflow_distributed_syst.Base.{
  ℕ, Option, none, ◌≡◌, ◌≤◌, refl, true, false, Bool, not, ◌&&◌, [], ◌∷◌, ◌++◌, some, Text, str,
  length, arith, ◌==◌,
}
use iotflow_distributed_syst.Exec.{ok}
use iotflow_distributed_syst.Python.{
  Datetime, Runtime, lookup, get, is_truthy, insert, text, datetime, is_empty_dict, Dict, Value,
  has_surrogate,
}
use iotflow_distributed_syst.Shared.Models.{
  IoTEvent, validate_ulid, replace_z, ensure_utc, UtcResult, utc, invalid, overflow, check_fields,
  parse_event, to_kafka_dict, and_ulid, bounded_text, finish, with_offset, parsed,
}
use iotflow_distributed_syst.Shared.Models.Json.{
  dump_dict, is_json_dict, lookup-json, dump_dict-json,
}
use iotflow_distributed_syst.Shared.Models.Fields.{
  validate_ulid-encodes, payload_field-json, metadata_field-json,
}
use iotflow_distributed_syst.Shared.Models.Ulid.{validate_ulid_idem}

-- No `Z` stands in the text.
abbrev pub lacks_z : Text → Bool
lacks_z [] = true
lacks_z (c ∷ s) = not (c == b'Z') && lacks_z s

-- What the datetime module and pydantic document: a datetime that `astimezone(timezone.utc)` gave
-- has the offset of UTC, and is left as it is when it is converted again; pydantic prints a
-- datetime with that offset as the ISO form of its wall clock, which has no `Z`, and a final `Z`; and `fromisoformat` reads that form
-- with `+00:00` behind it as the same datetime.
pub record DatetimeLaws (py : Runtime) : Type 0 where
  pub stamp : Datetime → Text
  pub zero_offset : ℕ
  pub utc_offset :
      (clock offset : ℕ) (t : Datetime)
      → py.to_utc clock offset ≡ some t
      → (t.offset ≡ some zero_offset) × (py.to_utc t.clock zero_offset ≡ some t)
  pub printed : (t : Datetime) → t.offset ≡ some zero_offset → py.isoformat t ≡ stamp t ++ str "Z"
  pub stamp_lacks_z : (t : Datetime) → lacks_z (stamp t) ≡ true
  pub read_back :
      (clock offset : ℕ) (t : Datetime)
      → py.to_utc clock offset ≡ some t
      → py.fromisoformat (stamp t ++ str "+00:00") ≡ some t

replace_z-append_z : (s : Text) → lacks_z s ≡ true → replace_z (s ++ str "Z") ≡ s ++ str "+00:00"
unfolding replace_z
replace_z-append_z [] h = refl
replace_z-append_z (c ∷ s) h = ground (arith, replace_z-append_z s)

module _ (py : Runtime) (laws : DatetimeLaws py) where
  from_offset :
      (clock : ℕ) (o : Option ℕ) (t : Datetime)
      → with_offset py clock o ≡ utc t
      → (offset : ℕ) × (py.to_utc clock offset ≡ some t)
  from_offset clock none t h = cc
  from_offset clock (some offset) t h = (offset, ground arith)

  from_parsed :
      (m : Option Datetime) (t : Datetime)
      → parsed py m ≡ utc t
      → (clock offset : ℕ) × (py.to_utc clock offset ≡ some t)
  from_parsed none t h = cc
  from_parsed (some dt) t h =
      let found = from_offset dt.clock dt.offset t h in (dt.clock, found.0, found.1)

  -- A datetime that the validator of the timestamp returned is one that `astimezone` gave.
  from_ensure_utc :
      (v : Option Value) (t : Datetime)
      → ensure_utc py v ≡ utc t
      → (clock offset : ℕ) × (py.to_utc clock offset ≡ some t)
  unfolding ensure_utc
  from_ensure_utc (some (text v)) t h = from_parsed (py.fromisoformat (replace_z v)) t h
  from_ensure_utc (some (datetime dt)) t h = from_parsed (some dt) t h
  from_ensure_utc _ t h = absurd (cc)

  ensure_utc-isoformat :
      (clock offset : ℕ) (t : Datetime)
      → py.to_utc clock offset ≡ some t
      → ensure_utc py (some (text (py.isoformat t))) ≡ utc t
  unfolding ensure_utc
  ensure_utc-isoformat clock offset t h =
      let same = laws.utc_offset clock offset t h in
      rw
        (
          laws.printed t same.0,
          replace_z-append_z (laws.stamp t) (laws.stamp_lacks_z t),
          laws.read_back clock offset t h,
        )
        (ground arith)

  -- The facts that hold of an event which the model has accepted.
  record IsValid (event : IoTEvent) : Type 0 where
    ulid : validate_ulid event.event_id ≡ some event.event_id
    id_length : length event.event_id ≡ 26
    device : (1 ≤ length event.device_id) × (length event.device_id ≤ 128)
    device_encodes : has_surrogate event.device_id ≡ false
    kind : (1 ≤ length event.event_type) × (length event.event_type ≤ 64)
    kind_encodes : has_surrogate event.event_type ≡ false
    id_encodes : has_surrogate event.event_id ≡ false
    payload_filled : is_empty_dict event.payload ≡ false

  and_ulid-some :
      (o : Option Text) (u : Text)
      → and_ulid o ≡ some u
      → (validate_ulid u ≡ some u) × (length u ≡ 26) × (has_surrogate u ≡ false)
  and_ulid-some none u h = cc
  and_ulid-some (some v) u h =
      let same = validate_ulid_idem v u h in (same.3, same.0, validate_ulid-encodes u same.3)

  bounded_text-some :
      (lo hi : ℕ) (o : Option Value) (s : Text)
      → bounded_text lo hi o ≡ some s
      → (lo ≤ length s) × (length s ≤ hi) × (has_surrogate s ≡ false)
  bounded_text-some lo hi none s h = cc
  bounded_text-some lo hi (some (text v)) s h = ground arith
  bounded_text-some lo hi (some _) s h = absurd (cc)

  check_fields-IsValid :
      (d : Dict) (t : Datetime) (event : IoTEvent)
      → check_fields d t ≡ some event
      → IsValid event × (event.timestamp ≡ t)
  unfolding check_fields
  check_fields-IsValid d t event h = ground (
    arith,
    and_ulid-some (bounded_text 26 26 (lookup (str "event_id") d)) event.event_id,
    bounded_text-some 1 128 (lookup (str "device_id") d) event.device_id,
    bounded_text-some 1 64 (lookup (str "event_type") d) event.event_type,
  )

  -- Printing keeps the payload and the metadata.
  record IsDumped (event : IoTEvent) : Type 0 where
    payload_kept : dump_dict py event.payload ≡ event.payload
    metadata_kept : dump_dict py event.metadata ≡ event.metadata

  check_fields-IsDumped :
      (d : Dict) (t : Datetime) (event : IoTEvent)
      → is_json_dict d ≡ true
      → check_fields d t ≡ some event
      → IsDumped event
  unfolding check_fields
  check_fields-IsDumped d t event json h =
      let fields : (is_json_dict event.payload ≡ true) × (is_json_dict event.metadata ≡ true) =
        ground (
          arith,
          payload_field-json (lookup (str "payload") d) event.payload
              (lookup-json (str "payload") d json),
          metadata_field-json (lookup (str "metadata") d) event.metadata
              (lookup-json (str "metadata") d json),
        ) in
      record {
        payload_kept = dump_dict-json py event.payload fields.0;
        metadata_kept = dump_dict-json py event.metadata fields.1;
      }

  check_fields-to_kafka_dict :
      (event : IoTEvent) (trace : Value)
      → IsValid event
      → IsDumped event
      → check_fields (insert (str "_trace_id") trace (to_kafka_dict py event)) event.timestamp
        ≡ some event
  unfolding check_fields to_kafka_dict insert lookup
  check_fields-to_kafka_dict event trace v kept =
      rw (kept.payload_kept, kept.metadata_kept) (ground arith)

  lookup-timestamp :
      (event : IoTEvent) (trace : Value)
      → lookup (str "timestamp") (insert (str "_trace_id") trace (to_kafka_dict py event))
        ≡ some (text (py.isoformat event.timestamp))
  unfolding to_kafka_dict insert lookup
  lookup-timestamp event trace = refl

  finish-ok :
      (d : Dict) (r : UtcResult) (event : IoTEvent)
      → finish py d r ≡ ok event
      → (t : Datetime) × (r ≡ utc t) × (check_fields d t ≡ some event)
  finish-ok d (utc t) event h = (t, refl, ground arith)
  finish-ok d invalid event h = absurd (cc)
  finish-ok d overflow event h = absurd (cc)

  -- What one service accepts, every service accepts in the form that it is sent in: an event that
  -- `IoTEvent(**d)` returned for a dict of JSON, which holds no datetime, printed by `to_kafka_dict` and with any value for `_trace_id` added,
  -- is parsed to the same event.
  pub parse_event-to_kafka_dict :
      (d : Dict) (event : IoTEvent) (trace : Value)
      → is_json_dict d ≡ true
      → parse_event py d ≡ ok event
      → parse_event py (insert (str "_trace_id") trace (to_kafka_dict py event)) ≡ ok event
  unfolding parse_event
  parse_event-to_kafka_dict d event trace json h =
      let from = finish-ok d (ensure_utc py (lookup (str "timestamp") d)) event h in
      let valid = check_fields-IsValid d from.0 event from.2 in
      let offset = from_ensure_utc (lookup (str "timestamp") d) from.0 from.1 in
      rw
        (
          lookup-timestamp event trace,
          ensure_utc-isoformat offset.0 offset.1 event.timestamp (rw valid.1 offset.2),
          check_fields-to_kafka_dict event trace valid.0
              (check_fields-IsDumped d from.0 event json from.2),
        )
        refl

  -- An accepted event has an identifier, also in the form that it is sent in.
  pub event_id_present :
      (d : Dict) (event : IoTEvent) (trace : Value)
      → parse_event py d ≡ ok event
      → let sent = insert (str "_trace_id") trace (to_kafka_dict py event) in
        (get (str "event_id") sent ≡ text event.event_id)
        × (is_truthy (get (str "event_id") sent) ≡ true)
  unfolding parse_event to_kafka_dict insert get
  event_id_present d event trace h =
      let from = finish-ok d (ensure_utc py (lookup (str "timestamp") d)) event h in
      (refl, filled event.event_id (check_fields-IsValid d from.0 event from.2).0.id_length)
    where
      filled : (v : Text) → length v ≡ 26 → is_truthy (text v) ≡ true
      filled [] n = absurd (omega (arith, n))
      filled (c ∷ v) n = refl
