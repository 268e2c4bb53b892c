-- ===== src/Shared/Models/Fields.antt =====
-- What the fields of `IoTEvent` of libs/shared/models.py keep of the values that they take.
use iotflow_distributed_syst.Base.{
  ℕ, ◌≤◌, ◌≡◌, refl, true, false, [], ◌∷◌, Option, none, some, Text, arith,
}
use iotflow_distributed_syst.Python.{Value, Dict, object, has_surrogate}
use iotflow_distributed_syst.Shared.Models.{
  matches_ulid_class, all_match, validate_ulid, payload_field, metadata_field,
}
use iotflow_distributed_syst.Shared.Models.Json.{json_option, is_json_dict}

-- A code point of an identifier lies below the surrogates.
matches_ulid_class-low : (c : ℕ) → matches_ulid_class c ≡ true → c ≤ 0x212a
unfolding matches_ulid_class
matches_ulid_class-low c h = ground arith

all_match-encodes : (s : Text) → all_match s ≡ true → has_surrogate s ≡ false
unfolding all_match
all_match-encodes [] h = refl
all_match-encodes (c ∷ s) h = ground (arith, matches_ulid_class-low c, all_match-encodes s)

pub validate_ulid-encodes : (u : Text) → validate_ulid u ≡ some u → has_surrogate u ≡ false
unfolding validate_ulid
validate_ulid-encodes u h = all_match-encodes u (ground arith)

pub payload_field-json :
    (o : Option Value) (p : Dict)
    → json_option o ≡ true
    → payload_field o ≡ some p
    → is_json_dict p ≡ true
payload_field-json none p j h = absurd (cc)
payload_field-json (some (object d)) p j h = ground arith
payload_field-json (some _) p j h = absurd (cc)

pub metadata_field-json :
    (o : Option Value) (p : Dict)
    → json_option o ≡ true
    → metadata_field o ≡ some p
    → is_json_dict p ≡ true
metadata_field-json none p j h = ground arith
metadata_field-json (some (object d)) p j h = ground arith
metadata_field-json (some _) p j h = absurd (cc)
