-- ===== src/Shared/Models/Ulid.antt =====
-- What `validate_ulid` of libs/shared/models.py accepts, and what it returns.
use iotflow_distributed_syst.Base.{
  ℕ, ◌≡◌, refl, true, [], ◌∷◌, some, Text, length, arith, ap, ap₂, suc,
}
use iotflow_distributed_syst.Shared.Models.{
  matches_ulid_class, upper_code, all_match, upper, validate_ulid,
}

length-upper : (s : Text) → length (upper s) ≡ length s
unfolding upper
length-upper [] = refl
length-upper (c ∷ s) = ap suc (length-upper s)

matches_ulid_class-upper_code :
    (c : ℕ) → matches_ulid_class c ≡ true → matches_ulid_class (upper_code c) ≡ true
unfolding matches_ulid_class upper_code
matches_ulid_class-upper_code c h = ground arith

upper_code_idem : (c : ℕ) → upper_code (upper_code c) ≡ upper_code c
unfolding upper_code
upper_code_idem c = ground arith

-- Written with `all_match` of a non-empty text, since the class test stays shut.
all_match-upper : (s : Text) → all_match s ≡ true → all_match (upper s) ≡ true
unfolding all_match upper
all_match-upper [] h = refl
all_match-upper (c ∷ s) h = ground (arith, matches_ulid_class-upper_code c, all_match-upper s)

upper_idem : (s : Text) → upper (upper s) ≡ upper s
unfolding upper
upper_idem [] = refl
upper_idem (c ∷ s) = ap₂ ◌∷◌ (upper_code_idem c) (upper_idem s)

-- An identifier that the validator accepts comes back as 26 code points which the validator
-- accepts again and leaves as they are; it differs from its input in the case of letters only.
pub validate_ulid_idem :
    (v u : Text)
    → validate_ulid v ≡ some u
    → (length u ≡ 26) × (length v ≡ 26) × (u ≡ upper v) × (validate_ulid u ≡ some u)
unfolding validate_ulid
validate_ulid_idem v u h = ground (arith, all_match-upper v, upper_idem v, length-upper v)
