-- ===== src/Shared/Models/Json.antt =====
-- `model_dump(mode="json")` of libs/shared/models.py on the values of a field of type `dict[str, Any]`.
use iotflow_distributed_syst.Base.{
  ◌≡◌, refl, ap, ap₂, Bool, true, false, ◌&&◌, Option, none, some, Text, arith,
}
use iotflow_distributed_syst.Python.{
  Value, Items, Dict, Runtime, null, boolean, number, text, datetime, array, object, nil, cons,
  empty, entry, lookup,
}

-- A datetime becomes its text, at any depth; what `json.loads` gives is kept.
unfoldable mutual
  pub dump_value : Runtime → Value → Value
  dump_value py null = null
  dump_value py (boolean b) = boolean b
  dump_value py (number s t) = number s t
  dump_value py (text s) = text s
  dump_value py (datetime t) = text (py.isoformat t)
  dump_value py (array vs) = array (dump_items py vs)
  dump_value py (object d) = object (dump_dict py d)

  pub dump_items : Runtime → Items → Items
  dump_items py nil = nil
  dump_items py (cons v vs) = cons (dump_value py v) (dump_items py vs)

  pub dump_dict : Runtime → Dict → Dict
  dump_dict py empty = empty
  dump_dict py (entry k v d) = entry k (dump_value py v) (dump_dict py d)

-- It holds no datetime, as what `json.loads` gives.
abbrev mutual
  pub is_json : Value → Bool
  is_json null = true
  is_json (boolean b) = true
  is_json (number s t) = true
  is_json (text s) = true
  is_json (datetime t) = false
  is_json (array vs) = all_json vs
  is_json (object d) = is_json_dict d

  pub all_json : Items → Bool
  all_json nil = true
  all_json (cons v vs) = is_json v && all_json vs

  pub is_json_dict : Dict → Bool
  is_json_dict empty = true
  is_json_dict (entry k v d) = is_json v && is_json_dict d

module _ (py : Runtime) where
  mutual
    unfolding dump_value dump_items dump_dict

    pub dump_value-json : (v : Value) → is_json v ≡ true → dump_value py v ≡ v
    dump_value-json null h = refl
    dump_value-json (boolean b) h = refl
    dump_value-json (number s t) h = refl
    dump_value-json (text s) h = refl
    dump_value-json (datetime t) h = absurd (cc)
    dump_value-json (array vs) h = ap array (dump_items-json vs h)
    dump_value-json (object d) h = ap object (dump_dict-json d h)

    pub dump_items-json : (vs : Items) → all_json vs ≡ true → dump_items py vs ≡ vs
    dump_items-json nil h = refl
    dump_items-json (cons v vs) h =
        ap₂ cons (dump_value-json v (ground arith)) (dump_items-json vs (ground arith))

    pub dump_dict-json : (d : Dict) → is_json_dict d ≡ true → dump_dict py d ≡ d
    dump_dict-json empty h = refl
    dump_dict-json (entry k v d) h =
        ap₂ (entry k) (dump_value-json v (ground arith)) (dump_dict-json d (ground arith))

abbrev pub json_option : Option Value → Bool
json_option none = true
json_option (some v) = is_json v

pub lookup-json :
    (key : Text) (d : Dict) → is_json_dict d ≡ true → json_option (lookup key d) ≡ true
unfolding lookup
lookup-json key empty h = refl
lookup-json key (entry k v d) h = ground (arith, lookup-json key d)
