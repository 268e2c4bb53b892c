-- ===== src/Python.antt =====
-- The Python objects that the services handle: what `json.loads` gives, with `datetime` beside it.
use iotflow_distributed_syst.Base.{
  ℕ, Bool, true, false, ◌&&◌, ◌||◌, [], ◌∷◌, Option, none, some, Text, str, text_eq, leb,
  if◌then◌else◌,
}
use iotflow_distributed_syst.Exec.{ErrorClass, Exception, Exec, raise, pure}

-- A datetime by its wall-clock microseconds and the offset that its tzinfo gives, if it has one;
-- both count from a point far enough back to be natural numbers.
pub record Datetime : Type 0 where
  pub clock : ℕ
  pub offset : Option ℕ

-- `number s t` is an int or float that `str` prints as `s`, and whose truth value is `t`.
mutual
  pub data Value : Type 0 where
    null : Value
    boolean : Bool → Value
    number : Text → Bool → Value
    text : Text → Value
    datetime : Datetime → Value
    array : Items → Value
    object : Dict → Value

  pub data Items : Type 0 where
    nil : Items
    cons : Value → Items → Items

  -- A dict with `str` keys, in insertion order.
  pub data Dict : Type 0 where
    empty : Dict
    entry : Text → Value → Dict → Dict

-- What CPython and the modules imported from its standard library answer.
pub record Runtime : Type 0 where
  -- `datetime.fromisoformat`, which raises ValueError where this is `none`.
  pub fromisoformat : Text → Option Datetime
  -- `dt.astimezone(timezone.utc)` of a datetime with this wall clock and offset, which raises
  -- OverflowError where this is `none`.
  pub to_utc : ℕ → ℕ → Option Datetime
  -- The JSON form that pydantic gives a datetime.
  pub isoformat : Datetime → Text
  -- The message of pydantic's ValidationError for these keyword arguments.
  pub validation_message : Dict → Text
  -- `str` of an object that is no string.
  pub repr : Value → Text
  -- The message of an error that the interpreter raises by itself.
  pub wording : ErrorClass → Text

-- `d.get(key)`, None where the key is missing.
unfoldable pub get : Text → Dict → Value
get key empty = null
get key (entry k v d) = if text_eq k key then v else get key d

-- `d.get(key, default)`
unfoldable pub get_or : Text → Value → Dict → Value
get_or key default empty = default
get_or key default (entry k v d) = if text_eq k key then v else get_or key default d

-- `key in d`, as an option: the value of a key that is present.
unfoldable pub lookup : Text → Dict → Option Value
lookup key empty = none
lookup key (entry k v d) = if text_eq k key then some v else lookup key d

-- `d[key] = value`: a key that is present keeps its place.
unfoldable pub insert : Text → Value → Dict → Dict
insert key value empty = entry key value empty
insert key value (entry k v d) =
    if text_eq k key then entry k value d else entry k v (insert key value d)

abbrev pub is_empty_text : Text → Bool
is_empty_text [] = true
is_empty_text _ = false

abbrev pub is_empty_dict : Dict → Bool
is_empty_dict empty = true
is_empty_dict _ = false

-- `bool(v)`
abbrev pub is_truthy : Value → Bool
is_truthy null = false
is_truthy (boolean b) = b
is_truthy (number s t) = t
is_truthy (text []) = false
is_truthy (text (c ∷ s)) = true
is_truthy (datetime d) = true
is_truthy (array nil) = false
is_truthy (array (cons v vs)) = true
is_truthy (object empty) = false
is_truthy (object (entry k v d)) = true

-- `str(v)`, which an f-string inserts.
abbrev pub to_text : Runtime → Value → Text
to_text py (text s) = s
to_text py v = py.repr v

-- A lone surrogate, which UTF-8 cannot encode.
abbrev pub is_surrogate : ℕ → Bool
is_surrogate c = leb 0xd800 c && leb c 0xdfff

abbrev pub has_surrogate : Text → Bool
has_surrogate [] = false
has_surrogate (c ∷ s) = is_surrogate c || has_surrogate s

-- An error that the interpreter raises.
abbrev pub interpreter_error : Runtime → ErrorClass → Text → Exception
interpreter_error py c name = record { class = c; name = name; message = py.wording c }

-- `v.encode("utf-8")`, with the text for its bytes.
unfoldable pub encode : {S : Type 0} → Runtime → Value → Exec S Text
encode py (text s) =
    if has_surrogate s
    then raise (interpreter_error py ErrorClass.unicode_error (str "UnicodeEncodeError"))
    else pure s
encode py _ = raise (interpreter_error py ErrorClass.attribute_error (str "AttributeError"))
