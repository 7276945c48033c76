-- ===== src/Value/Json.antt =====
-- pb/methods.go: the JSON form of a value, and the values of requests and schemas by name. encoding/json
-- is a parameter: it decodes every number as a float64.
use Prim.Native.Char.{code}
use frames.Base.{
  ℤ, ℕ, Bool, true, false, ◌&&◌, String, Option, none, some, Dict, lookup, insert, Result, ok, err,
  panic, ◌>>=◌, leb, if◌then◌else◌, [],
}
use frames.Value.{Value, PbValue, go_value, set_value, as_go_map}

pub record Json : Type 0 where
  pub marshal : Value → Result String
  pub unmarshal : String → Result Value
  -- int64(f)
  pub to_int : ℕ → ℤ

-- MarshalJSON
unfoldable pub marshal_json : Json → PbValue → Result String
marshal_json json v = do val ← go_value v; json.marshal val

abbrev pub digits : String → Bool
digits String.[] = true
digits (String.◌∷◌ c s) = leb b'0' (code c) && leb (code c) b'9' && digits s

-- intRe.Match, of ^[0-9]+$
abbrev pub int_re : String → Bool
int_re String.[] = false
int_re (String.◌∷◌ c s) = digits (String.◌∷◌ c s)

-- `f, ok := i.(float64); if ok && intRe.Match(data) { i = int64(f) }`
abbrev pub as_number : Json → String → Value → Value
as_number json text (Value.float64 f) =
    if int_re text then Value.int64 (json.to_int f) else Value.float64 f
as_number json text v = v

-- UnmarshalJSON: the value that it sets.
unfoldable pub unmarshal_json : Json → String → Result PbValue
unmarshal_json json text = do i ← json.unmarshal text; set_value (as_number json text i)

abbrev pub attribute_map : Option (Dict PbValue) → Dict PbValue
attribute_map none = []
attribute_map (some m) = m

-- SetAttribute of a CreateRequest, on its map, which may be nil.
unfoldable pub set_attribute : String → Value → Option (Dict PbValue) → Result (Dict PbValue)
set_attribute key value m = do v ← set_value value; ok (insert key v (attribute_map m))

-- Attributes
unfoldable pub attributes : Option (Dict PbValue) → Dict Value
attributes m = as_go_map (attribute_map m)

abbrev found_property : Option PbValue → Option Value
found_property none = none
found_property (some v) = elim (go_value v) [ ok x ↦ some x | err e ↦ none | panic ↦ none ]

-- Property of a SchemaField
unfoldable pub property : String → Option (Dict PbValue) → Option Value
unfolding go_value
property key properties = found_property (lookup key (attribute_map properties))
