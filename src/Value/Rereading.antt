-- ===== src/Value/Rereading.antt =====
-- pb/methods.go: what a value is after its JSON form, and what a request has of an attribute.
use Prim.Native.Char.{code, Char}
use frames.Base.{
  ℤ, pos, negsuc, ℕ, ◌≡◌, refl, ap, ◌∙◌, Bool, true, false, String, Option, none, some, Dict,
  lookup, insert, lookup-insert, ok, >>=-eq-ok, arith, sym, Bool-cases, inl, inr, str_eq,
  if◌then◌else◌, [], ◌∷◌,
}
use frames.Value.{Value, PbValue, go_value, set_value, as_go_map, value_or_nil}
use frames.Value.Laws.{widen, go_value-set_value}
use frames.Value.Json.{Json, int_re, attribute_map, set_attribute, attributes}

-- How encoding/json prints an integer: in digits, behind a sign if it is negative.
abbrev pub IsDecimal : ℤ → String → Type 0
IsDecimal (pos n) s = int_re s ≡ true
IsDecimal (negsuc n) s = (c : Char) × (r : String) × (s ≡ String.◌∷◌ c r) × (code c ≡ b'-')

-- What an integer is after its JSON form, by the float64 that it is decoded as.
abbrev pub reread : ℤ → ℕ → PbValue
reread (pos n) f = PbValue.ival (pos n)
reread (negsuc n) f = PbValue.fval f

abbrev map_value : Option PbValue → Option Value
map_value none = none
map_value (some p) = some (value_or_nil (go_value p))

lookup-as_go_map : (k : String) (m : Dict PbValue) → lookup k (as_go_map m) ≡ map_value (lookup k m)
unfolding as_go_map
lookup-as_go_map k [] = refl
lookup-as_go_map k ((j, p) ∷ m) = elim (Bool-cases (str_eq j k)) [
  | inl e ↦ rw e refl
  | inr e ↦ rw e (lookup-as_go_map k m)
]

pick :
    (b : Bool) (k : String) (p : PbValue) (v : Value) (m : Dict PbValue)
    → go_value p ≡ ok (widen v)
    → map_value (if b then some p else lookup k m)
      ≡ (if b then some (widen v) else lookup k (as_go_map m))
pick true k p v m h = rw h refl
pick false k p v m h = sym (lookup-as_go_map k m)

-- An attribute that is set is the one that Attributes then has under its key, an integer of any width as
-- int64, and every other key has what it had.
attributes-set_attribute :
    (key k : String) (v : Value) (m : Option (Dict PbValue)) (m' : Dict PbValue)
    → set_attribute key v m ≡ ok m'
    → lookup k (attributes (some m'))
      ≡ (if str_eq key k then some (widen v) else lookup k (attributes m))
unfolding set_attribute attributes
attributes-set_attribute key k v m m' e =
    let (p, set, made) = >>=-eq-ok (set_value v) _ e in
    let same : insert key p (attribute_map m) ≡ m' = ground arith in
    let go = go_value-set_value v p set in
    lookup-as_go_map k m'
    ∙ ap (λ (d : Dict PbValue). map_value (lookup k d)) (sym same)
    ∙ ap map_value (lookup-insert key k p (attribute_map m))
    ∙ pick (str_eq key k) k p v (attribute_map m) go
