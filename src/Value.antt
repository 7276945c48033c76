-- ===== src/Value.antt =====
-- Dynamic values (Go's interface{}) as this program meets them, and their protobuf form:
-- pb/methods.go. A float64 is its IEEE 754 bit pattern, and a time.Time the nanoseconds since the
-- epoch that it stands for (its location and monotonic reading are not modelled).
use frames.Base.{
  ℕ, zero, suc, ◌+◌, ◌*◌, ◌/◌, ◌%◌, ◌^◌, ◌≤◌, ◌<◌, ℤ, pos, negsuc, ◌+ℤ◌, ◌*ℤ◌, neg_ℕ, quot, rem,
  ◌≡◌, refl, Bool, true, false, not, ◌&&◌, ◌||◌, Option, none, some, List, [], ◌∷◌, String, arith,
  ltb, ◌==◌, Result, ok, err, panic, Dict, Error, ◌>>=◌, ◌>>◌, wrapf, if◌then◌else◌,
}
pub mod Laws
pub mod Json
pub mod Rereading

pub data Value : Type 0 where
  nil : Value
  int64 int int32 int16 int8 : ℤ → Value
  -- the bit pattern
  float64 float32 : ℕ → Value
  string : String → Value
  time : ℤ → Value
  bool : Bool → Value
  -- any other dynamic type
  other : Value

-- math.NaN()
abbrev pub nan : ℕ
nan = 0x7FF8000000000001

-- The exponent is all ones and the mantissa is not zero.
abbrev pub is_nan : ℕ → Bool
is_nan x = ltb 0x7FF0000000000000 (x % 0x8000000000000000)

abbrev is_zero : ℕ → Bool
is_zero x = x % 0x8000000000000000 == 0

-- `==` on float64: NaN differs from itself, and the two zeros are equal.
unfoldable pub float_eq : ℕ → ℕ → Bool
float_eq x y = not (is_nan x) && not (is_nan y) && (x == y || is_zero x && is_zero y)

-- time.Unix(sec, nsec), as nanoseconds since the epoch.
abbrev unix : ℤ → ℤ → ℤ
unix sec nsec = sec *ℤ pos 1000000000 +ℤ nsec

-- t.UnixNano()
abbrev pub unix_nano : ℤ → ℤ
unix_nano t = t

-- NSToTime
unfoldable pub ns_to_time : ℤ → ℤ
ns_to_time ns = unix (quot ns 1000000000) (rem ns 1000000000)

-- AsInt64; `none` is `0, false`.
abbrev pub as_int64 : Value → Option ℤ
as_int64 (int64 v) = some v
as_int64 (int v) = some v
as_int64 (int32 v) = some v
as_int64 (int16 v) = some v
as_int64 (int8 v) = some v
as_int64 _ = none

-- The oneof of a pb.Value; `empty` is the message with no field set.
pub data PbValue : Type 0 where
  ival : ℤ → PbValue
  fval : ℕ → PbValue
  sval : String → PbValue
  tval : ℤ → PbValue
  bval : Bool → PbValue
  empty : PbValue

-- GoValue
unfoldable pub go_value : PbValue → Result Value
go_value (ival v) = ok (int64 v)
go_value (fval v) = ok (float64 v)
go_value (sval v) = ok (string v)
go_value (tval v) = ok (time (ns_to_time v))
go_value (bval v) = ok (bool v)
go_value empty = err Error.unknown_data_type

abbrev set_int : Option ℤ → Result PbValue
set_int (some v) = ok (ival v)
set_int none = err Error.unsupported_value

-- SetValue, on a fresh message: the message that it leaves.
unfoldable pub set_value : Value → Result PbValue
set_value (bool v) = ok (bval v)
set_value (float64 v) = ok (fval v)
set_value (int v) = set_int (as_int64 (int v))
set_value (int64 v) = set_int (as_int64 (int64 v))
set_value (int32 v) = set_int (as_int64 (int32 v))
set_value (int16 v) = set_int (as_int64 (int16 v))
set_value (int8 v) = set_int (as_int64 (int8 v))
set_value (string v) = ok (sval v)
set_value (time t) = ok (tval (unix_nano t))
set_value _ = err Error.unsupported_value

-- `m[key], _ = value.GoValue()`: on an error the entry is nil.
abbrev pub value_or_nil : Result Value → Value
value_or_nil (ok v) = v
value_or_nil _ = nil

-- AsGoMap
unfoldable pub as_go_map : Dict PbValue → Dict Value
unfolding go_value
as_go_map [] = []
as_go_map ((key, value) ∷ mv) = (key, value_or_nil (go_value value)) ∷ as_go_map mv

-- FromGoMap
unfoldable pub from_go_map : Dict Value → Result (Dict PbValue)
unfolding set_value
from_go_map [] = ok []
from_go_map ((key, val) ∷ m) = do
  pb_val ← wrapf "can't encode" (set_value val)
  out ← from_go_map m
  ok ((key, pb_val) ∷ out)
