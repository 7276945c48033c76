-- ===== src/Column/Utils.antt =====
-- colutils.go (typed access through the Column interface) and the accessors of
-- backends/utils/utils.go.
use frames.Base.{
  ℤ, pos, ◌-ℤ◌, ℕ, Bool, List, [], ◌∷◌, String, Error, Result, ok, err, ◌>>=◌, ◌>>◌, guard, at,
  leb_ℤ, ltb_ℤ, ◌&&◌, ◌||◌, ◌==◌, str_eq, not, if◌then◌else◌,
}
use frames.Value.{Value, nan}
use frames.Column.{DType, ColImpl, len, code}
use frames.Column.Read.{
  Format, ints, int_at, floats, float_at, strings, string_at, times, time_at, bools, bool_at,
}
use frames.Column.Edit.{append}

-- checkInBounds and the dtype test, at the head of each typed accessor.
abbrev checked : ColImpl → DType → ℤ → Result (Unit {0})
checked c dtype i = do
  guard (leb_ℤ (pos 0) i && ltb_ℤ i (len c)) (Error.out_of_bounds i (len c))
  guard (code c.msg.dtype == code dtype) Error.not_that_column

-- intAt
unfoldable pub int_at_util : ColImpl → ℤ → Result ℤ
unfolding ints
int_at_util c i = do checked c DType.integer i; xs ← ints c; at xs i

-- floatAt
unfoldable pub float_at_util : ColImpl → ℤ → Result ℕ
unfolding floats
float_at_util c i = do checked c DType.float i; xs ← floats c; at xs i

-- stringAt
unfoldable pub string_at_util : Format → ColImpl → ℤ → Result String
unfolding strings
string_at_util fmt c i = do checked c DType.string i; xs ← strings fmt c; at xs i

-- timeAt (the cache that it may fill is left out of the result)
unfoldable pub time_at_util : ColImpl → ℤ → Result ℤ
unfolding times
time_at_util c i = do checked c DType.time i; xs ← (times c).0; at xs i

-- boolAt
unfoldable pub bool_at_util : ColImpl → ℤ → Result Bool
unfolding bools
bool_at_util c i = do checked c DType.boolean i; xs ← bools c; at xs i

module _ (fmt : Format) where
  abbrev col_at_by : ColImpl → ℤ → DType → Result Value
  col_at_by c i DType.integer = do v ← int_at c i; ok (Value.int64 v)
  col_at_by c i DType.float = do v ← float_at c i; ok (Value.float64 v)
  col_at_by c i DType.string = do v ← string_at fmt c i; ok (Value.string v)
  col_at_by c i DType.time = do v ← time_at c i; ok (Value.string (fmt.format_time v))
  col_at_by c i DType.boolean = do v ← bool_at c i; ok (Value.bool v)
  col_at_by c i (DType.other n) = err Error.unknown_dtype

  -- ColAt
  unfoldable pub col_at : ColImpl → ℤ → Result Value
  unfolding int_at float_at string_at time_at bool_at
  col_at c i = do
    guard (not (ltb_ℤ i (pos 0) || leb_ℤ (len c) i)) (Error.out_of_bounds i (len c -ℤ pos 1))
    col_at_by c i c.msg.dtype

-- zeroValue of frame.go, and the same table in AppendNil
unfoldable pub zero_value : DType → Result Value
zero_value DType.integer = ok (Value.int64 (pos 0))
zero_value DType.float = ok (Value.float64 nan)
zero_value DType.string = ok (Value.string "")
zero_value DType.time = ok (Value.time (pos 0))
zero_value DType.boolean = ok (Value.bool Bool.false)
zero_value (DType.other n) = err Error.unknown_dtype

-- AppendNil
unfoldable pub append_nil : ColImpl → Result ColImpl
unfolding zero_value append
append_nil c = do v ← zero_value c.msg.dtype; append c v

-- RemoveColumn
unfoldable pub remove_column : String → List ColImpl → List ColImpl
remove_column name [] = []
remove_column name (c ∷ cs) = if str_eq c.msg.name name then cs else c ∷ remove_column name cs

module _ (fmt : Format) where
  abbrev value_by : ColImpl → ℤ → DType → Result Value
  value_by c i DType.integer = do v ← int_at c i; ok (Value.int64 v)
  value_by c i DType.float = do v ← float_at c i; ok (Value.float64 v)
  value_by c i DType.string = do v ← string_at fmt c i; ok (Value.string v)
  value_by c i DType.time = do v ← time_at c i; ok (Value.time v)
  value_by c i DType.boolean = do v ← bool_at c i; ok (Value.bool v)
  value_by c i (DType.other n) = err Error.unknown_dtype

  -- The switch of rowIterator.getRow: the value of a column at a row, whatever its dtype.
  unfoldable pub value_at : ColImpl → ℤ → Result Value
  value_at c i = value_by c i c.msg.dtype
