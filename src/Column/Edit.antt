-- ===== src/Column/Edit.antt =====
-- column.go: slices of a column, the two constructors, and Append.
use frames.Base.{
  ℤ, pos, ℕ, ◌+ℤ◌, ◌-ℤ◌, Bool, true, false, List, [], ◌∷◌, ◌++◌, map, String, Option, none, some,
  Error, Result, ok, err, ◌>>=◌, ◌>>◌, guard, at, slice_list, leb_ℤ, eqb_ℤ, str_eq, not,
  if◌then◌else◌,
}
use frames.Value.{Value, as_int64, unix_nano, float_eq}
use frames.Column.{Kind, slice, label, DType, Column, ColImpl, check_inbounds}

abbrev pub empty_msg : Kind → String → DType → Column
empty_msg kind name dtype = record {
  kind = kind;
  name = name;
  dtype = dtype;
  size = pos 0;
  ints = [];
  floats = [];
  strings = [];
  times = [];
  bools = [];
}

-- `if kind == SLICE { data = data[start:end] }`
abbrev pub cut {ℓ} : {A : Type ℓ} → Kind → List A → ℤ → ℤ → Result (List A)
cut slice xs start end = slice_list xs start end
cut label xs start end = ok xs

abbrev pub cut_size : Kind → ℤ → ℤ → ℤ
cut_size label start end = end -ℤ start
cut_size slice start end = pos 0

abbrev pub cut_msg : Column → DType → ℤ → ℤ → Result Column
cut_msg m DType.integer s e = do
  xs ← cut m.kind m.ints s e
  ok (record (empty_msg m.kind m.name m.dtype) { size = cut_size m.kind s e; ints = xs })
cut_msg m DType.float s e = do
  xs ← cut m.kind m.floats s e
  ok (record (empty_msg m.kind m.name m.dtype) { size = cut_size m.kind s e; floats = xs })
cut_msg m DType.string s e = do
  xs ← cut m.kind m.strings s e
  ok (record (empty_msg m.kind m.name m.dtype) { size = cut_size m.kind s e; strings = xs })
cut_msg m DType.time s e = do
  xs ← cut m.kind m.times s e
  ok (record (empty_msg m.kind m.name m.dtype) { size = cut_size m.kind s e; times = xs })
cut_msg m DType.boolean s e = do
  xs ← cut m.kind m.bools s e
  ok (record (empty_msg m.kind m.name m.dtype) { size = cut_size m.kind s e; bools = xs })
cut_msg m (DType.other n) s e =
    ok (record (empty_msg m.kind m.name m.dtype) { size = cut_size m.kind s e })

-- Slice
unfoldable pub slice_col : ColImpl → ℤ → ℤ → Result ColImpl
slice_col c start end = do
  guard (leb_ℤ start end) Error.start_after_end
  check_inbounds c start
  if eqb_ℤ end (pos 0) then ok tt else check_inbounds c (end -ℤ pos 1)
  msg ← cut_msg c.msg c.msg.dtype start end
  ok (record { msg = msg; times = none })

-- The dynamic types that NewSliceColumn tells apart.
pub data Data : Type 0 where
  bools : List Bool → Data
  floats : List ℕ → Data
  ints int64s : List ℤ → Data
  strings : List String → Data
  times : List ℤ → Data
  other : Data

abbrev new_col : Column → ColImpl
new_col m = record { msg = m; times = none }

-- NewSliceColumn. The cache stays nil: the `times :=` of the time case is a variable of its own.
unfoldable pub new_slice_column : String → Data → Result ColImpl
new_slice_column name (Data.bools xs) =
    ok (new_col (record (empty_msg slice name DType.boolean) { bools = xs }))
new_slice_column name (Data.floats xs) =
    ok (new_col (record (empty_msg slice name DType.float) { floats = xs }))
new_slice_column name (Data.ints xs) =
    ok (new_col (record (empty_msg slice name DType.integer) { ints = xs }))
new_slice_column name (Data.int64s xs) =
    ok (new_col (record (empty_msg slice name DType.integer) { ints = xs }))
new_slice_column name (Data.strings xs) =
    ok (new_col (record (empty_msg slice name DType.string) { strings = xs }))
new_slice_column name (Data.times xs) =
    ok (new_col (record (empty_msg slice name DType.time) { times = map unix_nano xs }))
new_slice_column name Data.other = err Error.unknown_data_type

-- NewLabelColumn
unfoldable pub new_label_column : String → Value → ℤ → Result ColImpl
new_label_column name (Value.bool v) size =
    ok (new_col (record (empty_msg label name DType.boolean) { size = size; bools = v ∷ [] }))
new_label_column name (Value.float64 v) size =
    ok (new_col (record (empty_msg label name DType.float) { size = size; floats = v ∷ [] }))
new_label_column name (Value.int v) size =
    ok (new_col (record (empty_msg label name DType.integer) { size = size; ints = v ∷ [] }))
new_label_column name (Value.int64 v) size =
    ok (new_col (record (empty_msg label name DType.integer) { size = size; ints = v ∷ [] }))
new_label_column name (Value.string v) size =
    ok (new_col (record (empty_msg label name DType.string) { size = size; strings = v ∷ [] }))
new_label_column name (Value.time v) size =
    ok
      (new_col (record (empty_msg label name DType.time) { size = size; times = unix_nano v ∷ [] }))
new_label_column name _ size = err Error.unknown_data_type

-- Type assertions, `value.(T)`.
abbrev pub as_float64 : Value → Option ℕ
as_float64 (Value.float64 v) = some v
as_float64 _ = none

abbrev pub as_string : Value → Option String
as_string (Value.string v) = some v
as_string _ = none

abbrev pub as_time : Value → Option ℤ
as_time (Value.time v) = some v
as_time _ = none

abbrev pub as_bool : Value → Option Bool
as_bool (Value.bool v) = some v
as_bool _ = none

-- `v, ok := …; if !ok { return error }`
abbrev pub asserted {ℓ} : {A : Type ℓ} → Option A → Result A
asserted (some v) = ok v
asserted none = err Error.wrong_type

abbrev pub append_by : Column → DType → Value → Result Column
append_by m DType.integer x = do
  v ← asserted (as_int64 x)
  ok (record m { ints = m.ints ++ (v ∷ []) })
append_by m DType.float x = do
  v ← asserted (as_float64 x)
  ok (record m { floats = m.floats ++ (v ∷ []) })
append_by m DType.string x = do
  v ← asserted (as_string x)
  ok (record m { strings = m.strings ++ (v ∷ []) })
append_by m DType.time x = do
  v ← asserted (as_time x)
  ok (record m { times = m.times ++ (unix_nano v ∷ []) })
append_by m DType.boolean x = do
  v ← asserted (as_bool x)
  ok (record m { bools = m.bools ++ (v ∷ []) })
append_by m (DType.other n) x = err Error.unknown_dtype

-- appendSlice
unfoldable pub append_slice : ColImpl → Value → Result ColImpl
append_slice c x = do m ← append_by c.msg c.msg.dtype x; ok (record c { msg = m })

-- `if !ok { return false }; return v == first[0]`
abbrev same {ℓ} : {A : Type ℓ} → (A → A → Bool) → Option A → List A → Result Bool
same eq none xs = ok false
same eq (some v) xs = do w ← at xs (pos 0); ok (eq v w)

abbrev pub bool_eq : Bool → Bool → Bool
bool_eq true b = b
bool_eq false b = not b

abbrev same_by : Column → DType → Value → Result Bool
same_by m DType.integer x = same eqb_ℤ (as_int64 x) m.ints
same_by m DType.float x = same float_eq (as_float64 x) m.floats
same_by m DType.string x = same str_eq (as_string x) m.strings
same_by m DType.time x = same eqb_ℤ (as_time x) m.times
same_by m DType.boolean x = same bool_eq (as_bool x) m.bools
same_by m (DType.other n) x = ok false

-- sameLabelValue
unfoldable pub same_label_value : ColImpl → Value → Result Bool
same_label_value c x = same_by c.msg c.msg.dtype x

-- appendLabel
unfoldable pub append_label : ColImpl → Value → Result ColImpl
unfolding same_label_value
append_label c x = do
  same ← same_label_value c x
  guard same Error.label_mismatch
  let m = c.msg
  ok (record c { msg = record m { size = m.size +ℤ pos 1 } })

abbrev pub append_kind : Kind → ColImpl → Value → Result ColImpl
append_kind label c x = append_label c x
append_kind slice c x = append_slice c x

-- Append
unfoldable pub append : ColImpl → Value → Result ColImpl
unfolding append_label append_slice
append c x = append_kind c.msg.kind c x
