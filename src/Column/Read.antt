-- ===== src/Column/Read.antt =====
-- column.go: the readers of a column, whole and at an index. A reader that fills the cache of
-- decoded times returns the column that it leaves.
use frames.Base.{
  ℤ, pos, negsuc, ℕ, zero, suc, ◌+◌, Bool, true, false, List, [], ◌∷◌, String, Option, none, some,
  Error, Result, ok, err, panic, ◌>>=◌, ◌>>◌, at,
}
use frames.Value.{ns_to_time}
use frames.Column.{
  Kind, slice, label, DType, ColImpl, len, check_inbounds, check_dtype, validate_at, label_index,
}

-- The formatters of strconv and time, which StringAt calls.
pub record Format : Type 0 where
  pub format_int : ℤ → String
  pub format_float : ℕ → String
  pub format_time : ℤ → String

module _ {A : Type 0} where
  -- `for i < n { data[i] = src[0] }`
  unfoldable pub fill_label : List A → ℕ → Result (List A)
  fill_label src zero = ok []
  fill_label src (suc n) = do v ← at src (pos 0); rest ← fill_label src n; ok (v ∷ rest)

  -- `make` panics on a negative size.
  unfoldable pub make_label : List A → ℤ → Result (List A)
  unfolding fill_label
  make_label src (pos n) = fill_label src n
  make_label src (negsuc n) = panic

  -- The common body of Ints and Floats.
  abbrev pub expand : Kind → List A → ℤ → Result (List A)
  expand slice xs size = ok xs
  expand label xs size = make_label xs size

unfoldable pub ints : ColImpl → Result (List ℤ)
unfolding make_label
ints c = do check_dtype c DType.integer; expand c.msg.kind c.msg.ints c.msg.size

unfoldable pub int_at : ColImpl → ℤ → Result ℤ
int_at c i = do validate_at c DType.integer i; at c.msg.ints (label_index c.msg.kind i)

unfoldable pub floats : ColImpl → Result (List ℕ)
unfolding make_label
floats c = do check_dtype c DType.float; expand c.msg.kind c.msg.floats c.msg.size

unfoldable pub float_at : ColImpl → ℤ → Result ℕ
float_at c i = do validate_at c DType.float i; at c.msg.floats (label_index c.msg.kind i)

-- `times[i] = pb.NSToTime(c.msg.Times[idx])`, from index i for the rounds left.
unfoldable pub decode_times : Kind → List ℤ → ℕ → ℕ → Result (List ℤ)
decode_times k ts i zero = ok []
decode_times k ts i (suc n) = do
  ns ← at ts (label_index k (pos i))
  rest ← decode_times k ts (i + 1) n
  ok (ns_to_time ns ∷ rest)

unfoldable pub make_times : ColImpl → ℤ → Result (List ℤ)
unfolding decode_times
make_times c (pos n) = decode_times c.msg.kind c.msg.times 0 n
make_times c (negsuc n) = panic

abbrev store_times : ColImpl → Result (List ℤ) → Result (List ℤ) × ColImpl
store_times c (ok ts) = (ok ts, record c { times = some ts })
store_times c (err e) = (err e, c)
store_times c panic = (panic, c)

abbrev cached_times : ColImpl → Option (List ℤ) → Result (List ℤ) × ColImpl
cached_times c (some ts) = (ok ts, c)
cached_times c none = store_times c (make_times c (len c))

abbrev after_check : ColImpl → Result (Unit {0}) → Result (List ℤ) × ColImpl
after_check c (ok _) = cached_times c c.times
after_check c (err e) = (err e, c)
after_check c panic = (panic, c)

unfoldable pub times : ColImpl → Result (List ℤ) × ColImpl
unfolding make_times
times c = after_check c (check_dtype c DType.time)

abbrev time_in : Option (List ℤ) → List ℤ → ℤ → Result ℤ
time_in (some ts) raw i = at ts i
time_in none raw i = do ns ← at raw i; ok (ns_to_time ns)

unfoldable pub time_at : ColImpl → ℤ → Result ℤ
time_at c i = do validate_at c DType.time i; time_in c.times c.msg.times (label_index c.msg.kind i)

unfoldable pub bools : ColImpl → Result (List Bool)
bools c = do check_dtype c DType.boolean; ok c.msg.bools

unfoldable pub bool_at : ColImpl → ℤ → Result Bool
bool_at c i = do validate_at c DType.boolean i; at c.msg.bools (label_index c.msg.kind i)

abbrev pub show_bool : Bool → String
show_bool true = "true"
show_bool false = "false"

module _ (fmt : Format) where
  abbrev string_of : ColImpl → ℤ → DType → Result String
  string_of c i DType.integer = do v ← int_at c i; ok (fmt.format_int v)
  string_of c i DType.float = do v ← float_at c i; ok (fmt.format_float v)
  string_of c i DType.string = at c.msg.strings (label_index c.msg.kind i)
  string_of c i DType.time = do v ← time_at c i; ok (fmt.format_time v)
  string_of c i DType.boolean = do v ← bool_at c i; ok (show_bool v)
  string_of c i (DType.other n) = err Error.unknown_dtype

  unfoldable pub string_at : ColImpl → ℤ → Result String
  unfolding int_at float_at time_at bool_at
  string_at c i = do check_inbounds c i; string_of c i c.msg.dtype

  -- `data[i], _ = c.StringAt(i)`: on an error the entry is "".
  abbrev string_or_empty : Result String → Result String
  string_or_empty (ok s) = ok s
  string_or_empty (err e) = ok ""
  string_or_empty panic = panic

  unfoldable pub strings_from : ColImpl → ℕ → ℕ → Result (List String)
  unfolding string_at
  strings_from c i zero = ok []
  strings_from c i (suc n) = do
    s ← string_or_empty (string_at c (pos i))
    rest ← strings_from c (i + 1) n
    ok (s ∷ rest)

  unfoldable pub make_strings : ColImpl → ℤ → Result (List String)
  unfolding strings_from
  make_strings c (pos n) = strings_from c 0 n
  make_strings c (negsuc n) = panic

  abbrev strings_by : ColImpl → DType → Kind → Result (List String)
  strings_by c DType.string slice = ok c.msg.strings
  strings_by c _ _ = make_strings c (len c)

  unfoldable pub strings : ColImpl → Result (List String)
  unfolding make_strings
  strings c = strings_by c c.msg.dtype c.msg.kind
