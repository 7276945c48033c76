-- ===== src/Csv.antt =====
-- backends/csv/backend.go: the iterator that reads frames from a CSV file. The records that the
-- csv.Reader gives are a list, an error among them where the reader fails.
pub mod Batches
pub mod Files
pub mod Tables
pub mod Commands
use frames.Base.{
  ℤ, pos, ℕ, zero, suc, ◌+◌, Bool, true, false, List, [], ◌∷◌, ◌++◌, String, Option, none, some,
  length, get_elem?, at, Error, Result, ok, err, panic, ◌>>=◌, ◌>>◌, guard, ltb, leb, ◌==◌, ltb_ℤ,
  leb_ℤ, str_eq, ◌&&◌, ◌||◌, not, wrapf, if◌then◌else◌,
}
use frames.Value.{Value, as_int64}
use frames.Column.{ColImpl}
use frames.Column.Edit.{Data, new_slice_column, as_float64, as_string, as_time, as_bool}
use frames.Frame.{Frame, new_frame}

-- What parseValue asks of time, strings and strconv; a failed parse is `none`.
pub record Parsers : Type 0 where
  -- time.Parse with each of the three formats, in the order of parseValue
  pub parse_rfc3339 : String → Option ℤ
  pub parse_rfc3339_nano : String → Option ℤ
  pub parse_date : String → Option ℤ
  pub to_lower : String → String
  -- strconv.Atoi and strconv.ParseFloat
  pub atoi : String → Option ℤ
  pub parse_float : String → Option ℕ

abbrev as_float : Option ℕ → String → Value
as_float (some f) value = Value.float64 f
as_float none value = Value.string value

abbrev as_number : Option ℤ → Option ℕ → String → Value
as_number (some i) f value = Value.int64 i
as_number none f value = as_float f value

abbrev as_word : Parsers → String → String → Value
as_word p lower value =
    if str_eq lower "true"
    then Value.bool true
    else (if str_eq lower "false"
        then Value.bool false
        else as_number (p.atoi value) (p.parse_float value) value)

abbrev first_time : Option ℤ → Option ℤ → Option ℤ → Option ℤ
first_time (some t) u v = some t
first_time none (some t) v = some t
first_time none none v = v

abbrev time_or : Option ℤ → Value → Value
time_or (some t) v = Value.time t
time_or none v = v

-- parseValue
unfoldable pub parse_value : Parsers → String → Value
parse_value p value =
    time_or (first_time (p.parse_rfc3339 value) (p.parse_rfc3339_nano value) (p.parse_date value))
      (as_word p (p.to_lower value) value)

abbrev pub Row : Type 0
Row = List String

-- FrameIterator
pub record Iterator : Type 0 where
  pub reader : List (Result Row)
  pub frame : Option Frame
  pub error : Option Error
  pub column_names : List String
  pub n_rows : ℕ
  pub limit : ℤ
  pub frame_limit : ℤ

-- inLimits
abbrev pub in_limits : Iterator → ℕ → Bool
in_limits it frame_row =
    not (ltb_ℤ (pos 0) it.limit && leb_ℤ it.limit (pos it.n_rows))
    && not (ltb_ℤ (pos 0) it.frame_limit && leb_ℤ it.frame_limit (pos frame_row))

-- `rows = append(rows, row)`, for the rows that the later rounds read.
abbrev pub add_row : Row → Result (List Row) × Iterator → Result (List Row) × Iterator
add_row row (ok rows, it) = (ok (row ∷ rows), it)
add_row row (err e, it) = (err e, it)
add_row row (panic, it) = (panic, it)

abbrev pub read_one :
    (Iterator → Result (List Row) × Iterator)
    → Iterator
    → Result Row
    → List (Result Row)
    → Result (List Row) × Iterator
read_one more it (ok row) rs =
    if length row == length it.column_names
    then add_row row (more (record it { reader = rs; n_rows = it.n_rows + 1 }))
    else (err (Error.row_size_mismatch it.n_rows), record it { reader = rs })
read_one more it (err e) rs = (err e, record it { reader = rs })
read_one more it panic rs = (panic, record it { reader = rs })

-- readNextRows, from frame row r on: a reader with no more records is at EOF.
unfoldable pub read_next_rows : List (Result Row) → ℕ → Iterator → Result (List Row) × Iterator
read_next_rows [] r it = (ok [], it)
read_next_rows (x ∷ rs) r it = elim (in_limits it r) [
  | true ↦ read_one (λ it'. read_next_rows rs (r + 1) it') it x rs
  | false ↦ (ok [], it)
]

-- `row[c]`, parsed and asserted to be of one type, for each row.
unfoldable pub typed_cells {ℓ} :
    {A : Type ℓ} → (Value → Option A) → Parsers → ℕ → ℕ → List Row → Result (List A)
typed_cells assert p n_rows c [] = ok []
typed_cells assert p n_rows c (row ∷ rows) = do
  cell ← at row (pos c)
  v ← elim (assert (parse_value p cell)) [ some v ↦ ok v | none ↦ err (Error.type_mismatch n_rows) ]
  rest ← typed_cells assert p n_rows c rows
  ok (v ∷ rest)

-- `row[c]` as it stands, for each row.
unfoldable pub raw_cells : ℕ → List Row → Result (List String)
raw_cells c [] = ok []
raw_cells c (row ∷ rows) = do cell ← at row (pos c); rest ← raw_cells c rows; ok (cell ∷ rest)

-- The assertion val.(int64).
abbrev as_int64_only : Value → Option ℤ
as_int64_only (Value.int64 v) = some v
as_int64_only _ = none

-- The switch of buildFrame on the value of the first row; the first value leads the data.
abbrev pub column_data : Parsers → ℕ → ℕ → Value → List Row → Result Data
column_data p n c (Value.int64 v) rows = do
  xs ← typed_cells as_int64_only p n c rows
  ok (Data.int64s (v ∷ xs))
column_data p n c (Value.float64 v) rows = do
  xs ← typed_cells as_float64 p n c rows
  ok (Data.floats (v ∷ xs))
column_data p n c (Value.string v) rows = do xs ← raw_cells c rows; ok (Data.strings (v ∷ xs))
column_data p n c (Value.time v) rows = do
  xs ← typed_cells as_time p n c rows
  ok (Data.times (v ∷ xs))
column_data p n c (Value.bool v) rows = do
  xs ← typed_cells as_bool p n c rows
  ok (Data.bools (v ∷ xs))
column_data p n c _ rows = err Error.unknown_data_type

-- The loop of buildFrame over the column names.
unfoldable pub build_columns :
    Parsers → ℕ → Row → List Row → ℕ → List String → Result (List ColImpl)
build_columns p n first rows c [] = ok []
build_columns p n first rows c (name ∷ names) = do
  cell ← at first (pos c)
  values ← column_data p n c (parse_value p cell) rows
  col ← wrapf "can't build column" (new_slice_column name values)
  rest ← build_columns p n first rows (c + 1) names
  ok (col ∷ rest)

-- buildFrame; `rows[0]` panics without rows.
unfoldable pub build_frame : Parsers → Iterator → List Row → Result Frame
build_frame p it [] = panic
build_frame p it (first ∷ rows) = do
  columns ← build_columns p it.n_rows first rows 0 it.column_names
  new_frame columns [] none

abbrev built : Iterator → Result Frame → Result (Bool × Iterator)
built it (ok fr) = ok (true, record it { frame = some fr })
built it (err e) = ok (false, record it { frame = none; error = some e })
built it panic = panic

abbrev with_rows : Parsers → Result (List Row) × Iterator → Result (Bool × Iterator)
with_rows p (ok [], it) = ok (false, it)
with_rows p (ok (row ∷ rows), it) = built it (build_frame p it (row ∷ rows))
with_rows p (err e, it) = ok (false, record it { error = some e })
with_rows p (panic, it) = panic

-- Next
unfoldable pub next : Parsers → Iterator → Result (Bool × Iterator)
next p it = with_rows p (read_next_rows it.reader 0 it)
