-- ===== src/Kv.antt =====
-- backends/kv/reader.go and backends/utils/utils.go (NewColumn): the frames that the key/value
-- backend builds from the items of its cursor.
pub mod Writer
pub mod Sending
pub mod Rows
pub mod Frames
pub mod Backend
pub mod Inferring
use frames.Base.{
  ℤ, pos, ℕ, zero, suc, ◌+◌, Bool, true, false, List, [], ◌∷◌, String, Option, none, some, Dict,
  lookup, insert, contains, replicate, Error, Result, ok, err, ◌>>=◌, ◌>>◌, str_eq, if◌then◌else◌,
}
use frames.Value.{Value, nan}
use frames.Column.{ColImpl}
use frames.Column.Edit.{Data, new_slice_column, append}
use frames.Column.Utils.{append_nil, remove_column}
use frames.Frame.{Frame, new_frame}

-- indexColKey
abbrev pub index_col_key : String
index_col_key = "__name"

-- utils.NewColumn. UnixNano of the zero time.Time is out of its range: what it returns is the
-- parameter `zero_time`.
unfoldable pub new_data : ℤ → Value → ℕ → Data
new_data zero_time (Value.int64 v) size = Data.int64s (replicate size (pos 0))
new_data zero_time (Value.int32 v) size = Data.int64s (replicate size (pos 0))
new_data zero_time (Value.int16 v) size = Data.int64s (replicate size (pos 0))
new_data zero_time (Value.int8 v) size = Data.int64s (replicate size (pos 0))
new_data zero_time (Value.int v) size = Data.int64s (replicate size (pos 0))
new_data zero_time (Value.float64 v) size = Data.floats (replicate size nan)
new_data zero_time (Value.string v) size = Data.strings (replicate size "")
new_data zero_time (Value.time v) size = Data.times (replicate size zero_time)
new_data zero_time (Value.bool v) size = Data.bools (replicate size false)
new_data zero_time _ size = Data.other

-- The columns of the frame under construction, in the order in which they were made. (The source
-- keeps them in a list and in a map by name.)
abbrev pub Columns : Type 0
Columns = Dict ColImpl

abbrev pub find_or_new : ℤ → ℕ → String → Value → Option ColImpl → Result ColImpl
find_or_new zero_time row_num name field (some c) = ok c
find_or_new zero_time row_num name field none =
    new_slice_column name (new_data zero_time field row_num)

-- One field of a row.
unfoldable pub add_field : ℤ → ℕ → String → Value → Columns → Result Columns
add_field zero_time row_num name field cols = do
  col ← find_or_new zero_time row_num name field (lookup name cols)
  col' ← append col field
  ok (insert name col' cols)

unfoldable pub add_fields : ℤ → ℕ → Dict Value → Columns → Result Columns
add_fields zero_time row_num [] cols = ok cols
add_fields zero_time row_num ((name, field) ∷ row) cols = do
  cols' ← add_field zero_time row_num name field cols
  add_fields zero_time row_num row cols'

-- The loop that fills the columns with no value in the row.
unfoldable pub fill_nil : Dict Value → Columns → Result Columns
fill_nil row [] = ok []
fill_nil row ((name, col) ∷ cols) = do
  col' ← if contains name row then ok col else append_nil col
  rest ← fill_nil row cols
  ok ((name, col') ∷ rest)

unfoldable pub add_row : ℤ → ℕ → Dict Value → Columns → Result Columns
add_row zero_time row_num row cols = do
  cols' ← add_fields zero_time row_num row cols
  fill_nil row cols'

abbrev is_schema_name : Option Value → Bool
is_schema_name (some (Value.string s)) = str_eq s ".#schema"
is_schema_name _ = false

-- `ok && rowIndex == ".#schema"`
abbrev pub is_schema_row : Dict Value → Bool
is_schema_row row = is_schema_name (lookup index_col_key row)

-- The loop over the rows: the items that the cursor will give, and the most rows to take. The row
-- number goes up for the row of the schema too. The result has the columns, the number of rounds
-- made, whether the cursor was asked and had no more, and the items that are left.
unfoldable pub read_rows :
    ℤ
    → (limit row_num : ℕ) → List (Dict Value)
    → Columns
    → Result (Columns × ℕ × Bool × List (Dict Value))
read_rows zero_time zero row_num rows cols = ok (cols, row_num, false, rows)
read_rows zero_time (suc limit) row_num [] cols = ok (cols, row_num, true, [])
read_rows zero_time (suc limit) row_num (row ∷ rows) cols = do
  cols' ← if is_schema_row row then ok cols else add_row zero_time row_num row cols
  read_rows zero_time limit (row_num + 1) rows cols'

abbrev pub columns_of : Columns → List ColImpl
columns_of [] = []
columns_of ((name, c) ∷ cols) = c ∷ columns_of cols

abbrev pub frame_of : Columns → Option ColImpl → Result Frame
frame_of cols (some index) =
    new_frame (remove_column index_col_key (columns_of cols)) (index ∷ []) none
frame_of cols none = new_frame (columns_of cols) [] none

abbrev pub build : Columns → ℕ → List (Dict Value) → Result (Option Frame × List (Dict Value))
build cols zero rows = ok (none, rows)
build cols (suc n) rows = do fr ← frame_of cols (lookup index_col_key cols); ok (some fr, rows)

abbrev pub cursor_failed : Option Error → Bool → Result (Unit {0})
cursor_failed (some e) true = err e
cursor_failed _ _ = ok tt

-- Iterator.Next: the next frame, or none at the end, and the items that are left. `failure` is the
-- error with which the cursor ends, if it does.
unfoldable pub next :
    ℤ → ℕ → Option Error → List (Dict Value) → Result (Option Frame × List (Dict Value))
next zero_time limit failure rows = do
  (cols, row_num, ended, rest) ← read_rows zero_time limit 0 rows []
  cursor_failed failure ended
  build cols row_num rest
