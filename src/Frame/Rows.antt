-- ===== src/Frame/Rows.antt =====
-- frame.go: NewFrameFromRows, which builds columns row by row and fills the gaps.
use frames.Base.{
  ℤ, pos, pos_part, neg_part, ℕ, zero, suc, ◌+◌, ◌-◌, Bool, true, false, List, [], ◌∷◌, String,
  Option, none, some, Dict, lookup, insert, contains, Result, ok, err, panic, ◌>>=◌, ltb_ℤ, leb_ℤ,
  str_eq, ◌||◌, if◌then◌else◌,
}
use frames.Value.{Value}
use frames.Column.{ColImpl, len}
use frames.Column.Edit.{Data, new_slice_column, append}
use frames.Column.Utils.{zero_value}
use frames.Frame.{Frame, new_frame}

abbrev pub extended : Result (Unit {0}) × ColImpl → ColImpl
extended (r, c) = c

-- The loop of extendCol, on fuel; `panic` would mean that the fuel ran out.
unfoldable pub extend_loop : ℕ → Value → ℤ → ColImpl → Result (Unit {0}) × ColImpl
extend_loop zero value size c = elim (ltb_ℤ (len c) size) [ true ↦ (panic, c) | false ↦ (ok tt, c) ]
extend_loop (suc fuel) value size c = elim (ltb_ℤ (len c) size) [
  | false ↦ (ok tt, c)
  | true ↦ elim (append c value) [
    | ok c' ↦ extend_loop fuel value size c'
    | err e ↦ (err e, c)
    | panic ↦ (panic, c)
  ]
]

-- The rows that are missing: each round of the loop adds one.
abbrev pub gap : ℤ → ℤ → ℕ
gap n size = pos_part size + neg_part n - (pos_part n + neg_part size)

abbrev pub extend_with : ColImpl → ℤ → Result Value → Result (Unit {0}) × ColImpl
extend_with c size (ok v) = extend_loop (gap (len c) size) v size c
extend_with c size (err e) = (err e, c)
extend_with c size panic = (panic, c)

-- extendCol: the error that it returns, and the column as it leaves it.
unfoldable pub extend_col : ColImpl → ℤ → Result (Unit {0}) × ColImpl
unfolding extend_loop
extend_col c size =
    if leb_ℤ size (len c) then (ok tt, c) else extend_with c size (zero_value c.msg.dtype)

-- newColumn, up to the call of NewSliceColumn.
abbrev pub empty_data : Value → Data
empty_data (Value.int64 v) = Data.int64s []
empty_data (Value.int32 v) = Data.int64s []
empty_data (Value.int16 v) = Data.int64s []
empty_data (Value.int8 v) = Data.int64s []
empty_data (Value.int v) = Data.int64s []
empty_data (Value.float64 v) = Data.floats []
empty_data (Value.float32 v) = Data.floats []
empty_data (Value.string v) = Data.strings []
empty_data (Value.time v) = Data.times []
empty_data (Value.bool v) = Data.bools []
empty_data _ = Data.other

-- newColumn: the default case and that of NewSliceColumn both refuse the type.
unfoldable pub new_column : String → Value → Result ColImpl
new_column name value = new_slice_column name (empty_data value)

abbrev pub find_or_new : String → Value → Option ColImpl → Result ColImpl
find_or_new name value (some c) = ok c
find_or_new name value none = new_column name value

-- One cell of a row. The caller drops the error of extendCol, and goes on with the column.
unfoldable pub add_cell : ℕ → String → Value → Dict ColImpl → Result (Dict ColImpl)
unfolding extend_col new_column
add_cell row_num name value cols = do
  col ← find_or_new name value (lookup name cols)
  col' ← append (extended (extend_col col (pos row_num))) value
  ok (insert name col' cols)

unfoldable pub add_cells : ℕ → Dict Value → Dict ColImpl → Result (Dict ColImpl)
unfolding add_cell
add_cells row_num [] cols = ok cols
add_cells row_num ((name, value) ∷ row) cols = do
  cols' ← add_cell row_num name value cols
  add_cells row_num row cols'

-- The loop that extends the columns that are not in the row.
unfoldable pub extend_missing : ℕ → Dict Value → Dict ColImpl → Dict ColImpl
unfolding extend_col
extend_missing row_num row [] = []
extend_missing row_num row ((name, c) ∷ cols) =
    (name, (if contains name row then c else extended (extend_col c (pos (row_num + 1)))))
    ∷ extend_missing row_num row cols

unfoldable pub add_rows : ℕ → List (Dict Value) → Dict ColImpl → Result (Dict ColImpl)
unfolding add_cells extend_missing
add_rows row_num [] cols = ok cols
add_rows row_num (row ∷ rows) cols = do
  cols' ← add_cells row_num row cols
  add_rows (row_num + 1) rows (extend_missing row_num row cols')

-- inSlice
abbrev pub in_slice : String → List String → Bool
in_slice name [] = false
in_slice name (n ∷ names) = str_eq name n || in_slice name names

-- The columns named as indices, or the others.
abbrev pub select_cols : Bool → List String → Dict ColImpl → List ColImpl
select_cols index names [] = []
select_cols index names ((name, c) ∷ cols) =
    let rest = select_cols index names cols in
    elim index [
      | true ↦ if in_slice name names then c ∷ rest else rest
      | false ↦ if in_slice name names then rest else c ∷ rest
    ]

-- NewFrameFromRows
unfoldable pub new_frame_from_rows :
    List (Dict Value) → List String → Option (Dict Value) → Result Frame
unfolding add_rows
new_frame_from_rows rows indices labels = do
  cols ← add_rows 0 rows []
  new_frame (select_cols false indices cols) (select_cols true indices cols) labels
