-- ===== src/RowIter.antt =====
-- rowiter.go: the iterator over the rows of a frame.
pub mod Walk
use frames.Base.{
  pos, ℕ, zero, suc, ◌+◌, Bool, true, false, List, [], ◌∷◌, ◌++◌, String, Option, none, some, Dict,
  Error, Result, ok, err, panic, ◌>>=◌, ◌>>◌, guard, ltb_ℤ, not, str_eq, if◌then◌else◌,
}
use frames.Value.{Value}
use frames.Column.{ColImpl}
use frames.Column.Read.{Format}
use frames.Column.Utils.{value_at}
use frames.Frame.{Frame, names, column, frame_len}
use frames.Frame.Rows.{in_slice}

-- The Sprintf calls that name a column without a name.
pub record Namer : Type 0 where
  pub col_name : ℕ → String
  pub index_name : ℕ → String

-- A column of the iterator under the name that its rows use.
pub record Named : Type 0 where
  pub name : String
  pub col : ColImpl

abbrev pub named : (ℕ → String) → ℕ → String → String
named gen i name = if str_eq name "" then gen i else name

-- rowIterator, once its first call of Next has run init.
pub record RowIterator : Type 0 where
  pub columns : List Named
  pub error : Option Error
  pub frame : Frame
  pub row : Dict Value
  pub row_num : ℕ

-- The loop of init over the names; `seen` is nameMap.
unfoldable pub init_columns : Namer → Frame → ℕ → List String → List String → Result (List Named)
init_columns nm fr i seen [] = ok []
init_columns nm fr i seen (name ∷ rest) = do
  col ← column fr name
  let key = named nm.col_name i name
  guard (not (in_slice key seen)) (Error.duplicate_column key)
  cols ← init_columns nm fr (i + 1) (key ∷ seen) rest
  ok (record { name = key; col = col } ∷ cols)

-- nameMap after that loop.
abbrev pub seen_names : List Named → List String → List String
seen_names [] seen = seen
seen_names (c ∷ cs) seen = seen_names cs (c.name ∷ seen)

-- The loop of init over the indices.
unfoldable pub init_indices : Namer → ℕ → List String → List ColImpl → Result (List Named)
init_indices nm i seen [] = ok []
init_indices nm i seen (c ∷ cs) = do
  let key = named nm.index_name i c.msg.name
  guard (not (in_slice key seen)) (Error.duplicate_column key)
  rest ← init_indices nm (i + 1) (key ∷ seen) cs
  ok (record { name = key; col = c } ∷ rest)

abbrev index_part : Namer → Bool → List Named → List ColImpl → Result (List Named)
index_part nm true cols indices = init_indices nm 0 (seen_names cols []) indices
index_part nm false cols indices = ok []

-- The columns that init sets, or the error.
unfoldable pub init_named : Namer → Frame → Bool → Result (List Named)
init_named nm fr include_index = do
  ns ← (names fr).0
  cols ← init_columns nm fr 0 [] ns
  inds ← index_part nm include_index cols fr.indices
  ok (cols ++ inds)

abbrev with_columns : Frame → Result (List Named) → Result RowIterator
with_columns fr (ok cols) =
    ok (record { columns = cols; error = none; frame = fr; row = []; row_num = 0 })
with_columns fr (err e) =
    ok (record { columns = []; error = some e; frame = fr; row = []; row_num = 0 })
with_columns fr panic = panic

-- newRowIterator, with the init that the first Next runs: an error is kept in the iterator.
unfoldable pub new_row_iterator : Namer → Frame → Bool → Result RowIterator
new_row_iterator nm fr include_index = with_columns fr (init_named nm fr include_index)

-- getRow
unfoldable pub get_row : Format → ℕ → List Named → Result (Dict Value)
get_row fmt r [] = ok []
get_row fmt r (c ∷ cs) = do
  value ← value_at fmt c.col (pos r)
  rest ← get_row fmt r cs
  ok ((c.name, value) ∷ rest)

abbrev stepped : RowIterator → Result (Dict Value) → Result (Bool × RowIterator)
stepped it (ok row) = ok (true, record it { row = row; row_num = it.row_num + 1 })
stepped it (err e) = ok (false, record it { error = some e })
stepped it panic = panic

abbrev next_row : Format → RowIterator → Option Error → Result (Bool × RowIterator)
next_row fmt it (some e) = ok (false, it)
next_row fmt it none =
    if ltb_ℤ (pos it.row_num) (frame_len it.frame)
    then stepped it (get_row fmt it.row_num it.columns)
    else ok (false, it)

-- Next
unfoldable pub next : Format → RowIterator → Result (Bool × RowIterator)
next fmt it = next_row fmt it it.error

-- The rows that a client reads with `for it.Next() { rows = append(rows, it.Row()) }`, and the
-- error that it.Err gives afterwards; `panic` also stands for a loop that has used up its fuel.
abbrev pub add_row :
    Dict Value
    → Result (List (Dict Value) × Option Error)
    → Result (List (Dict Value) × Option Error)
add_row row r = do (rows, e) ← r; ok (row ∷ rows, e)

abbrev pub continue :
    (RowIterator → Result (List (Dict Value) × Option Error))
    → Result (Bool × RowIterator)
    → Result (List (Dict Value) × Option Error)
continue more (ok (true, it)) = add_row it.row (more it)
continue more (ok (false, it)) = ok ([], it.error)
continue more (err e) = err e
continue more panic = panic

unfoldable pub read_rows : ℕ → Format → RowIterator → Result (List (Dict Value) × Option Error)
read_rows zero fmt it = panic
read_rows (suc fuel) fmt it = continue (λ it'. read_rows fuel fmt it') (next fmt it)
