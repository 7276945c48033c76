-- ===== src/Frame.antt =====
-- frame.go: a frame over its columns and its protobuf message.
pub mod Rows
pub mod Growing
pub mod Stage
pub mod Cells
pub mod OneRow
pub mod FromRows
pub mod Shape
pub mod Slices
use frames.Base.{
  ℤ, pos, negsuc, ℕ, zero, suc, ◌+◌, Bool, true, false, List, [], ◌∷◌, map, String, Option, none,
  some, length, Dict, lookup, insert, Error, Result, ok, err, panic, ◌>>=◌, ◌>>◌, guard, wrapf,
  ltb_ℤ, leb_ℤ, eqb_ℤ, not, ◌||◌, if◌then◌else◌, or_panic,
}
use frames.Value.{Value, PbValue, as_go_map, from_go_map}
use frames.Column.{Column, ColImpl, len}
use frames.Column.Edit.{slice_col, Data, new_slice_column}

-- pb.Frame
pub record PbFrame : Type 0 where
  pub columns : List Column
  pub indices : List Column
  pub labels : Dict PbValue

-- frameImpl; `none` is a nil map or slice.
pub record Frame : Type 0 where
  pub labels : Option (Dict Value)
  pub by_name : Dict ColImpl
  pub columns : List ColImpl
  pub indices : List ColImpl
  pub msg : PbFrame
  pub names : Option (List String)

-- checkEqualLen, the loop over the columns: -1 stands for no size yet.
unfoldable pub check_columns : ℤ → List ColImpl → Result ℤ
check_columns size [] = ok size
check_columns size (c ∷ cs) = do
  guard (eqb_ℤ size (negsuc 0) || eqb_ℤ (len c) size) (Error.size_mismatch c.msg.name)
  check_columns (if eqb_ℤ size (negsuc 0) then len c else size) cs

-- checkEqualLen, the loop over the indices.
unfoldable pub check_indices : ℤ → ℕ → List ColImpl → Result (Unit {0})
check_indices size i [] = ok tt
check_indices size i (c ∷ cs) = do
  guard (eqb_ℤ (len c) size) (Error.index_size_mismatch i)
  check_indices size (i + 1) cs

-- checkEqualLen
unfoldable pub check_equal_len : List ColImpl → List ColImpl → Result (Unit {0})
unfolding check_columns check_indices
check_equal_len columns indices = do
  size ← check_columns (negsuc 0) columns
  check_indices size 0 indices

-- cols2PB. The only implementation of Column is colImpl, so the conversion cannot fail.
abbrev pub cols_to_pb : List ColImpl → List Column
cols_to_pb = map (λ c. c.msg)

-- The loop that fills byName.
abbrev pub index_by_name : List ColImpl → Dict ColImpl → Dict ColImpl
index_by_name [] by_name = by_name
index_by_name (c ∷ cs) by_name = index_by_name cs (insert c.msg.name c by_name)

-- A range over a nil map makes no round.
abbrev pub entries : Option (Dict Value) → Dict Value
entries none = []
entries (some d) = d

-- NewFrame
unfoldable pub new_frame : List ColImpl → List ColImpl → Option (Dict Value) → Result Frame
unfolding check_equal_len
new_frame columns indices labels = do
  check_equal_len columns indices
  pb_labels ← from_go_map (entries labels)
  let msg : PbFrame = record {
    columns = cols_to_pb columns;
    indices = cols_to_pb indices;
    labels = pb_labels;
  }
  ok (record {
    labels = labels;
    by_name = index_by_name columns [];
    columns = columns;
    indices = indices;
    msg = msg;
    names = none;
  })

-- mapToColumns
unfoldable pub map_to_columns : Dict Data → Result (List ColImpl)
map_to_columns [] = ok []
map_to_columns ((name, values) ∷ d) = do
  column ← wrapf "can't create column" (new_slice_column name values)
  rest ← map_to_columns d
  ok (column ∷ rest)

-- NewFrameFromMap
unfoldable pub new_frame_from_map : Dict Data → Dict Data → Result Frame
unfolding map_to_columns new_frame
new_frame_from_map columns indices = do
  cols ← map_to_columns columns
  idx ← map_to_columns indices
  new_frame cols idx none

-- `names := make([]string, n)`, then `names[i] = col.Name()` for each column.
abbrev pub fill_names : ℕ → List ColImpl → Result (List String)
fill_names zero [] = ok []
fill_names zero (c ∷ cs) = panic
fill_names (suc n) [] = do rest ← fill_names n []; ok ("" ∷ rest)
fill_names (suc n) (c ∷ cs) = do rest ← fill_names n cs; ok (c.msg.name ∷ rest)

abbrev store_names : Frame → Result (List String) → Result (List String) × Frame
store_names fr (ok ns) = (ok ns, record fr { names = some ns })
store_names fr (err e) = (err e, fr)
store_names fr panic = (panic, fr)

abbrev names_by : Frame → Option (List String) → Result (List String) × Frame
names_by fr (some ns) = (ok ns, fr)
names_by fr none = store_names fr (fill_names (length fr.msg.columns) fr.columns)

-- Names, with the frame that caches them.
unfoldable pub names : Frame → Result (List String) × Frame
names fr = names_by fr fr.names

abbrev labels_by : Frame → Option (Dict Value) → Dict Value × Frame
labels_by fr (some d) = (d, fr)
labels_by fr none = let d = as_go_map fr.msg.labels in (d, record fr { labels = some d })

-- Labels, with the frame that caches them.
unfoldable pub labels : Frame → Dict Value × Frame
labels fr = labels_by fr fr.labels

abbrev pub first_len : List ColImpl → ℤ
first_len [] = pos 0
first_len (c ∷ cs) = len c

-- Len
abbrev pub frame_len : Frame → ℤ
frame_len fr = first_len fr.columns

abbrev found_column : String → Option ColImpl → Result ColImpl
found_column name (some c) = ok c
found_column name none = err (Error.column_not_found name)

-- Column
unfoldable pub column : Frame → String → Result ColImpl
column fr name = found_column name (lookup name fr.by_name)

-- validateSlice
unfoldable pub validate_slice : ℤ → ℤ → ℤ → Result (Unit {0})
validate_slice start end size = do
  guard (not (ltb_ℤ start (pos 0) || ltb_ℤ end (pos 0))) Error.negative_slice
  guard (not (ltb_ℤ end start)) Error.end_before_start
  guard (not (leb_ℤ size start)) Error.start_out_of_bounds
  guard (not (leb_ℤ size end)) Error.end_out_of_bounds

-- sliceCols
unfoldable pub slice_cols : List ColImpl → ℤ → ℤ → Result (List ColImpl)
slice_cols [] start end = ok []
slice_cols (c ∷ cs) start end = do
  slice ← wrapf "can't get slice" (slice_col c start end)
  rest ← slice_cols cs start end
  ok (slice ∷ rest)

-- Slice
unfoldable pub slice_frame : Frame → ℤ → ℤ → Result Frame
slice_frame fr start end = do
  validate_slice start end (frame_len fr)
  col_slices ← slice_cols fr.columns start end
  index_slices ← slice_cols fr.indices start end
  new_frame col_slices index_slices fr.labels

abbrev from_pb : Column → ColImpl
from_pb m = record { msg = m; times = none }

-- NewFrameFromProto
unfoldable pub new_frame_from_proto : PbFrame → Frame
new_frame_from_proto msg = record {
  labels = none;
  by_name = index_by_name (map from_pb msg.columns) [];
  columns = map from_pb msg.columns;
  indices = map from_pb msg.indices;
  msg = msg;
  names = none;
}
