-- ===== src/Tests/Frames.antt =====
-- The theorems on frames and row counts at concrete frames.
use frames.Base.{
  ◌-ℤ◌, pos, ◌≡◌, refl, List, [], ◌∷◌, none, some, arith, is_ok, leb_ℤ, ltb_ℤ, ◌&&◌, Dict,
}
use frames.Frame.{
  Frame, check_columns, check_indices, check_equal_len, new_frame, frame_len, validate_slice,
  slice_cols, slice_frame, index_by_name, cols_to_pb,
}
use frames.Value.{Value, from_go_map}
use frames.Column.{ColImpl, DType}
use frames.Column.Edit.{slice_col}
use frames.Frame.Shape.{IsRect, new_frame-IsRect}
use frames.Frame.Slices.{slice_frame-accepts}
use frames.Tests.Columns.{ages, ages_of, ages-IsValid, tags, pb_tags}

abbrev ids : ColImpl
ids = ages_of (pos 1 ∷ pos 2 ∷ pos 4 ∷ [])

abbrev frame_over : List ColImpl → List ColImpl → Frame
frame_over cols inds = record {
  labels = some tags;
  by_name = index_by_name cols [];
  columns = cols;
  indices = inds;
  msg = record { columns = cols_to_pb cols; indices = cols_to_pb inds; labels = pb_tags };
  names = none;
}

abbrev people : Frame
people = frame_over (ages ∷ ids ∷ []) (ids ∷ [])

abbrev fewer : Frame
fewer = frame_over (ages_of (pos 5 ∷ []) ∷ ages_of (pos 2 ∷ []) ∷ []) (ages_of (pos 2 ∷ []) ∷ [])

people-IsRect : IsRect people
people-IsRect = record {
  columns_valid = (ages-IsValid, (record { known = omega arith; shape = tt }, tt));
  indices_valid = (record { known = omega arith; shape = tt }, tt);
  columns_len = (refl, (refl, tt));
  indices_len = (refl, tt);
}

program : Unit {0}
unfolding new_frame check_equal_len check_columns check_indices validate_slice slice_cols slice_col
    slice_frame from_go_map ◌-ℤ◌
program = tt

slice_frame-accepts_example :
    is_ok (slice_frame people (pos 1) (pos 3))
    ≡ (leb_ℤ (pos 0) (pos 1) && leb_ℤ (pos 1) (pos 3) && ltb_ℤ (pos 3) (frame_len people))
unfolding from_go_map
slice_frame-accepts_example = slice_frame-accepts people pb_tags (pos 1) (pos 3) people-IsRect refl

new_frame-IsRect_example :
    IsRect people × (people.columns ≡ ages ∷ ids ∷ []) × (people.indices ≡ ids ∷ [])
unfolding program
new_frame-IsRect_example =
    new_frame-IsRect (ages ∷ ids ∷ []) (ids ∷ []) (some tags) people people-IsRect.columns_valid
      people-IsRect.indices_valid refl

abbrev ragged : List (Dict Value)
ragged = (("a", Value.int (pos 4)) ∷ []) ∷ (("b", Value.string "x") ∷ []) ∷ []

abbrev column_a : ColImpl
column_a = record {
  msg = record (ages.msg) { name = "a"; ints = pos 4 ∷ pos 0 ∷ [] };
  times = none;
}

abbrev column_b : ColImpl
column_b = record {
  msg = record (ages.msg) { name = "b"; dtype = DType.string; ints = []; strings = "" ∷ "x" ∷ [] };
  times = none;
}

abbrev squared : Frame
squared = record {
  labels = none;
  by_name = index_by_name (column_a ∷ column_b ∷ []) [];
  columns = column_a ∷ column_b ∷ [];
  indices = [];
  msg = record { columns = cols_to_pb (column_a ∷ column_b ∷ []); indices = []; labels = [] };
  names = none;
}
