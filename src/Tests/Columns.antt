-- ===== src/Tests/Columns.antt =====
-- Concrete columns, frames and requests, and the theorems at these inputs.
use frames.Base.{
  ℤ, pos, negsuc, ◌+ℤ◌, ◌≡◌, refl, true, List, [], ◌∷◌, none, Dict, arith, is_ok, leb_ℤ, ltb_ℤ,
  ◌&&◌,
}
use frames.Value.{Value, PbValue}
use frames.Column.{slice, label, DType, Column, ColImpl, len}
use frames.Column.Read.{Format}
use frames.Column.Edit.{slice_col, append, empty_msg}
use frames.Column.Utils.{value_at}
use frames.Column.Invariant.{IsValid, in_bounds, value_at-in_bounds}
use frames.Column.Slicing.{slice_col-accepts}
use frames.Column.Appending.{append-IsValid}

abbrev pub plain : Format
plain = record { format_int = λ n. ""; format_float = λ x. ""; format_time = λ t. "" }

abbrev pub column_of : Column → ColImpl
column_of m = record { msg = m; times = none }

abbrev pub ages_of : List ℤ → ColImpl
ages_of xs = column_of (record (empty_msg slice "age" DType.integer) { ints = xs })

abbrev pub ages : ColImpl
ages = ages_of (pos 3 ∷ pos 5 ∷ pos 8 ∷ [])

abbrev pub ages_tail : ColImpl
ages_tail = ages_of (pos 5 ∷ pos 8 ∷ [])

pub ages-IsValid : IsValid ages
ages-IsValid = record { known = omega arith; shape = tt }

value_at-in_bounds_example : is_ok (value_at plain ages (pos 7)) ≡ in_bounds ages (pos 7)
value_at-in_bounds_example = value_at-in_bounds plain ages (pos 7) ages-IsValid refl

slice_col-accepts_example : is_ok (slice_col ages (pos 1) (pos 3)) ≡ (
    leb_ℤ (pos 0) (pos 1)
    && ltb_ℤ (pos 1) (len ages)
    && leb_ℤ (pos 1) (pos 3)
    && leb_ℤ (pos 3) (len ages))
slice_col-accepts_example = slice_col-accepts ages (pos 1) (pos 3) ages-IsValid

abbrev ages_grown : ColImpl
ages_grown = ages_of (pos 3 ∷ pos 5 ∷ pos 8 ∷ pos 13 ∷ [])

append-IsValid_example :
    IsValid ages_grown
    × (len ages_grown ≡ len ages +ℤ pos 1)
    × (ages_grown.times ≡ ages.times)
    × (ages_grown.msg.name ≡ ages.msg.name)
    × (ages_grown.msg.dtype ≡ ages.msg.dtype)
unfolding append
append-IsValid_example = append-IsValid ages ages_grown (Value.int (pos 13)) ages-IsValid refl

abbrev flags : ColImpl
flags = column_of (record (empty_msg label "on" DType.boolean) { size = pos 4; bools = true ∷ [] })

flags-IsValid : IsValid flags
flags-IsValid = record { known = omega arith; shape = (refl, omega arith) }

abbrev pub tags : Dict Value
tags = ("host", Value.string "a") ∷ ("at", Value.time (negsuc 4)) ∷ ("n", Value.int8 (pos 2)) ∷ []

abbrev pub pb_tags : Dict PbValue
pb_tags =
    ("host", PbValue.sval "a") ∷ ("at", PbValue.tval (negsuc 4)) ∷ ("n", PbValue.ival (pos 2)) ∷ []
