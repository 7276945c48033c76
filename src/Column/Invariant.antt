-- ===== src/Column/Invariant.antt =====
-- When a column is well formed, and that its readers then answer exactly the rows in bounds.
use frames.Base.{
  ℤ, pos, negsuc, ◌≤ℤ◌, ◌<◌, ◌≡◌, Bool, ◌&&◌, none, arith, is_ok, leb_ℤ, ltb_ℤ, at-lt,
}
use frames.Column.{Kind, slice, label, DType, Column, ColImpl, len, slice_len, code}
use frames.Column.Read.{Format, int_at, float_at, string_at, time_at, bool_at}
use frames.Column.Utils.{value_at}

-- A label column holds its one value, and its size is not negative.
abbrev pub LabelShape : Kind → Column → Type 0
LabelShape slice m = Unit
LabelShape label m = (slice_len m m.dtype ≡ pos 1) × (pos 0 ≤ℤ m.size)

-- The dtype is one of the five, and the message has the shape of its kind.
pub record IsValid (c : ColImpl) : Type 0 where
  pub known : code c.msg.dtype < 5
  pub shape : LabelShape c.msg.kind c.msg

abbrev pub in_bounds : ColImpl → ℤ → Bool
in_bounds c i = leb_ℤ (pos 0) i && ltb_ℤ i (len c)

module _ (c : ColImpl) (v : IsValid c) where
  int_at-ok : (i : ℤ) → c.msg.dtype ≡ DType.integer → is_ok (int_at c i) ≡ in_bounds c i
  unfolding int_at
  int_at-ok (pos i) e = ground (arith, at-lt c.msg.ints 0, at-lt c.msg.ints i)
  int_at-ok (negsuc i) e = ground arith

  float_at-ok : (i : ℤ) → c.msg.dtype ≡ DType.float → is_ok (float_at c i) ≡ in_bounds c i
  unfolding float_at
  float_at-ok (pos i) e = ground (arith, at-lt c.msg.floats 0, at-lt c.msg.floats i)
  float_at-ok (negsuc i) e = ground arith

  bool_at-ok : (i : ℤ) → c.msg.dtype ≡ DType.boolean → is_ok (bool_at c i) ≡ in_bounds c i
  unfolding bool_at
  bool_at-ok (pos i) e = ground (arith, at-lt c.msg.bools 0, at-lt c.msg.bools i)
  bool_at-ok (negsuc i) e = ground arith

  time_at-ok :
      (i : ℤ) → c.times ≡ none → c.msg.dtype ≡ DType.time → is_ok (time_at c i) ≡ in_bounds c i
  unfolding time_at
  time_at-ok (pos i) n e = ground (arith, at-lt c.msg.times 0, at-lt c.msg.times i)
  time_at-ok (negsuc i) n e = ground arith

  string_at-ok :
      (fmt : Format) (i : ℤ)
      → c.msg.dtype ≡ DType.string
      → is_ok (string_at fmt c i) ≡ in_bounds c i
  unfolding string_at
  string_at-ok fmt (pos i) e = ground (arith, at-lt c.msg.strings 0, at-lt c.msg.strings i)
  string_at-ok fmt (negsuc i) e = ground arith

-- In a well formed column with no cached times a read answers exactly at the rows in bounds,
-- whatever the dtype and the kind.
pub value_at-in_bounds :
    (fmt : Format) (c : ColImpl) (i : ℤ)
    → IsValid c
    → c.times ≡ none
    → is_ok (value_at fmt c i) ≡ in_bounds c i
unfolding value_at
value_at-in_bounds fmt c i v n = ground (
  arith,
  int_at-ok c v i,
  float_at-ok c v i,
  bool_at-ok c v i,
  time_at-ok c v i n,
  string_at-ok c v fmt i,
)
