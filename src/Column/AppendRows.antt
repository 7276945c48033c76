-- ===== src/Column/AppendRows.antt =====
-- The rows of a column after an append: those that were there, and the new last one.
use frames.Base.{
  ℤ, pos, ◌≤ℤ◌, ◌+ℤ◌, ℕ, ◌<◌, ◌≡◌, refl, sym, ap, ◌∙◌, Bool, [], ◌∷◌, String, ltb_ℤ, eqb_ℤ,
  if◌then◌else◌, out_of_bounds, none, arith, Result, ok, err, >>=-eq-ok, length, length-append,
  get_elem?-append_left, get_elem?-append_last,
}
use frames.Value.{Value, as_int64}
use frames.Value.Laws.{widen, ns_to_time_lem}
use frames.Column.{slice, DType, Column, ColImpl, len, slice_len, code}
use frames.Column.Read.{Format, int_at, float_at, string_at, time_at, bool_at}
use frames.Column.Edit.{append, append_by, asserted, as_float64, as_string, as_time, as_bool}
use frames.Column.Utils.{value_at}
use frames.Column.Invariant.{IsValid}
use frames.Column.Appending.{append_by_lem, append_slice_msg, append_slice_case}

abbrev fresh : Column → ColImpl
fresh m = record { msg = m; times = none }

module _ (m m' : Column) (x : Value) (slices : m.kind ≡ slice) where
  int_at-append :
      (i : ℕ)
      → m.dtype ≡ DType.integer
      → append_by m DType.integer x ≡ ok m'
      → i < length m.ints
      → int_at (fresh m') (pos i) ≡ int_at (fresh m) (pos i)
  unfolding int_at
  int_at-append i p h b =
      let (v, _, made) = >>=-eq-ok (asserted (as_int64 x)) _ h in
      ground (arith, get_elem?-append_left m.ints (v ∷ []) i, length-append m.ints (v ∷ []))

  int_at-append_last :
      m.dtype ≡ DType.integer
      → append_by m DType.integer x ≡ ok m'
      → (v : ℤ) × (int_at (fresh m') (pos (length m.ints)) ≡ ok v) × (widen x ≡ Value.int64 v)
  unfolding int_at
  int_at-append_last p h =
      let (v, e, made) = >>=-eq-ok (asserted (as_int64 x)) _ h in
      (
        v,
        ground (arith, get_elem?-append_last m.ints v, length-append m.ints (v ∷ [])),
        ground arith,
      )

  float_at-append :
      (i : ℕ)
      → m.dtype ≡ DType.float
      → append_by m DType.float x ≡ ok m'
      → i < length m.floats
      → float_at (fresh m') (pos i) ≡ float_at (fresh m) (pos i)
  unfolding float_at
  float_at-append i p h b =
      let (v, _, made) = >>=-eq-ok (asserted (as_float64 x)) _ h in
      ground (arith, get_elem?-append_left m.floats (v ∷ []) i, length-append m.floats (v ∷ []))

  float_at-append_last :
      m.dtype ≡ DType.float
      → append_by m DType.float x ≡ ok m'
      → (v : ℕ) × (float_at (fresh m') (pos (length m.floats)) ≡ ok v) × (widen x ≡ Value.float64 v)
  unfolding float_at
  float_at-append_last p h =
      let (v, e, made) = >>=-eq-ok (asserted (as_float64 x)) _ h in
      (
        v,
        ground (arith, get_elem?-append_last m.floats v, length-append m.floats (v ∷ [])),
        ground arith,
      )

  string_at-append :
      (fmt : Format) (i : ℕ)
      → m.dtype ≡ DType.string
      → append_by m DType.string x ≡ ok m'
      → i < length m.strings
      → string_at fmt (fresh m') (pos i) ≡ string_at fmt (fresh m) (pos i)
  unfolding string_at
  string_at-append fmt i p h b =
      let (v, _, made) = >>=-eq-ok (asserted (as_string x)) _ h in
      ground (arith, get_elem?-append_left m.strings (v ∷ []) i, length-append m.strings (v ∷ []))

  string_at-append_last :
      (fmt : Format)
      → m.dtype ≡ DType.string
      → append_by m DType.string x ≡ ok m'
      → (v : String) × (string_at fmt (fresh m') (pos (length m.strings)) ≡ ok v)
        × (widen x ≡ Value.string v)
  unfolding string_at
  string_at-append_last fmt p h =
      let (v, e, made) = >>=-eq-ok (asserted (as_string x)) _ h in
      (
        v,
        ground (arith, get_elem?-append_last m.strings v, length-append m.strings (v ∷ [])),
        ground arith,
      )

  time_at-append :
      (i : ℕ)
      → m.dtype ≡ DType.time
      → append_by m DType.time x ≡ ok m'
      → i < length m.times
      → time_at (fresh m') (pos i) ≡ time_at (fresh m) (pos i)
  unfolding time_at
  time_at-append i p h b =
      let (v, _, made) = >>=-eq-ok (asserted (as_time x)) _ h in
      ground (arith, get_elem?-append_left m.times (v ∷ []) i, length-append m.times (v ∷ []))

  time_at-append_last :
      m.dtype ≡ DType.time
      → append_by m DType.time x ≡ ok m'
      → (v : ℤ) × (time_at (fresh m') (pos (length m.times)) ≡ ok v) × (widen x ≡ Value.time v)
  unfolding time_at
  time_at-append_last p h =
      let (v, e, made) = >>=-eq-ok (asserted (as_time x)) _ h in
      (
        v,
        ground (
          arith,
          get_elem?-append_last m.times v,
          length-append m.times (v ∷ []),
          ns_to_time_lem v,
        ),
        ground arith,
      )

  bool_at-append :
      (i : ℕ)
      → m.dtype ≡ DType.boolean
      → append_by m DType.boolean x ≡ ok m'
      → i < length m.bools
      → bool_at (fresh m') (pos i) ≡ bool_at (fresh m) (pos i)
  unfolding bool_at
  bool_at-append i p h b =
      let (v, _, made) = >>=-eq-ok (asserted (as_bool x)) _ h in
      ground (arith, get_elem?-append_left m.bools (v ∷ []) i, length-append m.bools (v ∷ []))

  bool_at-append_last :
      m.dtype ≡ DType.boolean
      → append_by m DType.boolean x ≡ ok m'
      → (v : Bool) × (bool_at (fresh m') (pos (length m.bools)) ≡ ok v) × (widen x ≡ Value.bool v)
  unfolding bool_at
  bool_at-append_last p h =
      let (v, e, made) = >>=-eq-ok (asserted (as_bool x)) _ h in
      (
        v,
        ground (arith, get_elem?-append_last m.bools v, length-append m.bools (v ∷ [])),
        ground arith,
      )

-- A read past the end is refused, and the refusal names the index and the length.
module _ (c : ColImpl) (i : ℕ) (past : len c ≤ℤ pos i) where
  int_at_outside :
      c.msg.dtype ≡ DType.integer → int_at c (pos i) ≡ err (out_of_bounds (pos i) (len c))
  unfolding int_at
  int_at_outside p = ground arith

  float_at_outside :
      c.msg.dtype ≡ DType.float → float_at c (pos i) ≡ err (out_of_bounds (pos i) (len c))
  unfolding float_at
  float_at_outside p = ground arith

  time_at_outside :
      c.msg.dtype ≡ DType.time → time_at c (pos i) ≡ err (out_of_bounds (pos i) (len c))
  unfolding time_at
  time_at_outside p = ground arith

  bool_at_outside :
      c.msg.dtype ≡ DType.boolean → bool_at c (pos i) ≡ err (out_of_bounds (pos i) (len c))
  unfolding bool_at
  bool_at_outside p = ground arith

string_at_outside :
    (fmt : Format) (c : ColImpl) (i : ℕ)
    → len c ≤ℤ pos i
    → c.msg.dtype ≡ DType.string
    → string_at fmt c (pos i) ≡ err (out_of_bounds (pos i) (len c))
unfolding string_at
string_at_outside fmt c i past p = ground arith

-- The row i of `c` extended by `x`.
abbrev pub extended_row : Format → ColImpl → Value → ℤ → ℕ → Result Value
extended_row fmt c x total i =
    if ltb_ℤ (pos i) (len c)
    then value_at fmt c (pos i)
    else (if eqb_ℤ (pos i) (len c) then ok (widen x) else err (out_of_bounds (pos i) total))

module _ (fmt : Format) (m m' : Column) (x : Value) (i : ℕ) (slices : m.kind ≡ slice) where
  append_by_rows :
      (t : DType)
      → m.dtype ≡ t
      → code t < 5
      → append_by m t x ≡ ok m'
      → (m'.kind ≡ slice)
        × (m'.dtype ≡ t)
        × (m'.name ≡ m.name)
        × (slice_len m' t ≡ slice_len m t +ℤ pos 1)
      → value_at fmt (fresh m') (pos i) ≡ extended_row fmt (fresh m) x (len (fresh m')) i
  unfolding value_at ◌+ℤ◌
  append_by_rows DType.integer p known h after =
      let (v, new, same) = int_at-append_last m m' x slices p h in
      ground (arith, int_at-append m m' x slices i p h, int_at_outside (fresh m') i)
  append_by_rows DType.float p known h after =
      let (v, new, same) = float_at-append_last m m' x slices p h in
      ground (arith, float_at-append m m' x slices i p h, float_at_outside (fresh m') i)
  append_by_rows DType.string p known h after =
      let (v, new, same) = string_at-append_last m m' x slices fmt p h in
      ground (arith, string_at-append m m' x slices fmt i p h, string_at_outside fmt (fresh m') i)
  append_by_rows DType.time p known h after =
      let (v, new, same) = time_at-append_last m m' x slices p h in
      ground (arith, time_at-append m m' x slices i p h, time_at_outside (fresh m') i)
  append_by_rows DType.boolean p known h after =
      let (v, new, same) = bool_at-append_last m m' x slices p h in
      ground (arith, bool_at-append m m' x slices i p h, bool_at_outside (fresh m') i)
  append_by_rows (DType.other n) p known h after = absurd (omega arith)

pub value_at-append :
    (fmt : Format) (c d : ColImpl) (x : Value) (i : ℕ)
    → IsValid c
    → c.msg.kind ≡ slice
    → c.times ≡ none
    → append c x ≡ ok d
    → value_at fmt d (pos i) ≡ extended_row fmt c x (len d) i
value_at-append fmt c d x i v slices no_cache h =
    let (m, e, made) = append_slice_msg c d x (sym (append_slice_case c x slices) ∙ h) in
    let same : c ≡ fresh (c.msg) = λ j. record { msg = c.msg; times = no_cache j } in
    let made' : d ≡ fresh m = made ∙ (λ j. record { msg = m; times = no_cache j }) in
    let rows =
      append_by_rows fmt c.msg m x i slices c.msg.dtype refl v.known e
        (append_by_lem c.msg m none x c.msg.dtype refl slices e) in
    rw made' (rows ∙ ap (λ (y : ColImpl). extended_row fmt y x (len (fresh m)) i) (sym same))
