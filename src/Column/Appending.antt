-- ===== src/Column/Appending.antt =====
-- Column.Append: what an append adds, and what it leaves as it was.
use frames.Base.{
  ℤ, pos, ◌+ℤ◌, ◌≡◌, refl, sym, ap, ◌∙◌, ◌⊎◌, inl, inr, List, [], ◌∷◌, Option, arith, ok, >>=-eq-ok,
  length-append, guard, label_mismatch,
}
use frames.Value.{Value, as_int64}
use frames.Column.{Kind, slice, label, DType, Column, ColImpl, len, slice_len}
use frames.Column.Edit.{
  append, append_slice, append_label, append_by, append_kind, same_label_value, asserted,
  as_float64, as_string, as_time, as_bool,
}
use frames.Column.Invariant.{IsValid}

pub Kind-cases : (k : Kind) → (k ≡ slice) ⊎ (k ≡ label)
Kind-cases slice = inl refl
Kind-cases label = inr refl

-- An append to a label column only counts the row.
pub append_label_msg :
    (c d : ColImpl) (x : Value)
    → append_label c x ≡ ok d
    → d ≡ record c { msg = record (c.msg) { size = c.msg.size +ℤ pos 1 } }
unfolding append_label
append_label_msg c d x h =
    let (same, _, h') = >>=-eq-ok (same_label_value c x) _ h in
    let (_, _, made) = >>=-eq-ok (guard same label_mismatch) _ h' in ground arith

pub append_slice_msg :
    (c d : ColImpl) (x : Value)
    → append_slice c x ≡ ok d
    → (m : Column) × (append_by c.msg c.msg.dtype x ≡ ok m) × (d ≡ record c { msg = m })
unfolding append_slice
append_slice_msg c d x h =
    let (m, e, made) = >>=-eq-ok (append_by c.msg c.msg.dtype x) _ h in (m, e, ground arith)

-- The message after an append to a slice column, by dtype.
pub append_by_lem :
    (m m' : Column) (times : Option (List ℤ)) (x : Value) (t : DType)
    → m.dtype ≡ t
    → m.kind ≡ slice
    → append_by m t x ≡ ok m'
    → (m'.kind ≡ slice)
      × (m'.dtype ≡ t)
      × (m'.name ≡ m.name)
      × (slice_len m' t ≡ slice_len m t +ℤ pos 1)
unfolding ◌+ℤ◌
append_by_lem m m' ts x DType.integer p k h =
    let (v, _, made) = >>=-eq-ok (asserted (as_int64 x)) _ h in
    ground (arith, length-append m.ints (v ∷ []))
append_by_lem m m' ts x DType.float p k h =
    let (v, _, made) = >>=-eq-ok (asserted (as_float64 x)) _ h in
    ground (arith, length-append m.floats (v ∷ []))
append_by_lem m m' ts x DType.string p k h =
    let (v, _, made) = >>=-eq-ok (asserted (as_string x)) _ h in
    ground (arith, length-append m.strings (v ∷ []))
append_by_lem m m' ts x DType.time p k h =
    let (v, _, made) = >>=-eq-ok (asserted (as_time x)) _ h in
    ground (arith, length-append m.times (v ∷ []))
append_by_lem m m' ts x DType.boolean p k h =
    let (v, _, made) = >>=-eq-ok (asserted (as_bool x)) _ h in
    ground (arith, length-append m.bools (v ∷ []))
append_by_lem m m' ts x (DType.other n) p k h = ground arith

pub append_slice_case :
    (c : ColImpl) (x : Value) → c.msg.kind ≡ slice → append c x ≡ append_slice c x
unfolding append
append_slice_case c x e = ap (λ (k : Kind). append_kind k c x) e

pub append_label_case :
    (c : ColImpl) (x : Value) → c.msg.kind ≡ label → append c x ≡ append_label c x
unfolding append
append_label_case c x e = ap (λ (k : Kind). append_kind k c x) e

abbrev Extends : ColImpl → ColImpl → Type 0
Extends c d =
    IsValid d
    × (len d ≡ len c +ℤ pos 1)
    × (d.times ≡ c.times)
    × (d.msg.name ≡ c.msg.name)
    × (d.msg.dtype ≡ c.msg.dtype)

slice_len_resized :
    (m : Column) (n : ℤ) (t : DType) → slice_len (record m { size = n }) t ≡ slice_len m t
slice_len_resized m n t = ground arith

append_label-IsValid :
    (c d : ColImpl)
    → c.msg.kind ≡ label
    → IsValid c
    → d ≡ record c { msg = record (c.msg) { size = c.msg.size +ℤ pos 1 } }
    → Extends c d
unfolding ◌+ℤ◌
append_label-IsValid c d l v made =
    ground (arith, slice_len_resized c.msg (c.msg.size +ℤ pos 1) c.msg.dtype)

append_slice-IsValid :
    (c d : ColImpl) (x : Value) (m : Column)
    → c.msg.kind ≡ slice
    → IsValid c
    → append_by c.msg c.msg.dtype x ≡ ok m
    → d ≡ record c { msg = m }
    → Extends c d
append_slice-IsValid c d x m s v e made =
    ground (arith, append_by_lem c.msg m c.times x c.msg.dtype refl s e)

-- An append that succeeds keeps the column well formed, keeps its cache of times as it was, and
-- adds one row, in slice and label columns alike.
pub append-IsValid :
    (c d : ColImpl) (x : Value)
    → IsValid c
    → append c x ≡ ok d
    → IsValid d
      × (len d ≡ len c +ℤ pos 1)
      × (d.times ≡ c.times)
      × (d.msg.name ≡ c.msg.name)
      × (d.msg.dtype ≡ c.msg.dtype)
append-IsValid c d x v h = elim (Kind-cases c.msg.kind) [
  | inl s ↦
      let (m, e, made) = append_slice_msg c d x (sym (append_slice_case c x s) ∙ h) in
      append_slice-IsValid c d x m s v e made
  | inr l ↦
      append_label-IsValid c d l v (append_label_msg c d x (sym (append_label_case c x l) ∙ h))
]
