-- ===== src/Column/Slicing.antt =====
-- Column.Slice: which ranges it takes, and what the slice holds.
use frames.Base.{
  ℤ, pos, negsuc, ◌≤ℤ◌, ◌<ℤ◌, ◌-ℤ◌, ℕ, ◌<◌, ◌≤◌, ◌+◌, ◌-◌, ◌≡◌, refl, ◌&&◌, List, none, arith, ok,
  is_ok, leb_ℤ, ltb_ℤ, length, take, drop, get_elem?, guard, >>=-eq-ok, eqb_ℤ, if◌then◌else◌,
  start_after_end, get_elem?-take, get_elem?-drop, length-take, length-drop,
}
use frames.Column.{Kind, slice, label, DType, Column, ColImpl, len, check_inbounds, code}
use frames.Column.Edit.{slice_col, cut, cut_msg}
use frames.Column.Invariant.{IsValid, LabelShape}

-- The length of what a cut leaves, and for a slice column that the range was within the list.
abbrev pub CutShape : Kind → ℕ → ℕ → ℕ → Type 0
CutShape slice before after n = (after ≡ n)
CutShape label before after n = (after ≡ before)

module _ {A : Type 0} (xs : List A) (s e : ℕ) where
  pub take-drop-length : s ≤ e → e ≤ length xs → length (take (e - s) (drop s xs)) ≡ e - s
  take-drop-length h k = omega (arith, length-take (e - s) (drop s xs), length-drop s xs)

  pub take-drop_at :
      (i : ℕ) → i < e - s → get_elem? (take (e - s) (drop s xs)) i ≡ get_elem? xs (s + i)
  take-drop_at i h = rw (get_elem?-take (e - s) i (drop s xs) h) (get_elem?-drop s i xs)

-- A slice is granted exactly when start and end are in order, start is a row, and end is at most
-- the length.
pub slice_col-accepts :
    (c : ColImpl) (s e : ℤ)
    → IsValid c
    → is_ok (slice_col c s e) ≡ (leb_ℤ (pos 0) s && ltb_ℤ s (len c) && leb_ℤ s e && leb_ℤ e (len c))
unfolding slice_col ◌-ℤ◌
slice_col-accepts c (pos s) (pos e) v = ground arith
slice_col-accepts c (negsuc s) e v = ground arith
slice_col-accepts c (pos s) (negsuc e) v = ground arith

-- A granted slice has its range in order and within the column, and is the cut message.
pub slice_col_cut :
    (c d : ColImpl) (s e : ℕ)
    → slice_col c (pos s) (pos e) ≡ ok d
    → (s ≤ e)
      × (pos s <ℤ len c)
      × (pos e ≤ℤ len c)
      × (m : Column) × (cut_msg c.msg c.msg.dtype (pos s) (pos e) ≡ ok m)
      × (d ≡ record { msg = m; times = none })
unfolding slice_col ◌-ℤ◌
slice_col_cut c d s e h =
    let (_, order, h₁) = >>=-eq-ok (guard (leb_ℤ (pos s) (pos e)) start_after_end) _ h in
    let (_, first, h₂) = >>=-eq-ok (check_inbounds c (pos s)) _ h₁ in
    let (_, last, h₃) =
      >>=-eq-ok (if eqb_ℤ (pos e) (pos 0) then ok tt else check_inbounds c (pos e -ℤ pos 1)) _ h₂ in
    let (m, cut_ok, made) = >>=-eq-ok (cut_msg c.msg c.msg.dtype (pos s) (pos e)) _ h₃ in
    (ground arith, ground arith, ground arith, m, cut_ok, ground arith)

-- What a cut leaves of the slice that it reads.
abbrev pub cut_list {ℓ} : {A : Type ℓ} → Kind → List A → ℕ → ℕ → List A
cut_list slice xs s e = take (e - s) (drop s xs)
cut_list label xs s e = xs

module _ {A : Type 0} (xs : List A) (s e : ℕ) where
  pub cut_lem :
      (k : Kind) (ys : List A)
      → cut k xs (pos s) (pos e) ≡ ok ys
      → (ys ≡ cut_list k xs s e) × CutShape k (length xs) (length ys) (e - s)
  cut_lem label ys h = ground arith
  cut_lem slice ys h = ground (arith, take-drop-length xs s e)

-- The cut message: its length and shape, and its reads, by dtype.
cut_msg_lem :
    (m m' : Column) (s e : ℕ) (t : DType)
    → m.dtype ≡ t
    → code t < 5
    → s ≤ e
    → LabelShape m.kind m
    → cut_msg m t (pos s) (pos e) ≡ ok m'
    → IsValid (record { msg = m'; times = none })
      × (len (record { msg = m'; times = none }) ≡ pos (e - s))
unfolding ◌-ℤ◌
cut_msg_lem m m' s e DType.integer p known order shape h =
    let (xs, c, made) = >>=-eq-ok (cut m.kind m.ints (pos s) (pos e)) _ h in
    let (_, fits) = cut_lem m.ints s e m.kind xs c in ground arith
cut_msg_lem m m' s e DType.float p known order shape h =
    let (xs, c, made) = >>=-eq-ok (cut m.kind m.floats (pos s) (pos e)) _ h in
    let (_, fits) = cut_lem m.floats s e m.kind xs c in ground arith
cut_msg_lem m m' s e DType.string p known order shape h =
    let (xs, c, made) = >>=-eq-ok (cut m.kind m.strings (pos s) (pos e)) _ h in
    let (_, fits) = cut_lem m.strings s e m.kind xs c in ground arith
cut_msg_lem m m' s e DType.time p known order shape h =
    let (xs, c, made) = >>=-eq-ok (cut m.kind m.times (pos s) (pos e)) _ h in
    let (_, fits) = cut_lem m.times s e m.kind xs c in ground arith
cut_msg_lem m m' s e DType.boolean p known order shape h =
    let (xs, c, made) = >>=-eq-ok (cut m.kind m.bools (pos s) (pos e)) _ h in
    let (_, fits) = cut_lem m.bools s e m.kind xs c in ground arith
cut_msg_lem m m' s e (DType.other n) p known order shape h = absurd (omega arith)

-- A slice of a well formed column is well formed, starts with no cached times, keeps the name and
-- dtype, and has end - start rows.
pub slice_col-IsValid :
    (c d : ColImpl) (s e : ℕ)
    → IsValid c
    → slice_col c (pos s) (pos e) ≡ ok d
    → IsValid d × (d.times ≡ none) × (len d ≡ pos (e - s))
slice_col-IsValid c d s e v h =
    let (order, _, _, m, cut_ok, made) = slice_col_cut c d s e h in
    let (valid, size) = cut_msg_lem c.msg m s e c.msg.dtype refl v.known order v.shape cut_ok in
    rw made (valid, refl, size)
