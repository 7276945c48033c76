-- ===== src/Frame/Slices.antt =====
-- frame.go: Slice of a frame, against the slices of its columns.
use frames.Base.{
  ℤ, pos, negsuc, ℕ, ◌-◌, ◌<◌, ◌≤◌, ◌≡◌, refl, sym, ◌∙◌, true, false, ◌&&◌, List, [], ◌∷◌, Option,
  none, All, arith, Dict, Result, ok, is_ok, >>=-eq-ok, ◌>>=◌, nonneg, Bool-cases, subst, inl, inr,
  is_ok-true, wrapf, wrapf-eq-ok, leb_ℤ, ltb_ℤ,
}
use frames.Value.{Value, PbValue, from_go_map}
use frames.Column.{ColImpl, len}
use frames.Column.Read.{Format}
use frames.Column.Edit.{slice_col}
use frames.Column.Utils.{value_at}
use frames.Column.Invariant.{IsValid}
use frames.Column.Slicing.{slice_col-IsValid, slice_col-accepts}
use frames.Frame.{
  Frame, validate_slice, slice_cols, slice_frame, new_frame, frame_len, first_len, entries,
}
use frames.Frame.Shape.{IsRect, HasLen, len_nonneg, new_frame_total}

abbrev pub NoCache : ColImpl → Type 0
NoCache c = c.times ≡ none

-- Row j of each column of one list is row i of the column at its place in the other.
abbrev pub SameRow : Format → (i j : ℕ) → List ColImpl → List ColImpl → Type 0
SameRow fmt i j [] [] = Unit
SameRow fmt i j (c ∷ cs) (d ∷ ds) =
    (value_at fmt d (pos j) ≡ value_at fmt c (pos i)) × SameRow fmt i j cs ds
SameRow fmt i j _ _ = ⊥

slice_cols_parts :
    (c : ColImpl) (cs ds : List ColImpl) (s e : ℤ)
    → slice_cols (c ∷ cs) s e ≡ ok ds
    → (d : ColImpl) × (ds' : List ColImpl) × (slice_col c s e ≡ ok d)
      × (slice_cols cs s e ≡ ok ds')
      × (ds ≡ d ∷ ds')
unfolding slice_cols
slice_cols_parts c cs ds s e h =
    let (d, a, h') = >>=-eq-ok (wrapf "can't get slice" (slice_col c s e)) _ h in
    let (ds', b, made) = >>=-eq-ok (slice_cols cs s e) _ h' in
    (d, ds', wrapf-eq-ok "can't get slice" (slice_col c s e) a, b, ground arith)

slice_cols-IsValid :
    (cs ds : List ColImpl) (s e : ℕ)
    → All IsValid cs
    → slice_cols cs (pos s) (pos e) ≡ ok ds
    → All IsValid ds × All (HasLen (pos (e - s))) ds
unfolding slice_cols
slice_cols-IsValid [] [] s e v h = (tt, tt)
slice_cols-IsValid [] (d ∷ ds) s e v h = cc
slice_cols-IsValid (c ∷ cs) ds s e v h =
    let (d, ds', a, b, made) = slice_cols_parts c cs ds (pos s) (pos e) h in
    let (valid, _, size) = slice_col-IsValid c d s e v.0 a in
    let (valids, sizes) = slice_cols-IsValid cs ds' s e v.1 b in
    rw made ((valid, valids), (size, sizes))

slice_cols_cons :
    (c d : ColImpl) (cs ds : List ColImpl) (s e : ℤ)
    → slice_col c s e ≡ ok d
    → slice_cols cs s e ≡ ok ds
    → slice_cols (c ∷ cs) s e ≡ ok (d ∷ ds)
unfolding slice_cols
slice_cols_cons c d cs ds s e a b = rw (a, b)

slice_cols_total :
    (cs : List ColImpl) (n s e : ℕ)
    → All IsValid cs
    → All (HasLen (pos n)) cs
    → s ≤ e
    → s < n
    → e ≤ n
    → (ds : List ColImpl) × (slice_cols cs (pos s) (pos e) ≡ ok ds)
unfolding slice_cols
slice_cols_total [] n s e v l a b c = ([], refl)
slice_cols_total (x ∷ cs) n s e v l a b c =
    let granted : is_ok (slice_col x (pos s) (pos e)) ≡ true =
      ground (arith, slice_col-accepts x (pos s) (pos e) v.0) in
    let (d, made) = is_ok-true (slice_col x (pos s) (pos e)) granted in
    let (ds, rest) = slice_cols_total cs n s e v.1 l.1 a b c in
    (d ∷ ds, slice_cols_cons x d cs ds (pos s) (pos e) made rest)

validate_slice-accepts :
    (s e n : ℤ) → is_ok (validate_slice s e n) ≡ (leb_ℤ (pos 0) s && leb_ℤ s e && ltb_ℤ e n)
unfolding validate_slice
validate_slice-accepts s e n = ground arith

slice_frame_refused :
    (fr : Frame) (s e : ℤ)
    → is_ok (validate_slice s e (frame_len fr)) ≡ false
    → is_ok (slice_frame fr s e) ≡ false
unfolding slice_frame
slice_frame_refused fr s e h = ground arith

abbrev sliced : List ColImpl → List ColImpl → Option (Dict Value) → ℤ → ℤ → Result Frame
sliced columns indices labels s e = do
  col_slices ← slice_cols columns s e
  index_slices ← slice_cols indices s e
  new_frame col_slices index_slices labels

sliced_granted :
    (c : ColImpl) (cs indices : List ColImpl) (labels : Option (Dict Value)) (p : Dict PbValue)
    (n s e : ℕ)
    → All IsValid (c ∷ cs)
    → All IsValid indices
    → All (HasLen (pos n)) (c ∷ cs)
    → All (HasLen (pos n)) indices
    → from_go_map (entries labels) ≡ ok p
    → s ≤ e
    → e < n
    → is_ok (sliced (c ∷ cs) indices labels (pos s) (pos e)) ≡ true
sliced_granted c cs indices labels p n s e v w l k q order inside =
    let (ds, a) = slice_cols_total (c ∷ cs) n s e v l order (omega arith) (omega arith) in
    let (is, b) = slice_cols_total indices n s e w k order (omega arith) (omega arith) in
    let (d, ds', _, _, made) = slice_cols_parts c cs ds (pos s) (pos e) a in
    let (_, sizes) = slice_cols-IsValid (c ∷ cs) ds s e v a in
    let (_, index_sizes) = slice_cols-IsValid indices is s e w b in
    let sizes' : All (HasLen (pos (e - s))) (d ∷ ds') = rw made at sizes in
    rw (a, b) (rw made (new_frame_total (e - s) d ds' is labels p sizes' index_sizes q))

checked_granted :
    (cols indices : List ColImpl) (labels : Option (Dict Value)) (p : Dict PbValue) (s e : ℤ)
    → All IsValid cols
    → All IsValid indices
    → All (HasLen (first_len cols)) cols
    → All (HasLen (first_len cols)) indices
    → from_go_map (entries labels) ≡ ok p
    → is_ok (validate_slice s e (first_len cols)) ≡ true
    → is_ok (sliced cols indices labels s e) ≡ true
checked_granted [] indices labels p s e v w l k q h =
    ground (arith, validate_slice-accepts s e (pos 0))
checked_granted (c ∷ cs) indices labels p (pos s) (pos e) v w l k q h =
    let (n, size) = nonneg (len c) (len_nonneg c v.0) in
    let ranges = validate_slice-accepts (pos s) (pos e) (len c) in
    sliced_granted c cs indices labels p n s e v w (subst (λ z. All (HasLen z) (c ∷ cs)) size l)
      (subst (λ z. All (HasLen z) indices) size k) q (ground arith) (ground arith)
checked_granted (c ∷ cs) indices labels p (pos s) (negsuc e) v w l k q h =
    ground (arith, validate_slice-accepts (pos s) (negsuc e) (len c))
checked_granted (c ∷ cs) indices labels p (negsuc s) e v w l k q h =
    ground (arith, validate_slice-accepts (negsuc s) e (len c))

slice_frame_granted :
    (fr : Frame) (s e : ℤ)
    → is_ok (validate_slice s e (frame_len fr)) ≡ true
    → is_ok (sliced fr.columns fr.indices fr.labels s e) ≡ true
    → is_ok (slice_frame fr s e) ≡ true
unfolding slice_frame
slice_frame_granted fr s e h k =
    let (_, passed) = is_ok-true (validate_slice s e (frame_len fr)) h in rw passed k

-- A rectangular frame whose labels protobuf can carry grants exactly the slices with
-- 0 <= start <= end < length; end = length is refused.
pub slice_frame-accepts :
    (fr : Frame) (p : Dict PbValue) (s e : ℤ)
    → IsRect fr
    → from_go_map (entries fr.labels) ≡ ok p
    → is_ok (slice_frame fr s e) ≡ (leb_ℤ (pos 0) s && leb_ℤ s e && ltb_ℤ e (frame_len fr))
slice_frame-accepts fr p s e r q = elim (Bool-cases (is_ok (validate_slice s e (frame_len fr)))) [
  | inl granted ↦
      slice_frame_granted fr s e granted (
        checked_granted fr.columns fr.indices fr.labels p s e r.columns_valid r.indices_valid
          r.columns_len r.indices_len q granted)
      ∙ sym granted
      ∙ validate_slice-accepts s e (frame_len fr)
  | inr refused ↦
      slice_frame_refused fr s e refused ∙ sym refused ∙ validate_slice-accepts s e (frame_len fr)
]
