-- ===== src/Frame/Shape.antt =====
-- frame.go: NewFrame takes columns and indices of one length, and no others.
use frames.Base.{
  ℤ, pos, negsuc, ◌≤ℤ◌, ℕ, ◌+◌, ◌≡◌, refl, true, false, List, [], ◌∷◌, Option, All, arith, Dict, ok,
  err, is_ok, >>=-eq-ok, eqb_ℤ, eqb_ℤ_iff, index_size_mismatch,
}
use frames.Value.{Value, PbValue, from_go_map}
use frames.Column.{ColImpl, len}
use frames.Column.Invariant.{IsValid}
use frames.Frame.{
  Frame, check_columns, check_indices, check_equal_len, new_frame, frame_len, first_len, entries,
}

abbrev pub HasLen : ℤ → ColImpl → Type 0
HasLen n c = len c ≡ n

-- Every column and index of the frame is well formed and has the frame's length.
pub record IsRect (fr : Frame) : Type 0 where
  pub columns_valid : All IsValid fr.columns
  pub indices_valid : All IsValid fr.indices
  pub columns_len : All (HasLen (frame_len fr)) fr.columns
  pub indices_len : All (HasLen (frame_len fr)) fr.indices

pub len_nonneg : (c : ColImpl) → IsValid c → pos 0 ≤ℤ len c
len_nonneg c v = ground arith

len_ne_unset : (c : ColImpl) → IsValid c → eqb_ℤ (len c) (negsuc 0) ≡ false
len_ne_unset c v = ground arith

check_columns_sized :
    (size r : ℤ) (cs : List ColImpl)
    → eqb_ℤ size (negsuc 0) ≡ false
    → check_columns size cs ≡ ok r
    → (r ≡ size) × All (HasLen size) cs
unfolding check_columns
check_columns_sized size r [] s h = ground arith
check_columns_sized size r (c ∷ cs) s h =
    ground (arith, check_columns_sized size r cs s, eqb_ℤ_iff (len c) size)

check_indices_sized :
    (size : ℤ) (i : ℕ) (cs : List ColImpl) → check_indices size i cs ≡ ok tt → All (HasLen size) cs
unfolding check_indices
check_indices_sized size i [] h = tt
check_indices_sized size i (c ∷ cs) h =
    ground (arith, check_indices_sized size (i + 1) cs, eqb_ℤ_iff (len c) size)

-- With no columns the size stays at -1, which no well formed index has.
check_indices_unset :
    (cs : List ColImpl) → All IsValid cs → check_indices (negsuc 0) 0 cs ≡ ok tt → cs ≡ []
unfolding check_indices
check_indices_unset [] v h = refl
check_indices_unset (c ∷ cs) v h = ground (arith, len_ne_unset c v.0)

check_equal_len_shape :
    (columns indices : List ColImpl)
    → All IsValid columns
    → All IsValid indices
    → check_equal_len columns indices ≡ ok tt
    → All (HasLen (first_len columns)) columns × All (HasLen (first_len columns)) indices
unfolding check_equal_len check_columns
check_equal_len_shape [] indices v w h = rw (check_indices_unset indices w h) (tt, tt)
check_equal_len_shape (c ∷ cs) indices v w h =
    let (size, e, h') = >>=-eq-ok (check_columns (negsuc 0) (c ∷ cs)) _ h in
    let (same, all) = check_columns_sized (len c) size cs (len_ne_unset c v.0) e in
    ((refl, all), check_indices_sized (len c) 0 indices (rw same at h'))

-- What NewFrame makes of its arguments.
pub new_frame_parts :
    (columns indices : List ColImpl) (labels : Option (Dict Value)) (fr : Frame)
    → new_frame columns indices labels ≡ ok fr
    → (check_equal_len columns indices ≡ ok tt)
      × (fr.columns ≡ columns)
      × (fr.indices ≡ indices)
      × (fr.labels ≡ labels)
unfolding new_frame
new_frame_parts columns indices labels fr h =
    let (_, e, h') = >>=-eq-ok (check_equal_len columns indices) _ h in
    let (p, _, made) = >>=-eq-ok (from_go_map (entries labels)) _ h' in
    (ground arith, ground arith, ground arith, ground arith)

-- A frame made of well formed columns and indices is rectangular, and holds just these.
pub new_frame-IsRect :
    (columns indices : List ColImpl) (labels : Option (Dict Value)) (fr : Frame)
    → All IsValid columns
    → All IsValid indices
    → new_frame columns indices labels ≡ ok fr
    → IsRect fr × (fr.columns ≡ columns) × (fr.indices ≡ indices)
new_frame-IsRect columns indices labels fr v w h =
    let (e, cols, inds, _) = new_frame_parts columns indices labels fr h in
    let (a, b) = check_equal_len_shape columns indices v w e in
    (
      record {
        columns_valid = rw cols v;
        indices_valid = rw inds w;
        columns_len = rw cols a;
        indices_len = rw (cols, inds) b;
      },
      cols,
      inds,
    )

check_columns_same :
    (n : ℕ) (cs : List ColImpl) → All (HasLen (pos n)) cs → check_columns (pos n) cs ≡ ok (pos n)
unfolding check_columns
check_columns_same n [] h = refl
check_columns_same n (c ∷ cs) h =
    ground (arith, check_columns_same n cs h.1, eqb_ℤ_iff (pos n) (pos n))

check_indices_same :
    (n i : ℕ) (cs : List ColImpl) → All (HasLen (pos n)) cs → check_indices (pos n) i cs ≡ ok tt
unfolding check_indices
check_indices_same n i [] h = refl
check_indices_same n i (c ∷ cs) h =
    ground (arith, check_indices_same n (i + 1) cs h.1, eqb_ℤ_iff (pos n) (pos n))

check_equal_len_same :
    (n : ℕ) (c : ColImpl) (cs indices : List ColImpl)
    → All (HasLen (pos n)) (c ∷ cs)
    → All (HasLen (pos n)) indices
    → check_equal_len (c ∷ cs) indices ≡ ok tt
unfolding check_equal_len check_columns
check_equal_len_same n c cs indices a b =
    rw (a.0, check_columns_same n cs a.1) (check_indices_same n 0 indices b)

-- Columns of one length, at least one of them, with indices of that length and labels that
-- protobuf can carry, make a frame.
pub new_frame_total :
    (n : ℕ) (c : ColImpl) (cs indices : List ColImpl) (labels : Option (Dict Value))
    (p : Dict PbValue)
    → All (HasLen (pos n)) (c ∷ cs)
    → All (HasLen (pos n)) indices
    → from_go_map (entries labels) ≡ ok p
    → is_ok (new_frame (c ∷ cs) indices labels) ≡ true
unfolding new_frame
new_frame_total n c cs indices labels p a b e = rw (check_equal_len_same n c cs indices a b) (rw e)

-- A frame cannot consist of indices alone: the first well formed index is refused, whatever its
-- length, because the size that it is compared with is still -1.
new_frame_index_only :
    (c : ColImpl) (cs : List ColImpl) (labels : Option (Dict Value))
    → IsValid c
    → new_frame [] (c ∷ cs) labels ≡ err (index_size_mismatch 0)
unfolding new_frame check_equal_len check_columns check_indices
new_frame_index_only c cs labels v = rw (len_ne_unset c v)
