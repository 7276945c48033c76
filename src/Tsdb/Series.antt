-- ===== src/Tsdb/Series.antt =====
-- backends/tsdb: a series makes a rectangular frame, and its times lose their milliseconds.
use frames.Base.{
  ℤ, pos, ◌+ℤ◌, ◌*ℤ◌, ℕ, ◌+◌, ◌*◌, ◌-◌, ◌/◌, ◌%◌, ◌≡◌, refl, ap, ◌∙◌, inl, inr, Bool-cases, str_eq,
  Bool, true, false, List, [], ◌∷◌, map, String, none, some, Dict, insert, All, arith, ok,
  is_ok-true, length, length-map,
}
use frames.Value.{Value, PbValue, unix_nano, from_go_map, set_value}
use frames.Column.{label, DType, ColImpl}
use frames.Column.Edit.{empty_msg, new_slice_column, new_label_column}
use frames.Column.Invariant.{IsValid}
use frames.Frame.{Frame, frame_len, first_len}
use frames.Frame.Shape.{HasLen, IsRect, new_frame-IsRect, new_frame_total}
use frames.Tsdb.Calls.{Label}
use frames.Tsdb.Writer.{to_ms}
use frames.Tsdb.Reader.{Series, sample_time, label_name, label_columns, assemble, series_frame}

pos_mul : (a b : ℕ) → pos a *ℤ pos b ≡ pos (a * b)
unfolding ◌*ℤ◌
pos_mul a b = ground arith

pos_add : (a b : ℕ) → pos a +ℤ pos b ≡ pos (a + b)
unfolding ◌+ℤ◌
pos_add a b = ground arith

sample_time_pos : (m : ℕ) → sample_time (pos m) ≡ pos (m / 1000 * 1000000000 + m % 1000 * 1000)
unfolding sample_time
sample_time_pos m =
    rw (pos_mul (m / 1000) 1000000000, pos_mul (m % 1000) 1000)
      (pos_add (m / 1000 * 1000000000) (m % 1000 * 1000))

-- A sample that is written at m milliseconds is read without the milliseconds of its second: they
-- come back as microseconds, which to_ms drops.
to_ms-sample_time : (m : ℕ) → to_ms (sample_time (pos m)) ≡ pos (m - m % 1000)
unfolding to_ms
to_ms-sample_time m = rw (sample_time_pos m) (ap pos (omega arith))

abbrev IsText : Dict Value → Type 0
IsText = All (λ (p : String × Value). (s : String) × (p.1 ≡ Value.string s))

insert-IsText : (k s : String) (d : Dict Value) → IsText d → IsText (insert k (Value.string s) d)
insert-IsText k s [] h = ((s, refl), tt)
insert-IsText k s ((j, v) ∷ d) h = elim (Bool-cases (str_eq j k)) [
  | inl e ↦ rw e ((s, refl), h.1)
  | inr e ↦ rw e (h.0, insert-IsText k s d h.1)
]

from_go_map-IsText : (d : Dict Value) → IsText d → (p : Dict PbValue) × (from_go_map d ≡ ok p)
unfolding from_go_map set_value
from_go_map-IsText [] h = ([], refl)
from_go_map-IsText ((k, v) ∷ d) h =
    let (s, e) = h.0 in
    let (p, g) = from_go_map-IsText d h.1 in ((k, PbValue.sval s) ∷ p, rw (e, g))

abbrev label_col : ℕ → Label → ColImpl
label_col n l = record {
  msg = record (empty_msg label (label_name l.name) DType.string) {
    size = pos n;
    strings = l.value ∷ [];
  };
  times = none;
}

-- The columns of the labels: well formed, and each with a row for every sample.
label_columns-total :
    (n : ℕ) (ls : List Label) (d : Dict Value)
    → IsText d
    → (cs : List ColImpl) × (d' : Dict Value) × (label_columns n ls d ≡ ok (cs, d'))
      × All IsValid cs
      × All (HasLen (pos n)) cs
      × IsText d'
unfolding label_columns new_label_column
label_columns-total n [] d h = ([], d, refl, tt, tt, h)
label_columns-total n (l ∷ ls) d h =
    let d2 = insert (label_name l.name) (Value.string l.value) d in
    let (cs, d', e, v, k, t) =
      label_columns-total n ls d2 (insert-IsText (label_name l.name) l.value d h) in
    (label_col n l ∷ cs, d', rw e, (ground arith, v), (refl, k), t)

module _ (n : ℕ) (times values : ColImpl) (cs : List ColImpl) (d : Dict Value) where
  assemble-IsRect :
      (multi_index : Bool)
      → IsText d
      → All IsValid (times ∷ values ∷ cs)
      → All (HasLen (pos n)) (times ∷ values ∷ cs)
      → (fr : Frame) × (assemble multi_index times values (cs, d) ≡ ok fr)
        × IsRect fr
        × (frame_len fr ≡ pos n)
  assemble-IsRect true t (vt, (vv, vs)) (kt, (kv, ks)) =
      let (p, g) = from_go_map-IsText d t in
      let (fr, made) =
        is_ok-true _ (new_frame_total n values [] (times ∷ cs) (some d) p (kv, tt) (kt, ks) g) in
      let (rect, cols, _) =
        new_frame-IsRect (values ∷ []) (times ∷ cs) (some d) fr (vv, tt) (vt, vs) made in
      (fr, made, rect, ap first_len cols ∙ kv)
  assemble-IsRect false t (vt, (vv, vs)) (kt, (kv, ks)) =
      let (p, g) = from_go_map-IsText d t in
      let (fr, made) =
        is_ok-true _ (new_frame_total n values cs (times ∷ []) (some d) p (kv, ks) (kt, tt) g) in
      let (rect, cols, _) =
        new_frame-IsRect (values ∷ cs) (times ∷ []) (some d) fr (vv, vs) (vt, tt) made in
      (fr, made, rect, ap first_len cols ∙ kv)

-- Every series whose iteration ends without an error makes a frame, with or without MultiIndex, and
-- the frame is rectangular and has a row for each sample.
pub series_frame-IsRect :
    (multi_index : Bool) (s : Series)
    → s.error ≡ none
    → (fr : Frame) × (series_frame multi_index s ≡ ok fr)
      × IsRect fr
      × (frame_len fr ≡ pos (length s.samples))
unfolding series_frame new_slice_column
series_frame-IsRect multi_index s e =
    let n = length s.samples in
    let (cs, d, made, v, k, t) = label_columns-total n s.labels [] tt in
    let stamps = map (λ (x : ℤ × ℕ). sample_time x.0) s.samples in
    rw (e, made)
      (assemble-IsRect n _ _ cs d multi_index t (ground arith, (ground arith, v))
        (
          ap pos
              (length-map unix_nano stamps ∙ length-map (λ (x : ℤ × ℕ). sample_time x.0) s.samples),
          (ap pos (length-map (λ (x : ℤ × ℕ). x.1) s.samples), k),
        ))
