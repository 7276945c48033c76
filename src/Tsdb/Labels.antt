-- ===== src/Tsdb/Labels.antt =====
-- backends/tsdb/writer.go: the name of a metric, and the first row of a frame with several indices.
use frames.Base.{
  ℕ, suc, ◌<◌, ◌≡◌, refl, at-lt, Result-cases, Bool, true, List, [], ◌∷◌, String, none, some, Dict,
  ok, panic, arith, replicate, length, All, eq_refl, inl, inr, contains, get_elem?,
}
use frames.Value.{Value}
use frames.Tsdb.Calls.{Env, Labels, frame_labels, new_lset}
use frames.Tsdb.Writer.{Multi, same_index, multi_rows, fast_row}

frame_labels-named :
    (env : Env) (single : Bool) (labels : Dict Value) (p : Labels × Bool)
    → contains "__name__" labels ≡ true
    → frame_labels env single labels ≡ ok p
    → p.1 ≡ true
unfolding frame_labels
frame_labels-named env single [] p c h = cc
frame_labels-named env single ((n, v) ∷ ls) p c h =
    elim (Result-cases (frame_labels env single ls)) [
      | inl (q, e) ↦ ground (arith, frame_labels-named env single ls q)
      | inr (inl (x, e)) ↦ ground arith
      | inr (inr e) ↦ ground arith
    ]

-- A frame that has a label __name__ of its own loses the names of its columns: the labels of the
-- metric are the same whatever the column is called.
new_lset-nameless :
    (env : Env) (labels : Dict Value) (name other : String) (single : Bool)
    (extra vals : List String)
    → contains "__name__" labels ≡ true
    → new_lset env labels name single extra vals ≡ new_lset env labels other single extra vals
unfolding new_lset
new_lset-nameless env labels name other single extra vals c =
    elim (Result-cases (frame_labels env single labels)) [
      | inl ((ls, b), e) ↦ rw (e, frame_labels-named env single labels (ls, b) c e)
      | inr (inl (x, e)) ↦ rw e
      | inr (inr e) ↦ rw e
    ]

-- The index columns are empty in the first row.
abbrev pub EmptyFirst : List (List String) → Type 0
EmptyFirst = All (λ (c : List String). get_elem? c 0 ≡ some "")

same_index-empty :
    (cs : List (List String))
    → EmptyFirst cs
    → same_index 0 cs (replicate (length cs) "") ≡ ok (true, replicate (length cs) "")
unfolding same_index
same_index-empty [] h = refl
same_index-empty (c ∷ cs) h = ground (arith, same_index-empty cs h.1, eq_refl "")

-- A frame with several indices whose other indices are all empty in the first row panics there,
-- before any call to the library: the row counts as one of a series that was never added.
multi_rows-EmptyFirst :
    (env : Env) (f : Multi) (n k : ℕ)
    → EmptyFirst f.index_cols
    → 0 < length f.times
    → multi_rows env f (suc n) 0 (replicate (length f.index_cols) "") (replicate (suc k) none) []
      ≡ (panic, [])
unfolding multi_rows fast_row
multi_rows-EmptyFirst env f n k e t =
    let (x, h) = at-lt f.times 0 t in rw (same_index-empty f.index_cols e) (rw h)
