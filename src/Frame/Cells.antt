-- ===== src/Frame/Cells.antt =====
-- frame.go: which value stands in which cell of a column that is built row by row.
use mathlib.Core.List.{append_assoc, append-nil}
use frames.Base.{
  pos, ℕ, zero, suc, ◌+◌, ◌<◌, ◌≡◌, refl, ◌⊎◌, sym, ap, subst, ◌∙◌, true, false, List, [], ◌∷◌,
  ◌++◌, String, Option, none, some, Dict, All, lookup, contains, is_some, get_elem?, length,
  length-append, ok, arith, ltb_ℤ, leb_ℤ, eqb_ℤ, eqb_ℤ_iff, inl, inr,
}
use frames.Value.{Value, nan}
use frames.Value.Laws.{widen}
use frames.Frame.Rows.{extended, extend_loop, extend_col, gap, new_column, empty_data}
use frames.Column.{DType, Column, ColImpl, len}
use frames.Column.Read.{Format}
use frames.Column.Edit.{append, append_by}
use frames.Column.AppendRows.{value_at-append}
use frames.Column.Utils.{value_at, zero_value}
use frames.Frame.Growing.{
  HasRows, append-HasRows, append-dtype, append-times, append-filled, zero_value-Fills,
  new_column-HasRows, new_slice_column-fresh, append-name,
}

-- The value of a row under a name, in a column of the dtype: an integer of any width as int64, and
-- the zero of the dtype where the row has no such name.
abbrev pub zero_of : DType → Value
zero_of DType.integer = Value.int64 (pos 0)
zero_of DType.float = Value.float64 nan
zero_of DType.string = Value.string ""
zero_of DType.time = Value.time (pos 0)
zero_of DType.boolean = Value.bool false
zero_of (DType.other n) = Value.nil

abbrev pub cell_of : DType → Option Value → Value
cell_of t (some v) = widen v
cell_of t none = zero_of t

abbrev pub cell : DType → String → Dict Value → Value
cell t name row = cell_of t (lookup name row)

-- The column called `name` shows the rows, cell by cell.
pub record Shows (fmt : Format) (name : String) (rows : List (Dict Value)) (c : ColImpl)
    : Type 0 where
  pub shape : HasRows (length rows) c
  pub uncached : c.times ≡ none
  pub named : c.msg.name ≡ name
  pub cells :
      (i : ℕ) (row : Dict Value)
      → get_elem? rows i ≡ some row
      → value_at fmt c (pos i) ≡ ok (cell c.msg.dtype name row)

module _ (fmt : Format) where
  -- A list with one more element, at an index.
  get_elem?-snoc :
      {A : Type 0} (xs : List A) (x y : A) (i : ℕ)
      → get_elem? (xs ++ x ∷ []) i ≡ some y
      → ((i < length xs) × (get_elem? xs i ≡ some y)) ⊎ ((i ≡ length xs) × (x ≡ y))
  get_elem?-snoc [] x y zero h = inr (refl, ground arith)
  get_elem?-snoc [] x y (suc i) h = cc
  get_elem?-snoc (z ∷ xs) x y zero h = inl (omega arith, h)
  get_elem?-snoc (z ∷ xs) x y (suc i) h = elim (get_elem?-snoc xs x y i h) [
    | inl (l, e) ↦ inl (omega arith, e)
    | inr (l, e) ↦ inr (ap suc l, e)
  ]

  -- The row behind the others reads as the value that was appended.
  append-cell :
      (n i : ℕ) (c d : ColImpl) (x y : Value)
      → HasRows n c
      → c.times ≡ none
      → append c x ≡ ok d
      → ((i < n) × (value_at fmt c (pos i) ≡ ok y)) ⊎ ((i ≡ n) × (widen x ≡ y))
      → value_at fmt d (pos i) ≡ ok y
  append-cell n i c d x y s u h (inl (l, e)) =
      let old : ltb_ℤ (pos i) (len c) ≡ true = rw s.rows (ground arith) in
      value_at-append fmt c d x i s.valid s.sliced u h ∙ rw old e
  append-cell n i c d x y s u h (inr (l, e)) =
      let past : ltb_ℤ (pos i) (len c) ≡ false = rw s.rows (ground arith) in
      let last : eqb_ℤ (pos i) (len c) ≡ true =
        rw s.rows (ground (arith, eqb_ℤ_iff (pos i) (pos n))) in
      value_at-append fmt c d x i s.valid s.sliced u h ∙ rw (past, last) (ap ok e)

  pub append-Shows :
      (name : String) (rows : List (Dict Value)) (row : Dict Value) (c d : ColImpl) (x : Value)
      → Shows fmt name rows c
      → append c x ≡ ok d
      → widen x ≡ cell c.msg.dtype name row
      → Shows fmt name (rows ++ row ∷ []) d
  append-Shows name rows row c d x s h e = record {
    shape =
        subst (λ n. HasRows n d) (omega (arith, length-append rows (row ∷ [])))
          (append-HasRows (length rows) c d x s.shape h);
    uncached = append-times (length rows) c d x s.shape h ∙ s.uncached;
    named = append-name (length rows) c d x s.shape h ∙ s.named;
    cells = λ i r q.
        append-cell (length rows) i c d x (cell d.msg.dtype name r) s.shape s.uncached h
          (elim (get_elem?-snoc rows row r i q) [
            | inl (l, g) ↦
                inl (l, s.cells i r g ∙ ap (λ (t : DType). ok (cell t name r)) (sym same))
            | inr (l, g) ↦ inr (
              l,
              e
                  ∙ ap (λ (t : DType). cell t name row) (sym same)
                  ∙ ap (λ (r' : Dict Value). cell d.msg.dtype name r') g,
            )
          ]);
  }
    where
      same : d.msg.dtype ≡ c.msg.dtype
      same = append-dtype (length rows) c d x s.shape h

-- The rows that have no such name.
abbrev pub Lacks : String → Dict Value → Type 0
Lacks name row = contains name row ≡ false

Lacks-cell :
    (t : DType) (name : String) (row : Dict Value) → Lacks name row → cell t name row ≡ zero_of t
Lacks-cell t name row h = none_cell (lookup name row) h
  where
    none_cell : (r : Option Value) → is_some r ≡ false → cell_of t r ≡ zero_of t
    none_cell none e = refl
    none_cell (some v) e = cc

widen-zero_value : (t : DType) (v : Value) → zero_value t ≡ ok v → widen v ≡ zero_of t
unfolding zero_value
widen-zero_value DType.integer v e = ground arith
widen-zero_value DType.float v e = ground arith
widen-zero_value DType.string v e = ground arith
widen-zero_value DType.time v e = ground arith
widen-zero_value DType.boolean v e = ground arith
widen-zero_value (DType.other n) v e = cc

module _ (fmt : Format) (name : String) where
  extend_loop-Shows :
      (rows more : List (Dict Value)) (size : ℕ) (t : DType) (c : ColImpl) (v : Value)
      → ((m : Column) → (m' : Column) × (append_by m t v ≡ ok m'))
      → widen v ≡ zero_of t
      → c.msg.dtype ≡ t
      → Shows fmt name rows c
      → All (Lacks name) more
      → size ≡ length rows + length more
      → Shows fmt name (rows ++ more) (extended (extend_loop (length more) v (pos size) c))
  unfolding extend_loop
  extend_loop-Shows rows [] size t c v f z d h l s =
      let full : ltb_ℤ (len c) (pos size) ≡ false = rw h.shape.rows (ground arith) in
      rw (full, extended) (subst (λ r. Shows fmt name r c) (sym (append-nil rows)) h)
  extend_loop-Shows rows (row ∷ more) size t c v f z d h l s =
      let short : ltb_ℤ (len c) (pos size) ≡ true = rw h.shape.rows (ground arith) in
      let (c', e) = append-filled (length rows) c v h.shape (rw d f) in
      let longer =
        append-Shows fmt name rows row c c' v h e
          (z ∙ sym (Lacks-cell t name row l.0) ∙ ap (λ (u : DType). cell u name row) (sym d)) in
      let rest =
        extend_loop-Shows (rows ++ row ∷ []) more size t c' v f z
          (append-dtype (length rows) c c' v h.shape e ∙ d) longer l.1
          (omega (arith, length-append rows (row ∷ []))) in
      rw (short, extended)
        (rw (e, extended)
          (subst (λ r. Shows fmt name r (extended (extend_loop (length more) v (pos size) c')))
            (append_assoc rows (row ∷ []) more) rest))

  -- extendCol fills a column up with zeros, one for each row that it has missed.
  pub extend_col-Shows :
      (rows more : List (Dict Value)) (size : ℕ) (c : ColImpl)
      → Shows fmt name rows c
      → All (Lacks name) more
      → size ≡ length rows + length more
      → Shows fmt name (rows ++ more) (extended (extend_col c (pos size)))
  unfolding extend_col
  extend_col-Shows rows [] size c h l s =
      let full : leb_ℤ (pos size) (len c) ≡ true = rw h.shape.rows (ground arith) in
      rw (full, extended) (subst (λ r. Shows fmt name r c) (sym (append-nil rows)) h)
  extend_col-Shows rows (row ∷ more) size c h l s =
      let short : leb_ℤ (pos size) (len c) ≡ false = rw h.shape.rows (ground arith) in
      let (v, z, f) = zero_value-Fills c.msg.dtype h.shape.valid.known in
      let rounds : gap (len c) (pos size) ≡ length (row ∷ more) = rw h.shape.rows (omega arith) in
      rw (short, extended)
        (rw (z, extended)
          (rw rounds (
            extend_loop-Shows rows (row ∷ more) size c.msg.dtype c v f
              (widen-zero_value c.msg.dtype v z) refl h l s)))

pub new_column-Shows :
    (fmt : Format) (name : String) (v : Value) (c : ColImpl)
    → new_column name v ≡ ok c
    → Shows fmt name [] c
unfolding new_column
new_column-Shows fmt name v c e = record {
  shape = new_column-HasRows name v c e;
  uncached = (new_slice_column-fresh name (empty_data v) c e).0;
  named = (new_slice_column-fresh name (empty_data v) c e).1;
  cells = λ i row q. absurd (ground arith);
}
