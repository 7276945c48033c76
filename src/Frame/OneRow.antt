-- ===== src/Frame/OneRow.antt =====
-- frame.go: the cells of one row, in the loop of NewFrameFromRows.
use mathlib.Core.List.{append-nil}
use frames.Base.{
  pos, ℕ, ◌≡◌, refl, sym, ap, subst, ◌∙◌, Bool, true, false, ◌||◌, List, [], ◌∷◌, ◌++◌, String,
  Option, none, some, Dict, All, lookup, insert, contains, is_some, ok, >>=-eq-ok, arith, length,
  length-append, str_eq, eq_iff,
}
use frames.Value.{Value}
use frames.Column.{ColImpl}
use frames.Column.Read.{Format}
use frames.Column.Edit.{append}
use frames.Frame.Rows.{extended, extend_col, find_or_new, add_cell, add_cells, in_slice}
use frames.Frame.Stage.{
  Stage, Unique, IsRow, Unique-insert, contains-insert, Stage-insert, lookup-Stage,
}
use frames.Frame.Cells.{Shows, Lacks, cell_of, append-Shows, extend_col-Shows, new_column-Shows}

-- A name that no column has is in none of the rows before.
abbrev pub Covers : List (Dict Value) → Dict ColImpl → Type 0
Covers old cols = (k : String) → contains k cols ≡ false → All (Lacks k) old

-- The cells of a part of a row are what the row has under their names.
abbrev pub PartOf : Dict Value → Dict Value → Type 0
PartOf row part = All (λ (k, v). lookup k row ≡ some v) part

other_keys :
    (j : String) (done : List String) (row : Dict Value)
    → in_slice j done ≡ true
    → IsRow done row
    → All (λ (k, v). str_eq j k ≡ false) row
other_keys j done [] i r = tt
other_keys j done ((k, v) ∷ row) i r =
    (ground (arith, eq_iff j k, i, r.0), other_keys j (k ∷ done) row (rw i (ground arith)) r.1)

PartOf-cons :
    (j : String) (w : Value) (row part : Dict Value)
    → All (λ (k, v). str_eq j k ≡ false) part
    → PartOf row part
    → PartOf ((j, w) ∷ row) part
PartOf-cons j w row [] o p = tt
PartOf-cons j w row ((k, v) ∷ part) o p = (rw o.0 p.0, PartOf-cons j w row part o.1 p.1)

pub IsRow-PartOf : (done : List String) (row : Dict Value) → IsRow done row → PartOf row row
IsRow-PartOf done [] r = tt
IsRow-PartOf done ((j, w) ∷ row) r =
    let same : str_eq j j ≡ true = ground (arith, eq_iff j j) in
    let others = other_keys j (j ∷ done) row (rw same refl) r.1 in
    (rw same refl, PartOf-cons j w row row others (IsRow-PartOf (j ∷ done) row r.1))

module _ (fmt : Format) (old : List (Dict Value)) (row : Dict Value) where
  -- A column with the cell of the row, or without it.
  abbrev pub At : Bool → String → ColImpl → Type 0
  At true name c = Shows fmt name (old ++ row ∷ []) c
  At false name c = Shows fmt name old c

  -- A column that shows the first rows, and the rest lack its name.
  abbrev Behind : String → ColImpl → Type 0
  Behind k c =
      (rs more : List (Dict Value)) × (rs ++ more ≡ old) × Shows fmt k rs c × All (Lacks k) more

  find_or_new-Behind :
      (k : String) (v : Value) (r : Option ColImpl) (c : ColImpl)
      → ((d : ColImpl) → r ≡ some d → Shows fmt k old d)
      → (r ≡ none → All (Lacks k) old)
      → find_or_new k v r ≡ ok c
      → Behind k c
  find_or_new-Behind k v (some d) c h l e =
      (old, [], append-nil old, subst (Shows fmt k old) (ground arith) (h d refl), tt)
  find_or_new-Behind k v none c h l e = ([], old, refl, new_column-Shows fmt k v c e, l refl)

  add_cell-Stage :
      (n : ℕ) (k : String) (v : Value) (done : List String) (cols cols' : Dict ColImpl)
      → n ≡ length old
      → lookup k row ≡ some v
      → in_slice k done ≡ false
      → Stage At done cols
      → Unique cols
      → Covers old cols
      → add_cell n k v cols ≡ ok cols'
      → Stage At (k ∷ done) cols'
        × Unique cols'
        × ((j : String) → contains j cols' ≡ (str_eq k j || contains j cols))
  unfolding add_cell
  add_cell-Stage n k v done cols cols' size here i s u cov e =
      let (c, found, e₁) = >>=-eq-ok (find_or_new k v (lookup k cols)) _ e in
      let (c', added, e₂) = >>=-eq-ok (append (extended (extend_col c (pos n))) v) _ e₁ in
      let (rs, more, split, h, l) =
        find_or_new-Behind k v (lookup k cols) c (λ d q. lookup-Stage At k done d cols i s q)
          (λ q. cov k (ap is_some q)) found in
      let grown = extended (extend_col c (pos n)) in
      let whole =
        extend_col-Shows fmt k rs more n c h l
          (size ∙ ap length (sym split) ∙ length-append rs more) in
      let longer =
        append-Shows fmt k old row grown c' v (subst (λ r. Shows fmt k r grown) split whole) added
          (sym (ap (cell_of grown.msg.dtype) here)) in
      let made : insert k c' cols ≡ cols' = ground arith in
      subst
        (λ x.
          Stage At (k ∷ done) x
          × Unique x
          × ((j : String) → contains j x ≡ (str_eq k j || contains j cols)))
        made
        (
          Stage-insert At k done c' cols u s longer,
          Unique-insert k c' cols u,
          λ j. contains-insert k j c' cols,
        )

  -- After the cells of a part of the row.
  abbrev pub AfterPart : List String → Dict Value → Dict ColImpl → Dict ColImpl → Type 0
  AfterPart done part cols cols' =
      (all : List String) × Stage At all cols'
      × Unique cols'
      × ((k : String) → in_slice k all ≡ (in_slice k done || contains k part))
      × ((k : String) → contains k cols' ≡ (contains k cols || contains k part))

  pub add_cells-AfterPart :
      (n : ℕ) (part : Dict Value) (done : List String) (cols cols' : Dict ColImpl)
      → n ≡ length old
      → PartOf row part
      → IsRow done part
      → Stage At done cols
      → Unique cols
      → Covers old cols
      → add_cells n part cols ≡ ok cols'
      → AfterPart done part cols cols'
  unfolding add_cells
  add_cells-AfterPart n [] done cols cols' size p r s u cov e =
      subst (AfterPart done [] cols) (ground arith)
        (done, s, u, λ k. ground arith, λ k. ground arith)
  add_cells-AfterPart n ((j, v) ∷ part) done cols cols' size p r s u cov e =
      let (mid, one, e') = >>=-eq-ok (add_cell n j v cols) _ e in
      let (s', u', keys) = add_cell-Stage n j v done cols mid size p.0 r.0 s u cov one in
      let (all, st, un, names, now) =
        add_cells-AfterPart n part (j ∷ done) mid cols' size p.1 r.1 s' u'
          (λ k q. cov k (ground (arith, keys k, q))) e' in
      (
        all,
        st,
        un,
        λ k. names k ∙ ground (arith, eq_iff k j, eq_iff j k),
        λ k. now k ∙ ground (arith, keys k, eq_iff k j, eq_iff j k),
      )
