-- ===== src/Frame/FromRows.antt =====
-- frame.go: the frame that NewFrameFromRows makes shows the rows that it was given.
use mathlib.Core.List.{append_assoc, append-nil}
use frames.Base.{
  ℕ, ◌+◌, ◌≡◌, refl, sym, subst, ◌∙◌, Bool, true, false, ◌||◌, List, [], ◌∷◌, ◌++◌, String, Option,
  Dict, All, contains, Bool-cases, inl, inr, ok, >>=-eq-ok, arith, length, length-append,
}
use frames.Value.{Value}
use frames.Column.{ColImpl}
use frames.Column.Read.{Format}
use frames.Column.Invariant.{IsValid}
use frames.Frame.{Frame}
use frames.Frame.Rows.{
  add_cells, extend_missing, add_rows, in_slice, select_cols, new_frame_from_rows,
}
use frames.Frame.Growing.{HasRows}
use frames.Frame.Stage.{Stage, Unique, IsRow}
use frames.Frame.Cells.{Shows, Lacks, extend_col-Shows}
use frames.Frame.Shape.{IsRect, new_frame-IsRect}
use frames.Frame.OneRow.{Covers, At, IsRow-PartOf, add_cells-AfterPart}

contains-extend_missing :
    (n : ℕ) (k : String) (row : Dict Value) (cols : Dict ColImpl)
    → contains k (extend_missing n row cols) ≡ contains k cols
unfolding extend_missing
contains-extend_missing n k row [] = refl
contains-extend_missing n k row ((j, c) ∷ cols) =
    ground (arith, contains-extend_missing n k row cols)

Unique-extend_missing :
    (n : ℕ) (row : Dict Value) (cols : Dict ColImpl)
    → Unique cols
    → Unique (extend_missing n row cols)
unfolding extend_missing
Unique-extend_missing n row [] u = tt
Unique-extend_missing n row ((j, c) ∷ cols) u =
    (contains-extend_missing n j row cols ∙ u.0, Unique-extend_missing n row cols u.1)

module _ (fmt : Format) where
  -- Every column shows the rows, under the name that the map has it by.
  abbrev AllShow : List (Dict Value) → Dict ColImpl → Type 0
  AllShow rows [] = Unit
  AllShow rows ((name, c) ∷ cols) = Shows fmt name rows c × AllShow rows cols

  AllShow-Stage :
      (old : List (Dict Value)) (row : Dict Value) (cols : Dict ColImpl)
      → AllShow old cols
      → Stage (At fmt old row) [] cols
  AllShow-Stage old row [] h = tt
  AllShow-Stage old row ((k, c) ∷ cols) h = (h.0, AllShow-Stage old row cols h.1)

  extend_missing-AllShow :
      (old : List (Dict Value)) (n : ℕ) (row : Dict Value) (done : List String)
      (cols : Dict ColImpl)
      → n ≡ length old
      → ((k : String) → in_slice k done ≡ contains k row)
      → Stage (At fmt old row) done cols
      → AllShow (old ++ row ∷ []) (extend_missing n row cols)
  unfolding extend_missing
  extend_missing-AllShow old n row done [] size names s = tt
  extend_missing-AllShow old n row done ((j, c) ∷ cols) size names s =
      elim (Bool-cases (contains j row)) [
        | inl e ↦
            let here : Shows fmt j (old ++ row ∷ []) c =
              subst (λ b. At fmt old row b j c) (names j ∙ e) s.0 in
            rw e (here, extend_missing-AllShow old n row done cols size names s.1)
        | inr e ↦
            let before : Shows fmt j old c = subst (λ b. At fmt old row b j c) (names j ∙ e) s.0 in
            let filled =
              extend_col-Shows fmt j old (row ∷ []) (n + 1) c before (e, tt)
                (omega (arith, size)) in
            rw e (filled, extend_missing-AllShow old n row done cols size names s.1)
      ]

  Covers-next :
      (old : List (Dict Value)) (row : Dict Value) (cols cols' : Dict ColImpl)
      → Covers old cols
      → ((k : String) → contains k cols' ≡ (contains k cols || contains k row))
      → Covers (old ++ row ∷ []) cols'
  Covers-next old row cols cols' cov now k q =
      All-snoc old (cov k (ground (arith, now k, q))) (ground (arith, now k, q))
    where
      All-snoc :
          (rows : List (Dict Value))
          → All (Lacks k) rows
          → contains k row ≡ false
          → All (Lacks k) (rows ++ row ∷ [])
      All-snoc [] a l = (l, tt)
      All-snoc (r ∷ rows) a l = (a.0, All-snoc rows a.1 l)

  add_rows-AllShow :
      (old rows : List (Dict Value)) (n : ℕ) (cols cols' : Dict ColImpl)
      → n ≡ length old
      → All (IsRow []) rows
      → AllShow old cols
      → Unique cols
      → Covers old cols
      → add_rows n rows cols ≡ ok cols'
      → AllShow (old ++ rows) cols'
  unfolding add_rows
  add_rows-AllShow old [] n cols cols' size r s u cov e =
      subst (λ rs. AllShow rs cols') (sym (append-nil old)) (subst (AllShow old) (ground arith) s)
  add_rows-AllShow old (row ∷ rows) n cols cols' size r s u cov e =
      let (mid, cells, e') = >>=-eq-ok (add_cells n row cols) _ e in
      let (all, st, un, names, now) =
        add_cells-AfterPart fmt old row n row [] cols mid size (IsRow-PartOf [] row r.0) r.0
          (AllShow-Stage old row cols s) u cov cells in
      let keys = λ (k : String). contains-extend_missing n k row mid ∙ now k in
      subst (λ rs. AllShow rs cols') (append_assoc old (row ∷ []) rows)
        (add_rows-AllShow (old ++ row ∷ []) rows (n + 1) (extend_missing n row mid) cols'
          (omega (arith, size, length-append old (row ∷ []))) r.1
          (extend_missing-AllShow old n row all mid size names st)
          (Unique-extend_missing n row mid un)
          (Covers-next old row cols (extend_missing n row mid) cov keys) e')

  -- A column of a frame shows the rows under its own name.
  abbrev pub ShowsRows : List (Dict Value) → ColImpl → Type 0
  ShowsRows rows c = Shows fmt c.msg.name rows c

  select_cols-ShowsRows :
      (rows : List (Dict Value)) (index : Bool) (names : List String) (cols : Dict ColImpl)
      → AllShow rows cols
      → All (ShowsRows rows) (select_cols index names cols)
  select_cols-ShowsRows rows index names [] s = tt
  select_cols-ShowsRows rows true names ((k, c) ∷ cols) s =
      let rest = select_cols-ShowsRows rows true names cols s.1 in
      elim (Bool-cases (in_slice k names)) [
        | inl e ↦ rw e (subst (λ x. Shows fmt x rows c) (sym s.0.named) s.0, rest)
        | inr e ↦ rw e rest
      ]
  select_cols-ShowsRows rows false names ((k, c) ∷ cols) s =
      let rest = select_cols-ShowsRows rows false names cols s.1 in
      elim (Bool-cases (in_slice k names)) [
        | inl e ↦ rw e rest
        | inr e ↦ rw e (subst (λ x. Shows fmt x rows c) (sym s.0.named) s.0, rest)
      ]

  All-IsValid :
      (rows : List (Dict Value)) (cs : List ColImpl) → All (ShowsRows rows) cs → All IsValid cs
  All-IsValid rows [] h = tt
  All-IsValid rows (c ∷ cs) h = (h.0.shape.valid, All-IsValid rows cs h.1)

  pub new_frame_from_rows-ShowsRows :
      (rows : List (Dict Value)) (indices : List String) (labels : Option (Dict Value)) (fr : Frame)
      → All (IsRow []) rows
      → new_frame_from_rows rows indices labels ≡ ok fr
      → IsRect fr × All (ShowsRows rows) fr.columns × All (ShowsRows rows) fr.indices
  unfolding new_frame_from_rows
  new_frame_from_rows-ShowsRows rows indices labels fr r e =
      let (cols, added, made) = >>=-eq-ok (add_rows 0 rows []) _ e in
      let shown = add_rows-AllShow [] rows 0 [] cols refl r tt tt (λ k q. tt) added in
      let columns = select_cols-ShowsRows rows false indices cols shown in
      let inds = select_cols-ShowsRows rows true indices cols shown in
      let (rect, c, i) =
        new_frame-IsRect _ _ labels fr (All-IsValid rows _ columns) (All-IsValid rows _ inds)
          made in
      (rect, rw c columns, rw i inds)

abbrev no_format : Format
no_format = record { format_int = λ n. ""; format_float = λ n. ""; format_time = λ n. "" }

-- The columns and indices of the frame have just as many rows as it was given.
new_frame_from_rows-HasRows :
    (rows : List (Dict Value)) (indices : List String) (labels : Option (Dict Value)) (fr : Frame)
    → All (IsRow []) rows
    → new_frame_from_rows rows indices labels ≡ ok fr
    → IsRect fr × All (HasRows (length rows)) fr.columns × All (HasRows (length rows)) fr.indices
new_frame_from_rows-HasRows rows indices labels fr r e =
    let (rect, cols, inds) = new_frame_from_rows-ShowsRows no_format rows indices labels fr r e in
    (rect, shapes fr.columns cols, shapes fr.indices inds)
  where
    shapes :
        (cs : List ColImpl) → All (ShowsRows no_format rows) cs → All (HasRows (length rows)) cs
    shapes [] h = tt
    shapes (c ∷ cs) h = (h.0.shape, shapes cs h.1)
