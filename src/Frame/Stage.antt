-- ===== src/Frame/Stage.antt =====
-- frame.go and backends/kv/reader.go: a map of columns in the middle of a row, some of whose cells have
-- been added.
use frames.Base.{
  ◌≡◌, refl, sym, ap, subst, ◌∙◌, Bool, true, false, ◌||◌, List, [], ◌∷◌, String, some, Dict,
  lookup, insert, contains, is_some, Bool-cases, inl, inr, lookup-insert, arith, str_eq, eq_iff,
}
use frames.Value.{Value}
use frames.Column.{ColImpl}
use frames.Frame.Rows.{in_slice}

-- The columns in `done` have the cell of the row, the others do not: `P` says what either are.
abbrev pub Stage : (Bool → String → ColImpl → Type 0) → List String → Dict ColImpl → Type 0
Stage P done [] = Unit
Stage P done ((name, c) ∷ cols) = P (in_slice name done) name c × Stage P done cols

abbrev pub Unique : Dict ColImpl → Type 0
Unique [] = Unit
Unique ((name, c) ∷ cols) = (contains name cols ≡ false) × Unique cols

-- The keys of a row are not in `done`, and none comes twice: a row is a Go map.
abbrev pub IsRow : List String → Dict Value → Type 0
IsRow done [] = Unit
IsRow done ((name, v) ∷ row) = (in_slice name done ≡ false) × IsRow (name ∷ done) row

pub contains-insert :
    (k j : String) (c : ColImpl) (cols : Dict ColImpl)
    → contains j (insert k c cols) ≡ (str_eq k j || contains j cols)
contains-insert k j c cols = ap is_some (lookup-insert k j c cols) ∙ ground arith

pub Unique-insert :
    (k : String) (c : ColImpl) (cols : Dict ColImpl) → Unique cols → Unique (insert k c cols)
Unique-insert k c [] u = (refl, tt)
Unique-insert k c ((j, w) ∷ cols) u =
    ground
      (arith, eq_iff j k, eq_iff k j, contains-insert k j c cols, Unique-insert k c cols u.1, u)

module _ (P : Bool → String → ColImpl → Type 0) where
  pub Stage-done :
      (k : String) (done : List String) (cols : Dict ColImpl)
      → contains k cols ≡ false
      → Stage P done cols
      → Stage P (k ∷ done) cols
  Stage-done k done [] h s = tt
  Stage-done k done ((j, c) ∷ cols) h s =
      let other : str_eq j k ≡ false = ground (arith, eq_iff j k) in
      (rw other s.0, Stage-done k done cols (ground (arith, eq_iff j k)) s.1)

  pub Stage-insert :
      (k : String) (done : List String) (c : ColImpl) (cols : Dict ColImpl)
      → Unique cols
      → Stage P done cols
      → P true k c
      → Stage P (k ∷ done) (insert k c cols)
  Stage-insert k done c [] u s h =
      let same : str_eq k k ≡ true = ground (arith, eq_iff k k) in (rw same h, tt)
  Stage-insert k done c ((j, w) ∷ cols) u s h = elim (Bool-cases (str_eq j k)) [
    | inl e ↦
        let same : str_eq k k ≡ true = ground (arith, eq_iff k k) in
        let gone = subst (λ x. contains x cols ≡ false) ((eq_iff j k).0 e) u.0 in
        rw e (rw same h, Stage-done k done cols gone s.1)
    | inr e ↦ rw e (rw e s.0, Stage-insert k done c cols u.1 s.1 h)
  ]

  pub lookup-Stage :
      (k : String) (done : List String) (c : ColImpl) (cols : Dict ColImpl)
      → in_slice k done ≡ false
      → Stage P done cols
      → lookup k cols ≡ some c
      → P false k c
  lookup-Stage k done c [] i s e = cc
  lookup-Stage k done c ((j, w) ∷ cols) i s e = elim (Bool-cases (str_eq j k)) [
    | inl q ↦
        let found : w ≡ c = ground (arith, e, q) in
        let old : in_slice j done ≡ false =
          subst (λ x. in_slice x done ≡ false) (sym ((eq_iff j k).0 q)) i in
        subst (P false k) found (subst (λ x. P false x w) ((eq_iff j k).0 q) (rw old at s.0))
    | inr q ↦ lookup-Stage k done c cols i s.1 (ground (arith, e, q))
  ]
