-- ===== src/Kv/Frames.antt =====
-- backends/kv/reader.go: the frames that the key/value backend builds are rectangular, with a row for each
-- item, unless the object of the schema comes between the items.
use frames.Base.{
  ℤ, ℕ, zero, suc, ◌+◌, ◌≡◌, refl, ap, subst, ◌∙◌, Bool, true, false, List, [], ◌∷◌, ◌++◌, String,
  Option, none, some, Dict, All, Error, lookup, Bool-cases, inl, inr, Result, ok, >>=-eq-ok, arith,
  length, str_eq, if◌then◌else◌,
}
use frames.Value.{Value}
use frames.Column.{ColImpl}
use frames.Column.Invariant.{IsValid}
use frames.Column.Utils.{remove_column}
use frames.Frame.{Frame, new_frame}
use frames.Frame.Growing.{HasRows}
use frames.Frame.Stage.{Unique, IsRow}
use frames.Frame.Shape.{IsRect, new_frame-IsRect}
use frames.Kv.{
  Columns, add_row, is_schema_row, read_rows, next, columns_of, frame_of, build, cursor_failed,
  index_col_key,
}
use frames.Kv.Rows.{AllRows, add_row-AllRows}

-- A result of the loop, by its parts.
read_rows-parts :
    (cols cols' : Columns) (m m' : ℕ) (b b' : Bool) (rest rest' : List (Dict Value))
    → ◌≡◌ {A = Result (Columns × ℕ × Bool × List (Dict Value))}
        (ok (cols, m, b, rest))
        (ok (cols', m', b', rest'))
    → (cols ≡ cols') × (m ≡ m') × (rest ≡ rest')
read_rows-parts cols cols' m m' b b' rest rest' e = (cc, cc, cc)

-- The items that were taken, and the rows that the columns have for them.
abbrev Took : ℕ → List (Dict Value) → Columns → ℕ → List (Dict Value) → Type 0
Took row_num rows cols m rest =
    (taken : List (Dict Value)) × (rows ≡ taken ++ rest)
    × (m ≡ row_num + length taken)
    × AllRows m cols

abbrev pub IsItem : Dict Value → Type 0
IsItem row = (is_schema_row row ≡ false) × IsRow [] row

read_rows_end :
    (rows : List (Dict Value)) (n m : ℕ) (b b' : Bool) (cols cols' : Columns)
    (rest : List (Dict Value))
    → AllRows n cols
    → ◌≡◌ {A = Result (Columns × ℕ × Bool × List (Dict Value))}
        (ok (cols, n, b, rows))
        (ok (cols', m, b', rest))
    → Took n rows cols' m rest
read_rows_end rows n m b b' cols cols' rest a e =
    let (same, size, left) = read_rows-parts cols cols' n m b b' rows rest e in
    ([], left, omega (arith, size), subst (λ k. AllRows k cols') size (subst (AllRows n) same a))

unless :
    (b : Bool) (r : Result Columns) (cols cols' : Columns)
    → b ≡ false
    → (if b then ok cols else r) ≡ ok cols'
    → r ≡ ok cols'
unless true r cols cols' n e = cc
unless false r cols cols' n e = e

read_rows-Took :
    (zero_time : ℤ) (limit row_num : ℕ) (rows : List (Dict Value)) (cols cols' : Columns) (m : ℕ)
    (ended : Bool) (rest : List (Dict Value))
    → All IsItem rows
    → AllRows row_num cols
    → Unique cols
    → read_rows zero_time limit row_num rows cols ≡ ok (cols', m, ended, rest)
    → Took row_num rows cols' m rest
unfolding read_rows
read_rows-Took z zero n rows cols cols' m b rest h a u e =
    read_rows_end rows n m false b cols cols' rest a e
read_rows-Took z (suc limit) n [] cols cols' m b rest h a u e =
    read_rows_end [] n m true b cols cols' rest a e
read_rows-Took z (suc limit) n (row ∷ rows) cols cols' m b rest h a u e =
    let (mid, one, e') =
      >>=-eq-ok (if is_schema_row row then ok cols else add_row z n row cols) _ e in
    let (a', u') =
      add_row-AllRows z n row cols mid h.0.1 a u
        (unless (is_schema_row row) (add_row z n row cols) cols mid h.0.0 one) in
    let (taken, split, size, all) =
      read_rows-Took z limit (n + 1) rows mid cols' m b rest h.1
        (subst (λ k. AllRows k mid) (omega arith) a') u' e' in
    (row ∷ taken, ap (λ rs. row ∷ rs) split, omega (arith, size), all)

columns_of-HasRows : (n : ℕ) (cols : Columns) → AllRows n cols → All (HasRows n) (columns_of cols)
columns_of-HasRows n [] h = tt
columns_of-HasRows n ((k, c) ∷ cols) h = (h.0, columns_of-HasRows n cols h.1)

remove_column-HasRows :
    (n : ℕ) (name : String) (cs : List ColImpl)
    → All (HasRows n) cs
    → All (HasRows n) (remove_column name cs)
unfolding remove_column
remove_column-HasRows n name [] h = tt
remove_column-HasRows n name (c ∷ cs) h = elim (Bool-cases (str_eq c.msg.name name)) [
  | inl e ↦ rw e h.1
  | inr e ↦ rw e (h.0, remove_column-HasRows n name cs h.1)
]

lookup-AllRows :
    (n : ℕ) (k : String) (c : ColImpl) (cols : Columns)
    → AllRows n cols
    → lookup k cols ≡ some c
    → HasRows n c
lookup-AllRows n k c [] h e = cc
lookup-AllRows n k c ((j, d) ∷ cols) h e = elim (Bool-cases (str_eq j k)) [
  | inl q ↦ subst (HasRows n) (ground (arith, e, q)) h.0
  | inr q ↦ lookup-AllRows n k c cols h.1 (ground (arith, e, q))
]

All-IsValid : (n : ℕ) (cs : List ColImpl) → All (HasRows n) cs → All IsValid cs
All-IsValid n [] h = tt
All-IsValid n (c ∷ cs) h = (h.0.valid, All-IsValid n cs h.1)

-- The frame is rectangular, and every column and index has n rows.
abbrev pub HasSize : ℕ → Frame → Type 0
HasSize n fr = IsRect fr × All (HasRows n) fr.columns × All (HasRows n) fr.indices

new_frame-HasSize :
    (n : ℕ) (cs is : List ColImpl) (fr : Frame)
    → All (HasRows n) cs
    → All (HasRows n) is
    → new_frame cs is none ≡ ok fr
    → HasSize n fr
new_frame-HasSize n cs is fr h k e =
    let (rect, c, i) = new_frame-IsRect cs is none fr (All-IsValid n cs h) (All-IsValid n is k) e in
    (rect, rw c h, rw i k)

frame_of-HasSize :
    (n : ℕ) (cols : Columns) (index : Option ColImpl) (fr : Frame)
    → AllRows n cols
    → ((c : ColImpl) → index ≡ some c → HasRows n c)
    → frame_of cols index ≡ ok fr
    → HasSize n fr
frame_of-HasSize n cols (some c) fr a h e =
    new_frame-HasSize n _ (c ∷ []) fr
      (remove_column-HasRows n index_col_key (columns_of cols) (columns_of-HasRows n cols a))
      (h c refl, tt) e
frame_of-HasSize n cols none fr a h e =
    new_frame-HasSize n _ [] fr (columns_of-HasRows n cols a) tt e

build-HasSize :
    (cols : Columns) (n : ℕ) (rows rest : List (Dict Value)) (fr : Frame)
    → AllRows n cols
    → build cols n rows ≡ ok (some fr, rest)
    → HasSize n fr × (rows ≡ rest)
build-HasSize cols zero rows rest fr a e = cc
build-HasSize cols (suc n) rows rest fr a e =
    let (f, made, e') = >>=-eq-ok (frame_of cols (lookup index_col_key cols)) _ e in
    (
      frame_of-HasSize (suc n) cols (lookup index_col_key cols) fr a
          (λ c q. lookup-AllRows (suc n) index_col_key c cols a q) (made ∙ ground arith),
      ground arith,
    )

-- A frame of the key/value reader, where the cursor's items are maps and none of them is the object of
-- the schema: the items that it leaves are the last ones, and the frame is
-- rectangular, each column and index of it with a row for each of the items before them.
pub next-HasSize :
    (zero_time : ℤ) (limit : ℕ) (failure : Option Error) (rows rest : List (Dict Value))
    (fr : Frame)
    → All IsItem rows
    → next zero_time limit failure rows ≡ ok (some fr, rest)
    → (taken : List (Dict Value)) × (rows ≡ taken ++ rest) × HasSize (length taken) fr
unfolding next
next-HasSize z limit failure rows rest fr h e =
    let ((cols, m, ended, left), got, e₁) = >>=-eq-ok (read_rows z limit 0 rows []) _ e in
    let (_, _, e₂) = >>=-eq-ok (cursor_failed failure ended) _ e₁ in
    let (taken, split, size, all) =
      read_rows-Took z limit 0 rows [] cols m ended left h tt tt got in
    let (sized, same) = build-HasSize cols m left rest fr all e₂ in
    (taken, split ∙ ap (λ l. taken ++ l) same, subst (λ n. HasSize n fr) (size ∙ omega arith) sized)
