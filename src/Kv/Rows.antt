-- ===== src/Kv/Rows.antt =====
-- backends/kv/reader.go: what one item adds to the columns of the frame under construction.
use frames.Base.{
  ℤ, pos, ℕ, suc, ◌≡◌, refl, subst, ◌∙◌, Bool, true, false, ◌||◌, List, [], ◌∷◌, String, Option,
  none, some, Dict, lookup, insert, contains, replicate, length-replicate, length-map, ok,
  >>=-eq-ok, arith, eq_iff, if◌then◌else◌,
}
use frames.Value.{Value, nan, unix_nano}
use frames.Column.{ColImpl}
use frames.Column.Edit.{append, new_slice_column}
use frames.Column.Utils.{append_nil, zero_value}
use frames.Frame.Rows.{in_slice}
use frames.Frame.Growing.{HasRows, append-HasRows}
use frames.Frame.Stage.{Stage, Unique, IsRow, Unique-insert, Stage-insert, lookup-Stage}
use frames.Kv.{Columns, new_data, find_or_new, add_field, add_fields, fill_nil, add_row}

-- A new column starts with a value for each of the rows before.
new_data-HasRows :
    (zero_time : ℤ) (name : String) (v : Value) (n : ℕ) (c : ColImpl)
    → new_slice_column name (new_data zero_time v n) ≡ ok c
    → HasRows n c
unfolding new_slice_column new_data
new_data-HasRows z name (Value.int64 v) n c e = ground (arith, length-replicate n (pos 0))
new_data-HasRows z name (Value.int32 v) n c e = ground (arith, length-replicate n (pos 0))
new_data-HasRows z name (Value.int16 v) n c e = ground (arith, length-replicate n (pos 0))
new_data-HasRows z name (Value.int8 v) n c e = ground (arith, length-replicate n (pos 0))
new_data-HasRows z name (Value.int v) n c e = ground (arith, length-replicate n (pos 0))
new_data-HasRows z name (Value.float64 v) n c e = ground (arith, length-replicate n nan)
new_data-HasRows z name (Value.string v) n c e = ground (arith, length-replicate {A = String} n "")
new_data-HasRows z name (Value.bool v) n c e = ground (arith, length-replicate n false)
new_data-HasRows z name (Value.time v) n c e =
    ground (arith, length-replicate n z, length-map unix_nano (replicate n z))
new_data-HasRows z name (Value.float32 v) n c e = cc
new_data-HasRows z name Value.nil n c e = cc
new_data-HasRows z name Value.other n c e = cc

module _ (zero_time : ℤ) (n : ℕ) where
  abbrev At : Bool → String → ColImpl → Type 0
  At true name c = HasRows (suc n) c
  At false name c = HasRows n c

  add_field-Stage :
      (k : String) (v : Value) (done : List String) (cols cols' : Columns)
      → in_slice k done ≡ false
      → Stage At done cols
      → Unique cols
      → add_field zero_time n k v cols ≡ ok cols'
      → Stage At (k ∷ done) cols' × Unique cols'
  unfolding add_field
  add_field-Stage k v done cols cols' i s u e =
      let (c, found, e₁) = >>=-eq-ok (find_or_new zero_time n k v (lookup k cols)) _ e in
      let (c', added, e₂) = >>=-eq-ok (append c v) _ e₁ in
      let before =
        old_or_new (lookup k cols) c (λ d q. lookup-Stage At k done d cols i s q) found in
      let made : insert k c' cols ≡ cols' = ground arith in
      subst (λ x. Stage At (k ∷ done) x × Unique x) made
        (
          Stage-insert At k done c' cols u s (append-HasRows n c c' v before added),
          Unique-insert k c' cols u,
        )
    where
      old_or_new :
          (r : Option ColImpl) (d : ColImpl)
          → ((x : ColImpl) → r ≡ some x → HasRows n x)
          → find_or_new zero_time n k v r ≡ ok d
          → HasRows n d
      old_or_new (some x) d h q = subst (HasRows n) (ground arith) (h x refl)
      old_or_new none d h q = new_data-HasRows zero_time k v n d q

  add_fields-Stage :
      (row : Dict Value) (done : List String) (cols cols' : Columns)
      → IsRow done row
      → Stage At done cols
      → Unique cols
      → add_fields zero_time n row cols ≡ ok cols'
      → (all : List String) × Stage At all cols'
        × Unique cols'
        × ((k : String) → in_slice k all ≡ (in_slice k done || contains k row))
  unfolding add_fields
  add_fields-Stage [] done cols cols' r s u e =
      subst
        (λ x.
          (all : List String) × Stage At all x
          × Unique x
          × ((k : String) → in_slice k all ≡ (in_slice k done || false)))
        (ground arith) (done, s, u, λ k. ground arith)
  add_fields-Stage ((j, v) ∷ row) done cols cols' r s u e =
      let (mid, one, e') = >>=-eq-ok (add_field zero_time n j v cols) _ e in
      let (s', u') = add_field-Stage j v done cols mid r.0 s u one in
      let (all, st, un, names) = add_fields-Stage row (j ∷ done) mid cols' r.1 s' u' e' in
      (all, st, un, λ k. names k ∙ ground (arith, eq_iff k j, eq_iff j k))

abbrev pub AllRows : ℕ → Columns → Type 0
AllRows n [] = Unit
AllRows n ((name, c) ∷ cols) = HasRows n c × AllRows n cols

AllRows-Stage :
    (zero_time : ℤ) (n : ℕ) (cols : Columns) → AllRows n cols → Stage (At zero_time n) [] cols
AllRows-Stage z n [] h = tt
AllRows-Stage z n ((k, c) ∷ cols) h = (h.0, AllRows-Stage z n cols h.1)

append_nil-HasRows : (n : ℕ) (c d : ColImpl) → HasRows n c → append_nil c ≡ ok d → HasRows (suc n) d
unfolding append_nil
append_nil-HasRows n c d h e =
    let (v, _, added) = >>=-eq-ok (zero_value c.msg.dtype) _ e in append-HasRows n c d v h added

-- A column with the row's value stays, any other gets a zero.
fill_one :
    (n : ℕ) (b : Bool) (c d : ColImpl)
    → HasRows (if b then suc n else n) c
    → (if b then ok c else append_nil c) ≡ ok d
    → HasRows (suc n) d
fill_one n true c d h e = subst (HasRows (suc n)) (ground arith) h
fill_one n false c d h e = append_nil-HasRows n c d h e

At-rows :
    (zero_time : ℤ) (n : ℕ) (b : Bool) (name : String) (c : ColImpl)
    → At zero_time n b name c
    → HasRows (if b then suc n else n) c
At-rows z n true name c h = h
At-rows z n false name c h = h

fill_nil-AllRows :
    (zero_time : ℤ) (n : ℕ) (row : Dict Value) (done : List String) (cols cols' : Columns)
    → ((k : String) → in_slice k done ≡ contains k row)
    → Stage (At zero_time n) done cols
    → Unique cols
    → fill_nil row cols ≡ ok cols'
    → AllRows (suc n) cols' × Unique cols' × ((k : String) → contains k cols' ≡ contains k cols)
unfolding fill_nil
fill_nil-AllRows z n row done [] cols' names s u e =
    let same : ◌≡◌ {A = Columns} [] cols' = ground arith in
    subst (λ (x : Columns). AllRows (suc n) x × Unique x × ((k : String) → contains k x ≡ false))
      same (tt, tt, λ k. refl)
fill_nil-AllRows z n row done ((j, c) ∷ cols) cols' names s u e =
    let (c', one, e₁) = >>=-eq-ok (if contains j row then ok c else append_nil c) _ e in
    let (rest, more, e₂) = >>=-eq-ok (fill_nil row cols) _ e₁ in
    let (a, v, keys) = fill_nil-AllRows z n row done cols rest names s.1 u.1 more in
    let made : (j, c') ∷ rest ≡ cols' = ground arith in
    subst
      (λ x.
        AllRows (suc n) x × Unique x × ((k : String) → contains k x ≡ contains k ((j, c) ∷ cols)))
      made
      (
        (
          fill_one n (contains j row) c c'
              (At-rows z n (contains j row) j c (subst (λ b. At z n b j c) (names j) s.0)) one,
          a,
        ),
        (keys j ∙ u.0, v),
        λ k. ground (arith, keys k),
      )

pub add_row-AllRows :
    (zero_time : ℤ) (n : ℕ) (row : Dict Value) (cols cols' : Columns)
    → IsRow [] row
    → AllRows n cols
    → Unique cols
    → add_row zero_time n row cols ≡ ok cols'
    → AllRows (suc n) cols' × Unique cols'
unfolding add_row
add_row-AllRows z n row cols cols' r a u e =
    let (mid, one, e') = >>=-eq-ok (add_fields z n row cols) _ e in
    let (all, st, un, names) =
      add_fields-Stage z n row [] cols mid r (AllRows-Stage z n cols a) u one in
    let (b, v, _) = fill_nil-AllRows z n row all mid cols' names st un e' in (b, v)
