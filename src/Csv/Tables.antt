-- ===== src/Csv/Tables.antt =====
-- backends/csv/backend.go: what a file holds after a write, and what creating and deleting do.
use frames.Base.{
  pos, pos_part, ℕ, zero, suc, ◌≡◌, refl, sym, ap, ◌∙◌, inl, inr, Bool, true, false, List, [], ◌∷◌,
  ◌++◌, String, All, arith, length, contains, lookup-insert, insert, Result, ok, err, Result-cases,
  wrapf, >>=-eq-ok, eq_refl, is_ok, table_exists, no_field_name,
}
use mathlib.Core.List.{append_assoc, append-nil}
use frames.Column.Utils.{col_at}
use frames.Frame.{Frame, names, column, frame_len}
use frames.Csv.{Row}
use frames.Csv.Files.{Env, Appender, new_appender, Files, record_of, add_rows, add, create, delete}

-- Every record has the width.
abbrev pub Wide : ℕ → List Row → Type 0
Wide w = All (λ (row : Row). length row ≡ w)

length-record_of :
    (env : Env) (fr : Frame) (r : ℕ) (ns : List String) (row : Row)
    → record_of env fr r ns ≡ ok row
    → length row ≡ length ns
unfolding record_of
length-record_of env fr r [] row h = ground arith
length-record_of env fr r (n ∷ ns) row h =
    let (c, _, h₁) = >>=-eq-ok (wrapf "can't get column" (column fr n)) _ h in
    let (v, _, h₂) = >>=-eq-ok (wrapf "can't get value" (col_at env.fmt c (pos r))) _ h₁ in
    let (rest, e, made) = >>=-eq-ok (record_of env fr r ns) _ h₂ in
    ground (arith, length-record_of env fr r ns rest e)

-- What the loop over the rows adds.
add_rows-adds :
    (env : Env) (fr : Frame) (ns : List String) (n r : ℕ) (a b : Appender)
    → add_rows env fr ns n r a ≡ (ok tt, b)
    → (rows : List Row) × (b.written ≡ a.written ++ rows)
      × (length rows ≡ n)
      × Wide (length ns) rows
unfolding add_rows
add_rows-adds env fr ns zero r a b h = (
  [],
  ap (λ (p : Result (Unit {0}) × Appender). p.1.written) (sym h) ∙ sym (append-nil a.written),
  refl,
  tt,
)
add_rows-adds env fr ns (suc n) r a b h = elim (Result-cases (record_of env fr r ns)) [
  | inl (row, e) ↦ elim (Result-cases (env.accept a.written row)) [
    | inl (u, f) ↦
        let a' = record a { written = a.written ++ (row ∷ []) } in
        let (rows, w, l, k) = add_rows-adds env fr ns n (suc r) a' b (rw (e, f) at h) in
        (
          row ∷ rows,
          w ∙ append_assoc a.written (row ∷ []) rows,
          ap suc l,
          (length-record_of env fr r ns row e, k),
        )
    | inr (inl (x, f)) ↦ let h' = rw (e, f) at h in cc
    | inr (inr f) ↦ let h' = rw (e, f) at h in cc
  ]
  | inr (inl (x, e)) ↦ let h' = rw e at h in cc
  | inr (inr e) ↦ let h' = rw e at h in cc
]

-- A frame that is added to a new file writes the names of its columns, and then a record for each of
-- its rows, all as wide as the names.
pub add-Wide :
    (env : Env) (fr : Frame) (ns : List String) (b : Appender)
    → (names fr).0 ≡ ok ns
    → add env fr new_appender ≡ (ok tt, b)
    → (rows : List Row) × (b.written ≡ ns ∷ rows)
      × (length rows ≡ pos_part (frame_len fr))
      × Wide (length ns) rows
unfolding add
add-Wide env fr ns b n h = elim (Result-cases (env.accept [] ns)) [
  | inl (u, f) ↦
      let a : Appender = record { written = ns ∷ []; header_written = true } in
      add_rows-adds env fr ns (pos_part (frame_len fr)) 0 a b (rw (n, f) at h)
  | inr (inl (x, f)) ↦ let h' = rw (n, f) at h in cc
  | inr (inr f) ↦ let h' = rw (n, f) at h in cc
]

-- A create that fails for a field with no name has made the table all the same: it is there, empty,
-- and the next create fails because of it, whatever its fields.
create_nameless :
    (table : String) (rest fields : List String) (fs : Files)
    → contains table fs ≡ false
    → (create table ("" ∷ rest) fs ≡ (err (no_field_name 0), insert table [] fs))
      × ((create table fields (insert table [] fs)).0 ≡ err table_exists)
unfolding create
create_nameless table rest fields fs c =
    (rw c, ground (arith, lookup-insert {0} table table [] fs, eq_refl table))

-- Deleting a table that is not there fails with either setting of IfMissing, and changes nothing.
delete_missing :
    (table : String) (fail : Bool) (fs : Files)
    → contains table fs ≡ false
    → (is_ok (delete table fail fs).0 ≡ false) × ((delete table fail fs).1 ≡ fs)
unfolding delete
delete_missing table fail fs c = (rw c, rw c)
