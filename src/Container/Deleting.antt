-- ===== src/Container/Deleting.antt =====
-- v3ioutils/container.go: DeleteTable deletes every item that its cursor is given.
use mathlib.Core.List.{append_assoc, append-nil}
use frames.Base.{
  ℕ, zero, suc, ◌-◌, ◌<◌, ◌≡◌, refl, sym, ap, ◌∙◌, subst, true, false, List, [], ◌∷◌, ◌++◌, String,
  none, All, length, ◌==◌, arith, ok,
}
use frames.Cursor.{Item, Response, Cursor, Next, next_item, new_cursor, done, item}
use frames.Cursor.Collect.{IsOpen, pending, Gives, Closes, delivered, next_item-Gives}
use frames.Wait.{Event, new_loop, delete_run}
use frames.Container.{
  Calls, Sent, ended, item_name, object_path, round, delete_items, returns, table_deleted,
  delete_table,
}

abbrev pub HasName : Item → Type 0
HasName x = (name : String) × (item_name x ≡ ok name)

module _ (calls : Calls) (path : String) where
  -- The objects of the items.
  abbrev pub paths : (xs : List Item) → All HasName xs → List String
  paths [] h = []
  paths (x ∷ xs) h = object_path calls path h.0.0 ∷ paths xs h.1

  -- The container takes every delete that it is sent.
  abbrev pub Takes : Type 0
  Takes = (old : List String) (p : String) → calls.delete_object old p ≡ ok tt

  round-All :
      (xs : List Item) (h : All HasName xs) (fuel : ℕ) (sent : List String)
      (r : Next × Cursor × List Response) (more : Cursor → List Response → List String → Sent)
      → Takes
      → Gives xs r
      → ((ys : List Item) (k : All HasName ys) (ic : Cursor) (rs : List Response)
            (old : List String)
          → IsOpen ic rs
          → pending ic rs ≡ ys
          → length ys < fuel
          → more ic rs old ≡ ended (old ++ paths ys k) none)
      → length xs < suc fuel
      → round calls path sent more r ≡ ended (sent ++ paths xs h) none
  round-All [] h fuel sent (done, ic, rs) more t g k l =
      ap (λ (ps : List String). ended ps none) (sym (append-nil sent))
  round-All [] h fuel sent (item x, ic, rs) more t g k l = absurd g
  round-All [] h fuel sent (Next.failed e, ic, rs) more t g k l = absurd g
  round-All [] h fuel sent (Next.blocked, ic, rs) more t g k l = absurd g
  round-All (x ∷ xs) h fuel sent (item y, ic, rs) more t (same, opened, e) k l =
      let p = object_path calls path h.0.0 in
      let rest = k xs h.1 ic rs (sent ++ (p ∷ [])) opened e (omega arith) in
      rw same (
        rw h.0.1 (
          rw (t sent p) (
            rest
            ∙ ap (λ (ps : List String). ended ps none)
                (append_assoc sent (p ∷ []) (paths xs h.1)))))
  round-All (x ∷ xs) h fuel sent (done, ic, rs) more t g k l = absurd g
  round-All (x ∷ xs) h fuel sent (Next.failed e, ic, rs) more t g k l = absurd g
  round-All (x ∷ xs) h fuel sent (Next.blocked, ic, rs) more t g k l = absurd g

  delete_items-All :
      (xs : List Item) (h : All HasName xs) (fuel : ℕ) (sent : List String) (rs : List Response)
      (ic : Cursor)
      → Takes
      → IsOpen ic rs
      → pending ic rs ≡ xs
      → length xs < fuel
      → delete_items fuel calls path sent rs ic ≡ ended (sent ++ paths xs h) none
  unfolding delete_items
  delete_items-All xs h zero sent rs ic t opened e l = absurd (omega arith)
  delete_items-All xs h (suc fuel) sent rs ic t opened e l =
      round-All xs h fuel sent (next_item rs ic)
        (λ ic' rs' sent'. delete_items fuel calls path sent' rs' ic') t
        (subst (λ zs. Gives zs (next_item rs ic)) e (next_item-Gives rs ic opened))
        (λ ys k ic' rs' old o e' l'. delete_items-All ys k fuel old rs' ic' t o e' l') l

  -- A table whose responses close all the shards without a failure, each item with a name, in a
  -- container that takes every delete: the loop of DeleteTable sends a delete for every item, in the
  -- order of their arrival, with one more round than there are items; and once its
  -- wait loop has signalled, DeleteTable deletes the table's own object and ends as
  -- that delete does, an object that does not exist counting as deleted.
  pub delete_table-All :
      (workers : ℕ) (rs : List Response) (events : List Event)
      → (h : All HasName (delivered rs)) → 0 < workers
      → Closes workers rs
      → Takes
      → (delete_run new_loop events).finished ≡ true
      → let fuel = suc (length (delivered rs)) in
        (delete_items fuel calls path [] rs (new_cursor workers false 0 0)
          ≡ ended (paths (delivered rs) h) none)
        × (delete_table calls (ok tt) fuel path workers rs events
            ≡ returns (table_deleted calls (calls.sync_delete path)))
  unfolding delete_table new_cursor
  delete_table-All workers rs events h w c t f =
      let some_worker : (workers == 0) ≡ false = ground arith in
      let same : workers ≡ workers - 0 = omega arith in
      let all_open = subst (λ k. Closes k rs) same c in
      let all =
        delete_items-All (delivered rs) h (suc (length (delivered rs))) [] rs
          (new_cursor workers false 0 0) t (rw some_worker (refl, omega arith, all_open)) refl
          (omega arith) in
      (all, rw (all, f) refl)
