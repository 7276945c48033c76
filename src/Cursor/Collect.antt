-- ===== src/Cursor/Collect.antt =====
-- v3ioutils/asynciter.go: what the cursor hands out.
use frames.Base.{
  ℕ, zero, suc, ◌+◌, ◌<◌, ◌≤◌, ◌-◌, pred, ◌≡◌, refl, subst, inl, inr, true, false, List, [], ◌∷◌,
  ◌++◌, none, some, length, get_elem?, drop, Option-cases, arith, ltb, ◌==◌, ◌&&◌, wrap,
}
use frames.Cursor.{
  Item, Response, not_found, output, Cursor, Next, item, done, next_item, take_item, loaded,
  Collected, items, all_items, continue, new_cursor,
}

-- An item raises the count by one, from a count within the limit; any other outcome keeps it.
abbrev pub Counts : ℕ → ℕ → Next × Cursor × List Response → Type 0
Counts limit cnt (item x, c, rs) = (c.cnt ≡ suc cnt) × (cnt ≤ limit) × (c.limit ≡ limit)
Counts limit cnt (_, c, rs) = c.cnt ≡ cnt

-- With a limit, a call that hands out an item raises the count by one, keeps the limit, and found
-- the count within the limit; any other call leaves the count as it was.
next_item-Counts :
    (rs : List Response) (ic : Cursor) → 0 < ic.limit → Counts ic.limit ic.cnt (next_item rs ic)
unfolding next_item
next_item-Counts [] ic h = ground arith
next_item-Counts (not_found ∷ rs) ic h =
    ground (arith, next_item-Counts rs (record ic { last_shards = ic.last_shards + 1 }) h)
next_item-Counts (Response.failed e ∷ rs) ic h = ground arith
next_item-Counts (output xs true n ∷ rs) ic h =
    ground
      (arith, next_item-Counts rs (record (loaded ic xs) { last_shards = ic.last_shards + 1 }) h)
next_item-Counts (output xs false none ∷ rs) ic h =
    ground (arith, next_item-Counts rs (loaded ic xs) h)
next_item-Counts (output xs false (some e) ∷ rs) ic h = ground arith

-- Responses without failures that close `shards` shards, the last response among them.
abbrev pub Closes : ℕ → List Response → Type 0
Closes shards [] = shards ≡ 0
Closes shards (not_found ∷ rs) = (0 < shards) × Closes (pred shards) rs
Closes shards (Response.failed e ∷ rs) = ⊥
Closes shards (output xs true n ∷ rs) = (0 < shards) × Closes (pred shards) rs
Closes shards (output xs false none ∷ rs) = (0 < shards) × Closes shards rs
Closes shards (output xs false (some e) ∷ rs) = ⊥

-- The items of the responses, in the order in which they arrive.
abbrev pub delivered : List Response → List Item
delivered [] = []
delivered (output xs last n ∷ rs) = xs ++ delivered rs
delivered (r ∷ rs) = delivered rs

-- What is still to be handed out: the rest of the last response, and the responses to come.
abbrev pub pending : Cursor → List Response → List Item
pending ic rs = drop ic.item_index ic.items ++ delivered rs

-- No limit is set, and the responses to come close the shards that are open.
abbrev pub IsOpen : Cursor → List Response → Type 0
IsOpen ic rs =
    (ic.limit ≡ 0) × (ic.last_shards ≤ ic.workers) × Closes (ic.workers - ic.last_shards) rs

abbrev pub Gives : List Item → Next × Cursor × List Response → Type 0
Gives [] (done, ic, rs) = Unit
Gives (x ∷ xs) (item y, ic, rs) = (y ≡ x) × IsOpen ic rs × (pending ic rs ≡ xs)
Gives _ _ = ⊥

drop-cons :
    {A : Type 0} (xs : List A) (i : ℕ) {x : A}
    → get_elem? xs i ≡ some x
    → drop i xs ≡ x ∷ drop (i + 1) xs
drop-cons [] i e = cc
drop-cons (y ∷ xs) zero e = ground arith
drop-cons (y ∷ xs) (suc i) e = ground (arith, drop-cons xs i e)

drop-none : {A : Type 0} (xs : List A) (i : ℕ) → get_elem? xs i ≡ none → drop i xs ≡ []
drop-none [] zero e = refl
drop-none [] (suc i) e = refl
drop-none (y ∷ xs) zero e = cc
drop-none (y ∷ xs) (suc i) e = drop-none xs i e

taken-Gives :
    (rs : List Response) (ic : Cursor) (x : Item)
    → get_elem? ic.items ic.item_index ≡ some x
    → IsOpen ic rs
    → Gives (pending ic rs) (let (n, c) = take_item ic x in (n, c, rs))
taken-Gives rs ic x e opened =
    let free : (ltb 0 ic.limit && ltb ic.limit ic.cnt) ≡ false = ground (arith, opened.0) in
    rw (drop-cons ic.items ic.item_index e) (rw free (refl, opened, refl))

-- A cursor with items left does not look at the responses.
next_item_left :
    (rs : List Response) (ic : Cursor) (x : Item)
    → get_elem? ic.items ic.item_index ≡ some x
    → next_item rs ic ≡ (let (n, c) = take_item ic x in (n, c, rs))
unfolding next_item
next_item_left [] ic x e = rw (e, next_item) refl
next_item_left (r ∷ rs) ic x e = rw (e, next_item) refl

-- NextItem after it has taken a response.
abbrev after_response : Response → List Response → Cursor → Next × Cursor × List Response
after_response not_found rs ic = next_item rs (record ic { last_shards = ic.last_shards + 1 })
after_response (Response.failed e) rs ic = (Next.failed (wrap "Failed to get next items" e), ic, rs)
after_response (output xs true n) rs ic =
    next_item rs (record (loaded ic xs) { last_shards = ic.last_shards + 1 })
after_response (output xs false none) rs ic = next_item rs (loaded ic xs)
after_response (output xs false (some e)) rs ic =
    (Next.failed (wrap "Failed to request next items" e), loaded ic xs, rs)

-- With no items left, and a shard open, the next response is taken.
next_item_take :
    (r : Response) (rs : List Response) (ic : Cursor)
    → get_elem? ic.items ic.item_index ≡ none
    → ic.last_shards < ic.workers
    → next_item (r ∷ rs) ic ≡ after_response r rs ic
unfolding next_item
next_item_take r rs ic e h = ground arith

next_item_end :
    (ic : Cursor)
    → get_elem? ic.items ic.item_index ≡ none
    → IsOpen ic []
    → Gives [] (next_item [] ic)
unfolding next_item
next_item_end ic e opened = ground arith

continue_lem :
    (xs : List Item) (fuel : ℕ) (r : Next × Cursor × List Response)
    (more : Cursor → List Response → Collected)
    → Gives xs r
    → ((ys : List Item) (ic : Cursor) (rs : List Response)
        → IsOpen ic rs
        → pending ic rs ≡ ys
        → length ys < fuel
        → more ic rs ≡ items ys)
    → length xs < suc fuel
    → continue more r ≡ items xs
continue_lem [] fuel (done, ic, rs) more g k h = refl
continue_lem [] fuel (item x, ic, rs) more g k h = absurd g
continue_lem [] fuel (Next.failed e, ic, rs) more g k h = absurd g
continue_lem [] fuel (Next.blocked, ic, rs) more g k h = absurd g
continue_lem (x ∷ xs) fuel (item y, ic, rs) more (same, opened, e) k h =
    rw (k xs ic rs opened e (omega arith), same) refl
continue_lem (x ∷ xs) fuel (done, ic, rs) more g k h = absurd g
continue_lem (x ∷ xs) fuel (Next.failed e, ic, rs) more g k h = absurd g
continue_lem (x ∷ xs) fuel (Next.blocked, ic, rs) more g k h = absurd g

-- One more shard is closed.
close_one :
    (rs : List Response) (w l : ℕ)
    → (0 < w - l) × Closes (pred (w - l)) rs
    → (l + 1 ≤ w) × Closes (w - (l + 1)) rs
close_one rs w l (some_open, rest) =
    let e : pred (w - l) ≡ w - (l + 1) = omega arith in
    (omega arith, subst (λ k. Closes k rs) e rest)

pub next_item-Gives :
    (rs : List Response) (ic : Cursor) → IsOpen ic rs → Gives (pending ic rs) (next_item rs ic)
next_item-Gives [] ic opened = elim (Option-cases (get_elem? ic.items ic.item_index)) [
  | inr (x, e) ↦ rw (next_item_left [] ic x e) (taken-Gives [] ic x e opened)
  | inl e ↦ rw (drop-none ic.items ic.item_index e) (next_item_end ic e opened)
]
next_item-Gives (not_found ∷ rs) ic opened =
    elim (Option-cases (get_elem? ic.items ic.item_index)) [
      | inr (x, e) ↦
          rw (next_item_left (not_found ∷ rs) ic x e) (taken-Gives (not_found ∷ rs) ic x e opened)
      | inl e ↦
          let closed = close_one rs ic.workers ic.last_shards opened.2 in
          rw (next_item_take not_found rs ic e (omega arith)) (
            next_item-Gives rs (record ic { last_shards = ic.last_shards + 1 })
              (opened.0, closed.0, closed.1))
    ]
next_item-Gives (Response.failed f ∷ rs) ic opened = absurd opened.2
next_item-Gives (output xs true n ∷ rs) ic opened =
    elim (Option-cases (get_elem? ic.items ic.item_index)) [
      | inr (x, e) ↦
          rw (next_item_left (output xs true n ∷ rs) ic x e)
            (taken-Gives (output xs true n ∷ rs) ic x e opened)
      | inl e ↦
          let closed = close_one rs ic.workers ic.last_shards opened.2 in
          rw
            (
              next_item_take (output xs true n) rs ic e (omega arith),
              drop-none ic.items ic.item_index e,
            )
            (next_item-Gives rs (record (loaded ic xs) { last_shards = ic.last_shards + 1 })
              (opened.0, closed.0, closed.1))
    ]
next_item-Gives (output xs false none ∷ rs) ic opened =
    elim (Option-cases (get_elem? ic.items ic.item_index)) [
      | inr (x, e) ↦
          rw (next_item_left (output xs false none ∷ rs) ic x e)
            (taken-Gives (output xs false none ∷ rs) ic x e opened)
      | inl e ↦
          rw
            (
              next_item_take (output xs false none) rs ic e (omega arith),
              drop-none ic.items ic.item_index e,
            )
            (next_item-Gives rs (loaded ic xs) (opened.0, opened.1, opened.2.1))
    ]
next_item-Gives (output xs false (some f) ∷ rs) ic opened = absurd opened.2

all_items_gather :
    (xs : List Item) (fuel : ℕ) (rs : List Response) (ic : Cursor)
    → IsOpen ic rs
    → pending ic rs ≡ xs
    → length xs < fuel
    → all_items fuel rs ic ≡ items xs
unfolding all_items
all_items_gather xs zero rs ic opened e h = absurd (omega arith)
all_items_gather xs (suc fuel) rs ic opened e h =
    continue_lem xs fuel (next_item rs ic) (λ ic' rs'. all_items fuel rs' ic')
      (subst (λ l. Gives l (next_item rs ic)) e (next_item-Gives rs ic opened))
      (λ ys ic' rs' o e' h'. all_items_gather ys fuel rs' ic' o e' h') h

-- All returns every item of every response, in the order of their arrival, once the responses
-- close all the shards with no failure and no limit is set; a loop bound of one more than the
-- number of items is enough.
pub all_items-delivered :
    (rs : List Response) (workers : ℕ)
    → 0 < workers
    → Closes workers rs
    → all_items (suc (length (delivered rs))) rs (new_cursor workers false 0 0)
      ≡ items (delivered rs)
unfolding new_cursor
all_items-delivered rs workers h c =
    let some_worker : (workers == 0) ≡ false = ground arith in
    let same : workers ≡ workers - 0 = omega arith in
    let all_open = subst (λ k. Closes k rs) same c in
    all_items_gather (delivered rs) (suc (length (delivered rs))) rs (new_cursor workers false 0 0)
      (rw some_worker (refl, omega arith, all_open)) refl (omega arith)
