-- ===== src/Cursor.antt =====
-- v3ioutils/asynciter.go: the cursor over the items of a table. The responses of the container
-- arrive on one channel: they are given as the list of those that the cursor will receive.
pub mod Collect
use frames.Base.{
  ℕ, zero, suc, ◌+◌, Bool, true, false, List, [], ◌∷◌, String, Option, none, some, length,
  get_elem?, Dict, Error, ltb, ◌==◌, ◌&&◌, if◌then◌else◌,
}
use frames.Value.{Value}

abbrev pub Item : Type 0
Item = Dict Value

-- A response that the cursor takes from its channel. An output that is not its shard's last makes
-- the cursor send the next request: `next` is the error with which that fails, if it does.
pub data Response : Type 0 where
  not_found : Response
  failed : Error → Response
  output : (items : List Item) (last : Bool) (next : Option Error) → Response

-- AsyncItemsCursor
pub record Cursor : Type 0 where
  pub current_item : Option Item
  pub current_error : Option Error
  pub item_index : ℕ
  pub items : List Item
  pub workers : ℕ
  pub last_shards : ℕ
  pub cnt : ℕ
  pub limit : ℕ

-- NewAsyncItemsCursor, once its requests are sent: a worker for each sharding key, or, with none,
-- the workers asked for, at least one, and one alone for a request with a sharding key of its own.
abbrev pub worker_count : ℕ → Bool → ℕ → ℕ
worker_count workers has_sharding_key zero =
    if workers == 0 then 1 else (if has_sharding_key then 1 else workers)
worker_count workers has_sharding_key (suc n) = suc n

unfoldable pub new_cursor : ℕ → Bool → ℕ → ℕ → Cursor
new_cursor workers has_sharding_key sharding_keys limit = record {
  current_item = none;
  current_error = none;
  item_index = 0;
  items = [];
  workers = worker_count workers has_sharding_key sharding_keys;
  last_shards = 0;
  cnt = 0;
  limit = limit;
}

-- How a call of NextItem ends; `blocked` waits for a response that never comes.
pub data Next : Type 0 where
  item : Item → Next
  done : Next
  failed : Error → Next
  blocked : Next

-- The first branch, on the item at the index: an item, or nil past the limit.
abbrev pub take_item : Cursor → Item → Next × Cursor
take_item ic x = if ltb 0 ic.limit && ltb ic.limit ic.cnt then (done, ic) else (
  item x,
  record ic {
    current_item = some x;
    current_error = none;
    item_index = ic.item_index + 1;
    cnt = ic.cnt + 1;
  },
)

-- The second branch: no shard is left.
abbrev pub no_shard_left : Cursor → Next × Cursor
no_shard_left ic = (done, record ic { current_error = none })

abbrev pub loaded : Cursor → List Item → Cursor
loaded ic xs = record ic { items = xs; item_index = 0 }

-- NextItem, with the responses that it leaves in the channel.
unfoldable pub next_item : List Response → Cursor → Next × Cursor × List Response
next_item [] ic = elim (get_elem? ic.items ic.item_index) [
  | some x ↦ let (n, c) = take_item ic x in (n, c, [])
  | none ↦ elim (ic.last_shards == ic.workers) [
    | true ↦ let (n, c) = no_shard_left ic in (n, c, [])
    | false ↦ (Next.blocked, ic, [])
  ]
]
next_item (r ∷ rs) ic = elim (get_elem? ic.items ic.item_index) [
  | some x ↦ let (n, c) = take_item ic x in (n, c, r ∷ rs)
  | none ↦ elim (ic.last_shards == ic.workers) [
    | true ↦ let (n, c) = no_shard_left ic in (n, c, r ∷ rs)
    | false ↦ elim r [
      | not_found ↦ next_item rs (record ic { last_shards = ic.last_shards + 1 })
      | Response.failed e ↦ (Next.failed (Error.wrap "Failed to get next items" e), ic, rs)
      | output xs true next ↦
          next_item rs (record (loaded ic xs) { last_shards = ic.last_shards + 1 })
      | output xs false none ↦ next_item rs (loaded ic xs)
      | output xs false (some e) ↦
          (Next.failed (Error.wrap "Failed to request next items" e), loaded ic xs, rs)
    ]
  ]
]

-- Next
abbrev pub advance : Next × Cursor × List Response → Bool × Cursor × List Response
advance (item x, ic, rs) = (true, ic, rs)
advance (done, ic, rs) = (false, record ic { current_error = none }, rs)
advance (Next.failed e, ic, rs) = (false, record ic { current_error = some e }, rs)
advance (Next.blocked, ic, rs) = (false, ic, rs)

unfoldable pub next : List Response → Cursor → Bool × Cursor × List Response
next rs ic = advance (next_item rs ic)

-- How All ends; `blocked` also stands for a loop that has used up its fuel.
pub data Collected : Type 0 where
  items : List Item → Collected
  failed : Error → Collected
  blocked : Collected

abbrev pub add_item : Item → Collected → Collected
add_item x (items xs) = items (x ∷ xs)
add_item x (Collected.failed e) = Collected.failed e
add_item x Collected.blocked = Collected.blocked

-- One round of the loop of All.
abbrev pub continue :
    (Cursor → List Response → Collected) → Next × Cursor × List Response → Collected
continue more (item x, ic, rs) = add_item x (more ic rs)
continue more (done, ic, rs) = items []
continue more (Next.failed e, ic, rs) = Collected.failed e
continue more (Next.blocked, ic, rs) = Collected.blocked

-- All, on fuel for its loop.
unfoldable pub all_items : ℕ → List Response → Cursor → Collected
all_items zero rs ic = Collected.blocked
all_items (suc fuel) rs ic = continue (λ ic' rs'. all_items fuel rs' ic') (next_item rs ic)
