-- ===== src/Container.antt =====
-- v3ioutils/container.go: opening a container, arrays in blobs, and DeleteTable. The v3io client is known by
-- what its calls answer; respWaitLoop is in Wait.
pub mod Deleting
pub mod Blobs
use frames.Base.{
  ℤ, pos, ℕ, zero, suc, Bool, true, false, List, [], ◌∷◌, ◌++◌, String, Option, none, some, Dict,
  lookup, take, drop, length, leb, eqb_ℤ, Error, Result, ok, err, panic, ◌>>=◌, wrapf, wrap, join,
  if◌then◌else◌,
}
use frames.Value.{Value}
use frames.Cursor.{Item, Response, Cursor, Next, next_item, new_cursor, done, item}
use frames.Marshal.{from_little_endian}
use frames.Wait.{Event, new_loop, delete_run}

-- v3io.NewContext, NewSession and NewContainer, of which each makes the next.
pub record Client (C S K : Type 0) : Type 0 where
  pub new_context : (addr : String) (workers : ℤ) → Result C
  pub new_session : C → (username password : String) → Result S
  pub new_container : S → String → Result K

-- CreateContainer
unfoldable pub create_container :
    {C S K : Type 0}
    → Client C S K
    → (addr cont username password : String) (workers : ℤ) → Result K
create_container client addr cont username password workers = do
  context ←
      wrapf "failed to create client"
        (client.new_context addr (if eqb_ℤ workers (pos 0) then pos 8 else workers))
  session ← wrapf "failed to create session" (client.new_session context username password)
  wrapf "failed to create container" (client.new_container session cont)

-- The loop of AsInt64Array, on fuel of which each round needs one: a rest shorter than eight bytes ends it.
unfoldable pub read_words : ℕ → List ℕ → List ℕ
read_words zero bytes = []
read_words (suc fuel) bytes =
    let rest = read_words fuel (drop 8 bytes) in
    if leb 8 (length bytes) then from_little_endian (take 8 bytes) ∷ rest else []

-- AsInt64Array: the first sixteen bytes are not read.
unfoldable pub as_int64_array : List ℕ → List ℕ
unfolding read_words
as_int64_array bytes = read_words (length bytes) (drop 16 bytes)

-- The calls that DeleteTable makes; an asynchronous delete may depend on those sent before.
pub record Calls : Type 0 where
  pub delete_object : List String → String → Result (Unit {0})
  pub sync_delete : String → Result (Unit {0})
  pub is_not_exists : Error → Bool
  pub query_escape : String → String

-- How the loop over the items ends: at the end of the cursor, with its error if there is one; at a
-- delete that cannot be sent; with a panic; or waiting for a response that never comes. Each with the
-- paths that were sent.
pub data Sent : Type 0 where
  ended : List String → Option Error → Sent
  broken : List String → Error → Sent
  panicked blocked : Sent

-- `iter.GetField("__name").(string)`
abbrev name_by : Option Value → Result String
name_by (some (Value.string s)) = ok s
name_by _ = panic

abbrev pub item_name : Item → Result String
item_name x = name_by (lookup "__name" x)

-- `path + "/" + url.QueryEscape(name)`
abbrev pub object_path : Calls → String → String → String
object_path calls path name = join path (join "/" (calls.query_escape name))

abbrev pub sent_one : List String → String → Result (Unit {0}) → (List String → Sent) → Sent
sent_one sent p (ok _) more = more (sent ++ (p ∷ []))
sent_one sent p (err e) more = broken sent (wrap "failed to delete object " e)
sent_one sent p panic more = panicked

abbrev pub delete_named : Calls → String → List String → Result String → (List String → Sent) → Sent
delete_named calls path sent (ok name) more =
    let p = object_path calls path name in sent_one sent p (calls.delete_object sent p) more
delete_named calls path sent (err e) more = panicked
delete_named calls path sent panic more = panicked

abbrev pub round :
    Calls
    → String
    → List String
    → (Cursor → List Response → List String → Sent)
    → Next × Cursor × List Response
    → Sent
round calls path sent more (item x, ic, rs) =
    delete_named calls path sent (item_name x) (λ sent'. more ic rs sent')
round calls path sent more (done, ic, rs) = ended sent none
round calls path sent more (Next.failed e, ic, rs) = ended sent (some e)
round calls path sent more (Next.blocked, ic, rs) = blocked

-- The loop over the items, on fuel; `blocked` also stands for fuel that is used up.
unfoldable pub delete_items : ℕ → Calls → String → List String → List Response → Cursor → Sent
delete_items zero calls path sent rs ic = blocked
delete_items (suc fuel) calls path sent rs ic =
    round calls path sent (λ ic' rs' sent'. delete_items fuel calls path sent' rs' ic')
      (next_item rs ic)

-- How DeleteTable ends: it returns, or waits for ever.
pub data Outcome : Type 0 where
  returns : Result (Unit {0}) → Outcome
  waits : Outcome

abbrev pub table_deleted : Calls → Result (Unit {0}) → Result (Unit {0})
table_deleted calls (ok _) = ok tt
table_deleted calls (err e) =
    if calls.is_not_exists e then ok tt else err (wrap "Failed to delete table object" e)
table_deleted calls panic = panic

-- The rest of DeleteTable, by whether its wait loop has signalled.
abbrev pub finish : Calls → String → Bool → Sent → Outcome
finish calls path finished (ended sent (some e)) = returns (err (wrap "failed to delete object " e))
finish calls path true (ended sent none) = returns (table_deleted calls (calls.sync_delete path))
finish calls path false (ended sent none) = waits
finish calls path finished (broken sent e) = returns (err e)
finish calls path finished panicked = returns panic
finish calls path finished blocked = waits

-- DeleteTable, by the responses of the cursor, which `opened` makes, and by what its wait loop receives.
unfoldable pub delete_table :
    Calls → Result (Unit {0}) → ℕ → String → ℕ → List Response → List Event → Outcome
unfolding delete_items
delete_table calls opened fuel path workers rs events = elim opened [
  | ok _ ↦
      finish calls path (delete_run new_loop events).finished
        (delete_items fuel calls path [] rs (new_cursor workers false 0 0))
  | err e ↦ returns (err e)
  | panic ↦ returns panic
]
