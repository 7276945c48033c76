-- ===== src/Kv/Backend.antt =====
-- backends/kv/backend.go and inferschema.go; and Read of backends/kv/reader.go up to its iterator. The
-- containers are known by what their calls answer.
use frames.Base.{
  ℤ, pos, ℕ, zero, suc, true, false, List, [], ◌∷◌, String, Option, none, some, Dict, lookup, eqb_ℤ,
  length, Error, Result, ok, err, panic, ◌>>=◌, wrapf, with_slash, str_eq, ◌||◌, if◌then◌else◌,
}
use frames.Value.{Value, PbValue}
use frames.Config.{Config, BackendConfig, Session, init_session_defaults, init_backend_defaults}
use frames.Frame.{Frame, names, column}
use frames.Frame.Rows.{new_frame_from_rows}
use frames.Schema.{Schema, new_schema, add_column, update_schema}
use frames.Cursor.{Item, Response, Cursor, Next, next_item, new_cursor, done, item}
use frames.Container.{Client, create_container, Outcome, returns, waits}

-- Backend
pub record Backend : Type 0 where
  pub num_workers : ℤ
  pub config : Config

-- NewBackend
unfoldable pub new_backend : BackendConfig → Config → Backend
new_backend cfg config = record {
  num_workers = (init_backend_defaults cfg config).workers;
  config = config;
}

-- newContainer
unfoldable pub new_container : {C S K : Type 0} → Client C S K → Backend → Option Session → Result K
new_container client b session =
    let s = init_session_defaults session b.config in
    wrapf "failed to create data container"
      (create_container client s.url s.container s.user s.password b.num_workers)

-- Create
unfoldable pub create : Backend → Result (Unit {0})
create b = err Error.unknown_command

-- DeleteRequest
pub record DeleteRequest : Type 0 where
  pub session : Option Session
  pub table : String
  pub filter : String

abbrev deleted :
    {K : Type 0} → (K → String → String → ℤ → Outcome) → DeleteRequest → ℤ → Result K → Outcome
deleted delete_table req workers (ok k) = delete_table k (with_slash req.table) req.filter workers
deleted delete_table req workers (err e) = returns (err e)
deleted delete_table req workers panic = returns panic

-- Delete, by DeleteTable on the container, the path, the filter and the workers.
unfoldable pub delete :
    {C S K : Type 0}
    → Client C S K
    → (K → String → String → ℤ → Outcome)
    → Backend
    → DeleteRequest
    → Outcome
unfolding new_container
delete client delete_table b req =
    deleted delete_table req b.num_workers (new_container client b req.session)

-- ExecRequest
pub record ExecRequest : Type 0 where
  pub session : Option Session
  pub table : String
  pub command : String
  pub args : Dict PbValue
  pub expression : String

-- val.GetSval(): the empty string for a value of another type.
abbrev pub get_sval : PbValue → String
get_sval (PbValue.sval s) = s
get_sval _ = ""

-- `if val, ok := request.Args[name]; ok { … }`
abbrev pub arg_or : String → Option PbValue → String
arg_or default (some v) = get_sval v
arg_or default none = default

-- updateItem, by container.Sync.UpdateItem on the path, the expression and the condition.
unfoldable pub update_item :
    {C S K : Type 0}
    → Client C S K
    → (K → String → String → String → Result (Unit {0}))
    → Backend
    → ExecRequest
    → Result (Unit {0})
unfolding new_container
update_item client update b req = do
  k ← new_container client b req.session
  update k req.table req.expression (arg_or "" (lookup "condition" req.args))

-- What the loop of inferSchema has: the rows and their names; or how it ends before.
pub data Gathered : Type 0 where
  gathered : List Item → List String → Option Error → Gathered
  refused : Error → Gathered
  panicked blocked : Gathered

abbrev pub with_row : Item → String → Gathered → Gathered
with_row x name (gathered rows names e) = gathered (x ∷ rows) (name ∷ names) e
with_row x name r = r

-- `index, ok := row["__name"]`, and `index.(string)`
abbrev pub take_row : Item → Option Value → Gathered → Gathered
take_row x (some (Value.string name)) rest = with_row x name rest
take_row x (some v) rest = panicked
take_row x none rest = refused Error.missing_key

abbrev pub gather_round :
    (Cursor → List Response → Gathered) → Next × Cursor × List Response → Gathered
gather_round more (item x, ic, rs) = take_row x (lookup "__name" x) (more ic rs)
gather_round more (done, ic, rs) = gathered [] [] none
gather_round more (Next.failed e, ic, rs) = gathered [] [] (some e)
gather_round more (Next.blocked, ic, rs) = blocked

-- The loop of inferSchema, for the rows that it still takes.
unfoldable pub gather : ℕ → List Response → Cursor → Gathered
gather zero rs ic = gathered [] [] none
gather (suc more) rs ic = gather_round (λ ic' rs'. gather more rs' ic') (next_item rs ic)

unfoldable pub add_columns : Schema → Frame → List String → Result Schema
add_columns s fr [] = ok s
add_columns s fr (name ∷ ns) = do
  col ← column fr name
  add_columns (add_column s name col true) fr ns

-- The schema of a frame: its columns by their names. The indices that the frame is made with are the
-- values of the key, and not a column's name.
unfoldable pub frame_schema : String → List Item → List String → Result Schema
unfolding add_columns
frame_schema key rows indices = do
  fr ← wrapf "Failed to create frame" (new_frame_from_rows rows indices (some []))
  ns ← (names fr).0
  add_columns (new_schema key) fr ns

abbrev pub inferred : (Schema → Result (Unit {0})) → String → Gathered → Outcome
inferred put key (gathered rows indices (some e)) = returns (err e)
inferred put key (gathered rows indices none) =
    returns (do s ← frame_schema key rows indices; _ ← update_schema put (new_schema key) s; ok tt)
inferred put key (refused e) = returns (err e)
inferred put key panicked = returns panic
inferred put key blocked = waits

abbrev after : Outcome → Result (Unit {0}) → Outcome
after more (ok _) = more
after more (err e) = returns (err e)
after more panic = returns panic

abbrev infer_opened :
    {K : Type 0}
    → (K → String → Result (Unit {0}))
    → (K → String → Schema → Result (Unit {0}))
    → List Response
    → ℕ
    → ExecRequest
    → Result K
    → Outcome
infer_opened opened put rs workers req (ok k) =
    let table = with_slash req.table in
    after
      (inferred (put k table) (arg_or "__name" (lookup "key" req.args))
        (gather 50 rs (new_cursor workers false 0 0)))
      (opened k table)
infer_opened opened put rs workers req (err e) = returns (err e)
infer_opened opened put rs workers req panic = returns panic

-- inferSchema, by whether its cursor opens, and with the responses that this will receive. `workers` is the
-- number of the backend, which is not negative, as a natural number; so it is in read.
unfoldable pub infer_schema :
    {C S K : Type 0}
    → Client C S K
    → (K → String → Result (Unit {0}))
    → (K → String → Schema → Result (Unit {0}))
    → List Response
    → ℕ
    → Backend
    → ExecRequest
    → Outcome
unfolding gather frame_schema new_container
infer_schema client opened put rs workers b req =
    infer_opened opened put rs workers req (new_container client b req.session)

-- Exec, by its command with its spaces trimmed and in lower case.
unfoldable pub exec :
    (normalize : String → String)
    → (infer : Outcome) (update : Result (Unit {0})) → ExecRequest
    → Outcome
exec normalize infer update req =
    let cmd = normalize req.command in
    if str_eq cmd "infer" || str_eq cmd "inferschema"
    then infer
    else (if str_eq cmd "update" then returns update else returns (err Error.unknown_command))

-- ReadRequest, and what the iterator of Read is made of.
pub record ReadRequest : Type 0 where
  pub session : Option Session
  pub table : String
  pub columns : List String
  pub filter : String
  pub message_limit : ℤ
  pub sharding_keys : List String

pub record ReadInput : Type 0 where
  pub path : String
  pub filter : String
  pub attribute_names : List String
  pub message_limit : ℤ

abbrev pub all_columns : List String → List String
all_columns [] = "*" ∷ []
all_columns (c ∷ cs) = if str_eq c "" then "*" ∷ [] else c ∷ cs

abbrev pub read_input : ReadRequest → ReadInput
read_input req = record {
  path = with_slash req.table;
  filter = req.filter;
  attribute_names = all_columns req.columns;
  message_limit = if eqb_ℤ req.message_limit (pos 0) then pos 256 else req.message_limit;
}

-- Read: the container, its GetItems input, and the cursor, if it opens, before its first response.
unfoldable pub read :
    {C S K : Type 0}
    → Client C S K
    → (K → ReadInput → Result (Unit {0}))
    → ℕ
    → Backend
    → ReadRequest
    → Result (K × ReadInput × Cursor)
unfolding new_container
read client opened workers b req = do
  k ← new_container client b req.session
  _ ← opened k (read_input req)
  ok (k, read_input req, new_cursor workers false (length req.sharding_keys) 0)
