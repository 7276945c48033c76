-- ===== src/Kv/Writer.antt =====
-- backends/kv/writer.go: the appender of the key/value backend. The container is known by its
-- answers; what it has accepted is kept in the appender.
use Prim.Native.Char.{Char, code}
use frames.Base.{
  ℤ, pos, pos_part, ℕ, zero, suc, Bool, true, false, List, [], ◌∷◌, String, Option, none, some,
  Dict, insert, Error, Result, ok, err, panic, ◌>>=◌, ◌>>◌, guard, or_panic, str_eq, join,
  with_slash, ◌==◌, if◌then◌else◌,
}
use frames.Value.{Value}
use frames.Column.{ColImpl, DType}
use frames.Column.Read.{Format, int_at, float_at, string_at, time_at, bool_at, show_bool}
use frames.Column.Edit.{as_float64, as_string}
use frames.Column.Utils.{col_at}
use frames.Frame.{Frame, names, labels, column, frame_len}
use frames.Schema.{Schema, Put, new_schema, add_column, add_field, update_schema}

-- v3io.PutItemInput and v3io.UpdateItemInput
pub data Request : Type 0 where
  put_item : (path : String) (attributes : Dict Value) → Request
  update_item : (path expression : String) → Request

-- What the code asks of the container, of fmt and of strings: the answer to a request after those
-- that were accepted (the latest first), the writing of the schema object, the verbs of Sprintf,
-- strings.NewReplacer(args...).Replace, and the Unix time of the zero time.Time.
pub record Env : Type 0 where
  pub send : List Request → Request → Result (Unit {0})
  pub put_schema : String → Put
  pub fmt : Format
  pub show_d : Value → String
  pub show_v : Value → String
  pub show_f : ℕ → String
  pub replace : List (String × String) → String → String
  pub zero_time : ℤ

-- Appender: the fields that Add reads or changes, and the requests that the container has accepted.
pub record Appender : Type 0 where
  pub expression : String
  pub table_path : String
  pub schema : Schema
  pub sent : ℕ
  pub requests : List Request

-- `name[i] == ' ' || name[i] == ':'`, byte by byte: neither byte is part of a longer character.
abbrev pub valid_char : Char → Char
valid_char c = if code c == b' ' then "_" else (if code c == b':' then "_" else c)

-- validColName
unfoldable pub valid_col_name : String → String
valid_col_name String.[] = ""
valid_col_name (String.◌∷◌ c s) = String.◌∷◌ (valid_char c) (valid_col_name s)

-- `v, _ := f(i)`: on an error the zero value.
abbrev or_zero {ℓ} : {A : Type ℓ} → A → Result A → Result A
or_zero z (ok a) = ok a
or_zero z (err e) = ok z
or_zero z panic = panic

-- The functions that indexValFunc returns, by the dtype of the index column.
abbrev pub index_key : Env → ColImpl → DType → ℤ → Result String
index_key env c DType.integer i = do v ← or_zero (pos 0) (int_at c i); ok (env.fmt.format_int v)
index_key env c DType.float i = do v ← or_zero 0 (float_at c i); ok (env.fmt.format_float v)
index_key env c DType.string i = or_zero "" (string_at env.fmt c i)
index_key env c DType.time i = do
  v ← or_zero env.zero_time (time_at c i)
  ok (env.fmt.format_time v)
index_key env c DType.boolean i = do v ← or_zero false (bool_at c i); ok (show_bool v)
index_key env c (DType.other n) i = err Error.unknown_dtype

abbrev pub is_known : DType → Bool
is_known (DType.other n) = false
is_known _ = true

abbrev first_column : Frame → Result (List String) → Result ColImpl
first_column fr (ok []) = err Error.no_columns
first_column fr (ok (name ∷ rest)) = column fr name
first_column fr (err e) = err e
first_column fr panic = panic

-- The index of the frame, or its first column.
abbrev pub index_col : Frame → List ColImpl → Result ColImpl
index_col fr [] = first_column fr (names fr).0
index_col fr (c ∷ []) = ok c
index_col fr (c ∷ d ∷ cs) = err Error.multi_index

-- indexValFunc
unfoldable pub index_val_func : Env → Frame → Result (ℕ → Result String)
index_val_func env fr = do
  c ← index_col fr fr.indices
  guard (is_known c.msg.dtype) Error.unknown_dtype
  ok (λ i. index_key env c c.msg.dtype (pos i))

-- `x, err := …; if err != nil { return err }`, with the appender as it is then.
abbrev pub on_ok {ℓ} :
    {A : Type ℓ}
    → Appender
    → Result A
    → (A → Result (Unit {0}) × Appender)
    → Result (Unit {0}) × Appender
on_ok a (ok x) more = more x
on_ok a (err e) more = (err e, a)
on_ok a panic more = (panic, a)

-- One request to the container, and `a.sent++`.
abbrev pub send_one : Env → Appender → Result Request → Result (Unit {0}) × Appender
send_one env a item = on_ok a item λ q.
    on_ok a (env.send a.requests q)
      λ _. (ok tt, record a { sent = suc a.sent; requests = q ∷ a.requests })

abbrev pub then_go :
    (Appender → Result (Unit {0}) × Appender)
    → Result (Unit {0}) × Appender
    → Result (Unit {0}) × Appender
then_go more (ok _, a) = more a
then_go more (err e, a) = (err e, a)
then_go more (panic, a) = (panic, a)

-- The loop over the rows from row r on, for the rounds left.
unfoldable pub send_rows :
    Env → (ℕ → Result Request) → (rounds r : ℕ) → Appender → Result (Unit {0}) × Appender
send_rows env item zero r a = (ok tt, a)
send_rows env item (suc n) r a =
    then_go (λ a'. send_rows env item n (suc r) a') (send_one env a (item r))

-- `if val64, ok := val.(int64); ok { val = int(val64) }`
abbrev pub to_int : Value → Value
to_int (Value.int64 v) = Value.int v
to_int v = v

-- The row of the columns, `row[name] = val`.
unfoldable pub row_values : Env → ℕ → Dict ColImpl → Result (Dict Value)
row_values env r [] = ok []
row_values env r ((name, c) ∷ cols) = do
  v ← col_at env.fmt c (pos r)
  rest ← row_values env r cols
  ok ((name, to_int v) ∷ rest)

-- The first loop of Add: the schema of the frame, and its columns by their valid names.
unfoldable pub collect :
    Frame → List String → Schema → Dict ColImpl → Result (Schema × Dict ColImpl)
collect fr [] s cols = ok (s, cols)
collect fr (name ∷ rest) s cols = do
  c ← column fr name
  let key = valid_col_name name
  collect fr rest (add_column s key c true) (insert key c cols)

unfoldable pub add_labels : Dict Value → Schema → Schema
add_labels [] s = s
add_labels ((name, val) ∷ ls) s = add_labels ls (add_field s name val true)

abbrev index_name : List ColImpl → String
index_name [] = ""
index_name (c ∷ cs) = c.msg.name

-- Add, up to the schema that it merges: the columns, and the schema of the frame.
unfoldable pub frame_schema : Frame → List String → Result (Schema × Dict ColImpl)
unfolding collect add_labels
frame_schema fr ns = do
  (s, cols) ← collect fr ns (new_schema (index_name fr.indices)) []
  ok (add_labels (labels fr).0 s, cols)

-- The request for a row that Add sends.
abbrev pub put_row : Env → String → Dict ColImpl → (ℕ → Result String) → ℕ → Result Request
put_row env path cols index_val r = do
  row ← row_values env r cols
  key ← index_val r
  ok (put_item (join path key) row)

-- Add, from the merging of the schema on.
abbrev pub put_all : Env → Frame → Schema × Dict ColImpl → Appender → Result (Unit {0}) × Appender
put_all env fr (s, cols) a = on_ok a (update_schema (env.put_schema a.table_path) a.schema s) λ s'.
    let b = record a { schema = s' } in
    on_ok b (index_val_func env fr) λ index_val.
      send_rows env (put_row env a.table_path cols index_val) (pos_part (frame_len fr)) 0 b

-- The text of a value in an expression; an assertion that fails panics.
abbrev arg_text : Env → DType → Value → Result String
arg_text env DType.integer v = ok (env.show_d v)
arg_text env DType.float v = do x ← or_panic (as_float64 v); ok (env.show_f x)
arg_text env DType.string v = do s ← or_panic (as_string v); ok (join "'" (join s "'"))
arg_text env DType.time v = do s ← or_panic (as_string v); ok (join "'" (join s "'"))
arg_text env _ v = ok (env.show_v v)

unfoldable pub expr_args : Env → Frame → ℕ → List String → Result (List (String × String))
expr_args env fr r [] = ok []
expr_args env fr r (name ∷ rest) = do
  c ← column fr name
  v ← col_at env.fmt c (pos r)
  text ← arg_text env c.msg.dtype v
  args ← expr_args env fr r rest
  ok ((join "{" (join name "}"), text) ∷ args)

-- genExpr
unfoldable pub gen_expr : Env → String → Frame → ℕ → Result String
unfolding expr_args
gen_expr env expr fr r = do
  ns ← (names fr).0
  args ← expr_args env fr r ns
  ok (env.replace args expr)

-- The request for a row that update sends.
abbrev pub update_row : Env → Appender → Frame → (ℕ → Result String) → ℕ → Result Request
update_row env a fr index_val r = do
  expr ← gen_expr env a.expression fr r
  key ← index_val r
  ok (update_item (join a.table_path key) expr)

-- update, behind its test for columns
unfoldable pub update : Env → Frame → Appender → Result (Unit {0}) × Appender
unfolding send_rows
update env fr a =
    on_ok a (index_val_func env fr)
      λ index_val. send_rows env (update_row env a fr index_val) (pos_part (frame_len fr)) 0 a

abbrev pub add_by : Env → Frame → List String → Appender → Bool → Result (Unit {0}) × Appender
add_by env fr ns a true = on_ok a (frame_schema fr ns) λ s. put_all env fr s a
add_by env fr ns a false = update env fr a

abbrev pub add_named : Env → Frame → Appender → List String → Result (Unit {0}) × Appender
add_named env fr a [] = (err Error.empty_frame, a)
add_named env fr a (n ∷ ns) = add_by env fr (n ∷ ns) a (str_eq a.expression "")

-- Add
unfoldable pub add : Env → Frame → Appender → Result (Unit {0}) × Appender
unfolding update send_rows
add env fr a = on_ok a (names fr).0 λ ns. add_named env fr a ns

abbrev pub new_appender : String → String → Appender
new_appender table expression = record {
  expression = expression;
  table_path = with_slash table;
  schema = new_schema "__name";
  sent = 0;
  requests = [];
}

abbrev add_first : Env → Option Frame → Appender → Result (Unit {0}) × Appender
add_first env (some fr) a = add env fr a
add_first env none a = (ok tt, a)

-- Backend.Write, once the container is there: the appender is returned with an error of Add, too.
unfoldable pub write : Env → String → String → Option Frame → Result (Unit {0}) × Appender
write env table expression immediate = add_first env immediate (new_appender table expression)
