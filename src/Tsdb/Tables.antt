-- ===== src/Tsdb/Tables.antt =====
-- backends/tsdb/backend.go: creating and deleting tables. The schema and the tables themselves are
-- the time series library's.
use frames.Base.{
  ◌≡◌, Bool, true, false, String, Option, none, some, Dict, lookup, Error, Result, ok, err, panic,
  ◌>>=◌, ◌>>◌, wrapf, str_eq, ◌&&◌, if◌then◌else◌,
}
use frames.Value.{Value}

-- pb.CreateRequest and pb.DeleteRequest, as far as they are read here; `ignore` is
-- ErrorOptions_IGNORE in IfExists or IfMissing.
pub record CreateRequest : Type 0 where
  pub table : String
  pub attributes : Dict Value
  pub ignore : Bool

pub record DeleteRequest : Type 0 where
  pub table : String
  pub start : String
  pub end : String
  pub ignore : Bool

-- The library: the default granularity, the schema of a table (rate, granularity, aggregates) and
-- its creation, durations, the adapter's DeleteDB, and the errors that say that a table is there or
-- that it is not.
pub record Env (S : Type 0) : Type 0 where
  pub default_granularity : String
  pub new_schema : (table rate granularity rollups : String) → Result S
  pub create_tsdb : (table : String) → S → Result (Unit {0})
  pub str2duration : String → Result String
  pub get_adapter : String → Result (Unit {0})
  pub delete_db : (all : Bool) (start end : String) → Result (Unit {0})
  pub already_exists : Error → Bool
  pub is_not_exists : Error → Bool

abbrev text_of : String → Value → Result String
text_of name (Value.string s) = ok s
text_of name _ = err (Error.bad_attribute name)

-- An attribute that has to be a text if it is there.
abbrev pub text_attr : String → Option Value → Result String → Result String
text_attr name (some v) default = text_of name v
text_attr name none default = default

-- ignoreCreateExists; with no error to look at, `err.Error()` is a call on a nil error.
abbrev pub ignore_create_exists : {S : Type 0} → Env S → Bool → Result (Unit {0}) → Result Bool
ignore_create_exists env false r = ok false
ignore_create_exists env true (ok _) = panic
ignore_create_exists env true (err e) = ok (env.already_exists e)
ignore_create_exists env true panic = panic

abbrev created : {S : Type 0} → Env S → Bool → Result (Unit {0}) → Result (Unit {0})
created env ignore r = do done ← ignore_create_exists env ignore r; if done then ok tt else r

-- Create
unfoldable pub create : {S : Type 0} → Env S → CreateRequest → Result (Unit {0})
create env req = do
  rate ← text_attr "rate" (lookup "rate" req.attributes) (err (Error.missing_attribute "rate"))
  granularity ←
      text_attr "aggregation-granularity" (lookup "aggregation-granularity" req.attributes)
        (ok env.default_granularity)
  rollups ← text_attr "aggregates" (lookup "aggregates" req.attributes) (ok "")
  schema ←
      wrapf "Failed to create a TSDB schema." (env.new_schema req.table rate granularity rollups)
  created env req.ignore (env.create_tsdb req.table schema)

abbrev deleted : {S : Type 0} → Env S → Bool → Result (Unit {0}) → Result (Unit {0})
deleted env ignore (ok u) = ok u
deleted env ignore (err e) = if env.is_not_exists e && ignore then ok tt else err e
deleted env ignore panic = panic

-- Delete
unfoldable pub delete : {S : Type 0} → Env S → DeleteRequest → Result (Unit {0})
delete env req = do
  start ← env.str2duration req.start
  end ← env.str2duration req.end
  env.get_adapter req.table
  deleted env req.ignore (env.delete_db (str_eq req.start "" && str_eq req.end "") start end)

-- A table that is created with IfExists = IGNORE, and is created without an error, panics: the
-- option works only where the table is there already.
pub create_ignore :
    {S : Type 0} (env : Env S) (req : CreateRequest) (rate : String) (schema : S)
    → req.ignore ≡ true
    → lookup "rate" req.attributes ≡ some (Value.string rate)
    → lookup "aggregation-granularity" req.attributes ≡ none
    → lookup "aggregates" req.attributes ≡ none
    → env.new_schema req.table rate env.default_granularity "" ≡ ok schema
    → env.create_tsdb req.table schema ≡ ok tt
    → create env req ≡ panic
unfolding create
create_ignore env req rate schema i r g a s c = rw (r, g, a) (rw s (rw (c, i)))
