-- ===== src/Csv/Files.antt =====
-- backends/csv/backend.go: tables as files, and the appender that writes records to one. A file is
-- the list of its records: the text form is that of encoding/csv, and a buffer that is not flushed
-- counts as written.
use frames.Base.{
  ℤ, pos, pos_part, ℕ, zero, suc, ◌+◌, Bool, true, false, List, [], ◌∷◌, ◌++◌, String, Option, none,
  some, Dict, map, lookup, insert, contains, Error, Result, ok, err, panic, ◌>>=◌, ◌>>◌, guard,
  wrapf, wrap, not, str_eq, if◌then◌else◌,
}
use frames.Value.{Value}
use frames.Column.Read.{Format}
use frames.Column.Utils.{col_at}
use frames.Frame.{Frame, names, column, frame_len}
use frames.Csv.{Row, Iterator}

-- Sprintf("%v"), and whether csv.Writer takes a record after those that it has taken.
pub record Env : Type 0 where
  pub fmt : Format
  pub show_v : Value → String
  pub accept : List Row → Row → Result (Unit {0})

-- csvAppender
pub record Appender : Type 0 where
  pub written : List Row
  pub header_written : Bool

abbrev pub new_appender : Appender
new_appender = record { written = []; header_written = false }

-- The record of a row.
unfoldable pub record_of : Env → Frame → ℕ → List String → Result Row
record_of env fr r [] = ok []
record_of env fr r (name ∷ ns) = do
  c ← wrapf "can't get column" (column fr name)
  v ← wrapf "can't get value" (col_at env.fmt c (pos r))
  rest ← record_of env fr r ns
  ok (env.show_v v ∷ rest)

abbrev pub put :
    String
    → Appender
    → Row
    → Result (Unit {0})
    → (Appender → Result (Unit {0}) × Appender)
    → Result (Unit {0}) × Appender
put msg a row (ok _) more = more (record a { written = a.written ++ (row ∷ []) })
put msg a row (err e) more = (err (wrap msg e), a)
put msg a row panic more = (panic, a)

abbrev pub put_record :
    Env
    → Appender
    → Result Row
    → (Appender → Result (Unit {0}) × Appender)
    → Result (Unit {0}) × Appender
put_record env a (ok row) more = put "can't write record" a row (env.accept a.written row) more
put_record env a (err e) more = (err e, a)
put_record env a panic more = (panic, a)

-- The loop over the rows from row r on.
unfoldable pub add_rows :
    Env → Frame → List String → (rounds r : ℕ) → Appender → Result (Unit {0}) × Appender
add_rows env fr ns zero r a = (ok tt, a)
add_rows env fr ns (suc n) r a =
    put_record env a (record_of env fr r ns) (λ b. add_rows env fr ns n (suc r) b)

abbrev pub with_header :
    Env
    → List String
    → Appender
    → Bool
    → (Appender → Result (Unit {0}) × Appender)
    → Result (Unit {0}) × Appender
with_header env ns a true more = more a
with_header env ns a false more =
    put "can't write header" a ns (env.accept a.written ns)
      (λ b. more (record b { header_written = true }))

abbrev add_named : Env → Frame → Appender → Result (List String) → Result (Unit {0}) × Appender
add_named env fr a (ok ns) =
    with_header env ns a a.header_written (λ b. add_rows env fr ns (pos_part (frame_len fr)) 0 b)
add_named env fr a (err e) = (err e, a)
add_named env fr a panic = (panic, a)

-- Add
unfoldable pub add : Env → Frame → Appender → Result (Unit {0}) × Appender
unfolding add_rows
add env fr a = add_named env fr a (names fr).0

-- The files of the root directory, by the names of their tables.
abbrev pub Files : Type 0
Files = Dict (List Row)

unfoldable pub remove : String → Files → Files
remove k [] = []
remove k ((j, rows) ∷ d) = if str_eq j k then remove k d else (j, rows) ∷ remove k d

-- The names of the fields, each of which has to be set.
unfoldable pub field_names : ℕ → List String → Result Row
field_names i [] = ok []
field_names i (f ∷ fs) = do
  guard (not (str_eq f "")) (Error.no_field_name i)
  rest ← field_names (i + 1) fs
  ok (f ∷ rest)

abbrev header_of : String → Files → Result Row → Result (Unit {0}) × Files
header_of table fs (ok row) = (ok tt, insert table (row ∷ []) fs)
header_of table fs (err e) = (err e, fs)
header_of table fs panic = (panic, fs)

abbrev pub created : String → List String → Files → Result (Unit {0}) × Files
created table [] fs = (ok tt, fs)
created table (f ∷ fields) fs = header_of table fs (field_names 0 (f ∷ fields))

-- Create, by the names of the fields of the schema (none for no schema): the file is there before
-- the fields are looked at. Errors of the file system are not modelled.
unfoldable pub create : String → List String → Files → Result (Unit {0}) × Files
unfolding field_names
create table fields fs =
    if contains table fs
    then (err Error.table_exists, fs)
    else created table fields (insert table [] fs)

-- Delete; `fail` is FailOnError in IfMissing. os.Remove fails where there is no file.
unfoldable pub delete : String → Bool → Files → Result (Unit {0}) × Files
delete table fail fs =
    if contains table fs
    then (ok tt, remove table fs)
    else (err (if fail then Error.no_table else wrap "can't delete" Error.no_table), fs)

abbrev open_rows : ℤ → ℤ → List Row → Result Iterator
open_rows limit frame_limit [] = err (wrap "can't read header (columns)" Error.eof)
open_rows limit frame_limit (header ∷ rows) = ok (record {
  reader = map (λ r. ok r) rows;
  frame = none;
  error = none;
  column_names = header;
  n_rows = 0;
  limit = limit;
  frame_limit = frame_limit;
})

abbrev opened : ℤ → ℤ → Option (List Row) → Result Iterator
opened limit frame_limit (some rows) = open_rows limit frame_limit rows
opened limit frame_limit none = err Error.no_table

-- Read
unfoldable pub read : String → ℤ → ℤ → Files → Result Iterator
read table limit frame_limit fs = opened limit frame_limit (lookup table fs)

abbrev stored : String → Files → Result (Unit {0}) × Appender → Result (Unit {0}) × Files
stored table fs (ok _, a) = (ok tt, insert table a.written fs)
stored table fs (err e, a) = (err (wrap "can't Add ImmidiateData" e), insert table a.written fs)
stored table fs (panic, a) = (panic, insert table a.written fs)

abbrev write_first : Env → String → Option Frame → Files → Result (Unit {0}) × Files
write_first env table (some fr) fs = stored table fs (add env fr new_appender)
write_first env table none fs = (ok tt, fs)

-- Write, and the frame that comes with the request: the file is emptied first.
unfoldable pub write : Env → String → Option Frame → Files → Result (Unit {0}) × Files
write env table immediate fs = write_first env table immediate (insert table [] fs)
