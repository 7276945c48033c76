-- ===== src/Stream.antt =====
-- backends/stream: the stream backend. The container is known by its answers.
pub mod Laws
use frames.Base.{
  ℤ, pos, negsuc, ◌+ℤ◌, ◌*ℤ◌, ℕ, Bool, true, false, List, [], ◌∷◌, ◌++◌, map, String, Option, none,
  some, Dict, lookup, insert, Error, Result, ok, err, panic, ◌>>=◌, ◌>>◌, guard, wrapf, wrap, join,
  with_slash, str_eq, ltb_ℤ, leb_ℤ, eqb_ℤ, quot, not, ◌&&◌, ◌||◌, if◌then◌else◌,
}
use frames.Value.{Value}
use frames.Column.Read.{Format}
use frames.Frame.{Frame}
use frames.Frame.Rows.{new_frame_from_rows}
use frames.RowIter.{RowIterator, read_rows}

-- Where SeekShard is to look.
pub data Seek : Type 0 where
  time sequence : ℤ → Seek
  latest earliest : Seek

-- v3io.GetRecordsOutput and its records
pub record Record : Type 0 where
  pub sequence : ℤ
  pub arrival_sec : ℤ
  pub arrival_nsec : ℤ
  pub body : String

pub record Output : Type 0 where
  pub records : List Record
  pub next_location : String
  pub behind_latest : ℤ

-- The container, encoding/json, strings.ToLower and Str2unixTime.
pub record Env : Type 0 where
  pub new_container : Result (Unit {0})
  pub create_stream : (path : String) (shards hours : ℤ) → Result (Unit {0})
  pub delete_stream : String → Result (Unit {0})
  pub seek_shard : String → Seek → Result String
  pub get_records : (path location : String) (limit : ℤ) → Result Output
  pub put_records : String → List String → Result (Unit {0})
  pub marshal : Dict Value → Result String
  pub unmarshal : String → Option (Dict Value)
  pub to_lower : String → String
  pub str2unix_time : String → Result ℤ

abbrev positive : String → Value → Result ℤ
positive name (Value.int64 v) = do guard (not (ltb_ℤ v (pos 1))) (Error.bad_attribute name); ok v
positive name _ = err (Error.bad_attribute name)

-- An attribute that has to be a positive int64 if it is there.
abbrev pub int_attr : String → ℤ → Option Value → Result ℤ
int_attr name default none = ok default
int_attr name default (some v) = positive name v

-- An error of the call is logged, and nil returned.
abbrev pub logged : Result (Unit {0}) → Result (Unit {0})
logged (ok u) = ok tt
logged (err e) = ok tt
logged panic = panic

-- Create
unfoldable pub create : Env → String → Dict Value → Result (Unit {0})
create env table attrs = do
  shards ← int_attr "shards" (pos 1) (lookup "shards" attrs)
  retention ← int_attr "retention_hours" (pos 24) (lookup "retention_hours" attrs)
  wrapf "Failed to create V3IO data container" env.new_container
  logged (env.create_stream (with_slash table) shards retention)

-- Delete
unfoldable pub delete : Env → String → Result (Unit {0})
delete env table = do
  wrapf "Failed to create V3IO data container" env.new_container
  logged (env.delete_stream (with_slash table))

-- The fields of a read request that the backend looks at.
pub record ReadRequest : Type 0 where
  pub table : String
  pub seek : String
  pub shard : String
  pub start : String
  pub end : String
  pub sequence : ℤ
  pub message_limit : ℤ

-- streamIterator
pub record Iterator : Type 0 where
  pub path : String
  pub message_limit : ℤ
  pub error : Option Error
  pub frame : Option Frame
  pub next_location : String
  pub end_time : ℤ
  pub is_last : Bool

-- The switch on the seek type.
abbrev pub seek_of : Env → ReadRequest → String → Result Seek
seek_of env req kind =
    if str_eq kind "time"
    then (do t ← env.str2unix_time req.start; ok (time (quot t 1000)))
    else (if str_eq kind "seq" || str_eq kind "sequence"
        then ok (sequence req.sequence)
        else (if str_eq kind "latest" || str_eq kind "late"
            then ok latest
            else (if str_eq kind "earliest" then ok earliest else err Error.bad_query)))

abbrev pub end_of : Env → String → Result ℤ
end_of env end = if str_eq end "" then ok (pos 0) else env.str2unix_time end

-- Read
unfoldable pub read : Env → ReadRequest → Result Iterator
read env req = do
  wrapf "Failed to create V3IO data container" env.new_container
  guard (not (str_eq req.table "" || str_eq req.seek "" || str_eq req.shard ""))
      Error.missing_parameters
  end_time ← end_of env req.end
  seek ← seek_of env req (env.to_lower req.seek)
  let path = join req.table (join "/" req.shard)
  location ← wrapf "Error in Seek operation" (env.seek_shard path seek)
  ok (record {
    path = path;
    message_limit = if eqb_ℤ req.message_limit (pos 0) then pos 1024 else req.message_limit;
    error = none;
    frame = none;
    next_location = location;
    end_time = end_time;
    is_last = false;
  })

-- The row of a record: its JSON fields, or its text, with the time and the number.
abbrev fields_of : String → Option (Dict Value) → Dict Value
fields_of body (some d) = d
fields_of body none = ("raw_data", Value.string body) ∷ []

abbrev pub row_of : Env → Record → Dict Value
row_of env r =
    let arrival = r.arrival_sec *ℤ pos 1000000000 +ℤ r.arrival_nsec in
    insert "seq_number" (Value.int r.sequence)
      (insert "stream_time" (Value.time arrival) (fields_of r.body (env.unmarshal r.body)))

-- `i.endTime > 0 && r.ArrivalTimeSec > i.endTime`
abbrev pub is_late : ℤ → Record → Bool
is_late end_time r = ltb_ℤ (pos 0) end_time && ltb_ℤ end_time r.arrival_sec

-- The loop over the records: the rows, the last sequence number, and whether it met a late record.
unfoldable pub take_records : Env → ℤ → ℤ → List Record → List (Dict Value) × ℤ × Bool
take_records env end_time last [] = ([], last, false)
take_records env end_time last (r ∷ rs) = elim (is_late end_time r) [
  | true ↦ ([], last, true)
  | false ↦
      let (rows, l, late) = take_records env end_time r.sequence rs in
      (row_of env r ∷ rows, l, late)
]

abbrev with_frame : Iterator → Output → Bool → Result Frame → Result (Bool × Iterator)
with_frame it out late (ok fr) = ok (
  true,
  record it {
    frame = some fr;
    next_location = out.next_location;
    is_last = late || eqb_ℤ out.behind_latest (pos 0);
  },
)
with_frame it out late (err e) = ok (false, record it { error = some e; is_last = late })
with_frame it out late panic = panic

abbrev pub with_output : Env → Iterator → Result Output → Result (Bool × Iterator)
with_output env it (ok out) =
    let (rows, last, late) = take_records env it.end_time (pos 0) out.records in
    with_frame it out late
      (new_frame_from_rows rows ("seq_number" ∷ []) (some (("last_seq", Value.int last) ∷ [])))
with_output env it (err e) =
    ok (false, record it { error = some (wrap "Error in GetRecords operation" e) })
with_output env it panic = panic

abbrev next_by : Env → Iterator → Bool → Result (Bool × Iterator)
next_by env it true = ok (false, it)
next_by env it false =
    with_output env it (env.get_records it.path it.next_location it.message_limit)

-- Next
unfoldable pub next : Env → Iterator → Result (Bool × Iterator)
unfolding take_records
next env it = next_by env it it.is_last

-- json.Marshal on every row.
unfoldable pub bodies : Env → List (Dict Value) → Result (List String)
bodies env [] = ok []
bodies env (row ∷ rows) = do body ← env.marshal row; rest ← bodies env rows; ok (body ∷ rest)

abbrev row_error : Option Error → Result (Unit {0})
row_error (some e) = err (wrap "row iteration error" e)
row_error none = ok tt

-- streamAppender.Add, on the iterator over the rows of the frame, with fuel for its loop. (A row
-- that cannot be encoded ends the loop at once; which of two errors is met first is not kept apart.)
unfoldable pub add : Env → String → Format → ℕ → RowIterator → Result (Unit {0})
unfolding bodies
add env table fmt fuel it = do
  (rows, e) ← read_rows fuel fmt it
  records ← bodies env rows
  row_error e
  env.put_records (with_slash table) records
