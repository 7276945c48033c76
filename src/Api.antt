-- ===== src/Api.antt =====
-- api/api.go: the layer that sends requests to the configured backends.
pub mod Requests
pub mod Setup
pub mod Serving
use frames.Base.{
  ℤ, pos, negsuc, ◌+ℤ◌, ℕ, zero, suc, Bool, true, false, List, [], ◌∷◌, String, Option, none, some,
  Dict, lookup, insert, Error, Result, ok, err, panic, ◌>>=◌, ◌>>◌, guard, wrapf, str_eq, not,
  ltb_ℤ, ◌||◌, if◌then◌else◌, wrap,
}
use frames.Frame.{Frame, frame_len}
use frames.Config.{Session}
use frames.Sql.{Statement, Query, parse_sql}

-- The fields of pb.ReadRequest that this layer reads or writes; `none` is a nil slice.
pub record ReadRequest : Type 0 where
  pub session : Option Session
  pub backend : String
  pub query : String
  pub table : String
  pub columns : Option (List String)
  pub filter : String
  pub group_by : String

-- WriteRequest
pub record WriteRequest : Type 0 where
  pub session : Option Session
  pub backend : String
  pub table : String
  pub immediate_data : Option Frame
  pub expression : String
  pub have_more : Bool

-- What Create, Delete and Exec look at.
pub record TableRequest : Type 0 where
  pub session : Option Session
  pub backend : String
  pub table : String

-- frames.FrameAppender, by what it answers after the frames that it has taken.
pub record Appender : Type 0 where
  pub add : List Frame → Frame → Result (Unit {0})
  pub wait : List Frame → Result (Unit {0})

-- frames.DataBackend. A read gives the frames of its iterator, and the error it ends with, if any.
pub record Backend : Type 0 where
  pub read : ReadRequest → Result (List Frame × Option Error)
  pub write : WriteRequest → Result Appender
  pub create : TableRequest → Result (Unit {0})
  pub delete : TableRequest → Result (Unit {0})
  pub exec : TableRequest → Result (Unit {0})

abbrev pub found_backend : String → Option Backend → Result Backend
found_backend name (some b) = ok b
found_backend name none = err (Error.unknown_backend name)

-- `api.backends[name]`
abbrev pub get_backend : Dict Backend → String → Result Backend
get_backend backends name = found_backend name (lookup name backends)

abbrev pub unset : String → Error → Result (Unit {0})
unset s e = guard (str_eq s "") e

abbrev pub unset_columns : Option (List String) → Result (Unit {0})
unset_columns none = ok tt
unset_columns (some cs) = err Error.query_and_columns

-- populateQuery
unfoldable pub populate_query : (String → Result Statement) → ReadRequest → Result ReadRequest
populate_query parse request = do
  q ← wrapf "bad SQL query" (parse_sql parse request.query)
  unset request.table Error.query_and_table
  unset_columns request.columns
  unset request.filter Error.query_and_filter
  unset request.group_by Error.query_and_group_by
  ok (record request {
    table = q.table;
    columns = some q.columns;
    filter = q.filter;
    group_by = q.group_by;
  })

abbrev pub populated : (String → Result Statement) → ReadRequest → Result ReadRequest
populated parse request =
    if str_eq request.query ""
    then ok request
    else wrapf "can't populate query" (populate_query parse request)

abbrev ended : Option Error → Result (Unit {0})
ended none = ok tt
ended (some e) = err (wrap "error during iteration" e)

abbrev emitted : Result (List Frame × Option Error) → Result (Unit {0}) × List Frame
emitted (ok (frames, e)) = (ended e, frames)
emitted (err e) = (err e, [])
emitted panic = (panic, [])

-- Read: how it ends, and the frames that it has sent on the channel.
unfoldable pub read :
    Dict Backend → (String → Result Statement) → ReadRequest → Result (Unit {0}) × List Frame
read backends parse request = emitted (do
  request' ← populated parse request
  backend ← get_backend backends request'.backend
  wrapf "can't query" (backend.read request'))

-- `request.Backend == "" || request.Table == ""`
abbrev pub check_params : String → String → Result (Unit {0})
check_params backend table =
    guard (not (str_eq backend "" || str_eq table "")) Error.missing_parameters

-- num_frames, num_rows, error
abbrev pub Written : Type 0
Written = ℤ × ℤ × Result (Unit {0})

abbrev wait_if : Appender → List Frame → ℤ → Result (Unit {0})
wait_if a sent n_rows =
    if ltb_ℤ (pos 0) n_rows then wrapf "can't wait for completion" (a.wait sent) else ok tt

-- The loop over the channel, and the wait behind it; `sent` is what the appender has taken, the
-- last frame first.
unfoldable pub write_frames : Appender → List Frame → ℤ → ℤ → List Frame → Written
write_frames a sent n_frames n_rows [] = (n_frames, n_rows, wait_if a sent n_rows)
write_frames a sent n_frames n_rows (frame ∷ frames) = elim (a.add sent frame) [
  | ok _ ↦ write_frames a (frame ∷ sent) (n_frames +ℤ pos 1) (n_rows +ℤ frame_len frame) frames
  | err e ↦ (n_frames, n_rows, err (wrap "can't add frame" e))
  | panic ↦ (n_frames, n_rows, panic)
]

abbrev pub initial_frames : Option Frame → ℤ
initial_frames none = pos 0
initial_frames (some f) = pos 1

abbrev pub initial_rows : Option Frame → ℤ
initial_rows none = pos 0
initial_rows (some f) = frame_len f

abbrev pub initial_sent : Option Frame → List Frame
initial_sent none = []
initial_sent (some f) = f ∷ []

abbrev pub write_to : WriteRequest → Result Appender → List Frame → Written
write_to request (ok a) frames =
    write_frames a (initial_sent request.immediate_data) (initial_frames request.immediate_data)
      (initial_rows request.immediate_data) frames
write_to request (err e) frames = (negsuc 0, negsuc 0, err e)
write_to request panic frames = (negsuc 0, negsuc 0, panic)

-- Write up to the call of the backend.
abbrev pub open_appender : Dict Backend → WriteRequest → Result Appender
open_appender backends request = do
  check_params request.backend request.table
  backend ← get_backend backends request.backend
  wrapf "backend Write failed" (backend.write request)

-- Write, of the frames that come on the channel.
unfoldable pub write : Dict Backend → WriteRequest → List Frame → Written
write backends request frames = write_to request (open_appender backends request) frames

-- Create
unfoldable pub create : Dict Backend → TableRequest → Result (Unit {0})
create backends request = do
  check_params request.backend request.table
  backend ← get_backend backends request.backend
  wrapf "error creating table" (backend.create request)

-- Delete
unfoldable pub delete : Dict Backend → TableRequest → Result (Unit {0})
delete backends request = do
  check_params request.backend request.table
  backend ← get_backend backends request.backend
  wrapf "can't delete" (backend.delete request)

-- Exec
unfoldable pub exec : Dict Backend → TableRequest → Result (Unit {0})
exec backends request = do
  check_params request.backend request.table
  backend ← get_backend backends request.backend
  wrapf "can't delete" (backend.exec request)
