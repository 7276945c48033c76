-- ===== src/Tests/Streams.antt =====
-- The theorems on the transports and on the stream backend, at concrete inputs.
use frames.Base.{
  pos, ℕ, zero, suc, ◌+◌, ◌≤◌, ◌<◌, ◌≡◌, refl, false, List, [], ◌∷◌, ◌++◌, map, String, Option,
  none, some, Dict, Error, Result, ok, err, arith, length, str_eq, if◌then◌else◌, timed_out,
}
use frames.Value.{Value}
use frames.Frame.{Frame, PbFrame, new_frame_from_proto}
use frames.Marshal.{Codec, Writer}
use frames.Sql.{Statement}
use frames.Api
use frames.Api.{ReadRequest, Backend}
use frames.Http
use frames.Http.{
  Message, proto, empty_frame, handle_read, read_all, handle_create, handle_delete, handle_exec,
}
use frames.Http.Stream.{Carries, delivered, start, read_all-handle_read, read_all-error_lost}
use frames.Grpc
use frames.Grpc.Laws.{read-sends}
use frames.Stream
use frames.Stream.{Record}
use frames.RowIter.{RowIterator, get_row, read_rows}
use frames.RowIter.Walk.{rows_from, read_rows-all}
use frames.Column.Read.{int_at}
use frames.Column.Utils.{value_at}
use frames.Tests.Columns.{ages, plain}

abbrev pub people_msg : PbFrame
people_msg = record { columns = ages.msg ∷ []; indices = []; labels = [] }

abbrev pub people : Frame
people = new_frame_from_proto people_msg

abbrev mark : String → List ℕ
mark s = if str_eq s "" then 1 ∷ [] else 2 ∷ []

abbrev unmark : List ℕ → Message
unmark (suc (suc n) ∷ bs) = record { frame = empty_frame; error = "gone" }
unmark bs = proto people

-- A codec that knows one frame and one error.
abbrev pub codec : Codec Message
codec = record { marshal = λ m. ok (mark m.error); unmarshal = λ bs. ok (unmark bs) }

abbrev pub show : Error → String
show e = "gone"

abbrev pub no_parse : String → Result Statement
no_parse s = err timed_out

abbrev pub backend_with : Option Error → Backend
backend_with e = record {
  read = λ r. ok (people ∷ people ∷ [], e);
  write = λ r. err timed_out;
  create = λ r. ok tt;
  delete = λ r. ok tt;
  exec = λ r. ok tt;
}

abbrev backends : Option Error → Dict Backend
backends e = ("kv", backend_with e) ∷ []

abbrev read_request : ReadRequest
read_request = record {
  session = none;
  backend = "kv";
  query = "";
  table = "t";
  columns = none;
  filter = "";
  group_by = "";
}

pub carried : Carries codec (proto people)
carried = (1 ∷ [], refl, refl, omega arith)

read_all-handle_read_example :
    (w : Writer) × (handle_read codec show
        (backends none)
        no_parse
        read_request
        (record { written = []; room = none })
      ≡ ok w)
    × (read_all (suc (length (people ∷ people ∷ []))) codec (start w.written)
        ≡ ok (delivered (map proto (people ∷ people ∷ [])), none))
read_all-handle_read_example =
    read_all-handle_read codec show (backends none) no_parse read_request (people ∷ people ∷ [])
      (unfold Api.read in refl) (carried, (carried, tt))

read_all-error_lost_example :
    (w : Writer) × (handle_read codec show
        (backends (some timed_out))
        no_parse
        read_request
        (record { written = []; room = none })
      ≡ ok w)
    × (read_all (suc (suc (length (people ∷ people ∷ [])))) codec (start w.written)
        ≡ ok (
          delivered (
              map proto (people ∷ people ∷ [])
              ++ record { frame = empty_frame; error = "gone" } ∷ []),
          none,
        ))
read_all-error_lost_example =
    read_all-error_lost codec show (backends (some timed_out)) no_parse read_request
      (people ∷ people ∷ []) (Error.wrap "error during iteration" timed_out)
      (unfold Api.read in refl) (carried, (carried, tt)) (2 ∷ [], refl, refl, omega arith)

abbrev pub http : Http.Env
http = record {
  decode = λ s. ok (record { session = none; backend = "kv"; table = s });
  show = show;
  show_written = λ a b. "";
}

abbrev get : Http.Request
get = record { path = "/create"; is_post = false; args = []; body = "t" }

read-sends_example : Grpc.read (λ old m. ok tt) (backends none) no_parse read_request ≡ (
  (Api.read (backends none) no_parse read_request).0,
  map (λ (fr : Frame). fr.msg) (Api.read (backends none) no_parse read_request).1,
)
read-sends_example =
    read-sends (λ old m. ok tt) (backends none) no_parse read_request (λ old m. refl)

abbrev container : Stream.Env
container = record {
  new_container = ok tt;
  create_stream = λ p s h. ok tt;
  delete_stream = λ p. ok tt;
  seek_shard = λ p s. ok "";
  get_records = λ p l n. err timed_out;
  put_records = λ p bs. ok tt;
  marshal = λ d. ok "";
  unmarshal = λ s. none;
  to_lower = λ s. s;
  str2unix_time = λ s. ok (pos 0);
}

abbrev entry : ℕ → ℕ → Record
entry n sec = record { sequence = pos n; arrival_sec = pos sec; arrival_nsec = pos 0; body = "x" }

abbrev walk : RowIterator
walk = record {
  columns = record { name = "age"; col = ages } ∷ [];
  error = none;
  frame = people;
  row = [];
  row_num = 1;
}

abbrev age_row : ℕ → Dict Value
age_row (suc zero) = ("age", Value.int64 (pos 5)) ∷ []
age_row i = ("age", Value.int64 (pos 8)) ∷ []

age_rows : (i : ℕ) → 1 ≤ i → i < 1 + 2 → get_row plain i walk.columns ≡ ok (age_row i)
unfolding get_row value_at int_at
age_rows zero l u = absurd (omega arith)
age_rows (suc zero) l u = refl
age_rows (suc (suc zero)) l u = refl
age_rows (suc (suc (suc i))) l u = absurd (omega arith)

read_rows-all_example : read_rows 3 plain walk ≡ ok (rows_from age_row 2 1, none)
unfolding new_frame_from_proto
read_rows-all_example = read_rows-all plain 2 walk age_row refl refl age_rows
