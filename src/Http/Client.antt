-- ===== src/Http/Client.antt =====
-- http/client.go: NewClient and the calls of a client. Its reader is in Http, the end of its write in
-- Http/Json.
use frames.Base.{
  ℕ, List, [], ◌∷◌, ◌++◌, String, Option, none, some, Error, Result, ok, err, panic, ◌>>=◌, ◌>>◌,
  guard, wrapf, join, str_eq, not, ◌==◌, if◌then◌else◌,
}
use frames.Frame.{Frame, PbFrame}
use frames.Config.{Session, or_default}
use frames.Marshal.{Codec, Writer, encode}
use frames.Api.{ReadRequest, WriteRequest, TableRequest, check_params}
use frames.Http.{Message, InitialWrite, Iterator, proto}
use frames.Http.Json.{Answer, response, failed, timeout}
use frames.Http.Routes.{Response, text, stream}

-- Client, without its logger
pub record Client : Type 0 where
  pub url : String
  pub session : Session

abbrev with_scheme : String → String → String
with_scheme scheme url = if str_eq scheme "" then join "http://" url else url

abbrev session_or : Result Session → Option Session → Result Session
session_or env (some s) = ok s
session_or env none = env

-- NewClient, by V3IO_URL, the scheme that url.Parse finds, and SessionFromEnv.
unfoldable pub new_client :
    String → (String → Result String) → Result Session → String → Option Session → Result Client
new_client env_url parse env_session given session = do
  let url = or_default given env_url
  guard (not (str_eq url "")) Error.empty_url
  scheme ← wrapf "bad URL" (parse url)
  s ← session_or env_session session
  ok (record { url = with_scheme scheme url; session = s })

-- `if request.Session == nil { request.Session = c.session }`
abbrev pub filled : Client → Option Session → Option Session
filled c none = some c.session
filled c (some s) = some s

-- http.NewRequest and http.DefaultClient.Do of a POST, by URL and body.
abbrev pub Post : Type 0
Post = String → String → Result Response

abbrev pub status_of : Response → ℕ
status_of (text r) = r.status
status_of (stream status body) = status

-- jsonCall
unfoldable pub json_call :
    (TableRequest → Result String) → Post → Client → String → TableRequest → Result (Unit {0})
json_call marshal post c path request = do
  body ← wrapf "can't encode request" (marshal request)
  resp ← wrapf "can't call server" (post (join c.url path) body)
  guard (status_of resp == 200) (Error.bad_status (status_of resp))

-- Create
unfoldable pub create :
    (TableRequest → Result String) → Post → Client → TableRequest → Result (Unit {0})
unfolding json_call
create marshal post c request =
    json_call marshal post c "/create" (record request { session = filled c request.session })

-- Delete
unfoldable pub delete :
    (TableRequest → Result String) → Post → Client → TableRequest → Result (Unit {0})
unfolding json_call
delete marshal post c request =
    json_call marshal post c "/delete" (record request { session = filled c request.session })

-- Exec
unfoldable pub exec :
    (TableRequest → Result String) → Post → Client → TableRequest → Result (Unit {0})
unfolding json_call
exec marshal post c request =
    json_call marshal post c "/exec" (record request { session = filled c request.session })

abbrev bytes_of : (String → List ℕ) → Response → List ℕ
bytes_of bytes (text r) = bytes r.body
bytes_of bytes (stream status body) = body

-- Read: the iterator over the body of the response.
unfoldable pub read :
    (ReadRequest → Result String)
    → (String → List ℕ)
    → Post
    → Client
    → ReadRequest
    → Result Iterator
read marshal bytes post c request = do
  body ←
      wrapf "can't encode query" (marshal (record request { session = filled c request.session }))
  resp ← wrapf "can't call API" (post (join c.url "/read") body)
  guard (status_of resp == 200) (Error.bad_status (status_of resp))
  ok (record { frame = none; error = none; rest = bytes_of bytes resp })

abbrev proto_of : Option Frame → Option PbFrame
proto_of (some fr) = some fr.msg
proto_of none = none

-- pbWriteReq, of a frame of this library
unfoldable pub pb_write_req : WriteRequest → InitialWrite
pb_write_req req = record {
  session = req.session;
  backend = req.backend;
  table = req.table;
  initial_data = proto_of req.immediate_data;
  expression = req.expression;
  more = req.have_more;
}

-- streamFrameAppender, with what its request sends first, and its end of the pipe.
pub record Appender : Type 0 where
  pub header : List ℕ
  pub writer : Writer

abbrev opened : Result (Unit {0}) × Writer → Writer → Result Appender
opened (r, w) pipe = do
  wrapf "Can't encode request" r
  ok (record { header = w.written; writer = pipe })

-- Write, up to the call of the API in its goroutine; the pipe is as the reader leaves it.
unfoldable pub write : Codec InitialWrite → Writer → Client → WriteRequest → Result Appender
unfolding pb_write_req
write codec pipe c request = do
  check_params request.backend request.table
  let msg = pb_write_req (record request { session = filled c request.session })
  opened (encode codec (record { written = []; room = none }) msg) pipe

abbrev added : Appender → Result (Unit {0}) × Writer → Result (Unit {0}) × Appender
added a (r, w) = (wrapf "can't encode frame" r, record a { writer = w })

-- Add
unfoldable pub add : Codec Message → Appender → Frame → Result (Unit {0}) × Appender
add codec a fr = added a (encode codec a.writer (proto fr))

abbrev pub continue :
    (Appender → Result (Unit {0}) × Appender)
    → Result (Unit {0}) × Appender
    → Result (Unit {0}) × Appender
continue more (ok _, a) = more a
continue more (err e, a) = (err e, a)
continue more (panic, a) = (panic, a)

-- A client that adds frame after frame, and stops at an error.
unfoldable pub add_all : Codec Message → Appender → List Frame → Result (Unit {0}) × Appender
unfolding add
add_all codec a [] = (ok tt, a)
add_all codec a (fr ∷ frs) = continue (λ b. add_all codec b frs) (add codec a fr)

-- What the goroutine of Write leaves for WaitForComplete.
abbrev pub answer : (List ℕ → String) → Result Response → Answer
answer show (ok (text r)) = response r.status r.body
answer show (ok (stream status body)) = response status (show body)
answer show (err e) = failed e
answer show panic = timeout

-- The body of the request: io.MultiReader of the first message and the pipe.
abbrev pub sent_body : Appender → List ℕ
sent_body a = a.header ++ a.writer.written
