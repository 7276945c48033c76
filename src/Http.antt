-- ===== src/Http.antt =====
-- http/server.go and http/client.go: the handlers of the server, and the stream of frames between a
-- server and a client. The two sides of the stream are joined by its bytes.
pub mod Json
pub mod Methods
pub mod Stream
pub mod Routes
pub mod Client
pub mod Calls
pub mod Writes
use frames.Base.{
  ℤ, pos, ℕ, zero, suc, Bool, true, false, List, [], ◌∷◌, String, Option, none, some, Dict, Error,
  Result, ok, err, panic, ◌>>=◌, join, str_eq, not, if◌then◌else◌,
}
use frames.Frame.{Frame, PbFrame, new_frame_from_proto}
use frames.Marshal.{Codec, Writer, encode, decode}
use frames.Config.{Session}
use frames.Sql.{Statement}
use frames.Api.{ReadRequest, WriteRequest, TableRequest, Backend, Written}
use frames.Api

-- A request as a handler sees it, and the response that it builds: ctx.Error resets it to a status
-- and a text, ctx.Write adds to its body.
pub record Request : Type 0 where
  pub path : String
  pub is_post : Bool
  pub args : Dict String
  pub body : String

pub record Reply : Type 0 where
  pub status : ℕ
  pub body : String

abbrev pub new_reply : Reply
new_reply = record { status = 200; body = "" }

abbrev pub error : String → ℕ → Reply
error msg status = record { status = status; body = msg }

-- `if !ctx.IsPost() { ctx.Error("unsupported method", http.StatusMethodNotAllowed) }`
abbrev pub check_method : Request → Reply
check_method req = if not req.is_post then error "unsupported method" 405 else new_reply

-- replyOK
abbrev pub reply_ok : Reply → Reply
reply_ok r = record { status = 200; body = join r.body "OK" }

-- encoding/json on a request, and the text of an error.
pub record Env : Type 0 where
  pub decode : String → Result TableRequest
  pub show : Error → String
  -- the reply to a write: num_frames and num_rows
  pub show_written : ℤ → ℤ → String

abbrev called : (Error → String) → Reply → Result (Unit {0}) → Result Reply
called msg r (ok _) = ok (reply_ok r)
called msg r (err e) = ok (error (msg e) 500)
called msg r panic = panic

abbrev decoded :
    Env
    → (TableRequest → Result (Unit {0}))
    → (Error → String)
    → Reply
    → Result TableRequest
    → Result Reply
decoded env op msg r (ok q) = called msg r (op q)
decoded env op msg r (err e) = ok (error (join "bad request - " (env.show e)) 400)
decoded env op msg r panic = panic

-- The common body of handleCreate, handleDelete and handleExec: the call of the API, and the text
-- that they reply with when it fails.
abbrev pub handle_table :
    Env → (TableRequest → Result (Unit {0})) → (Error → String) → Request → Result Reply
handle_table env op msg req = decoded env op msg (check_method req) (env.decode req.body)

-- handleCreate
unfoldable pub handle_create : Env → Dict Backend → Request → Result Reply
handle_create env backends req = handle_table env (Api.create backends) (λ e. env.show e) req

-- handleDelete
unfoldable pub handle_delete : Env → Dict Backend → Request → Result Reply
handle_delete env backends req = handle_table env (Api.delete backends) (λ e. "can't delete") req

-- handleExec
unfoldable pub handle_exec : Env → Dict Backend → Request → Result Reply
handle_exec env backends req = handle_table env (Api.exec backends) (λ e. "can't exec") req

-- pb.Frame with its error field, which a frame of the library leaves empty.
pub record Message : Type 0 where
  pub frame : PbFrame
  pub error : String

abbrev pub proto : Frame → Message
proto fr = record { frame = fr.msg; error = "" }

abbrev pub empty_frame : PbFrame
empty_frame = record { columns = []; indices = []; labels = [] }

-- writeError: whether it can be sent is not looked at.
abbrev pub write_error : Codec Message → (Error → String) → Writer → Error → Writer
write_error codec show w e = (encode codec w (record { frame = empty_frame; error = show e })).1

abbrev sent : Codec Message → (Error → String) → Result (Unit {0}) × Writer → Result Writer
sent codec show (ok _, w) = ok w
sent codec show (err e, w) = ok (write_error codec show w e)
sent codec show (panic, w) = panic

-- The loop of handleRead over the frames of the channel: a frame that cannot be sent is followed by
-- the next. (The buffer between encoder and connection is not modelled.)
unfoldable pub send_frames : Codec Message → (Error → String) → Writer → List Frame → Result Writer
send_frames codec show w [] = ok w
send_frames codec show w (fr ∷ frs) = do
  w' ← sent codec show (encode codec w (proto fr))
  send_frames codec show w' frs

abbrev pub finish : Codec Message → (Error → String) → Writer → Result (Unit {0}) → Result Writer
finish codec show w (ok _) = ok w
finish codec show w (err e) = ok (write_error codec show w e)
finish codec show w panic = panic

-- handleRead, from the call of the API on: the response body.
unfoldable pub handle_read :
    Codec Message
    → (Error → String)
    → Dict Backend
    → (String → Result Statement)
    → ReadRequest
    → Writer
    → Result Writer
unfolding send_frames
handle_read codec show backends parse req w = do
  let answer = Api.read backends parse req
  w' ← send_frames codec show w answer.1
  finish codec show w' answer.0

-- streamFrameIterator, with the bytes that its reader has left.
pub record Iterator : Type 0 where
  pub frame : Option Frame
  pub error : Option Error
  pub rest : List ℕ

abbrev pub received : Iterator → Result Message × List ℕ → Result (Bool × Iterator)
received it (ok m, bytes) =
    ok (true, record it { frame = some (new_frame_from_proto m.frame); rest = bytes })
received it (err Error.eof, bytes) = ok (false, record it { rest = bytes })
received it (err e, bytes) = ok (false, record it { error = some e; rest = bytes })
received it (panic, bytes) = panic

-- Next
unfoldable pub next : Codec Message → Iterator → Result (Bool × Iterator)
next codec it = received it (decode codec it.rest)

abbrev frame_of : Option Frame → List Frame → List Frame
frame_of (some fr) frs = fr ∷ frs
frame_of none frs = frs

abbrev pub add_frame :
    Option Frame → Result (List Frame × Option Error) → Result (List Frame × Option Error)
add_frame fr r = do (frs, e) ← r; ok (frame_of fr frs, e)

abbrev pub continue :
    (Iterator → Result (List Frame × Option Error))
    → Result (Bool × Iterator)
    → Result (List Frame × Option Error)
continue more (ok (true, it)) = add_frame it.frame (more it)
continue more (ok (false, it)) = ok ([], it.error)
continue more (err e) = err e
continue more panic = panic

-- A client's `for it.Next() { … it.At() … }` and the it.Err() behind it, on fuel; `panic` also
-- stands for a loop that has used up its fuel.
unfoldable pub read_all : ℕ → Codec Message → Iterator → Result (List Frame × Option Error)
read_all zero codec it = panic
read_all (suc fuel) codec it = continue (λ it'. read_all fuel codec it') (next codec it)

-- The first message of a write, pb.InitialWriteRequest.
pub record InitialWrite : Type 0 where
  pub session : Option Session
  pub backend : String
  pub table : String
  pub initial_data : Option PbFrame
  pub expression : String
  pub more : Bool

-- The frames that the loop of handleWrite decodes, and the error that ends it, but for io.EOF; on
-- fuel, of which every frame takes at least its header's length in bytes.
unfoldable pub decode_frames : ℕ → Codec Message → List ℕ → Result (List Frame × Option Error)
decode_frames fuel codec bytes =
    read_all fuel codec (record { frame = none; error = none; rest = bytes })

abbrev pub immediate : Option PbFrame → Option Frame
immediate (some m) = some (new_frame_from_proto m)
immediate none = none

abbrev pub decode_status : Option Error → Reply → Reply
decode_status none r = r
decode_status (some e) r = error "decode error" 500

abbrev pub written : Env → Reply → Written → Result Reply
written env r (frs, rows, ok _) = ok (record r { body = join r.body (env.show_written frs rows) })
written env r (frs, rows, err e) = ok (error (join "write error: " (env.show e)) 500)
written env r (frs, rows, panic) = panic

abbrev write_request : InitialWrite → WriteRequest
write_request m = record {
  session = m.session;
  backend = m.backend;
  table = m.table;
  immediate_data = immediate m.initial_data;
  expression = m.expression;
  have_more = m.more;
}

abbrev write_body :
    Env → Dict Backend → ℕ → Codec Message → Reply → Result InitialWrite × List ℕ → Result Reply
write_body env backends fuel codec r (ok m, bytes) = do
  (frs, e) ← decode_frames fuel codec bytes
  written env (decode_status e r) (Api.write backends (write_request m) frs)
write_body env backends fuel codec r (err e, bytes) = ok (error "bad write request" 400)
write_body env backends fuel codec r (panic, bytes) = panic

-- handleWrite, in the order in which the API takes its frames once they are all decoded; that the
-- loop may end early because the API has already failed is not modelled.
unfoldable pub handle_write :
    Env → Dict Backend → ℕ → Codec InitialWrite → Codec Message → Request → List ℕ → Result Reply
unfolding decode_frames read_all next
handle_write env backends fuel initial codec req bytes =
    write_body env backends fuel codec (check_method req) (decode initial bytes)
