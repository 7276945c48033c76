-- ===== src/Grpc.antt =====
-- grpc/server.go and grpc/client.go. A gRPC stream is known by what it answers: a receive gives the
-- messages of a list, and then io.EOF or an error.
pub mod Laws
pub mod Client
pub mod Writes
use frames.Base.{
  ℤ, Bool, true, false, List, [], ◌∷◌, ◌++◌, String, Option, none, some, Dict, Error, Result, ok,
  err, panic, ◌>>=◌, if◌then◌else◌,
}
use frames.Frame.{Frame, PbFrame, new_frame_from_proto}
use frames.Config.{Session}
use frames.Sql.{Statement}
use frames.Api.{ReadRequest, WriteRequest, Backend, Written}
use frames.Api

-- stream.Send, after the frames that were sent (the first one first).
abbrev pub Send : Type 0
Send = List PbFrame → PbFrame → Result (Unit {0})

-- Server.Read, the loop over the channel: how it ends, and the frames that were sent. An error of
-- the stream ends it before the error of the API is seen.
unfoldable pub send_frames :
    Send → List PbFrame → Result (Unit {0}) → List Frame → Result (Unit {0}) × List PbFrame
send_frames send sent answer [] = (answer, sent)
send_frames send sent answer (fr ∷ frs) = elim (send sent fr.msg) [
  | ok _ ↦ send_frames send (sent ++ (fr.msg ∷ [])) answer frs
  | err e ↦ (err e, sent)
  | panic ↦ (panic, sent)
]

-- Server.Read
unfoldable pub read :
    Send
    → Dict Backend
    → (String → Result Statement)
    → ReadRequest
    → Result (Unit {0}) × List PbFrame
unfolding send_frames
read send backends parse req =
    let answer = Api.read backends parse req in send_frames send [] answer.0 answer.1

-- pb.InitialWriteRequest, and pb.WriteRequest: one of these, a frame, or neither.
pub record InitialWrite : Type 0 where
  pub session : Option Session
  pub backend : String
  pub table : String
  pub initial_data : Option PbFrame
  pub expression : String
  pub more : Bool

pub data Message : Type 0 where
  request : InitialWrite → Message
  frame : PbFrame → Message
  empty : Message

-- How a stream of messages ends: at io.EOF, or with an error.
abbrev pub Ending : Type 0
Ending = Option Error

-- The loop of Server.Write over the messages behind the first.
unfoldable pub recv_frames : Ending → List Message → Result (List Frame)
recv_frames none [] = ok []
recv_frames (some e) [] = err e
recv_frames ending (frame m ∷ ms) = do
  frs ← recv_frames ending ms
  ok (new_frame_from_proto m ∷ frs)
recv_frames ending (_ ∷ ms) = err Error.bad_frame

abbrev pub immediate : Option PbFrame → Option Frame
immediate (some m) = some (new_frame_from_proto m)
immediate none = none

abbrev pub answered : Written → Result (ℤ × ℤ)
answered (frs, rows, ok _) = ok (frs, rows)
answered (frs, rows, err e) = err e
answered (frs, rows, panic) = panic

abbrev pub write_request : InitialWrite → WriteRequest
write_request m = record {
  session = m.session;
  backend = m.backend;
  table = m.table;
  immediate_data = immediate m.initial_data;
  expression = m.expression;
  have_more = m.more;
}

-- Server.Write: the numbers that it replies with. That the loop may end early because the API has
-- already failed is not modelled.
unfoldable pub write : Dict Backend → Ending → List Message → Result (ℤ × ℤ)
unfolding recv_frames
write backends none [] = err Error.eof
write backends (some e) [] = err e
write backends ending (request m ∷ ms) = do
  frs ← recv_frames ending ms
  answered (Api.write backends (write_request m) frs)
write backends ending (_ ∷ ms) = err Error.nil_request

-- frameIterator, with what its stream has still to give.
pub record Iterator : Type 0 where
  pub frame : Option Frame
  pub error : Option Error
  pub done : Bool
  pub messages : List PbFrame
  pub ending : Ending

abbrev receive : Iterator → List PbFrame → Bool × Iterator
receive it (m ∷ ms) = (true, record it { frame = some (new_frame_from_proto m); messages = ms })
receive it [] = (false, record it { frame = none; error = it.ending })

abbrev next_by : Iterator → Bool → Option Error → Bool × Iterator
next_by it true e = (false, it)
next_by it false (some e) = (false, it)
next_by it false none = receive it it.messages

-- frameIterator.Next
unfoldable pub next : Iterator → Bool × Iterator
next it = next_by it it.done it.error

-- frameAppender, with the frames that its stream has taken.
pub record Appender : Type 0 where
  pub closed : Bool
  pub sent : List PbFrame

abbrev pub new_appender : Appender
new_appender = record { closed = false; sent = [] }

abbrev taken : Appender → PbFrame → Result (Unit {0}) → Result (Unit {0}) × Appender
taken a m (ok _) = (ok tt, record a { sent = a.sent ++ (m ∷ []) })
taken a m (err e) = (err e, record a { closed = true })
taken a m panic = (panic, a)

-- frameAppender.Add
unfoldable pub add : Send → Frame → Appender → Result (Unit {0}) × Appender
add send fr a = elim a.closed [
  | true ↦ (err Error.stream_closed, a)
  | false ↦ taken a fr.msg (send a.sent fr.msg)
]

-- frameAppender.WaitForComplete, by what CloseAndRecv answers to the frames sent.
unfoldable pub wait_for_complete : (List PbFrame → Result (Unit {0})) → Appender → Result (Unit {0})
wait_for_complete close a = if a.closed then err Error.stream_closed else close a.sent

-- A client that adds frame after frame, whatever each Add answers.
unfoldable pub add_all : Send → List Frame → Appender → Appender
unfolding add
add_all send [] a = a
add_all send (fr ∷ frs) a = add_all send frs (add send fr a).1
