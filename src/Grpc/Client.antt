-- ===== src/Grpc/Client.antt =====
-- grpc/client.go: the calls of a client; and the unary calls of grpc/server.go. The connection is known by
-- what its calls answer.
use frames.Base.{false, List, Option, none, some, Dict, Result, ok, ◌>>=◌}
use frames.Frame.{Frame, PbFrame}
use frames.Config.{Session}
use frames.Api
use frames.Api.{ReadRequest, WriteRequest, TableRequest, Backend}
use frames.Grpc.{InitialWrite, Message, request, Ending, Iterator, Appender, new_appender}

-- Server.Create
unfoldable pub serve_create : Dict Backend → TableRequest → Result (Unit {0})
serve_create backends req = Api.create backends req

-- Server.Delete
unfoldable pub serve_delete : Dict Backend → TableRequest → Result (Unit {0})
serve_delete backends req = Api.delete backends req

-- Server.Exec
unfoldable pub serve_exec : Dict Backend → TableRequest → Result (Unit {0})
serve_exec backends req = Api.exec backends req

-- Client, by its session
pub record Client : Type 0 where
  pub session : Session

-- `if request.Session == nil { request.Session = c.session }`
abbrev pub filled : Client → Option Session → Option Session
filled c none = some c.session
filled c (some s) = some s

-- Create, Delete and Exec differ in the call that they make.
unfoldable pub call_table :
    (TableRequest → Result (Unit {0})) → Client → TableRequest → Result (Unit {0})
call_table call c req = call (record req { session = filled c req.session })

-- Read, by the stream that the call gives
unfoldable pub read :
    (ReadRequest → Result (List PbFrame × Ending)) → Client → ReadRequest → Result Iterator
read call c req = do
  (ms, ending) ← call (record req { session = filled c req.session })
  ok (record { frame = none; error = none; done = false; messages = ms; ending = ending })

abbrev proto_of : Option Frame → Option PbFrame
proto_of (some fr) = some fr.msg
proto_of none = none

-- The first message of a write
unfoldable pub initial_write : Client → WriteRequest → InitialWrite
initial_write c req = record {
  session = filled c req.session;
  backend = req.backend;
  table = req.table;
  initial_data = proto_of req.immediate_data;
  expression = req.expression;
  more = req.have_more;
}

-- Write, by what opening the stream and sending the first message answer
unfoldable pub write :
    Result (Unit {0}) → (Message → Result (Unit {0})) → Client → WriteRequest → Result Appender
unfolding initial_write
write opened send c req = do _ ← opened; _ ← send (request (initial_write c req)); ok new_appender
