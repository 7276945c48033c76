-- ===== src/Server.antt =====
-- server.go: the state that both servers have; and Start of http/server.go and of grpc/server.go, with
-- the goroutine that each of them leaves behind. What listening comes to is the environment's choice.
pub mod Starting
use frames.Base.{
  ℕ, zero, suc, ◌≡◌, Bool, true, false, Option, none, some, Error, Result, ok, err, panic, ◌>>=◌,
  ◌>>◌, guard,
}

-- ServerState
pub data ServerState : Type 0 where
  ready_state running_state error_state : ServerState

-- ServerBase
pub record ServerBase : Type 0 where
  pub error : Option Error
  pub state : ServerState

-- NewServerBase
unfoldable pub new_server_base : ServerBase
new_server_base = record { error = none; state = ready_state }

-- SetState
unfoldable pub set_state : ServerState → ServerBase → ServerBase
set_state state b = record b { state = state }

-- SetError
unfoldable pub set_error : Error → ServerBase → ServerBase
set_error e b = record { error = some e; state = error_state }

-- A server: the base, whether Start is between its `go` and the end of it, and the number of its
-- goroutines that still listen.
pub record Server : Type 0 where
  pub base : ServerBase
  pub starting : Bool
  pub listening : ℕ

unfoldable pub new_server : Server
unfolding new_server_base
new_server = record { base = new_server_base; starting = false; listening = 0 }

abbrev pub is_ready : ServerState → Bool
is_ready ready_state = true
is_ready _ = false

-- Start of the HTTP server, up to its `go`.
unfoldable pub http_start : Server → Result Server
http_start s = do
  guard (is_ready s.base.state) Error.bad_state
  ok (record s { starting = true; listening = suc s.listening })

-- The rest of it.
unfoldable pub http_started : Server → Server
unfolding set_state
http_started s = record s { base = set_state running_state s.base; starting = false }

-- The goroutine of either server, when listening ends with an error.
unfoldable pub listen_failed : ℕ → Error → Server → Server
unfolding set_error
listen_failed others e s = record s { base = set_error e s.base; listening = others }

-- What one caller of Start and the goroutines do, in any order.
pub data HttpStep : Server → Server → Type 0 where
  start : {s t : Server} → s.starting ≡ false → http_start s ≡ ok t → HttpStep s t
  started : {s : Server} → s.starting ≡ true → HttpStep s (http_started s)
  failed : {s : Server} (n : ℕ) (e : Error) → s.listening ≡ suc n → HttpStep s (listen_failed n e s)

pub data HttpReach (s : Server) : Server → Type 0 where
  here : HttpReach s s
  next : {t u : Server} → HttpReach s t → HttpStep t u → HttpReach s u

abbrev served : Server → Result (Unit {0}) → Result (Unit {0}) × Server
served s (ok _) = (
  ok tt,
  record s { base = record s.base { state = running_state }; listening = suc s.listening },
)
served s (err e) = (err e, record s { base = record { error = some e; state = error_state } })
served s panic = (panic, s)

-- Start of the gRPC server, by what net.Listen answers.
unfoldable pub grpc_start : Result (Unit {0}) → Server → Result (Unit {0}) × Server
grpc_start listen s = served s listen

pub data GrpcStep : Server → Server → Type 0 where
  start : {s : Server} (listen : Result (Unit {0})) → GrpcStep s (grpc_start listen s).1
  failed : {s : Server} (n : ℕ) (e : Error) → s.listening ≡ suc n → GrpcStep s (listen_failed n e s)

pub data GrpcReach (s : Server) : Server → Type 0 where
  here : GrpcReach s s
  next : {t u : Server} → GrpcReach s t → GrpcStep t u → GrpcReach s u
