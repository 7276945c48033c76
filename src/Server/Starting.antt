-- ===== src/Server/Starting.antt =====
-- server.go and the Start of both servers: what their states say of the goroutines that listen.
use frames.Base.{◌≤◌, ◌≡◌, ◌≢◌, refl, true, false, none, some, Error, ok, err, arith}
use frames.Server.{
  ready_state, running_state, error_state, Server, new_server, new_server_base, http_start,
  http_started, set_state, set_error, listen_failed, HttpStep, HttpReach, grpc_start, GrpcStep,
  GrpcReach,
}

-- At most one goroutine listens; a server that is ready has none but while Start runs, an error is
-- seen only once it has ended, and a server past Start with no goroutine left has an error.
pub record IsSound (s : Server) : Type 0 where
  pub single : s.listening ≤ 1
  pub ready :
      s.base.state ≡ ready_state → s.starting ≡ false → (s.listening ≡ 0) × (s.base.error ≡ none)
  pub failed : s.base.state ≡ error_state → s.base.error ≢ none
  pub ended : s.base.error ≢ none → s.listening ≡ 0
  pub silent : s.base.error ≡ none → s.base.state ≢ ready_state → s.listening ≡ 1
  pub begun : s.starting ≡ true → s.base.error ≡ none → s.listening ≡ 1

HttpStep-IsSound : {s t : Server} → HttpStep s t → IsSound s → IsSound t
unfolding http_start http_started set_state set_error listen_failed
HttpStep-IsSound (HttpStep.start i e) h = ground arith
HttpStep-IsSound (HttpStep.started i) h = ground arith
HttpStep-IsSound (HttpStep.failed n e i) h = ground arith

-- In every order in which a caller starts the HTTP server, again and again, and its goroutine
-- fails, at most one goroutine listens, a server that is in the error state or has an error has
-- none, and a server that has been started and has no error has one.
pub HttpReach-IsSound : (s : Server) → HttpReach new_server s → IsSound s
unfolding new_server new_server_base
HttpReach-IsSound s HttpReach.here = ground arith
HttpReach-IsSound s (HttpReach.next r st) = HttpStep-IsSound st (HttpReach-IsSound _ r)

-- The server that Start leaves when its goroutine fails before Start is over.
abbrev pub deaf : Error → Server
deaf e = record {
  base = record { error = some e; state = running_state };
  starting = false;
  listening = 0;
}

deaf-stays : (e : Error) {t u : Server} → HttpStep t u → t ≡ deaf e → u ≡ deaf e
unfolding http_start
deaf-stays e (HttpStep.start i h) q = ground arith
deaf-stays e (HttpStep.started i) q = ground arith
deaf-stays e (HttpStep.failed n x i) q = ground arith

-- Start of the HTTP server sets the running state after its `go`: when listening fails in between,
-- the server is reached that is running, although nobody listens, and from there it never changes.
pub HttpReach-deaf :
    (e : Error) → HttpReach new_server (deaf e) × ((s : Server) → HttpReach (deaf e) s → s ≡ deaf e)
unfolding new_server new_server_base http_start http_started set_state set_error listen_failed
HttpReach-deaf e = (
  HttpReach.next
      (HttpReach.next (HttpReach.next HttpReach.here (HttpStep.start refl refl))
        (HttpStep.failed 0 e refl))
      (HttpStep.started refl),
  stays e,
)
  where
    stays : (x : Error) (s : Server) → HttpReach (deaf x) s → s ≡ deaf x
    stays x s HttpReach.here = refl
    stays x s (HttpReach.next r st) = deaf-stays x st (stays x _ r)

-- Start of the gRPC server does not look at the state: called again on a server that serves, it
-- cannot listen at the same address, and leaves the error state on a server that still serves.
GrpcReach-torn :
    (e : Error)
    → GrpcReach new_server (record {
      base = record { error = some e; state = error_state };
      starting = false;
      listening = 1;
    })
unfolding new_server new_server_base grpc_start
GrpcReach-torn e =
    GrpcReach.next (GrpcReach.next GrpcReach.here (GrpcStep.start (ok tt))) (GrpcStep.start (err e))
