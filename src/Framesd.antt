-- ===== src/Framesd.antt =====
-- cmd/framesd/framesd.go: the server command, from its flags to the end of its watch over both servers.
pub mod Watching
use frames.Base.{
  ◌≡◌, Bool, true, false, ◌&&◌, String, List, [], ◌∷◌, Option, none, some, Dict, Error, Result, ok,
  err, panic, ◌>>=◌, ◌>>◌, guard, wrapf, str_eq, not, if◌then◌else◌,
}
use frames.Config.{Config}
use frames.Server.{Server, ServerState, running_state}
use frames.Server as Start
use frames.Api.{Backend}
use frames.Api.Setup.{Factory, new_server}

-- ioutil.ReadFile and yaml.Unmarshal, the factories of the backends, and net.Listen for gRPC.
pub record Env : Type 0 where
  pub read_file : String → Result String
  pub unmarshal : String → Result Config
  pub normalize : String → String
  pub factories : Dict Factory
  pub listen : Result (Unit {0})

-- The servers that main has started, with the backends that each of them serves.
pub record Servers : Type 0 where
  pub http : Server
  pub http_backends : Dict Backend
  pub grpc : Server
  pub grpc_backends : Dict Backend

-- The configuration file is named, is read, and is a configuration.
unfoldable pub load_config : Env → String → Result Config
load_config env file = do
  guard (not (str_eq file "")) Error.missing_parameters
  text ← wrapf "error: can't read config" (env.read_file file)
  wrapf "error: can't unmarshal config" (env.unmarshal text)

abbrev pub grpc_started :
    Config → Server → Dict Backend → Dict Backend → Result (Unit {0}) × Server → Result Servers
grpc_started c h bs gs (ok _, g) =
    ok (record { http = h; http_backends = bs; grpc = g; grpc_backends = gs })
grpc_started c h bs gs (err e, g) = err (Error.wrap "error: can't start gRPC server" e)
grpc_started c h bs gs (panic, g) = panic

-- main up to its watch: both servers are made of one configuration, which the first leaves to the
-- second as it has filled it in. That listening for HTTP may already have failed is left to the watch.
unfoldable pub start_servers : Env → String → Result Servers
unfolding load_config
start_servers env file = do
  c ← load_config env file
  (c', bs) ← wrapf "error: can't create HTTP server" (new_server env.normalize env.factories c)
  h ← wrapf "error: can't start HTTP server" (Start.http_start Start.new_server)
  (c'', gs) ← wrapf "error: can't create gRPC server" (new_server env.normalize env.factories c')
  grpc_started c'' (Start.http_started h) bs gs (Start.grpc_start env.listen Start.new_server)

abbrev pub is_running : ServerState → Bool
is_running running_state = true
is_running _ = false

-- What the watch ends with: one of the servers' errors, or none.
abbrev pub down : Option Error → Option Error → Result (Unit {0})
down (some e) g = err (Error.wrap "error: HTTP server error" e)
down none (some e) = err (Error.wrap "error: gRPC server error" e)
down none none = ok tt

-- The watch of main, by the servers that it finds second by second; `none` if it goes on after them.
unfoldable pub watch : List (Server × Server) → Option (Result (Unit {0}))
watch [] = none
watch ((h, g) ∷ later) =
    if is_running h.base.state && is_running g.base.state
    then watch later
    else some (down h.base.error g.base.error)
