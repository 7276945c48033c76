-- ===== src/Tests/Transports.antt =====
-- The theorems on the clients and servers, at concrete inputs.
use Prim.Native.String.append
use frames.Base.{
  pos, ℕ, ◌≡◌, ◌≢◌, refl, true, false, List, [], ◌∷◌, ◌++◌, String, none, some, Dict, All, Result,
  ok, err, arith, eq_iff, timed_out,
}
use frames.Marshal.RoundTrip.{framed}
use frames.Config.{Config, Session, empty_session, validate, validate_backends, init_defaults}
use frames.Backends.{get_factory}
use frames.Config.Printing
use frames.Config.Printing.{Flags, format, verb_v}
use frames.Config.Hiding.{format-hides}
use frames.Server as Starts
use frames.Server.{HttpReach, HttpStep, new_server, running_state}
use frames.Server.Starting.{IsSound, deaf, HttpReach-IsSound, HttpReach-deaf}
use frames.Api
use frames.Api.{TableRequest, WriteRequest, Backend}
use frames.Api.Setup
use frames.Api.Setup.{Factory}
use frames.Api.Serving.{IsServed, new_server-IsServed}
use frames.Http.Routes.{Server, Response, text, handler}
use frames.Http.Client.{Client, write, pb_write_req}
use frames.Grpc
use frames.Grpc.Client as GrpcClient
use frames.Grpc.Writes as GrpcWrites
use frames.Tests.Columns.{plain}
use frames.Tests.Stores.{backend, config}
use frames.Tests.Streams.{codec, people, no_parse, http, backend_with}

HttpReach-IsSound_example : IsSound (deaf timed_out)
HttpReach-IsSound_example = HttpReach-IsSound (deaf timed_out) (HttpReach-deaf timed_out).0

HttpReach-deaf_example :
    HttpReach new_server (deaf timed_out)
    × ((s : Starts.Server) → HttpReach (deaf timed_out) s → s ≡ deaf timed_out)
HttpReach-deaf_example = HttpReach-deaf timed_out

abbrev printer : Printing.Env
printer = record { text = λ s. ""; mask = λ s. s; quote = λ s. s }

abbrev token : Session
token = record empty_session { user = "me"; token = "t" }

secret_set : ◌≢◌ {A = String} "secret" ""
secret_set e = ground (arith, eq_iff "secret" "")

x_set : ◌≢◌ {A = String} "x" ""
x_set e = ground (arith, eq_iff "x" "")

format-hides_example :
    format printer
      (record { sharp = false; plus = true })
      verb_v
      (some (record token { password = "secret" }))
    ≡ format printer
        (record { sharp = false; plus = true })
        verb_v
        (some (record token { password = "x" }))
format-hides_example =
    format-hides printer (record { sharp = false; plus = true }) token "secret" "x" secret_set x_set

abbrev pub factories : Dict Factory
factories = ("csv", λ b c. ok (backend_with none)) ∷ []

abbrev pub served : Config
served = record (config (backend "csv" ∷ backend "b" ∷ [])) { default_timeout = pos 30 }

abbrev pub apis : Dict Backend
apis = ("csv", backend_with none) ∷ ("b", backend_with none) ∷ []

built :
    Setup.new_server (λ s. s) factories (config (backend "" ∷ backend "b" ∷ [])) ≡ ok (served, apis)
unfolding Setup.new_server Setup.new_api Setup.create_backends validate validate_backends
    init_defaults get_factory
built = refl

new_server-IsServed_example :
    (served.backends ≢ []) × All (IsServed (λ s. s) factories served apis) served.backends
new_server-IsServed_example =
    new_server-IsServed (λ s. s) factories (config (backend "" ∷ backend "b" ∷ [])) served apis
      built

abbrev accepting : Backend
accepting = record (backend_with none) {
  write = λ r. ok (record { add = λ old fr. ok tt; wait = λ old. ok tt });
}

abbrev client : Client
client = record { url = "http://host"; session = token }

abbrev request : TableRequest
request = record { session = none; backend = "kv"; table = "t" }

abbrev write_request : WriteRequest
write_request = record {
  session = none;
  backend = "kv";
  table = "t";
  immediate_data = some people;
  expression = "";
  have_more = true;
}

abbrev filled_write : WriteRequest
filled_write = record write_request { session = some token }

-- The bytes of the messages of a write with one frame behind the immediate data.
abbrev write_bytes : List ℕ
write_bytes = framed (7 ∷ []) ++ (framed (1 ∷ []) ++ [])

abbrev server : Server
server = record {
  state = running_state;
  config = served;
  backends = ("kv", accepting) ∷ [];
  env = record http { decode = λ s. ok (record request { session = some token }) };
  show_state = λ s. ok "";
  show_config = λ c. ok "";
  show_frames = λ fs. ok "";
  read_request = λ s. err timed_out;
  bytes = λ s. write_bytes;
  format = plain;
  parse = no_parse;
  initial = record { marshal = λ m. ok (7 ∷ []); unmarshal = λ bs. ok (pb_write_req filled_write) };
  codec = codec;
}

-- What stands behind a prefix of a URL.
abbrev behind : String → String → String
behind String.[] u = u
behind (String.◌∷◌ c s) String.[] = String.[]
behind (String.◌∷◌ c s) (String.◌∷◌ d u) = behind s u

abbrev marshal : TableRequest → Result String
marshal q = ok q.table

abbrev sent_request : TableRequest
sent_request = record request { session = some token }

abbrev post : String → String → Result Response
post url body =
    handler server (record { path = behind client.url url; is_post = true; args = []; body = body })

abbrev grpc_client : GrpcClient.Client
grpc_client = record { session = token }
