-- ===== src/Http/Routes.antt =====
-- http/server.go: initRoutes, handler, and the handlers that Http leaves out.
use frames.Base.{
  ℕ, suc, List, [], ◌∷◌, String, Option, none, some, Dict, lookup, Result, ok, err, panic, ◌>>=◌,
  join, length,
}
use frames.Frame.{Frame}
use frames.Column.Read.{Format}
use frames.Config.{Config}
use frames.Server.{ServerState}
use frames.Marshal.{Codec, Writer}
use frames.Sql.{Statement}
use frames.Api
use frames.Api.{ReadRequest, Backend}
use frames.Http.{
  Env, Request, Reply, Message, InitialWrite, error, new_reply, check_method, handle_create,
  handle_delete, handle_exec, handle_read, handle_write,
}
use frames.Http.Json.{JsonFrame, frame_to_json}

-- Server, with the code outside the repository that its handlers call: encoding/json, the bytes
-- of a body, the SQL parser and the codecs.
pub record Server : Type 0 where
  pub state : ServerState
  pub config : Config
  pub backends : Dict Backend
  pub env : Env
  pub show_state : ServerState → Result String
  pub show_config : Config → Result String
  pub show_frames : List JsonFrame → Result String
  pub read_request : String → Result ReadRequest
  pub bytes : String → List ℕ
  pub format : Format
  pub parse : String → Result Statement
  pub initial : Codec InitialWrite
  pub codec : Codec Message

-- A response whose body is a text, or is written as a stream.
pub data Response : Type 0 where
  text : Reply → Response
  stream : (status : ℕ) (body : List ℕ) → Response

-- replyJSON, by the text that the encoder gives
abbrev pub reply_json : Result String → Reply → Result Reply
reply_json (ok s) r = ok (record r { body = join r.body s })
reply_json (err e) r = ok (error "can't encode JSON" 500)
reply_json panic r = panic

-- handleStatus
unfoldable pub handle_status : Server → Request → Result Reply
handle_status s req = reply_json (s.show_state s.state) new_reply

-- handleConfig
unfoldable pub handle_config : Server → Request → Result Reply
handle_config s req = reply_json (s.show_config s.config) new_reply

abbrev stream_of : ℕ → Result Writer → Result Response
stream_of status r = do w ← r; ok (stream status w.written)

abbrev read_decoded : Server → Reply → Result ReadRequest → Result Response
read_decoded s r (ok q) =
    let w : Writer = record { written = []; room = none } in
    stream_of r.status (handle_read s.codec s.env.show s.backends s.parse q w)
read_decoded s r (err e) = ok (text (error (join "bad request - " (s.env.show e)) 400))
read_decoded s r panic = panic

-- handleRead: the stream replaces the body of an earlier ctx.Error, not its status.
unfoldable pub read_route : Server → Request → Result Response
read_route s req = read_decoded s (check_method req) (s.read_request req.body)

abbrev arg : String → Request → String
arg name req = elim (lookup name req.args) [ none ↦ "" | some v ↦ v ]

abbrev columns_of : Server → List Frame → Result (List JsonFrame)
columns_of s [] = ok []
columns_of s (fr ∷ frs) = do j ← frame_to_json s.format fr; rest ← columns_of s frs; ok (j ∷ rest)

-- json.NewEncoder(ctx).Encode: a failure is logged only.
abbrev encoded : Result String → Result Reply
encoded (ok s) = ok (record new_reply { body = s })
encoded (err e) = ok new_reply
encoded panic = panic

abbrev converted : Server → Result (Unit {0}) → Result (List JsonFrame) → Result Reply
converted s answer (err e) = ok (error (join "can't encode frame - " (s.env.show e)) 500)
converted s answer panic = panic
converted s (ok _) (ok js) = encoded (s.show_frames js)
converted s (err e) (ok js) = ok (error (join "API error - " (s.env.show e)) 500)
converted s panic (ok js) = panic

-- handleGrafana
unfoldable pub handle_grafana : Server → Request → Result Reply
handle_grafana s req =
    let q : ReadRequest = record {
      session = none;
      backend = arg "backend" req;
      query = arg "query" req;
      table = arg "table" req;
      columns = none;
      filter = arg "filter" req;
      group_by = arg "group_by" req;
    } in
    let answer = Api.read s.backends s.parse q in converted s answer.0 (columns_of s answer.1)

abbrev pub as_text : (Server → Request → Result Reply) → Server → Request → Result Response
as_text handle s req = do r ← handle s req; ok (text r)

-- Every frame of a body takes at least one of its bytes, so its length is enough fuel.
abbrev pub write_route : Server → Request → Result Reply
write_route s req =
    handle_write s.env s.backends (suc (length (s.bytes req.body))) s.initial s.codec req
      (s.bytes req.body)

-- initRoutes
unfoldable pub init_routes : Dict (Server → Request → Result Response)
unfolding handle_status handle_config handle_grafana read_route
init_routes =
    ("/_/config", as_text handle_config)
    ∷ ("/_/status", as_text handle_status)
    ∷ ("/create", as_text (λ s. handle_create s.env s.backends))
    ∷ ("/delete", as_text (λ s. handle_delete s.env s.backends))
    ∷ ("/grafana", as_text handle_grafana)
    ∷ ("/read", read_route)
    ∷ ("/write", as_text write_route)
    ∷ ("/exec", as_text (λ s. handle_exec s.env s.backends))
    ∷ []

abbrev routed : Option (Server → Request → Result Response) → Server → Request → Result Response
routed (some handle) s req = handle s req
routed none s req = ok (text (error (join "unknown path - " req.path) 404))

-- handler
unfoldable pub handler : Server → Request → Result Response
unfolding init_routes
handler s req = routed (lookup req.path init_routes) s req
