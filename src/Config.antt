-- ===== src/Config.antt =====
-- config.go: the configuration of the server, its defaults and its validation.
pub mod Checks
pub mod Printing
pub mod Hiding
use frames.Base.{
  ℤ, pos, ℕ, zero, suc, ◌+◌, Bool, true, false, List, [], ◌∷◌, String, Option, none, some, Error,
  Result, ok, err, panic, ◌>>=◌, ◌>>◌, guard, eqb_ℤ, str_eq, not, if◌then◌else◌,
}
use frames.Frame.Rows.{in_slice}

-- BackendConfig, without the options that a backend reads
pub record BackendConfig : Type 0 where
  pub type : String
  pub name : String
  pub workers : ℤ
  pub root_dir : String

-- Config
pub record Config : Type 0 where
  pub default_limit : ℤ
  pub default_timeout : ℤ
  pub web_api_endpoint : String
  pub container : String
  pub username : String
  pub password : String
  pub workers : ℤ
  pub backends : List BackendConfig

-- InitDefaults
unfoldable pub init_defaults : Config → Config
init_defaults c =
    if eqb_ℤ c.default_timeout (pos 0) then record c { default_timeout = pos 30 } else c

-- Session
pub record Session : Type 0 where
  pub url : String
  pub container : String
  pub path : String
  pub user : String
  pub password : String
  pub token : String
  pub id : String

abbrev pub or_default : String → String → String
or_default s d = if str_eq s "" then d else s

abbrev pub empty_session : Session
empty_session = record {
  url = "";
  container = "";
  path = "";
  user = "";
  password = "";
  token = "";
  id = "";
}

abbrev given_session : Option Session → Session
given_session (some s) = s
given_session none = empty_session

-- InitSessionDefaults
unfoldable pub init_session_defaults : Option Session → Config → Session
init_session_defaults session c =
    let s = given_session session in
    record s {
      url = or_default s.url c.web_api_endpoint;
      container = or_default s.container c.container;
      user = or_default s.user c.username;
      password = or_default s.password c.password;
    }

abbrev or_workers : ℤ → ℤ → ℤ
or_workers w d = if eqb_ℤ w (pos 0) then d else w

-- InitBackendDefaults
unfoldable pub init_backend_defaults : BackendConfig → Config → BackendConfig
init_backend_defaults cfg c = record cfg {
  workers = or_workers cfg.workers (or_workers c.workers (pos 8));
}

-- `if backend.Name == "" { backend.Name = backend.Type }`
abbrev pub with_name : BackendConfig → BackendConfig
with_name b = record b { name = or_default b.name b.type }

-- The loop of Validate; `seen` is the set of names. It returns the backends as the loop leaves them.
unfoldable pub validate_backends : List String → List BackendConfig → Result (List BackendConfig)
validate_backends seen [] = ok []
validate_backends seen (b ∷ bs) = do
  let named = with_name b
  guard (not (str_eq named.type "")) Error.missing_type
  guard (not (in_slice named.name seen)) (Error.duplicate_backend named.name)
  rest ← validate_backends (named.name ∷ seen) bs
  ok (named ∷ rest)

abbrev pub some_backend : List BackendConfig → Result (List BackendConfig)
some_backend [] = err Error.no_backends
some_backend (b ∷ bs) = ok (b ∷ bs)

-- Validate
unfoldable pub validate : Config → Result Config
validate c = do
  backends ← some_backend c.backends
  named ← validate_backends [] backends
  ok (record c { backends = named })

-- firstVal
unfoldable pub first_val : List String → String
first_val [] = ""
first_val (a ∷ args) = let rest = first_val args in if str_eq a "" then rest else a

-- envSession, of the text of V3IO_SESSION
unfoldable pub env_session : (String → Result Session) → String → Result Session
env_session unmarshal text = if str_eq text "" then ok empty_session else unmarshal text

-- NewSession, on the session that the environment gives.
unfoldable pub new_session : Result Session → Session → Result Session
unfolding first_val
new_session env_session given = do
  env ← env_session
  ok (record {
    url = first_val (given.url ∷ env.url ∷ []);
    container = first_val (given.container ∷ env.container ∷ []);
    path = first_val (given.path ∷ env.path ∷ []);
    user = first_val (given.user ∷ env.user ∷ []);
    password = first_val (given.password ∷ env.password ∷ []);
    token = first_val (given.token ∷ env.token ∷ []);
    id = first_val (given.id ∷ env.id ∷ []);
  })
