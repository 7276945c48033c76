-- ===== src/Api/Setup.antt =====
-- api/api.go: New and createBackends; and NewServer of http/server.go and of grpc/server.go, up to the
-- server that it builds on them. A backend's factory is a parameter: it calls the client libraries.
use frames.Base.{
  String, List, [], ◌∷◌, Option, none, some, Dict, insert, Error, Result, ok, err, ◌>>=◌, wrapf,
}
use frames.Config.{BackendConfig, Config, validate, init_defaults}
use frames.Backends.{get_factory}
use frames.Api.{Backend}

-- Factory
abbrev pub Factory : Type 0
Factory = BackendConfig → Config → Result Backend

abbrev pub found_factory : String → Option Factory → Result Factory
found_factory typ (some f) = ok f
found_factory typ none = err (Error.unknown_backend typ)

module _ (normalize : String → String) (factories : Dict Factory) where
  -- The loop of createBackends, on the backends that it has made.
  unfoldable pub create_backends :
      Config → List BackendConfig → Dict Backend → Result (Dict Backend)
  create_backends c [] backends = ok backends
  create_backends c (cfg ∷ cfgs) backends = do
    factory ← found_factory cfg.type (get_factory normalize cfg.type factories)
    backend ← wrapf "can't create backend" (factory cfg c)
    create_backends c cfgs (insert cfg.name backend backends)

  -- New, with a logger
  unfoldable pub new_api : Config → Result (Dict Backend)
  unfolding create_backends
  new_api c = wrapf "can't create backends" (create_backends c c.backends [])

  -- NewServer: the configuration as it leaves it, and the backends of its API.
  unfoldable pub new_server : Config → Result (Config × Dict Backend)
  unfolding new_api
  new_server c = do
    valid ← wrapf "bad configuration" (validate c)
    let full = init_defaults valid
    backends ← wrapf "can't create API" (new_api full)
    ok (full, backends)
