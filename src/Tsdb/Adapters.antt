-- ===== src/Tsdb/Adapters.antt =====
-- backends/tsdb/backend.go and backends/stream/backend.go: opening what the backends work on. The defaults of
-- the time series library and its adapter are parameters.
use frames.Base.{ℤ, String, Option, Error, Result, err, ◌>>=◌, wrapf}
use frames.Config.{
  BackendConfig, Config, Session, init_session_defaults, init_backend_defaults, or_default,
}
use frames.Container.{Client, create_container}

-- Backend, of either package, without the map of adapters, which nothing uses.
pub record Backend : Type 0 where
  pub backend_config : BackendConfig
  pub frames_config : Config

-- NewBackend, of either package
unfoldable pub new_backend : BackendConfig → Config → Backend
new_backend cfg config = record {
  backend_config = init_backend_defaults cfg config;
  frames_config = config;
}

-- config.V3ioConfig, as far as it is set here
pub record V3ioConfig : Type 0 where
  pub web_api_endpoint : String
  pub container : String
  pub username : String
  pub password : String
  pub workers : ℤ
  pub table_path : String

-- newConfig, by config.WithDefaults
unfoldable pub new_config : (V3ioConfig → V3ioConfig) → Backend → Session → V3ioConfig
new_config with_defaults b s = with_defaults (record {
  web_api_endpoint = s.url;
  container = s.container;
  username = s.user;
  password = s.password;
  workers = b.backend_config.workers;
  table_path = "";
})

-- newAdapter, and GetAdapter, which calls it for each request
unfoldable pub new_adapter :
    {C S K A : Type 0}
    → Client C S K
    → (V3ioConfig → V3ioConfig)
    → (V3ioConfig → K → Result A)
    → Backend
    → Option Session
    → String
    → Result A
unfolding new_config
new_adapter client with_defaults adapter b session path = do
  let s = init_session_defaults session b.frames_config
  let cfg = new_config with_defaults b s
  container ←
      wrapf "Failed to create V3IO data container"
        (create_container client s.url cfg.container cfg.username cfg.password cfg.workers)
  adapter (record cfg { table_path = or_default path s.path }) container

-- newContainer of the stream backend
unfoldable pub new_container : {C S K : Type 0} → Client C S K → Backend → Option Session → Result K
new_container client b session =
    let s = init_session_defaults session b.frames_config in
    wrapf "Failed to create V3IO data container"
      (create_container client s.url s.container s.user s.password b.backend_config.workers)

-- Exec, of either package
unfoldable pub exec : Backend → Result (Unit {0})
exec b = err Error.unknown_command
