-- ===== src/Api/Serving.antt =====
-- api/api.go, config.go and backends/backends.go: a server that starts serves every backend of its
-- configuration, under the backend's name.
use frames.Base.{
  ap, ◌≡◌, ◌≢◌, refl, ◌∙◌, subst, true, String, List, [], ◌∷◌, Option, none, some, Dict, lookup,
  insert, lookup-insert, All, Result, ok, >>=-eq-ok, wrapf, wrapf-eq-ok, arith, eq_iff,
}
use frames.Frame.Rows.{in_slice}
use frames.Config.{BackendConfig, Config, validate, init_defaults}
use frames.Config.Checks.{validate-named, AreNamed, validate-AreNamed}
use frames.Backends.{get_factory}
use frames.Api.{Backend, get_backend}
use frames.Api.Setup.{Factory, found_factory, create_backends, new_api, new_server}

found_factory-ok :
    (typ : String) (r : Option Factory) (f : Factory) → found_factory typ r ≡ ok f → r ≡ some f
found_factory-ok typ (some g) f h = ground arith
found_factory-ok typ none f h = cc

init_defaults-backends : (c : Config) → (init_defaults c).backends ≡ c.backends
unfolding init_defaults
init_defaults-backends c = ground arith

init_defaults_twice : (c : Config) → init_defaults (init_defaults c) ≡ init_defaults c
unfolding init_defaults
init_defaults_twice c = ground arith

pair_config :
    (c d : Config) (bs cs : Dict Backend)
    → ◌≡◌ {A = Result (Config × Dict Backend)} (ok (c, bs)) (ok (d, cs))
    → c ≡ d
pair_config c d bs cs h = cc

pub pair_api :
    (c d : Config) (bs cs : Dict Backend)
    → ◌≡◌ {A = Result (Config × Dict Backend)} (ok (c, bs)) (ok (d, cs))
    → bs ≡ cs
pair_api c d bs cs h = cc

module _ (normalize : String → String) (factories : Dict Factory) where
  -- The API finds under the backend's name what the factory of its type has made of it.
  abbrev pub IsServed : Config → Dict Backend → BackendConfig → Type 0
  IsServed c backends cfg =
      (f : Factory) × (backend : Backend) × (get_factory normalize cfg.type factories ≡ some f)
      × (f cfg c ≡ ok backend)
      × (get_backend backends cfg.name ≡ ok backend)

  lookup-create_backends :
      (c : Config) (seen : List String) (cfgs : List BackendConfig) (bs r : Dict Backend)
      (name : String)
      → AreNamed seen cfgs
      → in_slice name seen ≡ true
      → create_backends normalize factories c cfgs bs ≡ ok r
      → lookup name r ≡ lookup name bs
  unfolding create_backends
  lookup-create_backends c seen [] bs r name named i h = ground arith
  lookup-create_backends c seen (cfg ∷ cfgs) bs r name named i h =
      let (f, _, h₁) =
        >>=-eq-ok (found_factory cfg.type (get_factory normalize cfg.type factories)) _ h in
      let (b, _, h₂) = >>=-eq-ok (wrapf "can't create backend" (f cfg c)) _ h₁ in
      let later =
        lookup-create_backends c (cfg.name ∷ seen) cfgs (insert cfg.name b bs) r name named.3
          (ground (arith, i)) h₂ in
      later ∙ lookup-insert cfg.name name b bs ∙ ground (arith, eq_iff cfg.name name, i, named.2)

  create_backends-IsServed :
      (c : Config) (seen : List String) (cfgs : List BackendConfig) (bs r : Dict Backend)
      → AreNamed seen cfgs
      → create_backends normalize factories c cfgs bs ≡ ok r
      → All (IsServed c r) cfgs
  unfolding create_backends
  create_backends-IsServed c seen [] bs r named h = tt
  create_backends-IsServed c seen (cfg ∷ cfgs) bs r named h =
      let (f, found, h₁) =
        >>=-eq-ok (found_factory cfg.type (get_factory normalize cfg.type factories)) _ h in
      let (b, made, h₂) = >>=-eq-ok (wrapf "can't create backend" (f cfg c)) _ h₁ in
      let kept =
        lookup-create_backends c (cfg.name ∷ seen) cfgs (insert cfg.name b bs) r cfg.name named.3
          (ground (arith, eq_iff cfg.name cfg.name)) h₂ in
      let there : lookup cfg.name (insert cfg.name b bs) ≡ some b =
        lookup-insert cfg.name cfg.name b bs ∙ ground (arith, eq_iff cfg.name cfg.name) in
      (
        (
          f,
          b,
          found_factory-ok cfg.type (get_factory normalize cfg.type factories) f found,
          wrapf-eq-ok "can't create backend" (f cfg c) made,
          rw (kept, there) refl,
        ),
        create_backends-IsServed c (cfg.name ∷ seen) cfgs (insert cfg.name b bs) r named.3 h₂,
      )

  -- A server that NewServer builds, on any registry of factories: its configuration has a backend,
  -- and every backend of it has been made by the factory registered for its type, and is the one that
  -- the API sends a request with its name to: none hides another.
  pub new_server-IsServed :
      (c d : Config) (backends : Dict Backend)
      → new_server normalize factories c ≡ ok (d, backends)
      → (d.backends ≢ []) × All (IsServed d backends) d.backends
  unfolding new_server new_api
  new_server-IsServed c d backends h =
      let (valid, v, h₁) = >>=-eq-ok (wrapf "bad configuration" (validate c)) _ h in
      let full = init_defaults valid in
      let (bs, a, h₂) =
        >>=-eq-ok (wrapf "can't create API" (new_api normalize factories full)) _ h₁ in
      let (any, named, _) =
        validate-AreNamed c valid (wrapf-eq-ok "bad configuration" (validate c) v) in
      let same : full.backends ≡ valid.backends = init_defaults-backends valid in
      let made =
        wrapf-eq-ok "can't create backends"
          (create_backends normalize factories full full.backends [])
          (wrapf-eq-ok "can't create API" (new_api normalize factories full) a) in
      let config : full ≡ d = pair_config full d bs backends h₂ in
      let apis : bs ≡ backends = pair_api full d bs backends h₂ in
      let all : (full.backends ≢ []) × All (IsServed full bs) full.backends =
        (rw same any, create_backends-IsServed full [] full.backends [] bs (rw same named) made) in
      subst (λ (x : Config). (x.backends ≢ []) × All (IsServed x backends) x.backends) config
        (subst (λ (x : Dict Backend). (full.backends ≢ []) × All (IsServed full x) full.backends)
          apis all)

  -- The configuration that NewServer leaves gives the same server again: building the gRPC server on what
  -- the HTTP server has left of a configuration cannot fail, and serves the same.
  pub new_server-again :
      (c d : Config) (backends : Dict Backend)
      → new_server normalize factories c ≡ ok (d, backends)
      → new_server normalize factories d ≡ ok (d, backends)
  unfolding new_server
  new_server-again c d backends h =
      let (valid, v, h₁) = >>=-eq-ok (wrapf "bad configuration" (validate c)) _ h in
      let full = init_defaults valid in
      let (bs, a, h₂) =
        >>=-eq-ok (wrapf "can't create API" (new_api normalize factories full)) _ h₁ in
      let (any, named, _) =
        validate-AreNamed c valid (wrapf-eq-ok "bad configuration" (validate c) v) in
      let same : full.backends ≡ valid.backends = init_defaults-backends valid in
      let again : validate full ≡ ok full = validate-named full (rw same any) (rw same named) in
      let config : full ≡ d = pair_config full d bs backends h₂ in
      let apis : bs ≡ backends = pair_api full d bs backends h₂ in
      subst (λ (x : Config). new_server normalize factories x ≡ ok (x, backends)) config
        (rw again
          (rw (init_defaults_twice valid) (rw a (ap (λ (x : Dict Backend). ok (full, x)) apis))))
