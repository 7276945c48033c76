-- ===== src/Config/Checks.antt =====
-- config.go: what a valid configuration guarantees.
use frames.Base.{
  ◌≡◌, ◌≢◌, refl, subst, false, List, [], ◌∷◌, String, arith, ok, >>=-eq-ok, str_eq, eq_iff, not,
  guard, missing_type, duplicate_backend, if◌then◌else◌,
}
use frames.Frame.Rows.{in_slice}
use frames.Config.{BackendConfig, Config, with_name, some_backend, validate_backends, validate}

-- Each backend has a type and a name, and no name is in `seen` or comes twice.
abbrev pub AreNamed : List String → List BackendConfig → Type 0
AreNamed seen [] = Unit
AreNamed seen (b ∷ bs) =
    (b.type ≢ "") × (b.name ≢ "") × (in_slice b.name seen ≡ false) × AreNamed (b.name ∷ seen) bs

-- The backends before and after the loop differ in the names that were empty alone.
abbrev pub SameBut : List BackendConfig → List BackendConfig → Type 0
SameBut [] [] = Unit
SameBut (b ∷ bs) (c ∷ cs) =
    (c ≡ record b { name = if str_eq b.name "" then b.type else b.name }) × SameBut bs cs
SameBut _ _ = ⊥

validate_backends-AreNamed :
    (seen : List String) (bs cs : List BackendConfig)
    → validate_backends seen bs ≡ ok cs
    → AreNamed seen cs × SameBut bs cs
unfolding validate_backends
validate_backends-AreNamed seen [] [] h = (tt, tt)
validate_backends-AreNamed seen [] (c ∷ cs) h = cc
validate_backends-AreNamed seen (b ∷ bs) cs h =
    let named : BackendConfig = with_name b in
    let (_, typed, h₁) = >>=-eq-ok (guard (not (str_eq named.type "")) missing_type) _ h in
    let (_, fresh, h₂) =
      >>=-eq-ok (guard (not (in_slice named.name seen)) (duplicate_backend named.name)) _ h₁ in
    let (rest, e, made) = >>=-eq-ok (validate_backends (named.name ∷ seen) bs) _ h₂ in
    let (names, same) = validate_backends-AreNamed (named.name ∷ seen) bs rest e in
    ground (arith, names, same, eq_iff b.name "", eq_iff b.type "")

some_backend_lem : (bs cs : List BackendConfig) → some_backend bs ≡ ok cs → (cs ≡ bs) × (cs ≢ [])
some_backend_lem [] cs h = cc
some_backend_lem (b ∷ bs) cs h = (ground arith, λ e. ground arith)

SameBut-ne-nil : (bs cs : List BackendConfig) → SameBut bs cs → bs ≢ [] → cs ≢ []
SameBut-ne-nil [] [] h e = e
SameBut-ne-nil (b ∷ bs) (c ∷ cs) h e = ground arith
SameBut-ne-nil [] (c ∷ cs) h e = absurd h
SameBut-ne-nil (b ∷ bs) [] h e = absurd h

-- A configuration that passes validation has a backend, every backend has a type and a name of its
-- own, and validation changes nothing but to name a backend without a name by its type.
pub validate-AreNamed :
    (c d : Config)
    → validate c ≡ ok d
    → (d.backends ≢ []) × AreNamed [] d.backends × SameBut c.backends d.backends
unfolding validate
validate-AreNamed c d h =
    let (bs, e, h₁) = >>=-eq-ok (some_backend c.backends) _ h in
    let (named, e', made) = >>=-eq-ok (validate_backends [] bs) _ h₁ in
    let (given, some) = some_backend_lem c.backends bs e in
    let (names, same) = validate_backends-AreNamed [] bs named e' in
    let kept : named ≡ d.backends = ground arith in
    subst (λ ds. (ds ≢ []) × AreNamed [] ds × SameBut c.backends ds) kept
      (SameBut-ne-nil bs named same some, names, subst (λ xs. SameBut xs named) given same)

str_eq-ne : (s t : String) → s ≢ t → str_eq s t ≡ false
str_eq-ne s t n = ground (arith, eq_iff s t, n)

validate_backends-named :
    (seen : List String) (bs : List BackendConfig)
    → AreNamed seen bs
    → validate_backends seen bs ≡ ok bs
unfolding validate_backends
validate_backends-named seen [] h = refl
validate_backends-named seen (b ∷ bs) (typed, name, fresh, h) =
    let rest = validate_backends-named (b.name ∷ seen) bs h in
    rw (str_eq-ne b.name "" name, str_eq-ne b.type "" typed) (rw fresh (rw rest))

-- A configuration with a backend, whose backends have types and names of their own, passes
-- validation as it is; so what has passed once, as when the HTTP server and the gRPC server are built
-- on one configuration, passes again, unchanged.
pub validate-named : (c : Config) → c.backends ≢ [] → AreNamed [] c.backends → validate c ≡ ok c
unfolding validate
validate-named c n h =
    rw (some_backend_ok c.backends n) (rw (validate_backends-named [] c.backends h))
  where
    some_backend_ok : (bs : List BackendConfig) → bs ≢ [] → some_backend bs ≡ ok bs
    some_backend_ok [] n = absurd (n refl)
    some_backend_ok (b ∷ bs) n = refl
