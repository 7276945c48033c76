-- ===== src/Backends.antt =====
-- backends/backends.go: the registry of backend factories. The lock makes each operation one step.
pub mod Lookup
use frames.Base.{
  Bool, String, Option, none, some, Dict, lookup, insert, contains, Error, Result, ok, err, panic,
  ◌>>=◌, ◌>>◌, guard, not,
}

module _ {F : Type 0} (normalize : String → String) where
  -- Register: the registry after it.
  unfoldable pub register : String → F → Dict F → Result (Dict F)
  register typ factory factories = do
    guard (not (contains (normalize typ) factories)) (Error.already_registered (normalize typ))
    ok (insert (normalize typ) factory factories)

  -- GetFactory
  unfoldable pub get_factory : String → Dict F → Option F
  get_factory typ factories = lookup (normalize typ) factories
