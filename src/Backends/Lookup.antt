-- ===== src/Backends/Lookup.antt =====
-- backends/backends.go: what the registry gives back.
use frames.Base.{
  ◌≡◌, String, none, some, Dict, is_some, lookup-insert, ok, is_ok, not, arith, str_eq,
  if◌then◌else◌,
}
use frames.Backends.{register, get_factory}

module _ {F : Type 0} (normalize : String → String) where
  -- After a registration a type finds the new factory exactly if it is the registered one up to
  -- normalization; every other type finds what it found before, and the type was free.
  pub get_factory-register :
      (typ other : String) (factory : F) (before after : Dict F)
      → register normalize typ factory before ≡ ok after
      → (get_factory normalize other after ≡ (
          if str_eq (normalize typ) (normalize other)
          then some factory
          else get_factory normalize other before))
        × (get_factory normalize typ before ≡ none)
  unfolding register get_factory
  get_factory-register typ other factory before after h =
      (ground (arith, lookup-insert (normalize typ) (normalize other) factory before), ground arith)

  -- A type is refused exactly if a factory is registered under it, up to normalization.
  pub register-is_ok :
      (typ : String) (factory : F) (factories : Dict F)
      → is_ok (register normalize typ factory factories)
        ≡ not (is_some (get_factory normalize typ factories))
  unfolding register get_factory
  register-is_ok typ factory factories = ground arith
