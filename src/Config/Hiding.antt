-- ===== src/Config/Hiding.antt =====
-- pb/methods.go: a session that is printed with the verb v does not show its password.
use frames.Base.{◌≡◌, ◌≢◌, refl, String, some, arith, eq_iff}
use frames.Config.{Session}
use frames.Config.Printing.{
  verb_v, Flags, Env, shown, format, format_fields, session_fields, passwd_mask,
}

shown-password : (p : String) → p ≢ "" → shown "Password" p ≡ passwd_mask
shown-password p n = ground (arith, eq_iff p "", n)

-- What the verb v prints of a session, whatever the flags, is the same for every two passwords that
-- are not empty: nothing can be learnt from it of a password but that there is one.
pub format-hides :
    (env : Env) (flags : Flags) (s : Session) (p q : String)
    → p ≢ ""
    → q ≢ ""
    → format env flags verb_v (some (record s { password = p }))
      ≡ format env flags verb_v (some (record s { password = q }))
unfolding format format_fields session_fields
format-hides env flags s p q m n = rw (shown-password p m, shown-password q n) refl
