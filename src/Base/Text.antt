-- ===== src/Base/Text.antt =====
-- What the backends do with texts: joining them, and the slash behind a table's path.
use Prim.Native.Char.{code}
use Prim.Native.String.{String, ◌++◌}
use mathlib.Core.Bool.{Bool, false}
use frames.Base.Tests.{◌==◌, if◌then◌else◌}

-- `s + t`
abbrev pub join : String → String → String
join s t = s ++ t

-- strings.HasSuffix(s, "/")
abbrev pub has_slash : String → Bool
has_slash String.[] = false
has_slash (String.◌∷◌ c String.[]) = code c == b'/'
has_slash (String.◌∷◌ c (String.◌∷◌ d s)) = has_slash (String.◌∷◌ d s)

-- `if !strings.HasSuffix(path, "/") { path += "/" }`
abbrev pub with_slash : String → String
with_slash s = if has_slash s then s else join s "/"
