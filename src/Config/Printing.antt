-- ===== src/Config/Printing.antt =====
-- pb/methods.go: Format of a session, which fmt calls for it. The text of the protobuf message, its
-- regular expression and Go's quoting are parameters.
use frames.Base.{
  Bool, true, false, List, [], ◌∷◌, String, Option, none, some, join, str_eq, not, ◌&&◌, ◌||◌,
  if◌then◌else◌,
}
use frames.Config.{Session}

-- The verbs that Format knows, and all others.
pub data Verb : Type 0 where
  verb_s verb_q verb_v verb_other : Verb

pub record Flags : Type 0 where
  pub sharp : Bool
  pub plus : Bool

pub record Env : Type 0 where
  -- s.String()
  pub text : Session → String
  -- passwdRe.ReplaceAllString(_, passwdMaskFull)
  pub mask : String → String
  -- fmt.Sprintf("%q", _)
  pub quote : String → String

abbrev pub passwd_mask : String
passwd_mask = "*****"

-- The fields by their names, in the order of sessionFields.
unfoldable pub session_fields : Session → List (String × String)
session_fields s =
    ("Container", s.container)
    ∷ ("Id", s.id)
    ∷ ("Password", s.password)
    ∷ ("Path", s.path)
    ∷ ("Token", s.token)
    ∷ ("Url", s.url)
    ∷ ("User", s.user)
    ∷ []

abbrev pub label : Flags → String → String
label flags name = if flags.sharp || flags.plus then join name ":" else ""

abbrev pub shown : String → String → String
shown name value = if str_eq name "Password" && not (str_eq value "") then passwd_mask else value

-- The space behind a field: none behind the last one, nor, without `#`, behind the first.
abbrev pub space : Flags → (is_first : Bool) → List (String × String) → String
space flags is_first [] = ""
space flags is_first (f ∷ fs) = if flags.sharp || not is_first then " " else ""

unfoldable pub format_fields : Flags → (is_first : Bool) → List (String × String) → String
format_fields flags is_first [] = ""
format_fields flags is_first ((name, value) ∷ fs) =
    join (label flags name)
      (join (shown name value) (join (space flags is_first fs) (format_fields flags false fs)))

abbrev pub type_name : Flags → String
type_name flags = if flags.sharp then "*pb.Session" else ""

abbrev format_by : Env → Flags → Verb → Session → String
format_by env flags verb_s s = env.mask (env.text s)
format_by env flags verb_q s = env.quote (env.mask (env.text s))
format_by env flags verb_v s =
    join (type_name flags) (join "{" (join (format_fields flags true (session_fields s)) "}"))
format_by env flags verb_other s = ""

-- Format: what it writes, also for a nil session.
unfoldable pub format : Env → Flags → Verb → Option Session → String
unfolding session_fields format_fields
format env flags verb none = "<nil>"
format env flags verb (some s) = format_by env flags verb s
