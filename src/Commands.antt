-- ===== src/Commands.antt =====
-- Pieces of the `build…Cmds` functions of internal/resources: a command for an optional argument.
use pulumi_eos.Base.{
  Bool, false, List, [], ◌∷◌, ◌++◌, Option, none, some, if◌then◌else◌, ℤ, pos, ltb_ℤ,
}
use pulumi_eos.Text.{Str, codes, str_eq}
use pulumi_eos.Text.Decimal.{itoa}

-- `if p == nil || *p == "" { … }`, and else the text.
abbrev pub set_text : Option Str → Option Str
set_text none = none
set_text (some s) = if str_eq s [] then none else some s

-- `if s != nil && *s != "" { cmds = append(cmds, prefix+*s) }`
abbrev pub text_cmd : Str → Option Str → List Str
text_cmd prefix o = elim (set_text o) [ none ↦ [] | some s ↦ (prefix ++ s) ∷ [] ]

-- `if v != nil { cmds = append(cmds, prefix+strconv.Itoa(*v)) }`
abbrev pub number_cmd : Str → Option ℤ → List Str
number_cmd prefix none = []
number_cmd prefix (some v) = (prefix ++ itoa v) ∷ []

-- `if v != nil && *v > 0 { … }`
abbrev pub positive_cmd : Str → Option ℤ → List Str
positive_cmd prefix none = []
positive_cmd prefix (some v) = if ltb_ℤ (pos 0) v then (prefix ++ itoa v) ∷ [] else []

-- `p != nil && *p`
abbrev pub is_on : Option Bool → Bool
is_on none = false
is_on (some b) = b

-- `if p != nil && *p { "shutdown" } else { "no shutdown" }`
abbrev pub state_cmd : Option Bool → Str
state_cmd o = if is_on o then codes "shutdown" else codes "no shutdown"
