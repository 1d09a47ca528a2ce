-- ===== src/Eapi/Modes.antt =====
-- Which lines leave a configuration session. `exit` leaves the mode it stands in, which is the
-- session itself only where no mode of the configuration has been entered: the documented modes are
-- those that the provider enters and leaves.
use pulumi_eos.Base.{
  Bool, true, false, ◌||◌, List, [], ◌∷◌, Option, none, some, ◌≡◌, ◌==◌, if◌then◌else◌,
}
use pulumi_eos.Text.{Str, codes, str_eq, fields}

unfoldable pub has_newline : Str → Bool
has_newline [] = false
has_newline (c ∷ s) = c == b'\n' || has_newline s

abbrev pub leaves_first : List Str → Bool
leaves_first [] = false
leaves_first (w ∷ rest) =
    str_eq w (codes "commit")
    || str_eq w (codes "end")
    || str_eq w (codes "exit")
    || str_eq w (codes "abort")
    || str_eq w (codes "configure")

-- A line that may leave the session: by its first word, or because a second line hides in it.
unfoldable pub leaves_session : Str → Bool
unfolding has_newline fields str_eq
leaves_session line = has_newline line || leaves_first (fields line)

abbrev pub Stays : Str → Type 0
Stays line = leaves_session line ≡ false

pub data Mode : Type 0 where
  vrf_instance : Mode
  router_bfd : Mode
  router_bgp : Mode
  rpki_cache : Mode

abbrev pub one_of : Str → List Str → Bool
one_of w [] = false
one_of w (v ∷ vs) = str_eq w v || one_of w vs

-- The first words of a mode's own commands.
abbrev pub own_words : Mode → List Str
own_words Mode.vrf_instance = codes "description" ∷ []
own_words Mode.router_bfd = codes "interval" ∷ codes "slow-timer" ∷ codes "shutdown" ∷ []
own_words Mode.router_bgp = codes "rpki" ∷ []
own_words Mode.rpki_cache =
    codes "host"
    ∷ codes "preference"
    ∷ codes "refresh-interval"
    ∷ codes "retry-interval"
    ∷ codes "expire-interval"
    ∷ codes "local-interface"
    ∷ codes "transport"
    ∷ []

abbrev pub second_is : List Str → Str → Bool
second_is [] v = false
second_is (w ∷ ws) v = str_eq w v

-- The mode that a line enters from anywhere in the session.
abbrev pub entered : Str → List Str → Option Mode
entered w ws =
    if str_eq w (codes "router")
    then if second_is ws (codes "bfd")
      then some Mode.router_bfd
      else if second_is ws (codes "bgp")
      then some Mode.router_bgp
      else none
    else if str_eq w (codes "vrf")
    then if second_is ws (codes "instance") then some Mode.vrf_instance else none
    else none

-- The mode that a line enters inside another one.
abbrev pub nested : Mode → Str → List Str → Option Mode
nested Mode.router_bgp w ws =
    if str_eq w (codes "rpki")
    then if second_is ws (codes "cache") then some Mode.rpki_cache else none
    else none
nested _ w ws = none

abbrev pub second_of : List Str → List Str → Bool
second_of [] vs = false
second_of (w ∷ ws) vs = one_of w vs

-- A command of the mode, or its negation.
abbrev pub is_own : Mode → Str → List Str → Bool
is_own m w ws = if str_eq w (codes "no") then second_of ws (own_words m) else one_of w (own_words m)

-- The modes behind a line that leaves none of them by `exit`: a line of another mode may be a global
-- one, behind which no mode is taken for granted.
abbrev pub stay_or_leave : Bool → Mode → List Mode → List Mode
stay_or_leave true m up = m ∷ up
stay_or_leave false m up = []

abbrev pub within : Option Mode → Mode → List Mode → Str → List Str → List Mode
within (some n) m up w ws = n ∷ m ∷ up
within none m up w ws = stay_or_leave (is_own m w ws) m up

abbrev pub moved_from : List Mode → Str → List Str → List Mode
moved_from [] w ws = []
moved_from (m ∷ up) w ws = within (nested m w ws) m up w ws

abbrev pub moved : Option Mode → List Mode → Str → List Str → List Mode
moved (some m) modes w ws = m ∷ []
moved none modes w ws = moved_from modes w ws

abbrev pub left : List Mode → Option (List Mode)
left [] = none
left (m ∷ up) = some up

abbrev pub leaves_hard : Str → Bool
leaves_hard w =
    str_eq w (codes "commit")
    || str_eq w (codes "end")
    || str_eq w (codes "abort")
    || str_eq w (codes "configure")

-- The modes behind a line, or `none` where it leaves the session.
abbrev pub after_words : List Mode → List Str → Option (List Mode)
after_words modes [] = some modes
after_words modes (w ∷ ws) =
    if leaves_hard w
    then none
    else if str_eq w (codes "exit")
    then left modes
    else some (moved (entered w ws) modes w ws)

unfoldable pub after_line : List Mode → Str → Option (List Mode)
unfolding has_newline fields str_eq
after_line modes line = if has_newline line then none else after_words modes (fields line)

abbrev pub and_then : Option (List Mode) → (List Mode → Bool) → Bool
and_then none k = false
and_then (some modes) k = k modes

-- No line of a batch leaves the session, where `modes` have been entered before it.
unfoldable pub stays_inside : List Str → List Mode → Bool
unfolding after_line
stays_inside [] modes = true
stays_inside (l ∷ ls) modes = and_then (after_line modes l) (stays_inside ls)

abbrev pub IsInside : List Str → Type 0
IsInside cmds = stays_inside cmds [] ≡ true
