-- ===== src/L3/StaticRoute/Shown.antt =====
-- `parseStaticRouteLines` on the command of Create among the lines of a grepped configuration.
use pulumi_eos.Base.{
  true, false, List, [], ◌∷◌, ◌++◌, if◌then◌else◌, Option, none, some, ◌≡◌, ◌≢◌, refl, sym, ap, ◌∙◌,
  All, All-append, append_assoc, arith, false, Bool, Bool-cases, inl, inr, ◌⊎◌, ◌&&◌,
}
use pulumi_eos.Text.{Str, codes, join, trim_space, cut_prefix, is_space, fields, str_eq}
use pulumi_eos.Text.Laws.{trim_space-visible, str_eq_iff}
use pulumi_eos.Text.Split.{split-join}
use pulumi_eos.Text.Netip.{parse_prefix4}
use pulumi_eos.Eapi.Staying.{OneLine, All-Lacks}
use pulumi_eos.L2.Switchport.{text_of}
use pulumi_eos.L3.PrefixList.{is_set}
use pulumi_eos.L3.PrefixList.Lines.{join-OneLine, trim_right-join}
use pulumi_eos.L3.StaticRoute.{
  StaticRouteArgs, vrf_or, vrf_words, distance_words, route_words, option_words,
  build_static_route_cmds,
}
use pulumi_eos.L3.StaticRoute.Parse.{
  StaticRouteRow, Line, parse_tokens, is_wanted, parse_static_route_line, wanted, on_route,
  first_some, find_route, parse_static_route_lines,
}
use pulumi_eos.L3.StaticRoute.Laws.{AreWords, behind_ip}
use pulumi_eos.L3.StaticRoute.Echo.{
  AreNumbers, row_of, line_of, command, are_words, parse_static_route_line-command,
  is_wanted-line_of,
}

-- What one line tells about the route.
abbrev pub answer : StaticRouteArgs → Str → Option StaticRouteRow
answer a raw = on_route a (trim_space raw) (cut_prefix (trim_space raw) (codes "ip route "))

on_route-ip :
    (a : StaticRouteArgs) (line : Str) (ws : List Str)
    → ws ≢ []
    → on_route a line
        (cut_prefix (join (codes "ip" ∷ codes "route" ∷ ws) (codes " ")) (codes "ip route "))
      ≡ wanted a (parse_static_route_line line)
unfolding join cut_prefix
on_route-ip a line [] ne = absurd (ne refl)
on_route-ip a line (w ∷ ws) ne = refl

trim_space-command : (a : StaticRouteArgs) → AreWords a → trim_space (command a) ≡ command a
unfolding command is_space
trim_space-command a hw =
    trim_space-visible b'i' _ refl (trim_right-join (codes "ip") (behind_ip a) (are_words a hw))

taken_line : (a : StaticRouteArgs) → wanted a (some (line_of a)) ≡ some (row_of a)
unfolding line_of
taken_line a = ap (λ b. if b then some (row_of a) else none) (is_wanted-line_of a)

append-cons : (xs : List Str) (x : Str) (ys : List Str) → xs ++ (x ∷ ys) ≢ []
append-cons [] x ys e = cc
append-cons (y ∷ xs) x ys e = cc

some_words :
    (a : StaticRouteArgs)
    → (vrf_words a.vrf ++ (a.prefix ∷ a.next_hop ∷ distance_words a.distance)) ++ option_words a
      ≢ []
some_words a = λ e.
    append-cons (vrf_words a.vrf) a.prefix
      (a.next_hop ∷ (distance_words a.distance ++ option_words a))
      (sym (
          append_assoc (vrf_words a.vrf) (a.prefix ∷ a.next_hop ∷ distance_words a.distance)
            (option_words a))
        ∙ e)

answer-command :
    (a : StaticRouteArgs)
    → is_set (parse_prefix4 a.prefix) ≡ true
    → AreNumbers a
    → AreWords a
    → answer a (command a) ≡ some (row_of a)
unfolding command join
answer-command a hp h hw =
    ap (λ l. on_route a l (cut_prefix l (codes "ip route "))) (trim_space-command a hw)
    ∙ on_route-ip a (command a) _ (some_words a)
    ∙ ap (wanted a) (parse_static_route_line-command a hp h hw)
    ∙ taken_line a

differs_false : (a b : Str) → a ≢ b → str_eq a b ≡ false
differs_false a b n = elim (Bool-cases (str_eq a b)) [
  | inl e ↦ absurd (n ((str_eq_iff a b).0 e))
  | inr e ↦ e
]

-- The words of a route in the VRF `v`, or in none, to the prefix `p` over the next hop `h`.
abbrev pub IsRoute : Str → Str → Str → List Str → Type 0
IsRoute v p h ws =
    (rest : List Str) × ((ws ≡ codes "ip" ∷ codes "route" ∷ codes "vrf" ∷ v ∷ p ∷ h ∷ rest)
      ⊎ ((v ≡ []) × ((p ≢ codes "vrf") × (ws ≡ codes "ip" ∷ codes "route" ∷ p ∷ h ∷ rest))))

-- Another VRF, another prefix, or another next hop.
abbrev pub Differs : StaticRouteArgs → Str → Str → Str → Type 0
Differs a v p h = (v ≢ text_of a.vrf) ⊎ ((p ≢ a.prefix) ⊎ (h ≢ a.next_hop))

-- A line that is no `ip route`, or a route that differs.
abbrev pub Foreign : StaticRouteArgs → Str → Type 0
Foreign a l =
    (cut_prefix (trim_space l) (codes "ip route ") ≡ none)
    ⊎ ((v : Str) × ((p : Str) × ((h : Str) × (IsRoute v p h (fields (trim_space l))
              × Differs a v p h))))

-- The parser on the words of a route.
abbrev Found : Str → Str → Str → Option Line → Type 0
Found v p h none = ⊥
Found v p h (some l) = (l.vrf ≡ v) × ((l.prefix ≡ p) × (l.next_hop ≡ h))

parse_tokens-Found :
    (v p h : Str) (ws : List Str) → IsRoute v p h ws → Found v p h (parse_tokens ws)
unfolding parse_tokens str_eq
parse_tokens-Found v p h ws (rest, inl e) = rw e (refl, (refl, refl))
parse_tokens-Found v p h ws (rest, inr (ev, (np, e))) =
    rw (e, differs_false p (codes "vrf") np) (sym ev, (refl, refl))

vrf_or-text_of : (o : Option Str) → vrf_or [] o ≡ text_of o
unfolding str_eq
vrf_or-text_of none = refl
vrf_or-text_of (some []) = refl
vrf_or-text_of (some (c ∷ s)) = refl

first_false : (x y z : Bool) → x ≡ false → (x && y && z) ≡ false
first_false x y z h = ground arith

second_false : (x y z : Bool) → y ≡ false → (x && y && z) ≡ false
second_false x y z h = ground arith

third_false : (x y z : Bool) → z ≡ false → (x && y && z) ≡ false
third_false x y z h = ground arith

is_wanted-Differs :
    (a : StaticRouteArgs) (v p h : Str) (l : Line)
    → Found v p h (some l)
    → Differs a v p h
    → is_wanted a l ≡ false
is_wanted-Differs a v p h l (ev, (ep, eh)) (inl n) =
    first_false (str_eq l.vrf (vrf_or [] a.vrf)) (str_eq l.prefix a.prefix)
      (str_eq l.next_hop a.next_hop)
      (differs_false l.vrf (vrf_or [] a.vrf) (λ e. n (sym ev ∙ e ∙ vrf_or-text_of a.vrf)))
is_wanted-Differs a v p h l (ev, (ep, eh)) (inr (inl n)) =
    second_false (str_eq l.vrf (vrf_or [] a.vrf)) (str_eq l.prefix a.prefix)
      (str_eq l.next_hop a.next_hop) (differs_false l.prefix a.prefix (λ e. n (sym ep ∙ e)))
is_wanted-Differs a v p h l (ev, (ep, eh)) (inr (inr n)) =
    third_false (str_eq l.vrf (vrf_or [] a.vrf)) (str_eq l.prefix a.prefix)
      (str_eq l.next_hop a.next_hop) (differs_false l.next_hop a.next_hop (λ e. n (sym eh ∙ e)))

wanted-Differs :
    (a : StaticRouteArgs) (v p h : Str) (o : Option Line)
    → Found v p h o
    → Differs a v p h
    → wanted a o ≡ none
wanted-Differs a v p h none f n = absurd f
wanted-Differs a v p h (some l) f n =
    ap (λ b. if b then some l.row else none) (is_wanted-Differs a v p h l f n)

on_route-none :
    (a : StaticRouteArgs) (line : Str) (o : Option Str)
    → wanted a (parse_static_route_line line) ≡ none
    → on_route a line o ≡ none
on_route-none a line none h = refl
on_route-none a line (some rest) h = h

answer-Foreign : (a : StaticRouteArgs) (l : Str) → Foreign a l → answer a l ≡ none
unfolding parse_static_route_line
answer-Foreign a l (inl e) = ap (on_route a (trim_space l)) e
answer-Foreign a l (inr (v, (p, (h, (r, n))))) =
    on_route-none a (trim_space l) (cut_prefix (trim_space l) (codes "ip route ")) (
      wanted-Differs a v p h (parse_tokens (fields (trim_space l)))
        (parse_tokens-Found v p h (fields (trim_space l)) r) n)

find_route-Foreign :
    (a : StaticRouteArgs) (before rest : List Str)
    → All (Foreign a) before
    → find_route a (before ++ rest) ≡ find_route a rest
unfolding find_route
find_route-Foreign a [] rest h = refl
find_route-Foreign a (l ∷ before) rest (h, hs) =
    ap (λ o. first_some o (find_route a (before ++ rest))) (answer-Foreign a l h)
    ∙ find_route-Foreign a before rest hs

find_route-command :
    (a : StaticRouteArgs) (after : List Str)
    → answer a (command a) ≡ some (row_of a)
    → find_route a (command a ∷ after) ≡ some (row_of a)
unfolding find_route
find_route-command a after h = ap (λ o. first_some o (find_route a after)) h

-- A route that the provider sent is read back: where the grepped configuration shows the command of
-- Create behind lines that are no `ip route` and routes of another VRF, prefix or next hop (a line of
-- the same three with another distance is not among them), the parser finds the route's distance (1 if it is not
-- set), tag, name, metric and track. The prefix is an IPv4 one, the distance lies in 1..255 and the
-- metric is positive where they are set, numbers fit Go's `int`, texts are words, and the other lines
-- are single lines.
pub parse-build_static_route_cmds :
    (before after : List Str) (a : StaticRouteArgs)
    → is_set (parse_prefix4 a.prefix) ≡ true
    → AreNumbers a
    → AreWords a
    → All OneLine before
    → All OneLine after
    → All (Foreign a) before
    → parse_static_route_lines
        (join (before ++ (build_static_route_cmds a false ++ after)) (codes "\n"))
        a
      ≡ some (row_of a)
unfolding parse_static_route_lines build_static_route_cmds command
parse-build_static_route_cmds before after a hp h hw lb la hb =
    ap (find_route a) (
      split-join (before ++ (command a ∷ after)) b'\n' (append-cons before (command a) after) (
        All-Lacks (before ++ (command a ∷ after)) (
          All-append OneLine before (command a ∷ after) lb
            (join-OneLine (route_words a ++ option_words a) (are_words a hw), la))))
    ∙ find_route-Foreign a before (command a ∷ after) hb
    ∙ find_route-command a after (answer-command a hp h hw)
