-- ===== src/L3/StaticRoute/Echo.antt =====
-- `parseStaticRouteLine` reads the command that `buildStaticRouteCmds` writes.
use pulumi_eos.Base.{
  true, false, not, ◌&&◌, List, [], ◌∷◌, ◌++◌, Option, none, some, ◌≡◌, refl, sym, ap, ◌∙◌, arith,
  All, All-append, Bool-cases, inl, inr, ℤ, pos, ltb_ℤ, eqb_ℤ, eqb_ℤ_iff, ◌≤ℤ◌, append_assoc,
  append-nil, false≢true,
}
use mathlib.Core.Path.{subst}
use pulumi_eos.Text.{Str, codes, str_eq, join}
use pulumi_eos.Text.Decimal.{itoa, atoi, IsInt, atoi-itoa}
use pulumi_eos.Text.Laws.{str_eq_iff, str_eq_refl}
use pulumi_eos.Text.Split.{IsWord, fields-join}
use pulumi_eos.Text.Netip.{parse_prefix4}
use pulumi_eos.L2.Switchport.{taken_or}
use pulumi_eos.L2.Switchport.Laws.{IfSet}
use pulumi_eos.L3.PrefixList.{is_set}
use pulumi_eos.L3.StaticRoute.{
  StaticRouteArgs, vrf_or, distance_or_one, vrf_words, distance_words, tag_words, metric_words,
  text_words, route_words, option_words,
}
use pulumi_eos.L3.StaticRoute.Parse.{
  StaticRouteRow, Line, base, parse_options, from_distance, parse_tail, parse_hop, parse_tokens,
  parse_static_route_line, is_wanted,
}
use pulumi_eos.L3.StaticRoute.Laws.{AreWords, route_words-IsWord, option_words-IsWord}

-- The numbers of a valid route, which also fit a Go `int`.
abbrev pub AreNumbers : StaticRouteArgs → Type 0
AreNumbers a =
    IfSet (λ d. IsInt d × (pos 1 ≤ℤ d) × (d ≤ℤ pos 255)) a.distance
    × IfSet IsInt a.tag
    × IfSet (λ m. IsInt m × (pos 1 ≤ℤ m)) a.metric

-- Words that do not start with a number.
abbrev Plain : List Str → Type 0
Plain ws = parse_tail ws ≡ parse_options ws base

Plain-pair : (key v : Str) (rest : List Str) → atoi key ≡ none → Plain (key ∷ v ∷ rest)
Plain-pair key v rest h = ap (from_distance key (v ∷ rest)) h

Plain-tag : (o : Option ℤ) (rest : List Str) → Plain rest → Plain (tag_words o ++ rest)
unfolding atoi
Plain-tag none rest h = h
Plain-tag (some n) rest h = elim (Bool-cases (eqb_ℤ n (pos 0))) [
  | inl e ↦ rw e h
  | inr e ↦ rw e (Plain-pair (codes "tag") (itoa n) rest refl)
]

Plain-metric : (o : Option ℤ) (rest : List Str) → Plain rest → Plain (metric_words o ++ rest)
unfolding atoi
Plain-metric none rest h = h
Plain-metric (some n) rest h = elim (Bool-cases (ltb_ℤ (pos 0) n)) [
  | inl e ↦ rw e (Plain-pair (codes "metric") (itoa n) rest refl)
  | inr e ↦ rw e h
]

Plain-text :
    (key : Str) (o : Option Str) (rest : List Str)
    → atoi key ≡ none
    → Plain rest
    → Plain (text_words key o ++ rest)
unfolding str_eq
Plain-text key none rest k h = h
Plain-text key (some []) rest k h = h
Plain-text key (some (c ∷ s)) rest k h = Plain-pair key (c ∷ s) rest k

Plain-options : (a : StaticRouteArgs) → Plain (option_words a)
unfolding atoi parse_options
Plain-options a = Plain-tag a.tag _ (
    Plain-text (codes "name") a.name _ refl (
      Plain-metric a.metric _ (
        subst Plain (append-nil (text_words (codes "track") a.track))
          (Plain-text (codes "track") a.track [] refl refl))))

-- One option after the other fills its field.
options-tag :
    (o : Option ℤ) (rest : List Str) (row : StaticRouteRow)
    → IfSet IsInt o
    → parse_options (tag_words o ++ rest) (record row { tag = pos 0 })
      ≡ parse_options rest (record row { tag = taken_or (pos 0) o })
unfolding parse_options str_eq
options-tag none rest row h = refl
options-tag (some n) rest row h = elim (Bool-cases (eqb_ℤ n (pos 0))) [
  | inl e ↦
      rw e (ap (λ z. parse_options rest (record row { tag = z })) (sym ((eqb_ℤ_iff n (pos 0)).0 e)))
  | inr e ↦
      rw e (ap (λ o. parse_options rest (record row { tag = taken_or (pos 0) o })) (atoi-itoa n h))
]

options-metric :
    (o : Option ℤ) (rest : List Str) (row : StaticRouteRow)
    → IfSet (λ m. IsInt m × (pos 1 ≤ℤ m)) o
    → parse_options (metric_words o ++ rest) (record row { metric = pos 0 })
      ≡ parse_options rest (record row { metric = taken_or (pos 0) o })
unfolding parse_options str_eq
options-metric none rest row h = refl
options-metric (some n) rest row (hi, hp) = elim (Bool-cases (ltb_ℤ (pos 0) n)) [
  | inl e ↦
      rw e
        (ap (λ o. parse_options rest (record row { metric = taken_or (pos 0) o })) (atoi-itoa n hi))
  | inr e ↦ ground arith
]

options-name :
    (o : Option Str) (rest : List Str) (row : StaticRouteRow)
    → parse_options (text_words (codes "name") o ++ rest) (record row { name = [] })
      ≡ parse_options rest (record row { name = vrf_or [] o })
unfolding parse_options str_eq
options-name none rest row = refl
options-name (some []) rest row = refl
options-name (some (c ∷ s)) rest row = refl

options-track :
    (o : Option Str) (row : StaticRouteRow)
    → parse_options (text_words (codes "track") o) (record row { track = [] })
      ≡ record row { track = vrf_or [] o }
unfolding parse_options str_eq
options-track none row = refl
options-track (some []) row = refl
options-track (some (c ∷ s)) row = refl

-- What the switch keeps of a route, with the defaults where nothing is set.
abbrev pub row_of : StaticRouteArgs → StaticRouteRow
row_of a = record {
  distance = distance_or_one a.distance;
  tag = taken_or (pos 0) a.tag;
  name = vrf_or [] a.name;
  metric = taken_or (pos 0) a.metric;
  track = vrf_or [] a.track;
}

parse_options-option_words :
    (a : StaticRouteArgs) (d : ℤ)
    → AreNumbers a
    → parse_options (option_words a) (record base { distance = d })
      ≡ record (row_of a) { distance = d }
parse_options-option_words a d h =
    options-tag a.tag _ (record base { distance = d }) h.1
    ∙ options-name a.name _ (record base { distance = d; tag = taken_or (pos 0) a.tag })
    ∙ options-metric a.metric _
        (record base { distance = d; tag = taken_or (pos 0) a.tag; name = vrf_or [] a.name }) h.2
    ∙ options-track a.track (record (row_of a) { distance = d })

in_bounds :
    (d : ℤ)
    → (pos 1 ≤ℤ d) × (d ≤ℤ pos 255)
    → (not (ltb_ℤ d (pos 1)) && not (ltb_ℤ (pos 255) d)) ≡ true
in_bounds d h = ground arith

parse_tail-words :
    (a : StaticRouteArgs) (o : Option ℤ)
    → AreNumbers a
    → IfSet (λ d. IsInt d × (pos 1 ≤ℤ d) × (d ≤ℤ pos 255)) o
    → parse_tail (distance_words o ++ option_words a)
      ≡ record (row_of a) { distance = distance_or_one o }
parse_tail-words a none h ho = Plain-options a ∙ parse_options-option_words a (pos 1) h
parse_tail-words a (some d) h (hi, lo, hi') = elim (Bool-cases (eqb_ℤ d (pos 1))) [
  | inl e ↦ rw e (
      Plain-options a
      ∙ parse_options-option_words a (pos 1) h
      ∙ ap (λ z. record (row_of a) { distance = z }) (sym ((eqb_ℤ_iff d (pos 1)).0 e)))
  | inr e ↦ rw (e, atoi-itoa d hi, in_bounds d (lo, hi')) (parse_options-option_words a d h)
]

unfoldable pub line_of : StaticRouteArgs → Line
unfolding str_eq
line_of a = record {
  row = row_of a;
  vrf = vrf_or [] a.vrf;
  prefix = a.prefix;
  next_hop = a.next_hop;
}

-- A prefix is no keyword.
not_vrf : (p : Str) → is_set (parse_prefix4 p) ≡ true → str_eq p (codes "vrf") ≡ false
unfolding parse_prefix4
not_vrf p h = elim (Bool-cases (str_eq p (codes "vrf"))) [
  | inl e ↦ absurd (
      false≢true
        (subst (λ s. is_set (parse_prefix4 s) ≡ true) ((str_eq_iff p (codes "vrf")).0 e) h))
  | inr e ↦ e
]

tokens-line :
    (a : StaticRouteArgs) (o : Option Str)
    → is_set (parse_prefix4 a.prefix) ≡ true
    → parse_tokens (
        codes "ip"
        ∷ codes "route"
        ∷ (vrf_words o ++ (a.prefix ∷ a.next_hop ∷ (distance_words a.distance ++ option_words a))))
      ≡ parse_hop
          (vrf_or [] o)
          (a.prefix ∷ a.next_hop ∷ (distance_words a.distance ++ option_words a))
unfolding parse_tokens str_eq
tokens-line a none h = rw (not_vrf a.prefix h) refl
tokens-line a (some []) h = rw (not_vrf a.prefix h) refl
tokens-line a (some (c ∷ s)) h = refl

-- The words of the whole command, in the order in which they are read.
unfoldable pub words_of : StaticRouteArgs → List Str
unfolding str_eq
words_of a =
    codes "ip"
    ∷ codes "route"
    ∷ (vrf_words a.vrf ++ (a.prefix ∷ a.next_hop ∷ (distance_words a.distance ++ option_words a)))

words_of-append : (a : StaticRouteArgs) → route_words a ++ option_words a ≡ words_of a
unfolding words_of
words_of-append a =
    ap (λ ws. codes "ip" ∷ codes "route" ∷ ws)
      (append_assoc (vrf_words a.vrf) (a.prefix ∷ a.next_hop ∷ distance_words a.distance)
        (option_words a))

parse_tokens-words_of :
    (a : StaticRouteArgs)
    → is_set (parse_prefix4 a.prefix) ≡ true
    → AreNumbers a
    → parse_tokens (words_of a) ≡ some (line_of a)
unfolding words_of line_of
parse_tokens-words_of a hp h =
    tokens-line a a.vrf hp
    ∙ ap
        (λ row.
          some
            (record { row = row; vrf = vrf_or [] a.vrf; prefix = a.prefix; next_hop = a.next_hop }))
        (parse_tail-words a a.distance h h.0)

unfoldable pub command : StaticRouteArgs → Str
unfolding join str_eq
command a = join (route_words a ++ option_words a) (codes " ")

pub are_words : (a : StaticRouteArgs) → AreWords a → All IsWord (route_words a ++ option_words a)
are_words a h =
    All-append IsWord (route_words a) (option_words a) (route_words-IsWord a h)
      (option_words-IsWord a h)

pub parse_static_route_line-command :
    (a : StaticRouteArgs)
    → is_set (parse_prefix4 a.prefix) ≡ true
    → AreNumbers a
    → AreWords a
    → parse_static_route_line (command a) ≡ some (line_of a)
unfolding parse_static_route_line command
parse_static_route_line-command a hp h hw =
    ap parse_tokens
      (fields-join (route_words a ++ option_words a) (λ e. cc) (are_words a hw) ∙ words_of-append a)
    ∙ parse_tokens-words_of a hp h

pub is_wanted-line_of : (a : StaticRouteArgs) → is_wanted a (line_of a) ≡ true
unfolding line_of
is_wanted-line_of a =
    rw (str_eq_refl (vrf_or [] a.vrf), str_eq_refl a.prefix, str_eq_refl a.next_hop) refl
