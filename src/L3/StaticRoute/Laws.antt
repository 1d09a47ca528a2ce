-- ===== src/L3/StaticRoute/Laws.antt =====
-- What the static route resource sends.
use pulumi_eos.Base.{
  true, false, true, List, [], ◌∷◌, ◌++◌, Option, none, some, ◌≡◌, refl, All, All-append,
  Bool-cases, inl, inr, ℤ, pos, ltb_ℤ, eqb_ℤ,
}
use pulumi_eos.Text.{Str, codes, str_eq, join, is_space}
use pulumi_eos.Text.Laws.{NoSpace}
use pulumi_eos.Text.Split.{IsWord}
use pulumi_eos.Eapi.Staying.{
  All-Stays-IsInside, command-Stays, is_keyword, is_keyword-IsWord, itoa-NoSpace,
}
use pulumi_eos.L2.Interface.Staying.{NameRune}
use pulumi_eos.L2.Switchport.Laws.{IfSet}
use pulumi_eos.Resource.Kind.Laws.{IsSafe}
use pulumi_eos.L3.PrefixList.{sanitize_prefix_list_name}
use pulumi_eos.L3.PrefixList.Echo.{itoa-IsWord}
use pulumi_eos.L3.PrefixList.Lines.{join-OneLine}
use pulumi_eos.L3.PrefixList.Transactions.{sanitize-NoSpace}
use pulumi_eos.L3.Listing.{tag-IsWord}
use pulumi_eos.L3.StaticRoute.{
  StaticRouteArgs, vrf_or, distance_or_one, static_route_session_token, static_route_tag, vrf_words,
  distance_words, tag_words, metric_words, text_words, route_words, option_words,
  build_static_route_cmds,
}
use pulumi_eos.L3.StaticRoute.Parse.{static_route}

-- The texts are words.
abbrev pub AreWords : StaticRouteArgs → Type 0
AreWords a =
    IfSet IsWord a.vrf
    × IsWord a.prefix
    × IsWord a.next_hop
    × IfSet IsWord a.name
    × IfSet IsWord a.track

keyword : (w : Str) → is_keyword w ≡ true → IsWord w
keyword w k = (is_keyword-IsWord w k).0

pub text_words-IsWord :
    (key : Str) (o : Option Str) → IsWord key → IfSet IsWord o → All IsWord (text_words key o)
unfolding str_eq
text_words-IsWord key none k h = tt
text_words-IsWord key (some []) k h = tt
text_words-IsWord key (some (c ∷ s)) k h = (k, (h, tt))

vrf_words-IsWord : (o : Option Str) → IfSet IsWord o → All IsWord (vrf_words o)
unfolding str_eq is_keyword
vrf_words-IsWord none h = tt
vrf_words-IsWord (some []) h = tt
vrf_words-IsWord (some (c ∷ s)) h = (keyword (codes "vrf") refl, (h, tt))

distance_words-IsWord : (o : Option ℤ) → All IsWord (distance_words o)
distance_words-IsWord none = tt
distance_words-IsWord (some d) = elim (Bool-cases (eqb_ℤ d (pos 1))) [
  | inl e ↦ rw e tt
  | inr e ↦ rw e (itoa-IsWord d, tt)
]

tag_words-IsWord : (o : Option ℤ) → All IsWord (tag_words o)
unfolding is_keyword
tag_words-IsWord none = tt
tag_words-IsWord (some n) = elim (Bool-cases (eqb_ℤ n (pos 0))) [
  | inl e ↦ rw e tt
  | inr e ↦ rw e (keyword (codes "tag") refl, (itoa-IsWord n, tt))
]

metric_words-IsWord : (o : Option ℤ) → All IsWord (metric_words o)
unfolding is_keyword
metric_words-IsWord none = tt
metric_words-IsWord (some n) = elim (Bool-cases (ltb_ℤ (pos 0) n)) [
  | inl e ↦ rw e (keyword (codes "metric") refl, (itoa-IsWord n, tt))
  | inr e ↦ rw e tt
]

pub route_words-IsWord : (a : StaticRouteArgs) → AreWords a → All IsWord (route_words a)
unfolding is_keyword
route_words-IsWord a h = (
  keyword (codes "ip") refl,
  (
    keyword (codes "route") refl,
    All-append IsWord (vrf_words a.vrf) _ (vrf_words-IsWord a.vrf h.0)
        (h.1, (h.2, distance_words-IsWord a.distance)),
  ),
)

pub option_words-IsWord : (a : StaticRouteArgs) → AreWords a → All IsWord (option_words a)
unfolding is_keyword
option_words-IsWord a h = All-append IsWord (tag_words a.tag) _ (tag_words-IsWord a.tag) (
    All-append IsWord (text_words (codes "name") a.name) _
      (text_words-IsWord (codes "name") a.name (keyword (codes "name") refl) h.3)
      (All-append IsWord (metric_words a.metric) _ (metric_words-IsWord a.metric)
        (text_words-IsWord (codes "track") a.track (keyword (codes "track") refl) h.4)))

NoSpace-NameRune : (s : Str) → All NoSpace s → All NameRune s
NoSpace-NameRune [] h = tt
NoSpace-NameRune (c ∷ s) (h, hs) = (inr h, NoSpace-NameRune s hs)

pub NoSpace-sanitized : (s : Str) → All NoSpace s → All NoSpace (sanitize_prefix_list_name s)
NoSpace-sanitized s h = sanitize-NoSpace s (NoSpace-NameRune s h)

vrf_or-NoSpace : (o : Option Str) → IfSet IsWord o → All NoSpace (vrf_or (codes "default") o)
unfolding str_eq is_keyword
vrf_or-NoSpace none h = (keyword (codes "default") refl).1
vrf_or-NoSpace (some []) h = (keyword (codes "default") refl).1
vrf_or-NoSpace (some (c ∷ s)) h = h.1

token-NoSpace : (a : StaticRouteArgs) → AreWords a → All NoSpace (static_route_session_token a)
unfolding static_route_session_token is_space
token-NoSpace a h =
    All-append NoSpace (sanitize_prefix_list_name (vrf_or (codes "default") a.vrf)) _
      (NoSpace-sanitized _ (vrf_or-NoSpace a.vrf h.0))
      (
        refl,
        All-append NoSpace (sanitize_prefix_list_name a.prefix) _ (NoSpace-sanitized a.prefix h.1.1)
            (
              refl,
              All-append NoSpace (sanitize_prefix_list_name a.next_hop) _
                  (NoSpace-sanitized a.next_hop h.2.1)
                  (refl, itoa-NoSpace (distance_or_one a.distance)),
            ),
      )

-- The words of the command behind the first.
abbrev pub behind_ip : StaticRouteArgs → List Str
behind_ip a =
    codes "route"
    ∷ ((vrf_words a.vrf ++ (a.prefix ∷ a.next_hop ∷ distance_words a.distance)) ++ option_words a)

pub static_route-IsSafe : (a : StaticRouteArgs) → AreWords a → IsSafe static_route a
unfolding static_route static_route_tag build_static_route_cmds is_keyword join
static_route-IsSafe a h = (
  tag-IsWord (codes "route-") (static_route_session_token a) refl (token-NoSpace a h),
  All-Stays-IsInside (build_static_route_cmds a false) (
    command-Stays (codes "ip") (join (behind_ip a) (codes " ")) refl (
        join-OneLine (behind_ip a)
          (All-append IsWord (route_words a) (option_words a) (route_words-IsWord a h)
            (option_words-IsWord a h)).1),
    tt,
  ),
  All-Stays-IsInside (build_static_route_cmds a true) (
    command-Stays (codes "no") (join (route_words a) (codes " ")) refl
        (join-OneLine (route_words a) (route_words-IsWord a h)),
    tt,
  ),
)
