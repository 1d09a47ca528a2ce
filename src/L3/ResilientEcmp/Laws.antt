-- ===== src/L3/ResilientEcmp/Laws.antt =====
-- What the resilient ECMP resource sends.
use pulumi_eos.Base.{Bool, true, false, ◌++◌, Option, none, some, refl, All, Bool-cases, inl, inr}
use pulumi_eos.Text.{Str, codes, str_eq}
use pulumi_eos.Text.Decimal.{itoa}
use pulumi_eos.Text.Laws.{NoSpace}
use pulumi_eos.Eapi.Device.{Stays, has_newline}
use pulumi_eos.Eapi.Staying.{
  OneLine, OneLine-append, NoSpace-OneLine, command-Stays, itoa-OneLine, is_keyword,
  All-Stays-IsInside,
}
use pulumi_eos.Resource.Kind.Laws.{IsSafe}
use pulumi_eos.L3.Listing.{tag-IsWord}
use pulumi_eos.L3.PrefixList.{sanitize_prefix_list_name}
use pulumi_eos.L3.StaticRoute.Laws.{NoSpace-sanitized}
use pulumi_eos.L3.ResilientEcmp.{
  ResilientEcmpArgs, resilient_ecmp_keyword, resilient_ecmp_tag, ordered_part, ecmp_words,
  build_resilient_ecmp_cmds, family_or_none, canonicalise_family, resilient_ecmp,
}

ordered_part-OneLine : (o : Option Bool) → OneLine (ordered_part o)
unfolding has_newline
ordered_part-OneLine none = refl
ordered_part-OneLine (some true) = refl
ordered_part-OneLine (some false) = refl

abbrev numbers : ResilientEcmpArgs → Str
numbers a =
    codes " capacity "
    ++ (itoa a.capacity ++ (codes " redundancy " ++ (itoa a.redundancy ++ ordered_part a.ordered)))

numbers-OneLine : (a : ResilientEcmpArgs) → OneLine (numbers a)
unfolding has_newline
numbers-OneLine a =
    OneLine-append (itoa a.capacity)
      (codes " redundancy " ++ (itoa a.redundancy ++ ordered_part a.ordered))
      (itoa-OneLine a.capacity)
      (OneLine-append (itoa a.redundancy) (ordered_part a.ordered) (itoa-OneLine a.redundancy)
        (ordered_part-OneLine a.ordered))

keyword-Stays :
    (family x : Str) → OneLine x → Stays (resilient_ecmp_keyword family ++ (ecmp_words ++ x))
unfolding resilient_ecmp_keyword is_keyword has_newline
keyword-Stays family x h = elim (Bool-cases (str_eq family (codes "ipv6"))) [
  | inl e ↦ rw e (command-Stays (codes "ipv6") (codes "hardware fib ecmp resilience " ++ x) refl h)
  | inr e ↦ rw e (command-Stays (codes "ip") (codes "hardware fib ecmp resilience " ++ x) refl h)
]

keyword-OneLine :
    (family x : Str) → OneLine x → OneLine (resilient_ecmp_keyword family ++ (ecmp_words ++ x))
unfolding resilient_ecmp_keyword has_newline
keyword-OneLine family x h = elim (Bool-cases (str_eq family (codes "ipv6"))) [
  | inl e ↦ rw e h
  | inr e ↦ rw e h
]

build-Stays :
    (a : ResilientEcmpArgs) (family : Str) (remove : Bool)
    → All NoSpace a.prefix
    → All Stays (build_resilient_ecmp_cmds a family remove)
unfolding build_resilient_ecmp_cmds is_keyword
build-Stays a family true h = (
  command-Stays (codes "no") (resilient_ecmp_keyword family ++ (ecmp_words ++ a.prefix)) refl
      (keyword-OneLine family a.prefix (NoSpace-OneLine a.prefix h)),
  tt,
)
build-Stays a family false h = (
  keyword-Stays family (a.prefix ++ numbers a)
      (OneLine-append a.prefix (numbers a) (NoSpace-OneLine a.prefix h) (numbers-OneLine a)),
  tt,
)

pub resilient_ecmp-IsSafe : (a : ResilientEcmpArgs) → All NoSpace a.prefix → IsSafe resilient_ecmp a
unfolding resilient_ecmp resilient_ecmp_tag is_keyword
resilient_ecmp-IsSafe a h =
    let family = family_or_none (canonicalise_family a) in
    (
      tag-IsWord (codes "recmp-") (sanitize_prefix_list_name a.prefix) refl
          (NoSpace-sanitized a.prefix h),
      All-Stays-IsInside (build_resilient_ecmp_cmds a family false) (build-Stays a family false h),
      All-Stays-IsInside (build_resilient_ecmp_cmds a family true) (build-Stays a family true h),
    )
