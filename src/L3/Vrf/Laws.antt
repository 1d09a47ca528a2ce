-- ===== src/L3/Vrf/Laws.antt =====
-- What the VRF resource sends: it leaves the mode of the VRF with `exit`, and stays in the session.
use pulumi_eos.Base.{Bool, true, false, List, [], ◌∷◌, ◌++◌, Option, none, some, ◌≡◌, refl, All}
use pulumi_eos.Text.{Str, codes, str_eq, fields}
use pulumi_eos.Text.Laws.{NoSpace}
use pulumi_eos.Commands.{is_on}
use pulumi_eos.Eapi.Device.{Stays, has_newline, stays_inside}
use pulumi_eos.Eapi.Modes.{Mode}
use pulumi_eos.Eapi.Staying.{
  OneLine, OneLine?, OneLine-append, NoSpace-OneLine, command-Stays, is_keyword, is_keyword-IsWord,
  All-Stays-IsInside, Stays-inside,
}
use pulumi_eos.Eapi.Inside.{Own, command-Own, two_words-Goes, block_inside}
use pulumi_eos.Resource.Kind.Laws.{IsSafe}
use pulumi_eos.L3.Listing.{tag-IsWord, text_line-Stays}
use pulumi_eos.L3.Vrf.{
  VrfArgs, description_cmd, on_by_default, switched, vrf_tag, build_vrf_cmds, vrf,
}

-- The name has no spaces, and the description is a single line.
abbrev pub IsSendable : VrfArgs → Type 0
IsSendable a = All NoSpace a.name × OneLine? a.description

description-Own : (o : Option Str) → OneLine? o → Own Mode.vrf_instance (description_cmd o)
unfolding str_eq is_keyword has_newline fields
description-Own none h = (refl, λ up. refl)
description-Own (some []) h = (refl, λ up. refl)
description-Own (some (c ∷ s)) h =
    command-Own Mode.vrf_instance (codes "description") (c ∷ s)
      ((is_keyword-IsWord (codes "description") refl).0, λ up ws. refl) h

switched-Stays :
    (b : Bool) (w t name : Str)
    → is_keyword w ≡ true
    → OneLine t
    → OneLine name
    → Stays (switched b (w ++ b' ' ∷ (t ++ name)))
unfolding is_keyword has_newline
switched-Stays true w t name k ht hn = text_line-Stays w t name k ht hn
switched-Stays false w t name k ht hn = command-Stays (codes "no") (w ++ b' ' ∷ (t ++ name)) refl (
    OneLine-append w (b' ' ∷ (t ++ name)) (NoSpace-OneLine w (is_keyword-IsWord w k).0.1)
      (OneLine-append t name ht hn))

abbrev routing_cmds : VrfArgs → List Str
routing_cmds a =
    switched (on_by_default a.ip_routing) (codes "ip routing vrf " ++ a.name)
    ∷ switched (is_on a.ipv6_routing) (codes "ipv6 unicast-routing vrf " ++ a.name)
    ∷ []

build_vrf_cmds-IsInside :
    (a : VrfArgs) → IsSendable a → stays_inside (build_vrf_cmds a false) [] ≡ true
unfolding build_vrf_cmds is_keyword has_newline str_eq
build_vrf_cmds-IsInside a (hn, hd) =
    let line = NoSpace-OneLine a.name hn in
    block_inside [] [] Mode.vrf_instance (codes "vrf instance " ++ a.name)
      (description_cmd a.description ∷ []) (routing_cmds a)
      (two_words-Goes (codes "vrf") (codes "instance") a.name [] (Mode.vrf_instance ∷ [])
        (is_keyword-IsWord (codes "vrf") refl).0 (is_keyword-IsWord (codes "instance") refl).0 line
        (λ ws. refl))
      (description-Own a.description hd, tt)
      (Stays-inside (routing_cmds a)
        (
          switched-Stays (on_by_default a.ip_routing) (codes "ip") (codes "routing vrf ") a.name
              refl refl line,
          (
            switched-Stays (is_on a.ipv6_routing) (codes "ipv6") (codes "unicast-routing vrf ")
                a.name refl refl line,
            tt,
          ),
        )
        [])

pub vrf-IsSafe : (a : VrfArgs) → IsSendable a → IsSafe vrf a
unfolding vrf vrf_tag build_vrf_cmds is_keyword has_newline
vrf-IsSafe a (hn, hd) =
    let line = NoSpace-OneLine a.name hn in
    (
      tag-IsWord (codes "vrf-") a.name refl hn,
      build_vrf_cmds-IsInside a (hn, hd),
      All-Stays-IsInside (build_vrf_cmds a true) (
        text_line-Stays (codes "no") (codes "ip routing vrf ") a.name refl refl line,
        (
          text_line-Stays (codes "no") (codes "ipv6 unicast-routing vrf ") a.name refl refl line,
          (text_line-Stays (codes "no") (codes "vrf instance ") a.name refl refl line, tt),
        ),
      ),
    )
