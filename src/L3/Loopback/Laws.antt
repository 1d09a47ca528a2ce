-- ===== src/L3/Loopback/Laws.antt =====
-- What the loopback resource sends.
use pulumi_eos.Base.{Bool, true, false, [], ◌++◌, Option, none, some, refl, All, All-append}
use pulumi_eos.Text.{codes}
use pulumi_eos.Text.Decimal.{itoa}
use pulumi_eos.Commands.{state_cmd}
use pulumi_eos.Eapi.Device.{Stays, has_newline, leaves_session}
use pulumi_eos.Eapi.Staying.{
  OneLine?, OneLine-append, command-Stays, text_cmd-Stays, itoa-OneLine, itoa-NoSpace, is_keyword,
  All-Stays-IsInside,
}
use pulumi_eos.Resource.Kind.Laws.{IsSafe}
use pulumi_eos.L3.Listing.{tag-IsWord}
use pulumi_eos.L3.Loopback.{
  LoopbackArgs, loopback_name, loopback_tag, build_loopback_cmds, loopback,
}

pub state_cmd-Stays : (o : Option Bool) → Stays (state_cmd o)
unfolding leaves_session
state_cmd-Stays none = refl
state_cmd-Stays (some true) = refl
state_cmd-Stays (some false) = refl

-- The texts are single lines.
abbrev pub IsSendable : LoopbackArgs → Type 0
IsSendable a =
    OneLine? a.description × OneLine? a.vrf × OneLine? a.ip_address × OneLine? a.ipv6_address

build_loopback_cmds-Stays :
    (a : LoopbackArgs) → IsSendable a → All Stays (build_loopback_cmds a false)
unfolding build_loopback_cmds is_keyword has_newline
build_loopback_cmds-Stays a h = (
  command-Stays (codes "interface") (loopback_name a.loopback) refl
      (OneLine-append (codes "Loopback") (itoa a.loopback) refl (itoa-OneLine a.loopback)),
  All-append Stays _ _ (text_cmd-Stays (codes "description") [] a.description refl refl h.0) (
      All-append Stays _ _ (text_cmd-Stays (codes "vrf") [] a.vrf refl refl h.1) (
        All-append Stays _ _
          (text_cmd-Stays (codes "ip") (codes "address ") a.ip_address refl refl h.2)
          (All-append Stays _ _
            (text_cmd-Stays (codes "ipv6") (codes "address ") a.ipv6_address refl refl h.3)
            (state_cmd-Stays a.shutdown, tt)))),
)

pub loopback-IsSafe : (a : LoopbackArgs) → IsSendable a → IsSafe loopback a
unfolding loopback loopback_tag build_loopback_cmds is_keyword has_newline
loopback-IsSafe a h = (
  tag-IsWord (codes "loopback-") (itoa a.loopback) refl (itoa-NoSpace a.loopback),
  All-Stays-IsInside (build_loopback_cmds a false) (build_loopback_cmds-Stays a h),
  All-Stays-IsInside (build_loopback_cmds a true) (
    command-Stays (codes "no") (codes "interface " ++ loopback_name a.loopback) refl (
        OneLine-append (codes "interface Loopback") (itoa a.loopback) refl
          (itoa-OneLine a.loopback)),
    tt,
  ),
)
