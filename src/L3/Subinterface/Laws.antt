-- ===== src/L3/Subinterface/Laws.antt =====
-- What the subinterface resource sends.
use pulumi_eos.Base.{
  ℕ, true, false, [], ◌∷◌, ◌++◌, ◌==◌, Option, none, some, refl, All, All-append, arith,
  if◌then◌else◌,
}
use pulumi_eos.Text.{Str, codes, is_space}
use pulumi_eos.Text.Decimal.{itoa}
use pulumi_eos.Text.Laws.{NoSpace}
use pulumi_eos.Eapi.Device.{Stays, has_newline}
use pulumi_eos.Eapi.Staying.{
  OneLine?, OneLine-append, NoSpace-OneLine, command-Stays, text_cmd-Stays, itoa-OneLine,
  is_keyword, All-Stays-IsInside,
}
use pulumi_eos.L2.Interface.Staying.{positive_cmd-Stays}
use pulumi_eos.Resource.Kind.Laws.{IsSafe}
use pulumi_eos.L3.Listing.{tag-IsWord, text_line-Stays}
use pulumi_eos.L3.Loopback.Laws.{state_cmd-Stays}
use pulumi_eos.L3.Subinterface.{
  SubinterfaceBfd, SubinterfaceArgs, bfd_cmd, sanitize_session_name, subinterface_tag,
  build_subinterface_cmds,
}
use pulumi_eos.L3.Subinterface.Parse.{subinterface}

-- The name has no spaces, and the texts are single lines.
abbrev pub IsSendable : SubinterfaceArgs → Type 0
IsSendable a =
    All NoSpace a.name
    × OneLine? a.description
    × OneLine? a.vrf
    × OneLine? a.ip_address
    × OneLine? a.ipv6_address

bfd_cmd-Stays : (o : Option SubinterfaceBfd) → All Stays (bfd_cmd o)
unfolding is_keyword has_newline
bfd_cmd-Stays none = tt
bfd_cmd-Stays (some b) = (
  text_line-Stays (codes "bfd") (codes "interval ")
      (itoa b.interval
        ++ (codes " min-rx " ++ (itoa b.min_rx ++ (codes " multiplier " ++ itoa b.multiplier))))
      refl refl
      (OneLine-append (itoa b.interval) _ (itoa-OneLine b.interval) (
        OneLine-append (codes " min-rx ")
          (itoa b.min_rx ++ (codes " multiplier " ++ itoa b.multiplier)) refl
          (OneLine-append (itoa b.min_rx) (codes " multiplier " ++ itoa b.multiplier)
            (itoa-OneLine b.min_rx)
            (OneLine-append (codes " multiplier ") (itoa b.multiplier) refl
              (itoa-OneLine b.multiplier))))),
  tt,
)

build_subinterface_cmds-Stays :
    (a : SubinterfaceArgs) → IsSendable a → All Stays (build_subinterface_cmds a false)
unfolding build_subinterface_cmds is_keyword has_newline
build_subinterface_cmds-Stays a h = (
  command-Stays (codes "interface") a.name refl (NoSpace-OneLine a.name h.0),
  (
    text_line-Stays (codes "encapsulation") (codes "dot1q vlan ") (itoa a.encapsulation_vlan) refl
        refl (itoa-OneLine a.encapsulation_vlan),
    All-append Stays _ _ (text_cmd-Stays (codes "description") [] a.description refl refl h.1) (
        All-append Stays _ _ (text_cmd-Stays (codes "vrf") [] a.vrf refl refl h.2) (
          All-append Stays _ _
            (text_cmd-Stays (codes "ip") (codes "address ") a.ip_address refl refl h.3)
            (All-append Stays _ _
              (text_cmd-Stays (codes "ipv6") (codes "address ") a.ipv6_address refl refl h.4)
              (All-append Stays _ _ (positive_cmd-Stays (codes "mtu") [] a.mtu refl refl)
                (All-append Stays _ _ (bfd_cmd-Stays a.bfd) (state_cmd-Stays a.shutdown, tt)))))),
  ),
)

no_dot : (c : ℕ) → NoSpace c → NoSpace (if c == b'.' then b'-' else c)
unfolding is_space
no_dot c h = ground arith

sanitized-NoSpace : (s : Str) → All NoSpace s → All NoSpace (sanitize_session_name s)
unfolding sanitize_session_name
sanitized-NoSpace [] h = tt
sanitized-NoSpace (c ∷ s) (h, hs) = (no_dot c h, sanitized-NoSpace s hs)

pub subinterface-IsSafe : (a : SubinterfaceArgs) → IsSendable a → IsSafe subinterface a
unfolding subinterface subinterface_tag build_subinterface_cmds is_keyword has_newline
subinterface-IsSafe a h = (
  tag-IsWord (codes "subif-") (sanitize_session_name a.name) refl (sanitized-NoSpace a.name h.0),
  All-Stays-IsInside (build_subinterface_cmds a false) (build_subinterface_cmds-Stays a h),
  All-Stays-IsInside (build_subinterface_cmds a true) (
    text_line-Stays (codes "no") (codes "interface ") a.name refl refl (NoSpace-OneLine a.name h.0),
    tt,
  ),
)
