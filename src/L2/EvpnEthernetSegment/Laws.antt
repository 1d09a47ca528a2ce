-- ===== src/L2/EvpnEthernetSegment/Laws.antt =====
-- What the EVPN Ethernet segment resource sends.
use pulumi_eos.Base.{
  Bool, true, false, [], ◌++◌, Option, none, some, refl, All, All-append, Bool-cases, inl, inr, ℤ,
}
use pulumi_eos.Text.{codes, str_eq}
use pulumi_eos.Text.Decimal.{itoa}
use pulumi_eos.Eapi.Device.{Stays, has_newline, leaves_session}
use pulumi_eos.Eapi.Staying.{
  OneLine, OneLine?, OneLine-append, command-Stays, text_cmd-Stays, itoa-OneLine, is_keyword,
  All-Stays-IsInside,
}
use pulumi_eos.L2.Interface.Staying.{NameRune, positive_cmd-Stays, sanitize_for_session-NoSpace}
use pulumi_eos.L2.Switchport.Laws.{IfSet}
use pulumi_eos.Resource.Kind.Laws.{IsSafe}
use pulumi_eos.L3.Listing.{NameRune-OneLine, tag-IsWord, text_line-Stays}
use pulumi_eos.L2.EvpnEthernetSegment.{
  DesignatedForwarder, EvpnEthernetSegmentArgs, es_df_algorithm_preference, dont_preempt_part,
  preference_part, algorithm_cmd, df_election_cmds, evpn_ethernet_segment_tag,
  build_evpn_ethernet_segment_cmds, evpn_ethernet_segment,
}

-- The parent's name has no spaces but blanks, and the texts are single lines.
abbrev pub IsSendable : EvpnEthernetSegmentArgs → Type 0
IsSendable a =
    All NameRune a.parent_interface
    × OneLine a.identifier
    × OneLine? a.redundancy
    × OneLine? a.route_target_import
    × IfSet (λ d. OneLine d.algorithm) a.designated_forwarder

dont_preempt_part-OneLine : (o : Option Bool) → OneLine (dont_preempt_part o)
unfolding has_newline
dont_preempt_part-OneLine none = refl
dont_preempt_part-OneLine (some true) = refl
dont_preempt_part-OneLine (some false) = refl

preference_part-OneLine :
    (b : Bool) (d : DesignatedForwarder) (o : Option ℤ) → OneLine (preference_part b d o)
unfolding has_newline
preference_part-OneLine true d (some p) =
    OneLine-append (itoa p) (dont_preempt_part d.dont_preempt) (itoa-OneLine p)
      (dont_preempt_part-OneLine d.dont_preempt)
preference_part-OneLine true d none = refl
preference_part-OneLine false d o = refl

algorithm_cmd-Stays : (d : DesignatedForwarder) → OneLine d.algorithm → All Stays (algorithm_cmd d)
unfolding is_keyword has_newline
algorithm_cmd-Stays d h =
    let part = preference_part (str_eq d.algorithm es_df_algorithm_preference) d d.preference in
    elim (Bool-cases (str_eq d.algorithm [])) [
      | inl e ↦ rw e tt
      | inr e ↦ rw e (
        text_line-Stays (codes "designated-forwarder") (codes "election algorithm ")
            (d.algorithm ++ part) refl refl
            (OneLine-append d.algorithm part h (
              preference_part-OneLine (str_eq d.algorithm es_df_algorithm_preference) d
                d.preference)),
        tt,
      )
    ]

df_election_cmds-Stays :
    (o : Option DesignatedForwarder)
    → IfSet (λ d. OneLine d.algorithm) o
    → All Stays (df_election_cmds o)
unfolding df_election_cmds is_keyword has_newline
df_election_cmds-Stays none h = tt
df_election_cmds-Stays (some d) h = All-append Stays _ _ (algorithm_cmd-Stays d h) (
    positive_cmd-Stays (codes "designated-forwarder") (codes "election hold-time ") d.hold_time refl
      refl)

pub evpn_ethernet_segment-IsSafe :
    (a : EvpnEthernetSegmentArgs) → IsSendable a → IsSafe evpn_ethernet_segment a
unfolding evpn_ethernet_segment evpn_ethernet_segment_tag build_evpn_ethernet_segment_cmds
    is_keyword has_newline leaves_session
evpn_ethernet_segment-IsSafe a h =
    let first =
      command-Stays (codes "interface") a.parent_interface refl
        (NameRune-OneLine a.parent_interface h.0) in
    (
      tag-IsWord (codes "es-") _ refl (sanitize_for_session-NoSpace a.parent_interface h.0),
      All-Stays-IsInside (build_evpn_ethernet_segment_cmds a false) (
        first,
        (
          refl,
          (
            refl,
            (
              command-Stays (codes "identifier") a.identifier refl h.1,
              All-append Stays _ _
                  (text_cmd-Stays (codes "redundancy") [] a.redundancy refl refl h.2)
                  (All-append Stays _ _
                    (text_cmd-Stays (codes "route-target") (codes "import ") a.route_target_import
                      refl refl h.3)
                    (df_election_cmds-Stays a.designated_forwarder h.4)),
            ),
          ),
        ),
      ),
      All-Stays-IsInside (build_evpn_ethernet_segment_cmds a true) (first, (refl, tt)),
    )
