-- ===== src/L2/EvpnEthernetSegment/Panics.antt =====
-- The parser on the commands of a segment whose forwarder is elected by preference, without a number.
use pulumi_eos.Base.{
  Bool, true, false, [], ◌∷◌, ◌++◌, Option, none, some, ◌≡◌, refl, ap, ◌∙◌, not, if◌then◌else◌, ℤ,
}
use pulumi_eos.Text.{
  Str, codes, str_eq, cut_prefix, split, join, trim_space, trim_right, is_space, fields,
}
use pulumi_eos.Text.Laws.{contains-append, str_eq_refl}
use pulumi_eos.Text.Split.{split-join}
use pulumi_eos.Eapi.Staying.{All-Lacks}
use pulumi_eos.L3.Listing.{over_lines, over_lines-append}
use pulumi_eos.L2.EvpnEthernetSegment.{EvpnEthernetSegmentArgs, build_evpn_ethernet_segment_cmds}
use pulumi_eos.L2.EvpnEthernetSegment.Parse.{
  EvpnEthernetSegmentRow, Walk, start, step, in_segment, if_found, parse_segment_line,
  parse_df_algorithm_line, parse_evpn_ethernet_segment_config,
}
use pulumi_eos.L2.EvpnEthernetSegment.Filling.{
  over-none, over-Fills, trimmed, by_preference, hold_cmd, preference_line, filling, Named,
  filling-Fills, lines, lines-OneLine, build-lines,
}

own-header :
    (parent : Str)
    → step (codes "interface " ++ parent) (codes "interface " ++ parent) (some start) ≡ some start
unfolding step cut_prefix str_eq
own-header parent =
    ap
      (λ b.
        in_segment (codes "interface " ++ parent)
          (if not b then record start { in_es = false } else start))
      (str_eq_refl (codes "interface " ++ parent))

-- The loop is outside the segment before its line, and `found` behind it.
abbrev headed : Str → EvpnEthernetSegmentArgs → Option Walk
headed header a =
    over_lines (step header)
      ((codes "interface " ++ a.parent_interface)
        ∷ codes "no evpn ethernet-segment"
        ∷ codes "evpn ethernet-segment"
        ∷ filling a)
      (some start)

headed-fills :
    (a : EvpnEthernetSegmentArgs)
    → Named a
    → (row : EvpnEthernetSegmentRow) × (headed (codes "interface " ++ a.parent_interface) a
        ≡ some (record { row = row; in_es = true; found = true }))
unfolding over_lines step cut_prefix str_eq trim_space trim_right is_space
headed-fills a h =
    let header = codes "interface " ++ a.parent_interface in
    let (row, e) = over-Fills header (filling a) start.row true (filling-Fills header a h) in
    (
      row,
      ap
            (λ s.
              over_lines (step header)
                (codes "no evpn ethernet-segment" ∷ codes "evpn ethernet-segment" ∷ filling a) s)
            (ap (λ l. step header l (some start))
                (trimmed header b'i' (codes "nterface ") a.parent_interface refl h.0)
              ∙ own-header a.parent_interface)
          ∙ e,
    )

preference_line-stops :
    (header : Str) (row : EvpnEthernetSegmentRow)
    → step header
        (trim_space preference_line)
        (some (record { row = row; in_es = true; found = true }))
      ≡ none
unfolding step cut_prefix str_eq trim_space trim_right is_space parse_segment_line
    parse_df_algorithm_line fields
preference_line-stops header row = refl

parse-lines :
    (a : EvpnEthernetSegmentArgs) (t : Option ℤ)
    → Named a
    → parse_evpn_ethernet_segment_config (join (lines a t) (codes "\n")) a.parent_interface ≡ none
unfolding parse_evpn_ethernet_segment_config join over_lines
parse-lines a t h =
    let header = codes "interface " ++ a.parent_interface in
    let (row, e) = headed-fills a h in
    ap
      (λ b.
        if b
        then if_found
            (over_lines (step header) (split (join (lines a t) (codes "\n")) b'\n') (some start))
        else some none)
      (contains-append [] header _)
    ∙ ap (λ ls. if_found (over_lines (step header) ls (some start)))
        (split-join (lines a t) b'\n' (λ x. cc) (All-Lacks (lines a t) (lines-OneLine a t h)))
    ∙ ap if_found (
        over_lines-append (step header)
          (header ∷ codes "no evpn ethernet-segment" ∷ codes "evpn ethernet-segment" ∷ filling a)
          (preference_line ∷ hold_cmd t) (some start)
        ∙ ap (over_lines (step header) (preference_line ∷ hold_cmd t)) e
        ∙ ap (over_lines (step header) (hold_cmd t)) (preference_line-stops header row)
        ∙ over-none header (hold_cmd t))

-- Read panics on the very commands that Create sends for an Ethernet segment whose designated
-- forwarder is elected by preference without a number: where the running configuration shows these
-- commands, the parser slices a list behind its end, which is `none` here. The parent's name and
-- the other texts that are given are words.
pub parse-preference_panics :
    (a : EvpnEthernetSegmentArgs) (dont_preempt : Option Bool) (hold_time : Option ℤ)
    → Named a
    → parse_evpn_ethernet_segment_config
        (join
          (build_evpn_ethernet_segment_cmds
            (record a { designated_forwarder = some (by_preference dont_preempt hold_time) })
            false)
          (codes "\n"))
        a.parent_interface
      ≡ none
parse-preference_panics a b t h =
    ap (λ ls. parse_evpn_ethernet_segment_config (join ls (codes "\n")) a.parent_interface)
      (build-lines a b t)
    ∙ parse-lines a t h
