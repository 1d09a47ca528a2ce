-- ===== src/L2/EvpnEthernetSegment/Filling.antt =====
-- The lines of an Ethernet segment, and the loop of `parseEvpnEthernetSegmentConfig` on those that only
-- fill the row.
use pulumi_eos.Base.{
  ℕ, Bool, true, false, List, [], ◌∷◌, ◌++◌, Option, none, some, ◌≡◌, refl, sym, ap, ◌∙◌, All,
  All-append, append_assoc, ℤ, pos, ltb_ℤ, Bool-cases, inl, inr,
}
use pulumi_eos.Text.{Str, codes, str_eq, cut_prefix, trim_space, is_space}
use pulumi_eos.Text.Decimal.{itoa}
use pulumi_eos.Text.Laws.{trim_space-visible}
use pulumi_eos.Text.Split.{IsWord}
use pulumi_eos.Commands.{text_cmd, positive_cmd}
use pulumi_eos.Eapi.Device.{has_newline}
use pulumi_eos.Eapi.Staying.{OneLine, OneLine-append, NoSpace-OneLine, itoa-OneLine}
use pulumi_eos.L2.Interface.Lines.{trim_right-word}
use pulumi_eos.L2.Switchport.Laws.{IfSet}
use pulumi_eos.L3.Listing.{over_lines}
use pulumi_eos.L2.EvpnEthernetSegment.{
  DesignatedForwarder, EvpnEthernetSegmentArgs, es_df_algorithm_preference, df_header,
  df_election_cmds, build_evpn_ethernet_segment_cmds,
}
use pulumi_eos.L2.EvpnEthernetSegment.Parse.{EvpnEthernetSegmentRow, step, parse_segment_line}

module _ (header : Str) where
  pub over-none : (ls : List Str) → over_lines (step header) ls none ≡ none
  unfolding over_lines step
  over-none [] = refl
  over-none (l ∷ ls) = over-none ls

  -- A line inside the segment that only fills the row.
  abbrev pub Fills : Str → Type 0
  Fills l =
      (row : EvpnEthernetSegmentRow) (f : Bool)
      → (row' : EvpnEthernetSegmentRow) × (step header (trim_space l)
            (some (record { row = row; in_es = true; found = f }))
          ≡ some (record { row = row'; in_es = true; found = f }))

  pub over-Fills :
      (ls : List Str) (row : EvpnEthernetSegmentRow) (f : Bool)
      → All Fills ls
      → (row' : EvpnEthernetSegmentRow) × (over_lines
            (step header)
            ls
            (some (record { row = row; in_es = true; found = f }))
          ≡ some (record { row = row'; in_es = true; found = f }))
  unfolding over_lines
  over-Fills [] row f h = (row, refl)
  over-Fills (l ∷ ls) row f (h, hs) =
      let (next, e) = h row f in
      let (last, k) = over-Fills ls next f hs in (last, ap (over_lines (step header) ls) e ∙ k)

  pub trimmed :
      (c : ℕ) (w s : Str) → is_space c ≡ false → IsWord s → trim_space (c ∷ (w ++ s)) ≡ c ∷ (w ++ s)
  trimmed c w s h k = trim_space-visible c (w ++ s) h (trim_right-word (c ∷ w) s k)

  identifier-Fills : (s : Str) → IsWord s → Fills (codes "identifier " ++ s)
  unfolding step cut_prefix str_eq parse_segment_line is_space
  identifier-Fills s h row f = (
    record row { identifier = s },
    ap (λ l. step header l (some (record { row = row; in_es = true; found = f })))
        (trimmed b'i' (codes "dentifier ") s refl h),
  )

  redundancy-Fills :
      (o : Option Str) → IfSet IsWord o → All Fills (text_cmd (codes "redundancy ") o)
  unfolding step cut_prefix str_eq parse_segment_line is_space
  redundancy-Fills none h = tt
  redundancy-Fills (some []) h = tt
  redundancy-Fills (some (c ∷ s)) h = (
    λ row f. (
      record row { redundancy = c ∷ s },
      ap (λ l. step header l (some (record { row = row; in_es = true; found = f })))
          (trimmed b'r' (codes "edundancy ") (c ∷ s) refl h),
    ),
    tt,
  )

  route_target-Fills :
      (o : Option Str) → IfSet IsWord o → All Fills (text_cmd (codes "route-target import ") o)
  unfolding step cut_prefix str_eq parse_segment_line is_space
  route_target-Fills none h = tt
  route_target-Fills (some []) h = tt
  route_target-Fills (some (c ∷ s)) h = (
    λ row f. (
      record row { route_target_import = c ∷ s },
      ap (λ l. step header l (some (record { row = row; in_es = true; found = f })))
          (trimmed b'r' (codes "oute-target import ") (c ∷ s) refl h),
    ),
    tt,
  )

text_cmd-OneLine :
    (p : Str) (o : Option Str) → OneLine p → IfSet IsWord o → All OneLine (text_cmd p o)
unfolding str_eq
text_cmd-OneLine p none hp h = tt
text_cmd-OneLine p (some []) hp h = tt
text_cmd-OneLine p (some (c ∷ s)) hp h =
    (OneLine-append p (c ∷ s) hp (NoSpace-OneLine (c ∷ s) h.1), tt)

positive_cmd-OneLine : (p : Str) (o : Option ℤ) → OneLine p → All OneLine (positive_cmd p o)
positive_cmd-OneLine p none hp = tt
positive_cmd-OneLine p (some v) hp = elim (Bool-cases (ltb_ℤ (pos 0) v)) [
  | inl e ↦ rw e (OneLine-append p (itoa v) hp (itoa-OneLine v), tt)
  | inr e ↦ rw e tt
]

-- The election by preference, without a number.
abbrev pub by_preference : Option Bool → Option ℤ → DesignatedForwarder
by_preference dont_preempt hold_time = record {
  algorithm = es_df_algorithm_preference;
  preference = none;
  dont_preempt = dont_preempt;
  hold_time = hold_time;
}

abbrev pub hold_cmd : Option ℤ → List Str
hold_cmd t = positive_cmd (codes "designated-forwarder election hold-time ") t

abbrev pub preference_line : Str
preference_line = df_header ++ es_df_algorithm_preference

-- The lines of the segment before the election's.
abbrev pub filling : EvpnEthernetSegmentArgs → List Str
filling a =
    (codes "identifier " ++ a.identifier)
    ∷ (text_cmd (codes "redundancy ") a.redundancy
        ++ text_cmd (codes "route-target import ") a.route_target_import)

-- Names that are words.
abbrev pub Named : EvpnEthernetSegmentArgs → Type 0
Named a =
    IsWord a.parent_interface
    × IsWord a.identifier
    × IfSet IsWord a.redundancy
    × IfSet IsWord a.route_target_import

pub filling-Fills :
    (header : Str) (a : EvpnEthernetSegmentArgs) → Named a → All (Fills header) (filling a)
filling-Fills header a h = (
  identifier-Fills header a.identifier h.1,
  All-append (Fills header) _ _ (redundancy-Fills header a.redundancy h.2)
      (route_target-Fills header a.route_target_import h.3),
)

filling-OneLine : (a : EvpnEthernetSegmentArgs) → Named a → All OneLine (filling a)
unfolding has_newline
filling-OneLine a h = (
  NoSpace-OneLine a.identifier h.1.1,
  All-append OneLine _ _ (text_cmd-OneLine (codes "redundancy ") a.redundancy refl h.2)
      (text_cmd-OneLine (codes "route-target import ") a.route_target_import refl h.3),
)

abbrev pub lines : EvpnEthernetSegmentArgs → Option ℤ → List Str
lines a t =
    (codes "interface " ++ a.parent_interface)
    ∷ codes "no evpn ethernet-segment"
    ∷ codes "evpn ethernet-segment"
    ∷ (filling a ++ preference_line ∷ hold_cmd t)

pub lines-OneLine : (a : EvpnEthernetSegmentArgs) (t : Option ℤ) → Named a → All OneLine (lines a t)
unfolding has_newline
lines-OneLine a t h = (
  NoSpace-OneLine a.parent_interface h.0.1,
  (
    refl,
    (
      refl,
      All-append OneLine (filling a) (preference_line ∷ hold_cmd t) (filling-OneLine a h)
          (refl, positive_cmd-OneLine (codes "designated-forwarder election hold-time ") t refl),
    ),
  ),
)

pub build-lines :
    (a : EvpnEthernetSegmentArgs) (b : Option Bool) (t : Option ℤ)
    → build_evpn_ethernet_segment_cmds
        (record a { designated_forwarder = some (by_preference b t) })
        false
      ≡ lines a t
unfolding build_evpn_ethernet_segment_cmds df_election_cmds str_eq
build-lines a b t =
    ap
      (λ ls.
        (codes "interface " ++ a.parent_interface)
        ∷ codes "no evpn ethernet-segment"
        ∷ codes "evpn ethernet-segment"
        ∷ (codes "identifier " ++ a.identifier)
        ∷ ls)
      (sym (
        append_assoc (text_cmd (codes "redundancy ") a.redundancy)
          (text_cmd (codes "route-target import ") a.route_target_import)
          (preference_line ∷ hold_cmd t)))
