-- ===== src/L2/EvpnEthernetSegment/Parse.antt =====
-- internal/resources/l2/evpn_ethernet_segment.go: `parseEvpnEthernetSegmentConfig`, `fillState` and
-- Read. Slicing a list behind its end panics: `none`, where the answer is an Option of a row.
use pulumi_eos.Base.{
  Bool, true, false, not, ◌||◌, List, [], ◌∷◌, ◌++◌, Option, none, some, if◌then◌else◌, ℤ, pos,
  ltb_ℤ,
}
use pulumi_eos.Text.{Str, codes, str_eq, cut_prefix, contains, split, fields}
use pulumi_eos.Text.Decimal.{atoi}
use pulumi_eos.Errors.{Result, ok, err}
use pulumi_eos.Json
use pulumi_eos.Json.{as_string}
use pulumi_eos.Goeapi.{Goeapi}
use pulumi_eos.Std.{Std}
use pulumi_eos.Eapi
use pulumi_eos.Config.{Config}
use pulumi_eos.Resource.{ReadResponse, new_client}
use pulumi_eos.L2.Switchport.{atoi_or, text_or}
use pulumi_eos.L3.Listing.{over_lines}
use pulumi_eos.L2.EvpnEthernetSegment.{
  DesignatedForwarder, EvpnEthernetSegmentArgs, es_df_algorithm_preference, df_header,
  evpn_ethernet_segment_id,
}

pub record EvpnEthernetSegmentRow : Type 0 where
  pub identifier : Str
  pub redundancy : Str
  pub route_target_import : Str
  pub df_algorithm : Str
  pub df_preference : ℤ
  pub df_dont_preempt : Bool
  pub df_hold_time : ℤ

abbrev pub has_word : Str → List Str → Bool
has_word w [] = false
has_word w (v ∷ vs) = str_eq v w || has_word w vs

-- The words behind `preference`; `parts[2:]` of one part panics.
abbrev pub preference_words : List Str → EvpnEthernetSegmentRow → Option EvpnEthernetSegmentRow
preference_words [] row = none
preference_words (p ∷ tokens) row = some (record row {
  df_preference = atoi_or row.df_preference p;
  df_dont_preempt = has_word (codes "dont-preempt") tokens || row.df_dont_preempt;
})

abbrev pub algorithm_words : List Str → EvpnEthernetSegmentRow → Option EvpnEthernetSegmentRow
algorithm_words [] row = some row
algorithm_words (alg ∷ rest) row =
    if str_eq alg es_df_algorithm_preference
    then preference_words rest (record row { df_algorithm = alg })
    else some (record row { df_algorithm = alg })

unfoldable pub parse_df_algorithm_line :
    Str → EvpnEthernetSegmentRow → Option EvpnEthernetSegmentRow
unfolding str_eq fields atoi
parse_df_algorithm_line rest row = algorithm_words (fields rest) row

-- The second `switch`, inside the segment.
unfoldable pub parse_segment_line : Str → EvpnEthernetSegmentRow → Option EvpnEthernetSegmentRow
unfolding cut_prefix atoi parse_df_algorithm_line
parse_segment_line line row = elim (cut_prefix line (codes "identifier ")) [
  | some v ↦ some (record row { identifier = v })
  | none ↦ elim (cut_prefix line (codes "redundancy ")) [
    | some v ↦ some (record row { redundancy = v })
    | none ↦ elim (cut_prefix line (codes "route-target import ")) [
      | some v ↦ some (record row { route_target_import = v })
      | none ↦ elim (cut_prefix line df_header) [
        | some v ↦ parse_df_algorithm_line v row
        | none ↦ elim (cut_prefix line (codes "designated-forwarder election hold-time ")) [
          | some v ↦ some (record row { df_hold_time = atoi_or row.df_hold_time v })
          | none ↦ some row
        ]
      ]
    ]
  ]
]

-- The row, `inEs` and `found`.
pub record Walk : Type 0 where
  pub row : EvpnEthernetSegmentRow
  pub in_es : Bool
  pub found : Bool

abbrev pub with_row : Walk → Option EvpnEthernetSegmentRow → Option Walk
with_row s none = none
with_row s (some row) = some (record s { row = row })

abbrev pub is_other : Option Str → Str → Str → Bool
is_other none line header = false
is_other (some rest) line header = not (str_eq line header)

abbrev pub in_segment : Str → Walk → Option Walk
in_segment line s = if s.in_es then with_row s (parse_segment_line line s.row) else some s

-- The body of the loop, on a trimmed line.
abbrev pub walk_line : Str → Str → Walk → Option Walk
walk_line header line s =
    if str_eq line (codes "evpn ethernet-segment")
    then some (record s { in_es = true; found = true })
    else in_segment line (
        if is_other (cut_prefix line (codes "interface ")) line header
        then record s { in_es = false }
        else s)

-- Behind a panic there is no further round.
unfoldable pub step : Str → Str → Option Walk → Option Walk
unfolding str_eq cut_prefix parse_segment_line
step header line none = none
step header line (some s) = walk_line header line s

abbrev pub start : Walk
start = record {
  row = record {
    identifier = [];
    redundancy = [];
    route_target_import = [];
    df_algorithm = [];
    df_preference = pos 0;
    df_dont_preempt = false;
    df_hold_time = pos 0;
  };
  in_es = false;
  found = false;
}

abbrev pub if_found : Option Walk → Option (Option EvpnEthernetSegmentRow)
if_found none = none
if_found (some s) = if s.found then some (some s.row) else some none

unfoldable pub parse_evpn_ethernet_segment_config :
    Str → Str → Option (Option EvpnEthernetSegmentRow)
unfolding contains split over_lines step
parse_evpn_ethernet_segment_config out parent =
    if contains out (codes "interface " ++ parent)
    then if_found (over_lines (step (codes "interface " ++ parent)) (split out b'\n') (some start))
    else some none

abbrev pub read_df : EvpnEthernetSegmentRow → DesignatedForwarder
read_df r = record {
  algorithm = r.df_algorithm;
  preference =
      if ltb_ℤ (pos 0) r.df_preference || str_eq r.df_algorithm es_df_algorithm_preference
      then some r.df_preference
      else none;
  dont_preempt = if r.df_dont_preempt then some true else none;
  hold_time = if ltb_ℤ (pos 0) r.df_hold_time then some r.df_hold_time else none;
}

unfoldable pub fill_state :
    EvpnEthernetSegmentRow → EvpnEthernetSegmentArgs → EvpnEthernetSegmentArgs
unfolding str_eq
fill_state r a = record a {
  identifier = if str_eq r.identifier [] then a.identifier else r.identifier;
  redundancy = text_or a.redundancy r.redundancy;
  route_target_import = text_or a.route_target_import r.route_target_import;
  designated_forwarder =
      if not (str_eq r.df_algorithm []) || ltb_ℤ (pos 0) r.df_hold_time
      then some (read_df r)
      else a.designated_forwarder;
}

abbrev pub output_row : List Json.Fields → Str → Option (Option EvpnEthernetSegmentRow)
output_row [] parent = some none
output_row (row ∷ _) parent = elim (as_string (Json.get row (codes "output"))) [
  | none ↦ some none
  | some out ↦ if str_eq out [] then some none else parse_evpn_ethernet_segment_config out parent
]

module _ (g : Goeapi) where
  open g use {World}

  abbrev pub on_rows {ℓ} :
      {A : Type ℓ}
      → (Option EvpnEthernetSegmentRow → A)
      → Str
      → Result (List Json.Fields) × World
      → Option (Result A × World)
  on_rows f parent (err e, w) = some (err e, w)
  on_rows f parent (ok rows, w) = elim (output_row rows parent) [
    | none ↦ none
    | some row ↦ some (ok (f row), w)
  ]

  module _ (std : Std) (cfg : Config) where
    abbrev refreshed :
        EvpnEthernetSegmentArgs
        → Option EvpnEthernetSegmentRow
        → Option (ReadResponse EvpnEthernetSegmentArgs EvpnEthernetSegmentArgs)
    refreshed a none = none
    refreshed a (some row) = some (record {
      id = evpn_ethernet_segment_id a.parent_interface;
      inputs = a;
      state = fill_state row a;
    })

    abbrev on_client :
        EvpnEthernetSegmentArgs
        → Result (Eapi.Client g) × World
        → Option
            (Result (Option (ReadResponse EvpnEthernetSegmentArgs EvpnEthernetSegmentArgs)) × World)
    on_client a (err e, w) = some (err e, w)
    on_client a (ok c, w) = on_rows (refreshed a) a.parent_interface (
        Eapi.run_cmds g (some c)
          ((codes "show running-config interfaces " ++ a.parent_interface) ∷ []) (codes "text") w)

    -- `none` where the provider panics.
    unfoldable pub read :
        EvpnEthernetSegmentArgs
        → World
        → Option
            (Result (Option (ReadResponse EvpnEthernetSegmentArgs EvpnEthernetSegmentArgs)) × World)
    unfolding new_client Eapi.run_cmds Json.get str_eq parse_evpn_ethernet_segment_config
        evpn_ethernet_segment_id fill_state
    read a w = on_client a (new_client g std cfg a.access w)
