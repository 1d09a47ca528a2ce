-- ===== src/L3/Bfd.antt =====
-- internal/resources/l3/bfd.go.
pub mod Laws
pub mod Validation
pub mod Echo
pub mod RoundTrip
use pulumi_eos.Base.{
  Bool, true, false, not, ◌&&◌, ◌||◌, List, [], ◌∷◌, ◌++◌, Option, none, some, if◌then◌else◌, ℤ,
  pos, ltb_ℤ,
}
use pulumi_eos.Text.{Str, codes, str_eq, split, cut_prefix, fields}
use pulumi_eos.Text.Decimal.{itoa, atoi}
use pulumi_eos.Errors.{GoError, sentinel, wrapped, number, Result, ok, err, ◌>>=◌, ◌>>◌, refuse_if}
use pulumi_eos.Resource.{Access}
use pulumi_eos.Resource.Kind.{Kind, Reader}
use pulumi_eos.Commands.{number_cmd}
use pulumi_eos.L2.Interface.{shutdown_cmd}
use pulumi_eos.L2.Switchport.{atoi_or, positive_or}
use pulumi_eos.L3.PrefixList.{is_set}
use pulumi_eos.L3.Listing.{over_lines}

abbrev pub err_bfd_timer_bundle_incomplete : GoError
err_bfd_timer_bundle_incomplete =
    sentinel (codes "bfd interval / minRx / multiplier must be set together (all or none)")

abbrev pub err_bfd_multiplier_out_of_range : GoError
err_bfd_multiplier_out_of_range = sentinel (codes "bfd multiplier must be in 3..50")

abbrev pub err_bfd_interval_non_positive : GoError
err_bfd_interval_non_positive = sentinel (codes "bfd interval / minRx must be > 0 ms")

abbrev pub err_bfd_slow_timer_non_positive : GoError
err_bfd_slow_timer_non_positive = sentinel (codes "bfd slowTimer must be > 0 ms")

pub record BfdArgs : Type 0 where
  pub interval : Option ℤ
  pub min_rx : Option ℤ
  pub multiplier : Option ℤ
  pub slow_timer : Option ℤ
  pub shutdown : Option Bool
  pub access : Access

-- The three timers, where all of them are set.
abbrev pub timers : BfdArgs → Option (ℤ × ℤ × ℤ)
timers a = elim a.interval [
  | none ↦ none
  | some i ↦ elim a.min_rx [
    | none ↦ none
    | some m ↦ elim a.multiplier [ none ↦ none | some k ↦ some (i, m, k) ]
  ]
]

abbrev pub some_set : BfdArgs → Bool
some_set a = is_set a.interval || is_set a.min_rx || is_set a.multiplier

abbrev pub check_timers : Option (ℤ × ℤ × ℤ) → Result (Unit {0})
check_timers none = ok tt
check_timers (some (i, m, k)) = do
  refuse_if (not (ltb_ℤ (pos 0) i) || not (ltb_ℤ (pos 0) m)) (
      wrapped (codes "%w: got interval=%d minRx=%d") (number i ∷ number m ∷ [])
        err_bfd_interval_non_positive)
  refuse_if (ltb_ℤ k (pos 3) || ltb_ℤ (pos 50) k)
      (wrapped (codes "%w: got %d") (number k ∷ []) err_bfd_multiplier_out_of_range)

abbrev pub check_slow_timer : Option ℤ → Result (Unit {0})
check_slow_timer none = ok tt
check_slow_timer (some t) =
    refuse_if (not (ltb_ℤ (pos 0) t))
      (wrapped (codes "%w: got %d") (number t ∷ []) err_bfd_slow_timer_non_positive)

unfoldable pub validate_bfd : BfdArgs → Result (Unit {0})
validate_bfd a = do
  refuse_if (some_set a && not (is_set (timers a))) err_bfd_timer_bundle_incomplete
  check_timers (timers a)
  check_slow_timer a.slow_timer

unfoldable pub bfd_id : Str
bfd_id = codes "bfd/global"

-- The session's own part of the name, in `applyBfd`.
unfoldable pub bfd_tag : Str
bfd_tag = codes "bfd-global"

abbrev pub timers_cmd : Option (ℤ × ℤ × ℤ) → List Str
timers_cmd none = []
timers_cmd (some (i, m, k)) =
    (codes "interval "
      ++ (itoa i
          ++ (codes " min-rx "
              ++ (itoa m ++ (codes " multiplier " ++ (itoa k ++ codes " default"))))))
    ∷ []

abbrev pub bfd_lines : BfdArgs → List Str
bfd_lines a =
    timers_cmd (timers a)
    ++ (number_cmd (codes "slow-timer ") a.slow_timer ++ shutdown_cmd a.shutdown)

unfoldable pub build_bfd_cmds : BfdArgs → Bool → List Str
build_bfd_cmds a reset =
    if reset
    then codes "no router bfd" ∷ []
    else codes "router bfd" ∷ (bfd_lines a ++ codes "exit" ∷ [])

pub record BfdRow : Type 0 where
  pub interval : ℤ
  pub min_rx : ℤ
  pub multiplier : ℤ
  pub slow_timer : ℤ
  pub shutdown : Bool
  pub has_timers : Bool

-- `switch tokens[i]`, with the word behind it.
abbrev pub set_timer : Str → Str → BfdRow → BfdRow
set_timer key v row =
    if str_eq key (codes "interval")
    then record row { interval = atoi_or row.interval v }
    else if str_eq key (codes "min-rx")
    then record row { min_rx = atoi_or row.min_rx v }
    else if str_eq key (codes "multiplier")
    then record row { multiplier = atoi_or row.multiplier v }
    else row

-- The loop over every word but the last.
unfoldable pub set_timers : List Str → BfdRow → BfdRow
unfolding str_eq atoi
set_timers [] row = row
set_timers (key ∷ rest) row = elim rest [
  | [] ↦ row
  | ◌∷◌ v more ↦ set_timers rest (set_timer key v row)
]

abbrev pub complete : BfdRow → BfdRow
complete row =
    if ltb_ℤ (pos 0) row.interval && ltb_ℤ (pos 0) row.min_rx && ltb_ℤ (pos 0) row.multiplier
    then record row { has_timers = true }
    else row

unfoldable pub parse_bfd_timer_line : Str → BfdRow → BfdRow
unfolding fields set_timers
parse_bfd_timer_line line row = complete (set_timers (fields line) row)

-- The `switch` of the loop, on a trimmed line.
unfoldable pub parse_bfd_line : Str → BfdRow → BfdRow
unfolding str_eq cut_prefix atoi parse_bfd_timer_line
parse_bfd_line line row =
    if str_eq line (codes "shutdown")
    then record row { shutdown = true }
    else elim (cut_prefix line (codes "slow-timer ")) [
      | some v ↦ record row { slow_timer = atoi_or row.slow_timer v }
      | none ↦ elim (cut_prefix line (codes "interval ")) [
        | some v ↦ parse_bfd_timer_line line row
        | none ↦ row
      ]
    ]

abbrev pub no_row : BfdRow
no_row = record {
  interval = pos 0;
  min_rx = pos 0;
  multiplier = pos 0;
  slow_timer = pos 0;
  shutdown = false;
  has_timers = false;
}

unfoldable pub parse_bfd_section : Str → BfdRow
unfolding split over_lines parse_bfd_line
parse_bfd_section out = over_lines parse_bfd_line (split out b'\n') no_row

unfoldable pub fill_state : BfdRow → BfdArgs → BfdArgs
fill_state r a = record a {
  interval = if r.has_timers then some r.interval else a.interval;
  min_rx = if r.has_timers then some r.min_rx else a.min_rx;
  multiplier = if r.has_timers then some r.multiplier else a.multiplier;
  slow_timer = positive_or a.slow_timer r.slow_timer;
  shutdown = if r.shutdown then some true else a.shutdown;
}

-- Create, Update and Delete, and Read, which always finds the configuration.
unfoldable pub bfd : Kind BfdArgs
unfolding validate_bfd bfd_id bfd_tag build_bfd_cmds
bfd = record {
  validate = validate_bfd;
  id = λ a. bfd_id;
  tag = λ a. bfd_tag;
  commands = build_bfd_cmds;
  prepare = λ a. ok tt;
  access = λ a. a.access;
  label = codes "bfd";
  operands = λ a. [];
}

unfoldable pub bfd_reader : Reader BfdArgs BfdRow
unfolding parse_bfd_section fill_state
bfd_reader = record {
  show = λ a. codes "show running-config | section router bfd";
  parse = λ a out. some (parse_bfd_section out);
  missing = some no_row;
  fill = fill_state;
}
