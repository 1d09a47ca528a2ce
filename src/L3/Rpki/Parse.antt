-- ===== src/L3/Rpki/Parse.antt =====
-- internal/resources/l3/rpki.go: `parseRpkiSection`, `fillState`, and the operations.
use pulumi_eos.Base.{
  Bool, true, false, List, [], ◌∷◌, ◌++◌, Option, none, some, if◌then◌else◌, ℤ, pos,
}
use pulumi_eos.Text.{Str, codes, str_eq, cut_prefix, split, fields}
use pulumi_eos.Text.Decimal.{itoa, atoi}
use pulumi_eos.Errors.{text, ok}
use pulumi_eos.Resource.Kind.{Kind, Reader}
use pulumi_eos.L2.Switchport.{atoi_or, text_or, positive_or}
use pulumi_eos.L3.Listing.{over_lines}
use pulumi_eos.L3.Rpki.{RpkiArgs, validate_rpki, rpki_id, rpki_tag, build_rpki_cmds}

pub record RpkiRow : Type 0 where
  pub name : Str
  pub cache_host : Str
  pub vrf : Str
  pub port : ℤ
  pub preference : ℤ
  pub refresh_interval : ℤ
  pub retry_interval : ℤ
  pub expire_interval : ℤ
  pub local_interface : Str
  pub transport : Str

-- `switch tokens[i]`, with the word behind it.
abbrev pub set_part : Str → Str → RpkiRow → RpkiRow
set_part key v row =
    if str_eq key (codes "vrf")
    then record row { vrf = v }
    else if str_eq key (codes "port")
    then record row { port = atoi_or row.port v }
    else row

-- The loop over every word behind the first but the last.
unfoldable pub host_parts : List Str → RpkiRow → RpkiRow
unfolding str_eq atoi
host_parts [] row = row
host_parts (key ∷ rest) row = elim rest [
  | [] ↦ row
  | ◌∷◌ v more ↦ host_parts rest (set_part key v row)
]

abbrev pub host_words : List Str → RpkiRow → RpkiRow
host_words [] row = row
host_words (host ∷ rest) row = host_parts rest (record row { cache_host = host })

unfoldable pub parse_rpki_host_line : Str → RpkiRow → RpkiRow
unfolding fields host_parts
parse_rpki_host_line rest row = host_words (fields rest) row

-- The last cases of the `switch`.
unfoldable pub apply_late_line : Str → RpkiRow → RpkiRow
unfolding cut_prefix atoi
apply_late_line line row = elim (cut_prefix line (codes "expire-interval ")) [
  | some v ↦ record row { expire_interval = atoi_or row.expire_interval v }
  | none ↦ elim (cut_prefix line (codes "local-interface ")) [
    | some v ↦ record row { local_interface = v }
    | none ↦ elim (cut_prefix line (codes "transport ")) [
      | some v ↦ record row { transport = v }
      | none ↦ row
    ]
  ]
]

unfoldable pub apply_rpki_line : Str → RpkiRow → RpkiRow
unfolding cut_prefix atoi parse_rpki_host_line apply_late_line
apply_rpki_line line row = elim (cut_prefix line (codes "host ")) [
  | some v ↦ parse_rpki_host_line v row
  | none ↦ elim (cut_prefix line (codes "preference ")) [
    | some v ↦ record row { preference = atoi_or row.preference v }
    | none ↦ elim (cut_prefix line (codes "refresh-interval ")) [
      | some v ↦ record row { refresh_interval = atoi_or row.refresh_interval v }
      | none ↦ elim (cut_prefix line (codes "retry-interval ")) [
        | some v ↦ record row { retry_interval = atoi_or row.retry_interval v }
        | none ↦ apply_late_line line row
      ]
    ]
  ]
]

-- The row, `inOurAsn` and `inOurCache`.
pub record Walk : Type 0 where
  pub row : RpkiRow
  pub in_our_asn : Bool
  pub in_our_cache : Bool

abbrev pub in_cache : Bool → Str → Walk → Walk
in_cache true line s = record s { row = apply_rpki_line line s.row }
in_cache false line s = s

-- The cases inside the AS: another cache's header, or a line of our cache. The case of `vrf` changes
-- nothing.
abbrev pub in_asn : Str → Option Str → Str → Walk → Walk
in_asn cache (some v) line s = record s { in_our_cache = str_eq line cache }
in_asn cache none line s = in_cache s.in_our_cache line s

abbrev pub in_section : Str → Str → Option Str → Str → Walk → Walk
in_section asn cache (some v) line s = record s {
  in_our_asn = str_eq line asn;
  in_our_cache = false;
}
in_section asn cache none line s =
    if s.in_our_asn
    then in_asn cache (cut_prefix line (codes "rpki cache ")) line s
    else in_cache s.in_our_cache line s

-- The `switch` of the loop, on a trimmed line.
unfoldable pub parse_rpki_line : ℤ → Str → Str → Walk → Walk
unfolding cut_prefix str_eq apply_rpki_line
parse_rpki_line asn name line s =
    in_section (codes "router bgp " ++ itoa asn) (codes "rpki cache " ++ name)
      (cut_prefix line (codes "router bgp ")) line s

abbrev pub no_row : Str → RpkiRow
no_row name = record {
  name = name;
  cache_host = [];
  vrf = [];
  port = pos 0;
  preference = pos 0;
  refresh_interval = pos 0;
  retry_interval = pos 0;
  expire_interval = pos 0;
  local_interface = [];
  transport = [];
}

abbrev pub if_host : RpkiRow → Option RpkiRow
if_host row = if str_eq row.cache_host [] then none else some row

unfoldable pub parse_rpki_section : Str → ℤ → Str → Option RpkiRow
unfolding split over_lines parse_rpki_line str_eq
parse_rpki_section out asn name =
    if_host
      (over_lines (parse_rpki_line asn name) (split out b'\n')
        (record { row = no_row name; in_our_asn = false; in_our_cache = false })).row

unfoldable pub fill_state : RpkiRow → RpkiArgs → RpkiArgs
unfolding str_eq
fill_state r a = record a {
  cache_host = if str_eq r.cache_host [] then a.cache_host else r.cache_host;
  vrf = text_or a.vrf r.vrf;
  port = positive_or a.port r.port;
  preference = positive_or a.preference r.preference;
  refresh_interval = positive_or a.refresh_interval r.refresh_interval;
  retry_interval = positive_or a.retry_interval r.retry_interval;
  expire_interval = positive_or a.expire_interval r.expire_interval;
  local_interface = text_or a.local_interface r.local_interface;
  transport = text_or a.transport r.transport;
}

-- Create, Update and Delete, and Read.
unfoldable pub rpki : Kind RpkiArgs
unfolding validate_rpki rpki_id rpki_tag build_rpki_cmds
rpki = record {
  validate = validate_rpki;
  id = λ a. rpki_id a.bgp_asn a.name;
  tag = rpki_tag;
  commands = build_rpki_cmds;
  prepare = λ a. ok tt;
  access = λ a. a.access;
  label = codes "rpki cache %s";
  operands = λ a. text a.name ∷ [];
}

unfoldable pub rpki_reader : Reader RpkiArgs RpkiRow
unfolding parse_rpki_section fill_state
rpki_reader = record {
  show = λ a. codes "show running-config | section router bgp";
  parse = λ a out. parse_rpki_section out a.bgp_asn a.name;
  missing = none;
  fill = fill_state;
}
