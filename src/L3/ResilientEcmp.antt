-- ===== src/L3/ResilientEcmp.antt =====
-- internal/resources/l3/resilient_ecmp.go.
pub mod Laws
pub mod Numbers
pub mod Family
pub mod Validation
use pulumi_eos.Base.{
  Bool, true, false, not, ◌&&◌, ◌||◌, List, [], ◌∷◌, ◌++◌, Option, none, some, if◌then◌else◌, ℤ,
  pos, ltb_ℤ, pos_part, ◌*◌,
}
use pulumi_eos.Text.{Str, codes, str_eq, split, cut_prefix, fields, trim_space}
use pulumi_eos.Text.Decimal.{itoa, atoi}
use pulumi_eos.Text.Netip.{parse_prefix4}
use pulumi_eos.Text.Netip6.{parses_prefix6}
use pulumi_eos.Errors.{
  GoError, sentinel, wrapped, text, number, Result, ok, err, ◌>>=◌, ◌>>◌, refuse_if,
}
use pulumi_eos.Resource.{Access}
use pulumi_eos.Resource.Kind.{Kind, Reader}
use pulumi_eos.Commands.{set_text, is_on}
use pulumi_eos.L2.Switchport.{atoi_or}
use pulumi_eos.L3.PrefixList.{is_set, sanitize_prefix_list_name}

abbrev pub err_resilient_ecmp_prefix_invalid : GoError
err_resilient_ecmp_prefix_invalid =
    sentinel (codes "resilientEcmp prefix must be a valid IPv4 or IPv6 CIDR")

abbrev pub err_resilient_ecmp_af_mismatch : GoError
err_resilient_ecmp_af_mismatch =
    sentinel (codes "resilientEcmp ipFamily must be 'ipv4' or 'ipv6' and match the prefix family")

abbrev pub err_resilient_ecmp_capacity_range : GoError
err_resilient_ecmp_capacity_range = sentinel (
    codes
      "resilientEcmp capacity must be in 1..1024 (per-platform max varies; see EOS TOI 13938 §Limitations)")

abbrev pub err_resilient_ecmp_redundancy_range : GoError
err_resilient_ecmp_redundancy_range = sentinel (
    codes
      "resilientEcmp redundancy must be in 1..1023 (per-platform max varies; see EOS TOI 13938 §Limitations)")

abbrev pub err_resilient_ecmp_product_exceeded : GoError
err_resilient_ecmp_product_exceeded = sentinel (
    codes
      "resilientEcmp capacity * redundancy exceeds per-platform limit (e.g. 1024 on 7050X3, 2047 on 7280/7500/7800; see EOS TOI 13938 §Limitations)")

pub record ResilientEcmpArgs : Type 0 where
  pub prefix : Str
  pub ip_family : Option Str
  pub capacity : ℤ
  pub redundancy : ℤ
  pub ordered : Option Bool
  pub access : Access

-- The family of a text that netip.ParsePrefix takes.
abbrev pub family_of : Str → Option Str
family_of p =
    if is_set (parse_prefix4 p)
    then some (codes "ipv4")
    else if parses_prefix6 p
    then some (codes "ipv6")
    else none

-- The keys of the map `validResilientEcmpFamily`.
abbrev pub valid_family : Str → Bool
valid_family f = str_eq f (codes "ipv4") || str_eq f (codes "ipv6")

abbrev pub agreed : Option Str → Str → Result Str
agreed none want = ok want
agreed (some f) want = do
  refuse_if (not (valid_family f))
      (wrapped (codes "%w: got %q") (text f ∷ []) err_resilient_ecmp_af_mismatch)
  refuse_if (not (str_eq f want)) (
      wrapped (codes "%w: prefix is %s but ipFamily=%q") (text want ∷ text f ∷ [])
        err_resilient_ecmp_af_mismatch)
  ok want

abbrev pub with_family : ResilientEcmpArgs → Option Str → Result Str
with_family a none =
    err (wrapped (codes "%w: %q") (text a.prefix ∷ []) err_resilient_ecmp_prefix_invalid)
with_family a (some want) = agreed (set_text a.ip_family) want

unfoldable pub canonicalise_family : ResilientEcmpArgs → Result Str
unfolding str_eq parse_prefix4 parses_prefix6
canonicalise_family a = with_family a (family_of a.prefix)

-- The product of two numbers that have been found positive.
abbrev pub product : ℤ → ℤ → ℤ
product m n = pos (pos_part m * pos_part n)

unfoldable pub validate_resilient_ecmp : ResilientEcmpArgs → Result (Unit {0})
unfolding canonicalise_family
validate_resilient_ecmp a = do
  canonicalise_family a >>= λ _. ok tt
  refuse_if (ltb_ℤ a.capacity (pos 1) || ltb_ℤ (pos 1024) a.capacity)
      (wrapped (codes "%w: got %d") (number a.capacity ∷ []) err_resilient_ecmp_capacity_range)
  refuse_if (ltb_ℤ a.redundancy (pos 1) || ltb_ℤ (pos 1023) a.redundancy)
      (wrapped (codes "%w: got %d") (number a.redundancy ∷ []) err_resilient_ecmp_redundancy_range)
  refuse_if (ltb_ℤ (pos 2047) (product a.capacity a.redundancy)) (
      wrapped (codes "%w: %d * %d = %d")
        (number a.capacity ∷ number a.redundancy ∷ number (product a.capacity a.redundancy) ∷ [])
        err_resilient_ecmp_product_exceeded)

-- `deref` of router_ospf.go
abbrev pub deref : Option Str → Str
deref none = []
deref (some s) = s

-- `if family == "" { family = "ipv4" }`
abbrev pub or_ipv4 : Str → Str
or_ipv4 f = if str_eq f [] then codes "ipv4" else f

unfoldable pub resilient_ecmp_id : Str → Str → Str
unfolding str_eq
resilient_ecmp_id prefix family =
    codes "resilient-ecmp/" ++ (or_ipv4 family ++ (codes "/" ++ prefix))

unfoldable pub resilient_ecmp_keyword : Str → Str
unfolding str_eq
resilient_ecmp_keyword family = if str_eq family (codes "ipv6") then codes "ipv6" else codes "ip"

-- The session's own part of the name, in `applyResilientEcmp`.
unfoldable pub resilient_ecmp_tag : Str → Str
unfolding sanitize_prefix_list_name
resilient_ecmp_tag prefix = codes "recmp-" ++ sanitize_prefix_list_name prefix

abbrev pub ecmp_words : Str
ecmp_words = codes " hardware fib ecmp resilience "

abbrev pub ordered_part : Option Bool → Str
ordered_part o = if is_on o then codes " ordered" else []

unfoldable pub build_resilient_ecmp_cmds : ResilientEcmpArgs → Str → Bool → List Str
unfolding resilient_ecmp_keyword
build_resilient_ecmp_cmds a family remove =
    if remove
    then (codes "no " ++ (resilient_ecmp_keyword family ++ (ecmp_words ++ a.prefix))) ∷ []
    else (resilient_ecmp_keyword family
        ++ (ecmp_words
            ++ (a.prefix
                ++ (codes " capacity "
                    ++ (itoa a.capacity
                        ++ (codes " redundancy "
                            ++ (itoa a.redundancy ++ ordered_part a.ordered)))))))
      ∷ []

-- `applyResilientEcmp` stops before it stages anything where there is no family.
abbrev pub family_or_none : Result Str → Str
family_or_none (ok f) = f
family_or_none (err e) = []

pub record ResilientEcmpRow : Type 0 where
  pub prefix : Str
  pub family : Str
  pub capacity : ℤ
  pub redundancy : ℤ
  pub ordered : Bool

-- `switch tokens[i]`, where a word stands behind it.
abbrev pub set_number : Str → Str → ResilientEcmpRow → ResilientEcmpRow
set_number key v row =
    if str_eq key (codes "capacity")
    then record row { capacity = atoi_or row.capacity v }
    else if str_eq key (codes "redundancy")
    then record row { redundancy = atoi_or row.redundancy v }
    else if str_eq key (codes "ordered")
    then record row { ordered = true }
    else row

-- The last word, with nothing behind it.
abbrev pub set_last : Str → ResilientEcmpRow → ResilientEcmpRow
set_last key row = if str_eq key (codes "ordered") then record row { ordered = true } else row

unfoldable pub set_words : List Str → ResilientEcmpRow → ResilientEcmpRow
unfolding str_eq atoi
set_words [] row = row
set_words (key ∷ rest) row = elim rest [
  | [] ↦ set_last key row
  | ◌∷◌ v more ↦ set_words rest (set_number key v row)
]

unfoldable pub apply_resilient_ecmp_line : Str → ResilientEcmpRow → ResilientEcmpRow
unfolding fields set_words
apply_resilient_ecmp_line rest row = set_words (fields rest) row

abbrev pub base : Str → Str → ResilientEcmpRow
base prefix family = record {
  prefix = prefix;
  family = family;
  capacity = pos 0;
  redundancy = pos 0;
  ordered = false;
}

abbrev pub ecmp_header : Str → Str → Str
ecmp_header prefix family = resilient_ecmp_keyword family ++ (ecmp_words ++ (prefix ++ codes " "))

abbrev pub taken : Str → Str → Option Str → Option ResilientEcmpRow → Option ResilientEcmpRow
taken prefix family none later = later
taken prefix family (some rest) later = some (apply_resilient_ecmp_line rest (base prefix family))

-- The loop over the lines, which returns at the first binding of the prefix.
unfoldable pub find_binding : Str → Str → List Str → Option ResilientEcmpRow
unfolding trim_space cut_prefix resilient_ecmp_keyword apply_resilient_ecmp_line
find_binding prefix family [] = none
find_binding prefix family (raw ∷ rest) =
    let later = find_binding prefix family rest in
    taken prefix family (cut_prefix (trim_space raw) (ecmp_header prefix family)) later

unfoldable pub parse_resilient_ecmp_lines : Str → Str → Str → Option ResilientEcmpRow
unfolding split find_binding
parse_resilient_ecmp_lines out prefix family = find_binding prefix family (split out b'\n')

unfoldable pub fill_state : ResilientEcmpRow → ResilientEcmpArgs → ResilientEcmpArgs
unfolding str_eq
fill_state r a = record a {
  ip_family = if str_eq r.family [] then a.ip_family else some r.family;
  capacity = if ltb_ℤ (pos 0) r.capacity then r.capacity else a.capacity;
  redundancy = if ltb_ℤ (pos 0) r.redundancy then r.redundancy else a.redundancy;
  ordered = if r.ordered then some true else a.ordered;
}

-- Create, Update and Delete, and Read.
unfoldable pub resilient_ecmp : Kind ResilientEcmpArgs
unfolding validate_resilient_ecmp canonicalise_family resilient_ecmp_id resilient_ecmp_tag
    build_resilient_ecmp_cmds
resilient_ecmp = record {
  validate = validate_resilient_ecmp;
  id = λ a. resilient_ecmp_id a.prefix (deref a.ip_family);
  tag = λ a. resilient_ecmp_tag a.prefix;
  commands =
      λ a remove. build_resilient_ecmp_cmds a (family_or_none (canonicalise_family a)) remove;
  prepare = λ a. canonicalise_family a >>= λ _. ok tt;
  access = λ a. a.access;
  label = codes "resilientEcmp %s";
  operands = λ a. text a.prefix ∷ [];
}

unfoldable pub resilient_ecmp_reader : Reader ResilientEcmpArgs ResilientEcmpRow
unfolding str_eq parse_resilient_ecmp_lines fill_state
resilient_ecmp_reader = record {
  show = λ a. codes "show running-config | grep ecmp";
  parse = λ a out. parse_resilient_ecmp_lines out a.prefix (or_ipv4 (deref a.ip_family));
  missing = none;
  fill = fill_state;
}
