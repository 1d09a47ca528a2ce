-- ===== src/L3/PrefixList/Parse.antt =====
-- internal/resources/l3/prefix_list.go: `parsePrefixListLines`, `fillState` and `Read`.
use pulumi_eos.Base.{Bool, true, false, List, [], ◌∷◌, ◌++◌, Option, none, some, if◌then◌else◌, ℤ}
use pulumi_eos.Text.{Str, codes, str_eq, cut_prefix, split, trim_space, fields}
use pulumi_eos.Text.Decimal.{atoi}
use pulumi_eos.Json
use pulumi_eos.Json.{as_string}
use pulumi_eos.Exec.{Exec, pure, ◌>>=◌}
use pulumi_eos.Goeapi.{Goeapi}
use pulumi_eos.Std.{Std}
use pulumi_eos.Eapi
use pulumi_eos.Config.{Config}
use pulumi_eos.Resource.{ReadResponse, new_client}
use pulumi_eos.L3.PrefixList.{
  PrefixListEntry, PrefixListArgs, known_action, prefix_list_id, sort_by_seq,
}

pub record PrefixListRow : Type 0 where
  pub name : Str
  pub remark : Str
  pub entries : List PrefixListEntry

-- `switch tokens[i]`, on a value that Atoi took.
abbrev pub set_bound : Str → ℤ → PrefixListEntry → PrefixListEntry
set_bound key v e =
    if str_eq key (codes "eq")
    then record e { eq = some v }
    else if str_eq key (codes "ge")
    then record e { ge = some v }
    else if str_eq key (codes "le")
    then record e { le = some v }
    else e

-- The loop over the pairs behind the prefix; a last word alone is left.
unfoldable pub parse_bounds : List Str → PrefixListEntry → PrefixListEntry
unfolding atoi str_eq
parse_bounds (key ∷ v ∷ rest) e =
    parse_bounds rest (elim (atoi v) [ none ↦ e | some n ↦ set_bound key n e ])
parse_bounds _ e = e

abbrev pub entry_of : Option ℤ → Str → Str → List Str → Option PrefixListEntry
entry_of none action prefix rest = none
entry_of (some seq) action prefix rest =
    if known_action action
    then some (
        parse_bounds rest
          (record { seq = seq; action = action; prefix = prefix; eq = none; ge = none; le = none }))
    else none

-- At least four words, the first of them `seq`.
unfoldable pub parse_tokens : List Str → Option PrefixListEntry
unfolding str_eq atoi parse_bounds
parse_tokens (key ∷ seq ∷ action ∷ prefix ∷ rest) =
    if str_eq key (codes "seq") then entry_of (atoi seq) action prefix rest else none
parse_tokens _ = none

unfoldable pub parse_prefix_list_entry_rest : Str → Option PrefixListEntry
unfolding fields parse_tokens
parse_prefix_list_entry_rest rest = parse_tokens (fields rest)

-- What a line of the list holds, behind its header.
unfoldable pub parse_rest : Str → PrefixListRow → PrefixListRow
unfolding cut_prefix parse_prefix_list_entry_rest
parse_rest rest row = elim (cut_prefix rest (codes "remark ")) [
  | some remark ↦ record row { remark = remark }
  | none ↦ elim (parse_prefix_list_entry_rest rest) [
    | some e ↦ record row { entries = row.entries ++ e ∷ [] }
    | none ↦ row
  ]
]

abbrev pub header : Str → Str
header name = codes "ip prefix-list " ++ (name ++ codes " ")

-- The body of the loop, on what CutPrefix answered: a line of another kind changes nothing.
abbrev pub step : Option Str → PrefixListRow × Bool → PrefixListRow × Bool
step none s = s
step (some rest) s = (parse_rest rest s.0, true)

-- The loop over the lines, with the row and `found`.
unfoldable pub walk : Str → List Str → PrefixListRow × Bool → PrefixListRow × Bool
unfolding cut_prefix trim_space parse_rest
walk prefix [] s = s
walk prefix (raw ∷ rest) s = walk prefix rest (step (cut_prefix (trim_space raw) prefix) s)

abbrev pub sorted_row : PrefixListRow → PrefixListRow
sorted_row row = record row { entries = sort_by_seq row.entries }

unfoldable pub parse_prefix_list_lines : Str → Str → Option PrefixListRow
unfolding walk split sort_by_seq
parse_prefix_list_lines out name =
    let (row, found) =
      walk (header name) (split out b'\n')
        (record { name = name; remark = []; entries = [] }, false) in
    if found then some (sorted_row row) else none

abbrev pub entries_or : List PrefixListEntry → List PrefixListEntry → List PrefixListEntry
entries_or old [] = old
entries_or old (e ∷ es) = e ∷ es

unfoldable pub fill_state : PrefixListRow → PrefixListArgs → PrefixListArgs
unfolding str_eq
fill_state r a = record a {
  remark = if str_eq r.remark [] then a.remark else some r.remark;
  entries = entries_or a.entries r.entries;
}

-- `out, _ := resp[0]["output"].(string)`: empty where there is no text.
abbrev pub output_row : List Json.Fields → Str → Option PrefixListRow
output_row [] name = none
output_row (row ∷ _) name = elim (as_string (Json.get row (codes "output"))) [
  | some out ↦ parse_prefix_list_lines out name
  | none ↦ parse_prefix_list_lines [] name
]

module _ (g : Goeapi) where
  open g use {World}

  unfoldable pub read_prefix_list : Option (Eapi.Client g) → Str → Exec World (Option PrefixListRow)
  unfolding Eapi.run_cmds Json.get parse_prefix_list_lines
  read_prefix_list c name = do
    resp ← Eapi.run_cmds g c (codes "show running-config | grep prefix-list" ∷ []) (codes "text")
    pure (output_row resp name)

  module _ (std : Std) (cfg : Config) where
    abbrev refreshed :
        PrefixListArgs → Option PrefixListRow → Option (ReadResponse PrefixListArgs PrefixListArgs)
    refreshed a none = none
    refreshed a (some row) =
        some (record { id = prefix_list_id a.name; inputs = a; state = fill_state row a })

    unfoldable pub read :
        PrefixListArgs → Exec World (Option (ReadResponse PrefixListArgs PrefixListArgs))
    unfolding new_client read_prefix_list prefix_list_id fill_state
    read a = do
      c ← new_client g std cfg a.access
      row ← read_prefix_list (some c) a.name
      pure (refreshed a row)
