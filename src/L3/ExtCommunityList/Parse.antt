-- ===== src/L3/ExtCommunityList/Parse.antt =====
-- internal/resources/l3/ext_community_list.go: `parseExtCommunityListLines`, `fillState`, and the
-- operations.
use pulumi_eos.Base.{Bool, true, false, List, [], ◌∷◌, ◌++◌, Option, none, some, if◌then◌else◌}
use pulumi_eos.Text.{Str, codes, str_eq, cut_prefix, split}
use pulumi_eos.Text.Cut.{cut}
use pulumi_eos.Errors.{text, ok}
use pulumi_eos.Resource.Kind.{Kind, Reader}
use pulumi_eos.L3.PrefixList.{known_action}
use pulumi_eos.L3.Listing.{list_type_standard, list_type_regexp, over_lines}
use pulumi_eos.L3.ExtCommunityList.{
  ExtCommunityListEntry, ExtCommunityListArgs, validate_ext_community_list, ext_community_list_id,
  ext_community_list_tag, build_ext_community_list_cmds,
}

pub record ExtCommunityListRow : Type 0 where
  pub name : Str
  pub type : Str
  pub entries : List ExtCommunityListEntry

abbrev pub regexp_entry : Option (Str × Str) → Option ExtCommunityListEntry
regexp_entry none = none
regexp_entry (some (action, value)) =
    if known_action action
    then some (record { action = action; type = none; value = value })
    else none

abbrev pub typed_entry : Str → Option (Str × Str) → Option ExtCommunityListEntry
typed_entry action none = none
typed_entry action (some (type, value)) =
    if known_action action
    then some (record { action = action; type = some type; value = value })
    else none

-- SplitN(rest, " ", 3)
abbrev pub standard_entry : Option (Str × Str) → Option ExtCommunityListEntry
standard_entry none = none
standard_entry (some (action, more)) = typed_entry action (cut b' ' more)

unfoldable pub parse_ext_community_list_entry_rest : Str → Bool → Option ExtCommunityListEntry
unfolding cut str_eq
parse_ext_community_list_entry_rest rest is_regexp =
    if is_regexp then regexp_entry (cut b' ' rest) else standard_entry (cut b' ' rest)

abbrev pub std_header : Str → Str
std_header name = codes "ip extcommunity-list " ++ (name ++ codes " ")

abbrev pub regexp_header : Str → Str
regexp_header name = codes "ip extcommunity-list regexp " ++ (name ++ codes " ")

-- The row and `found`.
abbrev pub State : Type 0
State = ExtCommunityListRow × Bool

abbrev pub add_entry : Option ExtCommunityListEntry → State → State
add_entry none s = s
add_entry (some e) (row, found) = (record row { entries = row.entries ++ e ∷ [] }, true)

-- What CutPrefix answered for the two headers: a regexp line sets the type, even where its entry
-- does not parse.
abbrev pub taken : Option Str → Option Str → State → State
taken (some rest) _ (row, found) =
    add_entry (parse_ext_community_list_entry_rest rest true)
      (record row { type = list_type_regexp }, found)
taken none (some rest) s = add_entry (parse_ext_community_list_entry_rest rest false) s
taken none none s = s

unfoldable pub step : Str → Str → State → State
unfolding cut_prefix parse_ext_community_list_entry_rest
step name line s =
    taken (cut_prefix line (regexp_header name)) (cut_prefix line (std_header name)) s

abbrev pub if_found : State → Option ExtCommunityListRow
if_found (row, found) = if found then some row else none

unfoldable pub parse_ext_community_list_lines : Str → Str → Option ExtCommunityListRow
unfolding over_lines step split
parse_ext_community_list_lines out name = if_found (
    over_lines (step name) (split out b'\n')
      (record { name = name; type = list_type_standard; entries = [] }, false))

abbrev pub entries_or :
    List ExtCommunityListEntry → List ExtCommunityListEntry → List ExtCommunityListEntry
entries_or old [] = old
entries_or old (e ∷ es) = e ∷ es

unfoldable pub fill_state : ExtCommunityListRow → ExtCommunityListArgs → ExtCommunityListArgs
fill_state r a = record a { list_type = some r.type; entries = entries_or a.entries r.entries }

-- Create, Update and Delete, and Read.
unfoldable pub ext_community_list : Kind ExtCommunityListArgs
unfolding validate_ext_community_list ext_community_list_id ext_community_list_tag
    build_ext_community_list_cmds
ext_community_list = record {
  validate = validate_ext_community_list;
  id = λ a. ext_community_list_id a.name;
  tag = λ a. ext_community_list_tag a.name;
  commands = build_ext_community_list_cmds;
  prepare = λ a. ok tt;
  access = λ a. a.access;
  label = codes "ext-community-list %s";
  operands = λ a. text a.name ∷ [];
}

unfoldable pub ext_community_list_reader : Reader ExtCommunityListArgs ExtCommunityListRow
unfolding parse_ext_community_list_lines fill_state
ext_community_list_reader = record {
  show = λ a. codes "show running-config | grep extcommunity";
  parse = λ a out. parse_ext_community_list_lines out a.name;
  missing = none;
  fill = fill_state;
}
