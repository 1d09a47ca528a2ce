-- ===== src/L3/CommunityList/Parse.antt =====
-- internal/resources/l3/community_list.go: `parseCommunityListLines`, `fillState`, and the operations.
use pulumi_eos.Base.{Bool, true, false, List, [], ◌∷◌, ◌++◌, Option, none, some, if◌then◌else◌}
use pulumi_eos.Text.{Str, codes, str_eq, cut_prefix, split}
use pulumi_eos.Text.Cut.{cut}
use pulumi_eos.Errors.{text, ok}
use pulumi_eos.Resource.Kind.{Kind, Reader}
use pulumi_eos.L3.PrefixList.{known_action}
use pulumi_eos.L3.Listing.{list_type_standard, list_type_regexp, over_lines}
use pulumi_eos.L3.CommunityList.{
  CommunityListEntry, CommunityListArgs, validate_community_list, community_list_id,
  community_list_tag, build_community_list_cmds,
}

pub record CommunityListRow : Type 0 where
  pub name : Str
  pub type : Str
  pub entries : List CommunityListEntry

abbrev pub entry_of : Option (Str × Str) → Option CommunityListEntry
entry_of none = none
entry_of (some (action, value)) =
    if known_action action then some (record { action = action; value = value }) else none

unfoldable pub parse_community_list_entry_rest : Str → Option CommunityListEntry
unfolding cut str_eq
parse_community_list_entry_rest rest = entry_of (cut b' ' rest)

abbrev pub std_header : Str → Str
std_header name = codes "ip community-list " ++ (name ++ codes " ")

abbrev pub regexp_header : Str → Str
regexp_header name = codes "ip community-list regexp " ++ (name ++ codes " ")

-- The row and `found`.
abbrev pub State : Type 0
State = CommunityListRow × Bool

abbrev pub add_entry : Option CommunityListEntry → State → State
add_entry none s = s
add_entry (some e) (row, found) = (record row { entries = row.entries ++ e ∷ [] }, true)

-- What CutPrefix answered for the two headers: a regexp line sets the type, even where its entry
-- does not parse.
abbrev pub taken : Option Str → Option Str → State → State
taken (some rest) _ (row, found) =
    add_entry (parse_community_list_entry_rest rest) (record row { type = list_type_regexp }, found)
taken none (some rest) s = add_entry (parse_community_list_entry_rest rest) s
taken none none s = s

unfoldable pub step : Str → Str → State → State
unfolding cut_prefix parse_community_list_entry_rest
step name line s =
    taken (cut_prefix line (regexp_header name)) (cut_prefix line (std_header name)) s

abbrev pub if_found : State → Option CommunityListRow
if_found (row, found) = if found then some row else none

unfoldable pub parse_community_list_lines : Str → Str → Option CommunityListRow
unfolding over_lines step split
parse_community_list_lines out name = if_found (
    over_lines (step name) (split out b'\n')
      (record { name = name; type = list_type_standard; entries = [] }, false))

abbrev pub entries_or : List CommunityListEntry → List CommunityListEntry → List CommunityListEntry
entries_or old [] = old
entries_or old (e ∷ es) = e ∷ es

unfoldable pub fill_state : CommunityListRow → CommunityListArgs → CommunityListArgs
fill_state r a = record a { type = some r.type; entries = entries_or a.entries r.entries }

-- Create, Update and Delete, and Read.
unfoldable pub community_list : Kind CommunityListArgs
unfolding validate_community_list community_list_id community_list_tag build_community_list_cmds
community_list = record {
  validate = validate_community_list;
  id = λ a. community_list_id a.name;
  tag = λ a. community_list_tag a.name;
  commands = build_community_list_cmds;
  prepare = λ a. ok tt;
  access = λ a. a.access;
  label = codes "community-list %s";
  operands = λ a. text a.name ∷ [];
}

unfoldable pub community_list_reader : Reader CommunityListArgs CommunityListRow
unfolding parse_community_list_lines fill_state
community_list_reader = record {
  show = λ a. codes "show running-config | grep community-list";
  parse = λ a out. parse_community_list_lines out a.name;
  missing = none;
  fill = fill_state;
}
