-- ===== src/L3/AsPathAccessList.antt =====
-- internal/resources/l3/as_path_access_list.go.
pub mod Laws
use pulumi_eos.Base.{
  Bool, true, false, not, List, [], ◌∷◌, ◌++◌, map, Option, none, some, if◌then◌else◌,
}
use pulumi_eos.Text.{Str, codes, str_eq, trim_space, split, cut_prefix}
use pulumi_eos.Text.Cut.{cut, cut_suffix}
use pulumi_eos.Errors.{GoError, sentinel, wrapped, text, Result, ok, err, ◌>>=◌, ◌>>◌, refuse_if}
use pulumi_eos.Resource.{Access}
use pulumi_eos.Resource.Kind.{Kind, Reader}
use pulumi_eos.L3.PrefixList.{known_action, is_empty, sanitize_prefix_list_name}
use pulumi_eos.L3.Listing.{over_lines}

abbrev pub err_as_path_list_name_required : GoError
err_as_path_list_name_required = sentinel (codes "asPathAccessList name is required")

abbrev pub err_as_path_list_empty_entries : GoError
err_as_path_list_empty_entries = sentinel (codes "asPathAccessList must have at least one entry")

abbrev pub err_as_path_list_action : GoError
err_as_path_list_action =
    sentinel (codes "asPathAccessList entry action must be 'permit' or 'deny'")

abbrev pub err_as_path_list_regex_empty : GoError
err_as_path_list_regex_empty = sentinel (codes "asPathAccessList entry regex is required")

pub record AsPathAccessListEntry : Type 0 where
  pub action : Str
  pub regex : Str

pub record AsPathAccessListArgs : Type 0 where
  pub name : Str
  pub entries : List AsPathAccessListEntry
  pub access : Access

-- One round of the loop over the entries.
abbrev pub check_entry : AsPathAccessListEntry → Result (Unit {0})
check_entry e = do
  refuse_if (not (known_action e.action))
      (wrapped (codes "%w: got %q") (text e.action ∷ []) err_as_path_list_action)
  refuse_if (str_eq (trim_space e.regex) []) err_as_path_list_regex_empty

unfoldable pub check_entries : List AsPathAccessListEntry → Result (Unit {0})
unfolding str_eq trim_space
check_entries [] = ok tt
check_entries (e ∷ es) = do check_entry e; check_entries es

unfoldable pub validate_as_path_access_list : AsPathAccessListArgs → Result (Unit {0})
unfolding str_eq trim_space check_entries
validate_as_path_access_list a = do
  refuse_if (str_eq (trim_space a.name) []) err_as_path_list_name_required
  refuse_if (is_empty a.entries) err_as_path_list_empty_entries
  check_entries a.entries

unfoldable pub as_path_access_list_id : Str → Str
as_path_access_list_id name = codes "as-path-access-list/" ++ name

-- The session's own part of the name, in `applyAsPathAccessList`.
unfoldable pub as_path_access_list_tag : Str → Str
unfolding sanitize_prefix_list_name
as_path_access_list_tag name = codes "aspath-" ++ sanitize_prefix_list_name name

abbrev pub as_path_entry_cmd : Str → AsPathAccessListEntry → Str
as_path_entry_cmd name e =
    codes "ip as-path access-list " ++ (name ++ (codes " " ++ (e.action ++ (codes " " ++ e.regex))))

unfoldable pub build_as_path_access_list_cmds : AsPathAccessListArgs → Bool → List Str
build_as_path_access_list_cmds a remove =
    if remove
    then (codes "no ip as-path access-list " ++ a.name) ∷ []
    else (codes "no ip as-path access-list " ++ a.name) ∷ map (as_path_entry_cmd a.name) a.entries

pub record AsPathAccessListRow : Type 0 where
  pub name : Str
  pub entries : List AsPathAccessListEntry

-- The switch shows ` any` behind the expression, which is taken off again.
abbrev pub without_any : Str → Str
without_any body = elim (cut_suffix body (codes " any")) [ some s ↦ s | none ↦ body ]

abbrev pub with_regex : Str → Str → Option AsPathAccessListEntry
with_regex action [] = none
with_regex action (c ∷ s) = some (record { action = action; regex = c ∷ s })

abbrev pub entry_of : Option (Str × Str) → Option AsPathAccessListEntry
entry_of none = none
entry_of (some (action, body)) =
    if known_action action then with_regex action (without_any body) else none

unfoldable pub parse_as_path_access_list_entry_rest : Str → Option AsPathAccessListEntry
unfolding cut cut_suffix str_eq
parse_as_path_access_list_entry_rest rest = entry_of (cut b' ' rest)

abbrev pub as_path_header : Str → Str
as_path_header name = codes "ip as-path access-list " ++ (name ++ codes " ")

-- The row and `found`.
abbrev pub State : Type 0
State = AsPathAccessListRow × Bool

abbrev pub add_entry : Option AsPathAccessListEntry → State → State
add_entry none s = s
add_entry (some e) (row, found) = (record row { entries = row.entries ++ e ∷ [] }, true)

abbrev pub taken : Option Str → State → State
taken none s = s
taken (some rest) s = add_entry (parse_as_path_access_list_entry_rest rest) s

unfoldable pub step : Str → Str → State → State
unfolding cut_prefix parse_as_path_access_list_entry_rest
step name line s = taken (cut_prefix line (as_path_header name)) s

abbrev pub if_found : State → Option AsPathAccessListRow
if_found (row, found) = if found then some row else none

unfoldable pub parse_as_path_access_list_lines : Str → Str → Option AsPathAccessListRow
unfolding over_lines step split
parse_as_path_access_list_lines out name =
    if_found
      (over_lines (step name) (split out b'\n') (record { name = name; entries = [] }, false))

abbrev pub entries_or :
    List AsPathAccessListEntry → List AsPathAccessListEntry → List AsPathAccessListEntry
entries_or old [] = old
entries_or old (e ∷ es) = e ∷ es

unfoldable pub fill_state : AsPathAccessListRow → AsPathAccessListArgs → AsPathAccessListArgs
fill_state r a = record a { entries = entries_or a.entries r.entries }

-- Create, Update and Delete, and Read.
unfoldable pub as_path_access_list : Kind AsPathAccessListArgs
unfolding validate_as_path_access_list as_path_access_list_id as_path_access_list_tag
    build_as_path_access_list_cmds
as_path_access_list = record {
  validate = validate_as_path_access_list;
  id = λ a. as_path_access_list_id a.name;
  tag = λ a. as_path_access_list_tag a.name;
  commands = build_as_path_access_list_cmds;
  prepare = λ a. ok tt;
  access = λ a. a.access;
  label = codes "as-path access-list %s";
  operands = λ a. text a.name ∷ [];
}

unfoldable pub as_path_access_list_reader : Reader AsPathAccessListArgs AsPathAccessListRow
unfolding parse_as_path_access_list_lines fill_state
as_path_access_list_reader = record {
  show = λ a. codes "show running-config | grep as-path";
  parse = λ a out. parse_as_path_access_list_lines out a.name;
  missing = none;
  fill = fill_state;
}
