-- ===== src/L3/ExtCommunityList.antt =====
-- internal/resources/l3/ext_community_list.go. The grepped configuration is read in
-- ExtCommunityList/Parse.
pub mod Parse
pub mod Laws
use pulumi_eos.Base.{
  ℕ, Bool, true, false, not, ◌&&◌, ◌||◌, leb, length, List, [], ◌∷◌, ◌++◌, map, Option, none, some,
  if◌then◌else◌,
}
use pulumi_eos.Text.{Str, codes, str_eq, trim_space, split}
use pulumi_eos.Text.Cut.{is_number}
use pulumi_eos.Errors.{GoError, sentinel, wrapped, text, Result, ok, err, ◌>>=◌, ◌>>◌, refuse_if}
use pulumi_eos.Resource.{Access}
use pulumi_eos.Commands.{set_text}
use pulumi_eos.L3.PrefixList.{known_action, is_empty, sanitize_prefix_list_name}
use pulumi_eos.L3.Listing.{list_type_standard, list_type_regexp}

abbrev pub err_ext_community_list_name_required : GoError
err_ext_community_list_name_required = sentinel (codes "extCommunityList name is required")

abbrev pub err_ext_community_list_type_invalid : GoError
err_ext_community_list_type_invalid =
    sentinel (codes "extCommunityList listType must be 'standard' or 'regexp'")

abbrev pub err_ext_community_list_empty_entries : GoError
err_ext_community_list_empty_entries =
    sentinel (codes "extCommunityList must have at least one entry")

abbrev pub err_ext_community_list_action : GoError
err_ext_community_list_action =
    sentinel (codes "extCommunityList entry action must be 'permit' or 'deny'")

abbrev pub err_ext_community_list_value_empty : GoError
err_ext_community_list_value_empty = sentinel (codes "extCommunityList entry value is required")

abbrev pub err_ext_community_list_entry_type : GoError
err_ext_community_list_entry_type =
    sentinel (codes "extCommunityList standard entry type must be 'rt' or 'soo'")

abbrev pub err_ext_community_list_std_value : GoError
err_ext_community_list_std_value =
    sentinel (codes "extCommunityList standard entry value must be aa:nn or A.B.C.D:nn")

abbrev pub err_ext_community_list_regexp_has_typ : GoError
err_ext_community_list_regexp_has_typ =
    sentinel (
      codes
        "extCommunityList regexp entry must not set type — the type prefix is part of the regex")

pub record ExtCommunityListEntry : Type 0 where
  pub action : Str
  pub type : Option Str
  pub value : Str

pub record ExtCommunityListArgs : Type 0 where
  pub name : Str
  pub list_type : Option Str
  pub entries : List ExtCommunityListEntry
  pub access : Access

abbrev pub ext_community_list_type : Option Str → Str
ext_community_list_type o = elim (set_text o) [ none ↦ list_type_standard | some t ↦ t ]

abbrev pub all_numbers : List Str → Bool
all_numbers [] = true
all_numbers (n ∷ ns) = is_number n && all_numbers ns

-- `([0-9]+(\.[0-9]+){0,3})`, whole: up to four numbers
abbrev pub dotted : List Str → Bool
dotted ns = leb (length ns) 4 && all_numbers ns

abbrev pub is_pair : List Str → Bool
is_pair (a ∷ n ∷ []) = dotted (split a b'.') && is_number n
is_pair _ = false

-- `extCommunityValueRe.MatchString`; the part before the colon has no colon.
unfoldable pub matches_value : Str → Bool
unfolding split is_number
matches_value v = is_pair (split v b':')

-- The keys of the map `extCommunityValidEntryType`.
abbrev pub valid_entry_type : Str → Bool
valid_entry_type t = str_eq t (codes "rt") || str_eq t (codes "soo")

abbrev pub check_entry_type : Str → Option Str → Result (Unit {0})
check_entry_type value none = err (
    wrapped (codes "%w: missing type for value %q") (text value ∷ [])
      err_ext_community_list_entry_type)
check_entry_type value (some t) =
    refuse_if (not (valid_entry_type t))
      (wrapped (codes "%w: got %q") (text t ∷ []) err_ext_community_list_entry_type)

abbrev pub check_no_type : Option Str → Result (Unit {0})
check_no_type none = ok tt
check_no_type (some t) =
    err (wrapped (codes "%w: got type=%q") (text t ∷ []) err_ext_community_list_regexp_has_typ)

-- What a list of each type asks of an entry.
abbrev pub check_by_type : Bool → ExtCommunityListEntry → Result (Unit {0})
check_by_type true e = check_no_type (set_text e.type)
check_by_type false e = do
  check_entry_type e.value (set_text e.type)
  refuse_if (not (matches_value e.value))
      (wrapped (codes "%w: %q") (text e.value ∷ []) err_ext_community_list_std_value)

-- One round of the loop over the entries, for a list of type `t`, which is one of the two.
unfoldable pub check_entry : Str → ExtCommunityListEntry → Result (Unit {0})
unfolding str_eq trim_space matches_value
check_entry t e = do
  refuse_if (not (known_action e.action))
      (wrapped (codes "%w: got %q") (text e.action ∷ []) err_ext_community_list_action)
  refuse_if (str_eq (trim_space e.value) []) err_ext_community_list_value_empty
  check_by_type (str_eq t list_type_regexp) e

unfoldable pub check_entries : Str → List ExtCommunityListEntry → Result (Unit {0})
unfolding check_entry
check_entries t [] = ok tt
check_entries t (e ∷ es) = do check_entry t e; check_entries t es

unfoldable pub validate_ext_community_list : ExtCommunityListArgs → Result (Unit {0})
unfolding trim_space str_eq check_entries
validate_ext_community_list a = do
  refuse_if (str_eq (trim_space a.name) []) err_ext_community_list_name_required
  refuse_if
      (not (str_eq (ext_community_list_type a.list_type) list_type_standard)
        && not (str_eq (ext_community_list_type a.list_type) list_type_regexp))
      (wrapped (codes "%w: got %q") (text (ext_community_list_type a.list_type) ∷ [])
        err_ext_community_list_type_invalid)
  refuse_if (is_empty a.entries) err_ext_community_list_empty_entries
  check_entries (ext_community_list_type a.list_type) a.entries

unfoldable pub ext_community_list_id : Str → Str
ext_community_list_id name = codes "ext-community-list/" ++ name

-- The session's own part of the name, in `applyExtCommunityList`.
unfoldable pub ext_community_list_tag : Str → Str
unfolding sanitize_prefix_list_name
ext_community_list_tag name = codes "extcomm-" ++ sanitize_prefix_list_name name

-- `*e.Type`. Validation has refused a standard entry without a type, at which the code would panic.
abbrev pub type_of : Option Str → Str
type_of none = []
type_of (some t) = t

abbrev pub ext_community_list_entry_cmd : Str → Str → ExtCommunityListEntry → Str
ext_community_list_entry_cmd t name e =
    if str_eq t list_type_regexp
    then codes "ip extcommunity-list regexp "
      ++ (name ++ (codes " " ++ (e.action ++ (codes " " ++ e.value))))
    else codes "ip extcommunity-list "
      ++ (name
          ++ (codes " " ++ (e.action ++ (codes " " ++ (type_of e.type ++ (codes " " ++ e.value))))))

unfoldable pub build_ext_community_list_cmds : ExtCommunityListArgs → Bool → List Str
unfolding str_eq
build_ext_community_list_cmds a remove =
    if remove
    then (codes "no ip extcommunity-list " ++ a.name) ∷ []
    else (codes "no ip extcommunity-list " ++ a.name)
      ∷ map (ext_community_list_entry_cmd (ext_community_list_type a.list_type) a.name) a.entries
