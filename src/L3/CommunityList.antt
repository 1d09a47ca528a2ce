-- ===== src/L3/CommunityList.antt =====
-- internal/resources/l3/community_list.go. The grepped configuration is read in
-- CommunityList/Parse.
pub mod Parse
pub mod Laws
pub mod Shown
use pulumi_eos.Base.{
  Bool, true, false, not, ◌&&◌, ◌||◌, List, [], ◌∷◌, ◌++◌, map, Option, none, some, if◌then◌else◌,
  ℤ, pos, ltb_ℤ, ltb, leb, length,
}
use pulumi_eos.Text.{Str, codes, str_eq, trim_space, split}
use pulumi_eos.Text.Decimal.{atoi}
use pulumi_eos.Text.Cut.{all_digits}
use pulumi_eos.Errors.{GoError, sentinel, wrapped, text, Result, ok, err, ◌>>=◌, ◌>>◌, refuse_if}
use pulumi_eos.Resource.{Access}
use pulumi_eos.Commands.{set_text}
use pulumi_eos.L3.PrefixList.{known_action, is_empty, sanitize_prefix_list_name}
use pulumi_eos.L3.Listing.{list_type_standard, list_type_regexp}

abbrev pub err_community_list_name_required : GoError
err_community_list_name_required = sentinel (codes "communityList name is required")

abbrev pub err_community_list_type_invalid : GoError
err_community_list_type_invalid =
    sentinel (codes "communityList type must be 'standard' or 'regexp'")

abbrev pub err_community_list_empty_entries : GoError
err_community_list_empty_entries = sentinel (codes "communityList must have at least one entry")

abbrev pub err_community_list_action : GoError
err_community_list_action = sentinel (codes "communityList entry action must be 'permit' or 'deny'")

abbrev pub err_community_list_value_empty : GoError
err_community_list_value_empty = sentinel (codes "communityList entry value is required")

abbrev pub err_community_list_value_std : GoError
err_community_list_value_std = sentinel (
    codes
      "communityList standard entry must be a well-known keyword (internet|local-as|no-advertise|no-export|GSHUT), aa:nn pair, or 0..4294967040")

pub record CommunityListEntry : Type 0 where
  pub action : Str
  pub value : Str

pub record CommunityListArgs : Type 0 where
  pub name : Str
  pub type : Option Str
  pub entries : List CommunityListEntry
  pub access : Access

abbrev pub community_list_type : Option Str → Str
community_list_type o = elim (set_text o) [ none ↦ list_type_standard | some t ↦ t ]

-- The keys of the map `communityWellKnown`.
abbrev pub community_well_known : Str → Bool
community_well_known v =
    str_eq v (codes "internet")
    || str_eq v (codes "local-as")
    || str_eq v (codes "no-advertise")
    || str_eq v (codes "no-export")
    || str_eq v (codes "GSHUT")

-- `[0-9]{1,5}`
abbrev pub up_to_five_digits : Str → Bool
up_to_five_digits s = leb 1 (length s) && leb (length s) 5 && all_digits s

-- The two submatches of `communityAANN`.
abbrev pub aann_parts : List Str → Option (Str × Str)
aann_parts (a ∷ n ∷ []) = if up_to_five_digits a && up_to_five_digits n then some (a, n) else none
aann_parts _ = none

abbrev pub in_range : ℤ → Option ℤ → Bool
in_range top none = false
in_range top (some n) = not (ltb_ℤ n (pos 0)) && not (ltb_ℤ top n)

unfoldable pub valid_community_standard_value : Str → Bool
unfolding str_eq split all_digits atoi
valid_community_standard_value v =
    if community_well_known v then true else elim (aann_parts (split v b':')) [
      | some (aa, nn) ↦ in_range (pos 65535) (atoi aa) && in_range (pos 65535) (atoi nn)
      | none ↦ in_range (pos 4294967040) (atoi v)
    ]

-- One round of the loop over the entries, for a list of type `t`.
unfoldable pub check_entry : Str → CommunityListEntry → Result (Unit {0})
unfolding str_eq trim_space valid_community_standard_value
check_entry t e = do
  refuse_if (not (known_action e.action))
      (wrapped (codes "%w: got %q") (text e.action ∷ []) err_community_list_action)
  refuse_if (str_eq (trim_space e.value) []) err_community_list_value_empty
  refuse_if (str_eq t list_type_standard && not (valid_community_standard_value e.value))
      (wrapped (codes "%w: %q") (text e.value ∷ []) err_community_list_value_std)

unfoldable pub check_entries : Str → List CommunityListEntry → Result (Unit {0})
unfolding check_entry
check_entries t [] = ok tt
check_entries t (e ∷ es) = do check_entry t e; check_entries t es

unfoldable pub validate_community_list : CommunityListArgs → Result (Unit {0})
unfolding trim_space str_eq check_entries
validate_community_list a = do
  refuse_if (str_eq (trim_space a.name) []) err_community_list_name_required
  refuse_if
      (not (str_eq (community_list_type a.type) list_type_standard)
        && not (str_eq (community_list_type a.type) list_type_regexp))
      (wrapped (codes "%w: got %q") (text (community_list_type a.type) ∷ [])
        err_community_list_type_invalid)
  refuse_if (is_empty a.entries) err_community_list_empty_entries
  check_entries (community_list_type a.type) a.entries

unfoldable pub community_list_id : Str → Str
community_list_id name = codes "community-list/" ++ name

-- The session's own part of the name, in `applyCommunityList`.
unfoldable pub community_list_tag : Str → Str
unfolding sanitize_prefix_list_name
community_list_tag name = codes "comm-" ++ sanitize_prefix_list_name name

abbrev pub community_list_prefix : Str → Str
community_list_prefix t =
    if str_eq t list_type_regexp
    then codes "ip community-list regexp "
    else codes "ip community-list "

abbrev pub community_list_entry_cmd : Str → Str → CommunityListEntry → Str
community_list_entry_cmd t name e =
    community_list_prefix t ++ (name ++ (codes " " ++ (e.action ++ (codes " " ++ e.value))))

unfoldable pub build_community_list_cmds : CommunityListArgs → Bool → List Str
unfolding str_eq
build_community_list_cmds a remove =
    if remove
    then (codes "no ip community-list " ++ a.name) ∷ []
    else (codes "no ip community-list " ++ a.name)
      ∷ map (community_list_entry_cmd (community_list_type a.type) a.name) a.entries
