-- ===== src/L3/CommunityList/Shown.antt =====
-- `parseCommunityListLines` on the commands of Create among the lines of a grepped configuration.
use pulumi_eos.Base.{true, List, [], ◌∷◌, ◌++◌, ◌≡◌, ◌≢◌, ◌⊎◌, if◌then◌else◌}
use pulumi_eos.Text.{Str, str_eq, trim_right}
use pulumi_eos.Eapi.Staying.{OneLine}
use pulumi_eos.L3.PrefixList.{known_action}
use pulumi_eos.L3.Listing.{list_type_standard, list_type_regexp}
use pulumi_eos.L3.CommunityList.{CommunityListEntry}
use pulumi_eos.L3.CommunityList.Parse.{CommunityListRow, State}

-- A valid entry whose value is one line, without spaces at its end.
abbrev pub IsShown : CommunityListEntry → Type 0
IsShown e =
    (known_action e.action ≡ true)
    × (e.value ≢ [])
    × (trim_right e.value ≡ e.value)
    × OneLine e.value

abbrev rest_of : CommunityListEntry → Str
rest_of e = e.action ++ b' ' ∷ e.value

-- What the line of an entry does to the row, in a list of type `t`.
abbrev new_type : Str → Str → Str
new_type t old = if str_eq t list_type_regexp then list_type_regexp else old

abbrev added : Str → CommunityListEntry → State → State
added t e (row, found) =
    (record row { type = new_type t row.type; entries = row.entries ++ e ∷ [] }, true)

module _ (name : Str) where
  abbrev behind_name : CommunityListEntry → Str
  behind_name e = name ++ b' ' ∷ rest_of e

-- The two types of a list.
abbrev pub IsListType : Str → Type 0
IsListType t = (t ≡ list_type_standard) ⊎ (t ≡ list_type_regexp)

-- The whole list, in a list of one type.
abbrev listed : Str → Str → List CommunityListEntry → CommunityListRow
listed t name es = record { name = name; type = t; entries = es }
