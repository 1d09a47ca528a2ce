-- ===== src/L3/ExtCommunityList/Laws.antt =====
-- What the extended community list resource sends.
use pulumi_eos.Base.{true, false, ◌++◌, Option, none, some, refl, All, Bool-cases, inl, inr}
use pulumi_eos.Text.{Str, codes, str_eq}
use pulumi_eos.Eapi.Device.{Stays, has_newline}
use pulumi_eos.Eapi.Staying.{All-Stays-IsInside, OneLine, OneLine?, OneLine-append, is_keyword}
use pulumi_eos.L2.Interface.Staying.{NameRune}
use pulumi_eos.Resource.Kind.Laws.{IsSafe}
use pulumi_eos.L3.PrefixList.Transactions.{sanitize-NoSpace}
use pulumi_eos.L3.Listing.{
  NameRune-OneLine, tag-IsWord, list_type_regexp, entry_line-Stays, text_line-Stays, All-map,
}
use pulumi_eos.L3.ExtCommunityList.{
  ExtCommunityListEntry, ExtCommunityListArgs, ext_community_list_type, ext_community_list_tag,
  ext_community_list_entry_cmd, build_ext_community_list_cmds, type_of,
}
use pulumi_eos.L3.ExtCommunityList.Parse.{ext_community_list}

abbrev pub IsSendableEntry : ExtCommunityListEntry → Type 0
IsSendableEntry e = OneLine e.action × OneLine? e.type × OneLine e.value

-- The texts are single lines, and the name has no spaces but blanks.
abbrev pub IsSendable : ExtCommunityListArgs → Type 0
IsSendable a = All NameRune a.name × All IsSendableEntry a.entries

type_of-OneLine : (o : Option Str) → OneLine? o → OneLine (type_of o)
unfolding has_newline
type_of-OneLine none h = refl
type_of-OneLine (some t) h = h

entry-Stays :
    (t name : Str) (e : ExtCommunityListEntry)
    → OneLine name
    → IsSendableEntry e
    → Stays (ext_community_list_entry_cmd t name e)
unfolding is_keyword has_newline
entry-Stays t name e hn (ha, ht, hv) = elim (Bool-cases (str_eq t list_type_regexp)) [
  | inl b ↦ rw b (
      entry_line-Stays (codes "ip") (codes "extcommunity-list regexp ") name e.action e.value refl
        refl hn ha hv)
  | inr b ↦ rw b (
      entry_line-Stays (codes "ip") (codes "extcommunity-list ") name e.action
        (type_of e.type ++ (codes " " ++ e.value)) refl refl hn ha
        (OneLine-append (type_of e.type) (codes " " ++ e.value) (type_of-OneLine e.type ht) hv))
]

pub ext_community_list-IsSafe :
    (a : ExtCommunityListArgs) → IsSendable a → IsSafe ext_community_list a
unfolding ext_community_list ext_community_list_tag build_ext_community_list_cmds is_keyword
    has_newline
ext_community_list-IsSafe a (hn, he) =
    let line = NameRune-OneLine a.name hn in
    let no = text_line-Stays (codes "no") (codes "ip extcommunity-list ") a.name refl refl line in
    (
      tag-IsWord (codes "extcomm-") _ refl (sanitize-NoSpace a.name hn),
      All-Stays-IsInside (build_ext_community_list_cmds a false) (
        no,
        All-map IsSendableEntry Stays _
            (λ e h. entry-Stays (ext_community_list_type a.list_type) a.name e line h) a.entries he,
      ),
      All-Stays-IsInside (build_ext_community_list_cmds a true) (no, tt),
    )
