-- ===== src/L3/CommunityList/Laws.antt =====
-- What the community list resource sends.
use pulumi_eos.Base.{true, false, refl, All, Bool-cases, inl, inr}
use pulumi_eos.Text.{Str, codes, str_eq}
use pulumi_eos.Eapi.Device.{Stays, has_newline}
use pulumi_eos.Eapi.Staying.{All-Stays-IsInside, OneLine, is_keyword}
use pulumi_eos.L2.Interface.Staying.{NameRune}
use pulumi_eos.Resource.Kind.Laws.{IsSafe}
use pulumi_eos.L3.PrefixList.Transactions.{sanitize-NoSpace}
use pulumi_eos.L3.Listing.{
  NameRune-OneLine, tag-IsWord, list_type_regexp, entry_line-Stays, text_line-Stays, All-map,
}
use pulumi_eos.L3.CommunityList.{
  CommunityListEntry, CommunityListArgs, community_list_type, community_list_tag,
  community_list_entry_cmd, build_community_list_cmds,
}
use pulumi_eos.L3.CommunityList.Parse.{community_list}

-- The texts are single lines, and the name has no spaces but blanks.
abbrev pub IsSendable : CommunityListArgs → Type 0
IsSendable a = All NameRune a.name × All (λ e. OneLine e.action × OneLine e.value) a.entries

entry-Stays :
    (t name : Str) (e : CommunityListEntry)
    → OneLine name
    → OneLine e.action × OneLine e.value
    → Stays (community_list_entry_cmd t name e)
unfolding is_keyword has_newline
entry-Stays t name e hn (ha, hv) = elim (Bool-cases (str_eq t list_type_regexp)) [
  | inl b ↦ rw b (
      entry_line-Stays (codes "ip") (codes "community-list regexp ") name e.action e.value refl refl
        hn ha hv)
  | inr b ↦ rw b (
      entry_line-Stays (codes "ip") (codes "community-list ") name e.action e.value refl refl hn ha
        hv)
]

pub community_list-IsSafe : (a : CommunityListArgs) → IsSendable a → IsSafe community_list a
unfolding community_list community_list_tag build_community_list_cmds is_keyword has_newline
community_list-IsSafe a (hn, he) =
    let line = NameRune-OneLine a.name hn in
    let no = text_line-Stays (codes "no") (codes "ip community-list ") a.name refl refl line in
    (
      tag-IsWord (codes "comm-") _ refl (sanitize-NoSpace a.name hn),
      All-Stays-IsInside (build_community_list_cmds a false) (
        no,
        All-map (λ e. OneLine e.action × OneLine e.value) Stays _
            (λ e h. entry-Stays (community_list_type a.type) a.name e line h) a.entries he,
      ),
      All-Stays-IsInside (build_community_list_cmds a true) (no, tt),
    )
