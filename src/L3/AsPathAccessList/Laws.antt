-- ===== src/L3/AsPathAccessList/Laws.antt =====
-- What the AS path access list resource sends.
use pulumi_eos.Base.{true, false, refl, All}
use pulumi_eos.Text.{Str, codes}
use pulumi_eos.Eapi.Device.{Stays, has_newline}
use pulumi_eos.Eapi.Staying.{All-Stays-IsInside, OneLine, is_keyword}
use pulumi_eos.L2.Interface.Staying.{NameRune}
use pulumi_eos.Resource.Kind.Laws.{IsSafe}
use pulumi_eos.L3.PrefixList.Transactions.{sanitize-NoSpace}
use pulumi_eos.L3.Listing.{NameRune-OneLine, tag-IsWord, entry_line-Stays, text_line-Stays, All-map}
use pulumi_eos.L3.AsPathAccessList.{
  AsPathAccessListEntry, AsPathAccessListArgs, as_path_access_list_tag, as_path_entry_cmd,
  build_as_path_access_list_cmds, as_path_access_list,
}

-- The texts are single lines, and the name has no spaces but blanks.
abbrev pub IsSendable : AsPathAccessListArgs → Type 0
IsSendable a = All NameRune a.name × All (λ e. OneLine e.action × OneLine e.regex) a.entries

entry-Stays :
    (name : Str) (e : AsPathAccessListEntry)
    → OneLine name
    → OneLine e.action × OneLine e.regex
    → Stays (as_path_entry_cmd name e)
unfolding is_keyword has_newline
entry-Stays name e hn (ha, hv) =
    entry_line-Stays (codes "ip") (codes "as-path access-list ") name e.action e.regex refl refl hn
      ha hv

pub as_path_access_list-IsSafe :
    (a : AsPathAccessListArgs) → IsSendable a → IsSafe as_path_access_list a
unfolding as_path_access_list as_path_access_list_tag build_as_path_access_list_cmds is_keyword
    has_newline
as_path_access_list-IsSafe a (hn, he) =
    let line = NameRune-OneLine a.name hn in
    let no = text_line-Stays (codes "no") (codes "ip as-path access-list ") a.name refl refl line in
    (
      tag-IsWord (codes "aspath-") _ refl (sanitize-NoSpace a.name hn),
      All-Stays-IsInside (build_as_path_access_list_cmds a false) (
        no,
        All-map (λ e. OneLine e.action × OneLine e.regex) Stays _
            (λ e h. entry-Stays a.name e line h) a.entries he,
      ),
      All-Stays-IsInside (build_as_path_access_list_cmds a true) (no, tt),
    )
