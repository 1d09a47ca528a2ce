-- ===== src/L3/PrefixList/Transactions.antt =====
-- What the prefix list resource sends and leaves on the switch.
use pulumi_eos.Base.{
  ℕ, Bool, true, false, ◌||◌, ◌==◌, List, [], ◌∷◌, ◌++◌, map, Option, none, some, refl, arith, All,
  All-append, if◌then◌else◌,
}
use pulumi_eos.Text.{Str, codes, str_eq, is_space, join}
use pulumi_eos.Text.Laws.{NoSpace}
use pulumi_eos.Errors.{text}
use pulumi_eos.Goeapi.{Goeapi}
use pulumi_eos.Std.{Std}
use pulumi_eos.Eapi.Device.{SessionDevice, Stays, has_newline}
use pulumi_eos.Eapi.Staying.{
  All-Stays-IsInside, OneLine, OneLine?, OneLine-append, command-Stays, session_name-IsWord,
  is_keyword,
}
use pulumi_eos.Config.{Config, session_prefix}
use pulumi_eos.Resource.Laws.{
  Applied, Submitted, apply_with-Applied, submit_with-Submitted, delete_with-Applied,
}
use pulumi_eos.L2.Interface.Staying.{NameRune}
use pulumi_eos.L3.PrefixList.{
  PrefixListEntry, PrefixListArgs, prefix_list_id, validate_prefix_list, entry_words,
  prefix_list_entry_cmd, remark_cmd, sort_by_seq, build_prefix_list_cmds, sanitize_prefix_list_name,
  apply_prefix_list, create, update, delete,
}
use pulumi_eos.L3.PrefixList.Echo.{IsPrintable, entry_words-IsWord}
use pulumi_eos.L3.PrefixList.Lines.{join-OneLine}
use pulumi_eos.L3.PrefixList.Order.{All-sort_by_seq}

module _ (name : Str) (one : OneLine name) where
  own-Stays : (rest : Str) → OneLine rest → Stays (codes "ip prefix-list " ++ (name ++ rest))
  unfolding is_keyword has_newline
  own-Stays rest h =
      command-Stays (codes "ip") (codes "prefix-list " ++ (name ++ rest)) refl
        (OneLine-append (codes "prefix-list ") (name ++ rest) refl (OneLine-append name rest one h))

  entry-Stays : (e : PrefixListEntry) → IsPrintable e → Stays (prefix_list_entry_cmd name e)
  unfolding prefix_list_entry_cmd join has_newline
  entry-Stays e p =
      own-Stays (codes " " ++ join (entry_words e) (codes " "))
        (join-OneLine (entry_words e) (entry_words-IsWord e p))

  entries-Stays :
      (es : List PrefixListEntry)
      → All IsPrintable es
      → All Stays (map (prefix_list_entry_cmd name) es)
  entries-Stays [] h = tt
  entries-Stays (e ∷ es) (h, hs) = (entry-Stays e h, entries-Stays es hs)

  remark_cmd-Stays : (o : Option Str) → OneLine? o → All Stays (remark_cmd name o)
  unfolding str_eq has_newline
  remark_cmd-Stays none h = tt
  remark_cmd-Stays (some []) h = tt
  remark_cmd-Stays (some (c ∷ s)) h = (own-Stays (codes " remark " ++ c ∷ s) h, tt)

-- Texts of single lines, and entries as validation wants them.
abbrev pub IsSendable : PrefixListArgs → Type 0
IsSendable a = OneLine a.name × OneLine? a.remark × All IsPrintable a.entries

build_prefix_list_cmds-Stays :
    (a : PrefixListArgs) (remove : Bool)
    → IsSendable a
    → All Stays (build_prefix_list_cmds a remove)
unfolding build_prefix_list_cmds is_keyword has_newline
build_prefix_list_cmds-Stays a true (hn, hr, he) =
    (command-Stays (codes "no") (codes "ip prefix-list " ++ a.name) refl hn, tt)
build_prefix_list_cmds-Stays a false (hn, hr, he) = (
  command-Stays (codes "no") (codes "ip prefix-list " ++ a.name) refl hn,
  All-append Stays _ _ (remark_cmd-Stays a.name hn a.remark hr)
      (entries-Stays a.name hn (sort_by_seq a.entries) (All-sort_by_seq IsPrintable a.entries he)),
)

hyphened :
    (c : ℕ)
    → NameRune c
    → NoSpace (if c == b'.' || c == b' ' || c == b':' || c == b'/' then b'-' else c)
unfolding is_space
hyphened c h = ground arith

pub sanitize-NoSpace : (s : Str) → All NameRune s → All NoSpace (sanitize_prefix_list_name s)
unfolding sanitize_prefix_list_name
sanitize-NoSpace [] h = tt
sanitize-NoSpace (c ∷ s) (h, hs) = (hyphened c h, sanitize-NoSpace s hs)

abbrev pub session_name : Config → PrefixListArgs → Str
session_name cfg a = session_prefix cfg ++ (codes "pfxlist-" ++ sanitize_prefix_list_name a.name)

module _ (g : Goeapi) (d : SessionDevice g) (std : Std) (cfg : Config) where
  apply-Applied :
      (a : PrefixListArgs) (remove : Bool) (w : g.World)
      → All NoSpace (session_prefix cfg)
      → All NameRune a.name
      → IsSendable a
      → Applied g d
          (session_name cfg a)
          (build_prefix_list_cmds a remove)
          w
          (apply_prefix_list g std cfg a remove w)
  unfolding apply_prefix_list is_keyword
  apply-Applied a remove w hp hn h =
      apply_with-Applied g d std cfg a.access (codes "pfxlist-" ++ sanitize_prefix_list_name a.name)
        (build_prefix_list_cmds a remove) w
        (session_name-IsWord (session_prefix cfg) (codes "pfxlist-")
          (sanitize_prefix_list_name a.name) hp refl (sanitize-NoSpace a.name hn))
        (All-Stays-IsInside (build_prefix_list_cmds a remove)
          (build_prefix_list_cmds-Stays a remove h))

  -- Creating, updating and deleting a prefix list are transactions on the switch, and always return.
  -- Create and Update succeed only for valid arguments; then the switch has the commands of the list
  -- replayed, behind what a session of that name still held, or is unchanged in a dry run. With an
  -- error the switch is unchanged. Delete replays `no ip prefix-list`, or leaves the switch unchanged
  -- with an error. The prefix of the session's name has no blanks; the list's name is a line without
  -- spaces but blanks, its remark is one line, and its entries are words and numbers of Go's `int`.
  pub prefix_list_transactions :
      (a : PrefixListArgs) (dry_run : Bool) (w : g.World)
      → All NoSpace (session_prefix cfg)
      → All NameRune a.name
      → IsSendable a
      → Submitted g d
          (session_name cfg a)
          (build_prefix_list_cmds a false)
          (validate_prefix_list a)
          dry_run
          (record { id = prefix_list_id a.name; output = a })
          w
          (create g std cfg a dry_run w)
        × Submitted g d
            (session_name cfg a)
            (build_prefix_list_cmds a false)
            (validate_prefix_list a)
            dry_run
            a
            w
            (update g std cfg a dry_run w)
        × Applied g d (session_name cfg a) (build_prefix_list_cmds a true) w (delete g std cfg a w)
  unfolding create update delete
  prefix_list_transactions a dry_run w hp hn h = (
    submit_with-Submitted g d (session_name cfg a) (build_prefix_list_cmds a false)
        (codes "create prefix-list %s: %w") (text a.name ∷ [])
        (record { id = prefix_list_id a.name; output = a }) (validate_prefix_list a) dry_run
        (apply_prefix_list g std cfg a false) w (apply-Applied a false w hp hn h),
    submit_with-Submitted g d (session_name cfg a) (build_prefix_list_cmds a false)
        (codes "update prefix-list %s: %w") (text a.name ∷ []) a (validate_prefix_list a) dry_run
        (apply_prefix_list g std cfg a false) w (apply-Applied a false w hp hn h),
    delete_with-Applied g d (session_name cfg a) (build_prefix_list_cmds a true)
        (codes "delete prefix-list %s: %w") (text a.name ∷ []) (apply_prefix_list g std cfg a true)
        w (apply-Applied a true w hp hn h),
  )
