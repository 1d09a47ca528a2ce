-- ===== src/L3/PrefixList/Shown.antt =====
-- `parsePrefixListLines` on the commands of Create among the lines of a grepped configuration.
use pulumi_eos.Base.{
  Bool, true, false, List, [], ◌∷◌, ◌++◌, map, Option, none, some, ◌≡◌, ◌≢◌, false≢true, ap, ◌∙◌,
  sym, All, All-append, if◌then◌else◌,
}
use pulumi_eos.Text.{Str, codes, join}
use pulumi_eos.Text.Split.{split-join}
use pulumi_eos.Eapi.Staying.{All-Lacks, OneLine}
use pulumi_eos.L3.PrefixList.{
  PrefixListArgs, prefix_list_entry_cmd, remark_cmd, build_prefix_list_cmds, sort_by_seq,
}
use pulumi_eos.L3.PrefixList.Parse.{
  PrefixListRow, header, walk, parse_prefix_list_lines, sorted_row,
}
use pulumi_eos.L3.PrefixList.Echo.{IsPrintable}
use pulumi_eos.L3.PrefixList.Order.{All-sort_by_seq, sort_by_seq_sorts, sort_by_seq-Ascending}
use pulumi_eos.L3.PrefixList.Lines.{IsRemark, remark_of, remark_cmd-OneLine, entries-OneLine}
use pulumi_eos.L3.PrefixList.Walk.{
  walk-append, walk-entries, walk-remark, walk-Foreign, Foreign, base, has_remark, any-sort_by_seq,
}

module _ (name : Str) where
  -- What the switch shows of a list, as the provider sent it.
  abbrev pub shown : PrefixListArgs → List Str
  shown a = remark_cmd name a.remark ++ map (prefix_list_entry_cmd name) (sort_by_seq a.entries)

  walk-shown :
      (a : PrefixListArgs)
      → IsRemark a.remark
      → All IsPrintable a.entries
      → a.entries ≢ []
      → walk (header name) (shown a) (base name, false) ≡ (
        record { name = name; remark = remark_of a.remark; entries = sort_by_seq a.entries },
        true,
      )
  walk-shown a hr he ne =
      walk-append name (remark_cmd name a.remark) _ (base name, false)
      ∙ ap (walk (header name) (map (prefix_list_entry_cmd name) (sort_by_seq a.entries)))
          (walk-remark name a.remark hr)
      ∙ walk-entries name (sort_by_seq a.entries)
          (record (base name) { remark = remark_of a.remark }) (has_remark name a.remark)
          (All-sort_by_seq IsPrintable a.entries he)
      ∙ ap
          (λ b. (
            record { name = name; remark = remark_of a.remark; entries = sort_by_seq a.entries },
            b,
          ))
          (any-sort_by_seq name a.entries (has_remark name a.remark) ne)

  walk_through :
      (before after : List Str) (a : PrefixListArgs)
      → All (Foreign name) before
      → All (Foreign name) after
      → IsRemark a.remark
      → All IsPrintable a.entries
      → a.entries ≢ []
      → walk (header name) (before ++ (shown a ++ after)) (base name, false) ≡ (
        record { name = name; remark = remark_of a.remark; entries = sort_by_seq a.entries },
        true,
      )
  walk_through before after a hb ha hr he ne =
      walk-append name before (shown a ++ after) (base name, false)
      ∙ ap (walk (header name) (shown a ++ after)) (walk-Foreign name before (base name, false) hb)
      ∙ walk-append name (shown a) after (base name, false)
      ∙ ap (walk (header name) after) (walk-shown a hr he ne)
      ∙ walk-Foreign name after _ ha

  verdict : PrefixListRow × Bool → Option PrefixListRow
  verdict (row, found) = if found then some (sorted_row row) else none

  parse_lines :
      (ls : List Str)
      → ls ≢ []
      → All OneLine ls
      → parse_prefix_list_lines (join ls (codes "\n")) name
        ≡ verdict (walk (header name) ls (base name, false))
  unfolding parse_prefix_list_lines verdict
  parse_lines ls ne h =
      ap (λ l. verdict (walk (header name) l (base name, false)))
        (split-join ls b'\n' ne (All-Lacks ls h))

  one_line :
      (before after : List Str) (a : PrefixListArgs)
      → OneLine name
      → All OneLine before
      → All OneLine after
      → IsRemark a.remark
      → All IsPrintable a.entries
      → All OneLine (before ++ (shown a ++ after))
  one_line before after a hn lb la hr he = All-append OneLine before (shown a ++ after) lb (
      All-append OneLine (shown a) after
        (All-append OneLine (remark_cmd name a.remark) _ (remark_cmd-OneLine name a.remark hn hr) (
          entries-OneLine name (sort_by_seq a.entries) hn
            (All-sort_by_seq IsPrintable a.entries he)))
        la)

  -- The list on the switch, with its entries in order.
  abbrev pub row_of : PrefixListArgs → PrefixListRow
  row_of a = record { name = name; remark = remark_of a.remark; entries = sort_by_seq a.entries }

  parse-lines :
      (before after : List Str) (a : PrefixListArgs)
      → OneLine name
      → All OneLine before
      → All OneLine after
      → All (Foreign name) before
      → All (Foreign name) after
      → IsRemark a.remark
      → All IsPrintable a.entries
      → a.entries ≢ []
      → parse_prefix_list_lines (join (before ++ (shown a ++ after)) (codes "\n")) name
        ≡ some (row_of a)
  unfolding verdict walk
  parse-lines before after a hn lb la hb ha hr he ne =
      let all = walk_through before after a hb ha hr he ne in
      parse_lines (before ++ (shown a ++ after))
        (λ e. false≢true (
          ap (λ (p : PrefixListRow × Bool). p.1)
            (sym (ap (λ ls. walk (header name) ls (base name, false)) e) ∙ all)))
        (one_line before after a hn lb la hr he)
      ∙ ap verdict all
      ∙ ap (λ es. some (record (row_of a) { entries = es }))
          (sort_by_seq-Ascending (sort_by_seq a.entries) (sort_by_seq_sorts a.entries).0)

abbrev pub behind_first : List Str → List Str
behind_first [] = []
behind_first (l ∷ ls) = ls

-- A prefix list that the provider sent is read back: where the configuration shows the commands of
-- Create but the first, which removes the old list, among lines that are not of this list, the
-- parser finds the list, its remark and its entries by ascending sequence number. The entries are as
-- validation wants them, and there is one; name, remark and the other lines are single lines, and
-- the remark has no blanks at its end.
pub parse-build_prefix_list_cmds :
    (before after : List Str) (a : PrefixListArgs)
    → OneLine a.name
    → All OneLine before
    → All OneLine after
    → All (Foreign a.name) before
    → All (Foreign a.name) after
    → IsRemark a.remark
    → All IsPrintable a.entries
    → a.entries ≢ []
    → parse_prefix_list_lines
        (join (before ++ (behind_first (build_prefix_list_cmds a false) ++ after)) (codes "\n"))
        a.name
      ≡ some
          (record { name = a.name; remark = remark_of a.remark; entries = sort_by_seq a.entries })
unfolding build_prefix_list_cmds
parse-build_prefix_list_cmds before after a = parse-lines a.name before after a
