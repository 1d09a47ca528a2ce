-- ===== src/L3/PrefixList/Walk.antt =====
-- How the loop of `parsePrefixListLines` reads the lines of one list.
use pulumi_eos.Base.{
  Bool, true, false, List, [], ◌∷◌, ◌++◌, map, Option, none, some, ◌≡◌, ◌≢◌, inl, inr, refl, ap,
  ap₂, ◌∙◌, All, Bool-cases, append_assoc, append-nil, ltb_ℤ,
}
use pulumi_eos.Text.{Str, codes, str_eq, cut_prefix, join, trim_space, trim_right}
use pulumi_eos.Text.Laws.{trim_right-end}
use pulumi_eos.L3.PrefixList.{
  PrefixListEntry, entry_words, prefix_list_entry_cmd, remark_cmd, sort_by_seq, insert_by_seq,
}
use pulumi_eos.L3.PrefixList.Parse.{
  PrefixListRow, header, step, walk, parse_rest, parse_prefix_list_entry_rest,
}
use pulumi_eos.L3.PrefixList.Echo.{IsPrintable, entry_words-IsWord, parse-entry_words}
use pulumi_eos.L3.PrefixList.Lines.{
  cut_own, entry_cmd-header, join-ne-nil, trim_right-join, IsRemark, remark_of, remark-header,
}

module _ (name : Str) where
  pub walk-append :
      (a b : List Str) (s : PrefixListRow × Bool)
      → walk (header name) (a ++ b) s ≡ walk (header name) b (walk (header name) a s)
  unfolding walk
  walk-append [] b s = refl
  walk-append (l ∷ a) b s = walk-append a b (step (cut_prefix (trim_space l) (header name)) s)

  -- A line of something else.
  abbrev pub Foreign : Str → Type 0
  Foreign l = cut_prefix (trim_space l) (header name) ≡ none

  pub walk-Foreign :
      (ls : List Str) (s : PrefixListRow × Bool) → All Foreign ls → walk (header name) ls s ≡ s
  unfolding walk
  walk-Foreign [] s h = refl
  walk-Foreign (l ∷ ls) s (h, hs) =
      ap (λ o. walk (header name) ls (step o s)) h ∙ walk-Foreign ls s hs

  walk-own :
      (rest : Str) (ls : List Str) (s : PrefixListRow × Bool)
      → rest ≢ []
      → trim_right rest ≡ rest
      → walk (header name) ((header name ++ rest) ∷ ls) s
        ≡ walk (header name) ls (parse_rest rest s.0, true)
  unfolding walk
  walk-own rest ls s ne h = ap (λ o. walk (header name) ls (step o s)) (cut_own name rest ne h)

  taken_entry :
      (e : PrefixListEntry) (row : PrefixListRow) (rest : Str)
      → cut_prefix rest (codes "remark ") ≡ none
      → parse_prefix_list_entry_rest rest ≡ some e
      → parse_rest rest row ≡ record row { entries = row.entries ++ e ∷ [] }
  unfolding parse_rest
  taken_entry e row rest h k = rw (h, k) refl

  no_remark :
      (e : PrefixListEntry) → cut_prefix (join (entry_words e) (codes " ")) (codes "remark ") ≡ none
  unfolding cut_prefix join
  no_remark e = refl

  parse_rest-entry :
      (e : PrefixListEntry) (row : PrefixListRow)
      → IsPrintable e
      → parse_rest (join (entry_words e) (codes " ")) row
        ≡ record row { entries = row.entries ++ e ∷ [] }
  parse_rest-entry e row p =
      taken_entry e row (join (entry_words e) (codes " ")) (no_remark e) (parse-entry_words e p)

  pub any : List PrefixListEntry → Bool → Bool
  any [] f = f
  any (e ∷ es) f = true

  any-true : (es : List PrefixListEntry) → any es true ≡ true
  unfolding any
  any-true [] = refl
  any-true (e ∷ es) = refl

  pub walk-entries :
      (es : List PrefixListEntry) (row : PrefixListRow) (f : Bool)
      → All IsPrintable es
      → walk (header name) (map (prefix_list_entry_cmd name) es) (row, f)
        ≡ (record row { entries = row.entries ++ es }, any es f)
  unfolding walk any
  walk-entries [] row f h = rw append-nil refl
  walk-entries (e ∷ es) row f (h, hs) =
      ap (λ l. walk (header name) (l ∷ map (prefix_list_entry_cmd name) es) (row, f))
        (entry_cmd-header name e)
      ∙ walk-own (join (entry_words e) (codes " ")) (map (prefix_list_entry_cmd name) es) (row, f)
          (join-ne-nil (codes "seq") _ (λ e. cc))
          (trim_right-join (codes "seq") _ (entry_words-IsWord e h))
      ∙ ap (λ r. walk (header name) (map (prefix_list_entry_cmd name) es) (r, true))
          (parse_rest-entry e row h)
      ∙ walk-entries es (record row { entries = row.entries ++ e ∷ [] }) true hs
      ∙ ap₂ (λ l b. (record row { entries = l }, b)) (append_assoc row.entries (e ∷ []) es)
          (any-true es)

  abbrev pub base : PrefixListRow
  base = record { name = name; remark = []; entries = [] }

  remark-line :
      (s : Str)
      → s ≢ []
      → trim_right s ≡ s
      → walk
          (header name)
          ((codes "ip prefix-list " ++ (name ++ (codes " remark " ++ s))) ∷ [])
          (base, false)
        ≡ (record base { remark = s }, true)
  unfolding walk parse_rest
  remark-line s ne h =
      ap (λ l. walk (header name) (l ∷ []) (base, false)) (remark-header name s)
      ∙ walk-own (codes "remark " ++ s) [] (base, false) (λ e. cc)
          (trim_right-end (codes "remark ") s ne h)

  pub has_remark : Option Str → Bool
  has_remark none = false
  has_remark (some []) = false
  has_remark (some (c ∷ s)) = true

  pub walk-remark :
      (o : Option Str)
      → IsRemark o
      → walk (header name) (remark_cmd name o) (base, false)
        ≡ (record base { remark = remark_of o }, has_remark o)
  unfolding walk str_eq has_remark
  walk-remark none h = refl
  walk-remark (some []) h = refl
  walk-remark (some (c ∷ s)) h = remark-line (c ∷ s) (λ e. cc) h.0

  any-insert_by_seq :
      (e : PrefixListEntry) (es : List PrefixListEntry) (f : Bool)
      → any (insert_by_seq e es) f ≡ true
  unfolding insert_by_seq any
  any-insert_by_seq e [] f = refl
  any-insert_by_seq e (x ∷ xs) f = elim (Bool-cases (ltb_ℤ x.seq e.seq)) [
    | inl b ↦ rw b refl
    | inr b ↦ rw b refl
  ]

  pub any-sort_by_seq :
      (es : List PrefixListEntry) (f : Bool) → es ≢ [] → any (sort_by_seq es) f ≡ true
  unfolding sort_by_seq
  any-sort_by_seq [] f h = absurd (h refl)
  any-sort_by_seq (e ∷ es) f h = any-insert_by_seq e (sort_by_seq es) f
