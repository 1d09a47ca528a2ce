-- ===== src/L3/PrefixList/Lines.antt =====
-- The lines that `buildPrefixListCmds` writes for one list: each is the list's header and a text.
use pulumi_eos.Base.{
  List, [], ◌∷◌, ◌++◌, map, Option, none, some, ◌≡◌, ◌≢◌, refl, ap, ◌∙◌, sym, All, append_assoc,
}
use mathlib.Core.Path.{subst}
use pulumi_eos.Text.{Str, codes, str_eq, cut_prefix, is_space, join, trim_space, trim_right}
use pulumi_eos.Text.Laws.{cut_prefix-append, trim_right-NoSpace, trim_right-end, trim_space-visible}
use pulumi_eos.Text.Split.{IsWord}
use pulumi_eos.Eapi.Device.{has_newline}
use pulumi_eos.Eapi.Staying.{OneLine, OneLine-append, NoSpace-OneLine}
use pulumi_eos.L3.PrefixList.{PrefixListEntry, entry_words, prefix_list_entry_cmd, remark_cmd}
use pulumi_eos.L3.PrefixList.Parse.{header}
use pulumi_eos.L3.PrefixList.Echo.{IsPrintable, entry_words-IsWord}

pub join-ne-nil : (w : Str) (ws : List Str) → w ≢ [] → join (w ∷ ws) (codes " ") ≢ []
unfolding join
join-ne-nil w [] h = h
join-ne-nil [] (v ∷ ws) h = absurd (h refl)
join-ne-nil (c ∷ w) (v ∷ ws) h = λ e. cc

-- Words joined with blanks end with no blank.
pub trim_right-join :
    (w : Str) (ws : List Str)
    → All IsWord (w ∷ ws)
    → trim_right (join (w ∷ ws) (codes " ")) ≡ join (w ∷ ws) (codes " ")
unfolding join
trim_right-join w [] (h, _) = trim_right-NoSpace w h.1
trim_right-join w (v ∷ ws) (h, (hv, hs)) =
    let ne = join-ne-nil v ws hv.0 in
    trim_right-end w (b' ' ∷ join (v ∷ ws) (codes " ")) (λ e. cc)
      (trim_right-end (codes " ") (join (v ∷ ws) (codes " ")) ne (trim_right-join v ws (hv, hs)))

-- A line of the list `name`: its header, and a text with no blank at the end.
pub cut_own :
    (name rest : Str)
    → rest ≢ []
    → trim_right rest ≡ rest
    → cut_prefix (trim_space (header name ++ rest)) (header name) ≡ some rest
unfolding is_space
cut_own name rest ne h =
    ap (λ l. cut_prefix l (header name))
      (trim_space-visible b'i' _ refl (trim_right-end (header name) rest ne h))
    ∙ cut_prefix-append (header name) rest

pub entry_cmd-header :
    (name : Str) (e : PrefixListEntry)
    → prefix_list_entry_cmd name e ≡ header name ++ join (entry_words e) (codes " ")
unfolding prefix_list_entry_cmd join
entry_cmd-header name e =
    ap (λ l. codes "ip prefix-list " ++ l)
      (sym (append_assoc name (codes " ") (join (entry_words e) (codes " "))))

pub join-OneLine : (ws : List Str) → All IsWord ws → OneLine (join ws (codes " "))
unfolding join has_newline
join-OneLine [] h = refl
join-OneLine (w ∷ []) (h, _) = NoSpace-OneLine w h.1
join-OneLine (w ∷ v ∷ ws) (h, hs) =
    OneLine-append w (b' ' ∷ join (v ∷ ws) (codes " ")) (NoSpace-OneLine w h.1)
      (join-OneLine (v ∷ ws) hs)

-- A remark that the parser gives back: one line, without blanks at its end.
abbrev pub IsRemark : Option Str → Type 0
IsRemark none = Unit
IsRemark (some s) = (trim_right s ≡ s) × OneLine s

abbrev pub remark_of : Option Str → Str
remark_of none = []
remark_of (some s) = s

module _ (name : Str) where
  pub remark-header :
      (s : Str)
      → codes "ip prefix-list " ++ (name ++ (codes " remark " ++ s))
        ≡ header name ++ (codes "remark " ++ s)
  remark-header s =
      ap (λ l. codes "ip prefix-list " ++ l)
        (sym (append_assoc name (codes " ") (codes "remark " ++ s)))

  header-OneLine : (rest : Str) → OneLine name → OneLine rest → OneLine (header name ++ rest)
  unfolding has_newline
  header-OneLine rest hn h =
      OneLine-append (header name) rest (OneLine-append name (codes " ") hn refl) h

  entry-OneLine :
      (e : PrefixListEntry) → OneLine name → IsPrintable e → OneLine (prefix_list_entry_cmd name e)
  entry-OneLine e hn p = subst OneLine (sym (entry_cmd-header name e)) (
      header-OneLine (join (entry_words e) (codes " ")) hn
        (join-OneLine (entry_words e) (entry_words-IsWord e p)))

  pub entries-OneLine :
      (es : List PrefixListEntry)
      → OneLine name
      → All IsPrintable es
      → All OneLine (map (prefix_list_entry_cmd name) es)
  entries-OneLine [] hn h = tt
  entries-OneLine (e ∷ es) hn (h, hs) = (entry-OneLine e hn h, entries-OneLine es hn hs)

  pub remark_cmd-OneLine :
      (o : Option Str) → OneLine name → IsRemark o → All OneLine (remark_cmd name o)
  unfolding str_eq has_newline
  remark_cmd-OneLine none hn h = tt
  remark_cmd-OneLine (some []) hn h = tt
  remark_cmd-OneLine (some (c ∷ s)) hn h = (
    subst OneLine (sym (remark-header (c ∷ s))) (header-OneLine (codes "remark " ++ c ∷ s) hn h.1),
    tt,
  )
