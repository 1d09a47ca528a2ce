-- ===== src/L3/PrefixList/Echo.antt =====
-- `parsePrefixListEntryRest` reads what `prefixListEntryCmd` writes.
use pulumi_eos.Base.{
  true, false, ◌&&◌, ◌||◌, List, [], ◌∷◌, Option, none, some, ◌≡◌, ◌⊎◌, inl, inr, refl, ap, ◌∙◌,
  sym, arith, ℤ, All,
}
use mathlib.Core.Path.{subst}
use pulumi_eos.Text.{Str, codes, str_eq, join}
use pulumi_eos.Text.Decimal.{itoa, IsInt, atoi-itoa, itoa-ne-nil}
use pulumi_eos.Text.Laws.{str_eq_iff}
use pulumi_eos.Text.Split.{IsWord, fields-join}
use pulumi_eos.Eapi.Staying.{itoa-NoSpace, is_keyword, is_keyword-IsWord}
use pulumi_eos.L2.Switchport.Laws.{IfSet}
use pulumi_eos.L3.PrefixList.{PrefixListEntry, entry_words, bounds, known_action, is_set}
use pulumi_eos.L3.PrefixList.Parse.{
  parse_bounds, set_bound, parse_tokens, parse_prefix_list_entry_rest,
}

-- What validation grants an entry, and that its numbers fit a Go `int`.
abbrev pub IsPrintable : PrefixListEntry → Type 0
IsPrintable e =
    (known_action e.action ≡ true)
    × IsWord e.prefix
    × IsInt e.seq
    × IfSet IsInt e.eq
    × IfSet IsInt e.ge
    × IfSet IsInt e.le
    × ((is_set e.eq && (is_set e.ge || is_set e.le)) ≡ false)

pub itoa-IsWord : (z : ℤ) → IsWord (itoa z)
itoa-IsWord z = (itoa-ne-nil z, itoa-NoSpace z)

eq-IsWord : IsWord (codes "eq")
unfolding is_keyword
eq-IsWord = (is_keyword-IsWord (codes "eq") refl).0

ge-IsWord : IsWord (codes "ge")
unfolding is_keyword
ge-IsWord = (is_keyword-IsWord (codes "ge") refl).0

le-IsWord : IsWord (codes "le")
unfolding is_keyword
le-IsWord = (is_keyword-IsWord (codes "le") refl).0

pub seq-IsWord : IsWord (codes "seq")
unfolding is_keyword
seq-IsWord = (is_keyword-IsWord (codes "seq") refl).0

pub bounds-IsWord : (eq ge le : Option ℤ) → All IsWord (bounds eq ge le)
bounds-IsWord (some eq) ge le = (eq-IsWord, (itoa-IsWord eq, tt))
bounds-IsWord none (some ge) (some le) =
    (ge-IsWord, (itoa-IsWord ge, (le-IsWord, (itoa-IsWord le, tt))))
bounds-IsWord none (some ge) none = (ge-IsWord, (itoa-IsWord ge, tt))
bounds-IsWord none none (some le) = (le-IsWord, (itoa-IsWord le, tt))
bounds-IsWord none none none = tt

known_action_cases : (a : Str) → known_action a ≡ true → (a ≡ codes "permit") ⊎ (a ≡ codes "deny")
known_action_cases a h = ground (arith, str_eq_iff a (codes "permit"), str_eq_iff a (codes "deny"))

pub action-IsWord : (a : Str) → known_action a ≡ true → IsWord a
unfolding is_keyword str_eq
action-IsWord a h = elim (known_action_cases a h) [
  | inl e ↦ subst IsWord (sym e) (is_keyword-IsWord (codes "permit") refl).0
  | inr e ↦ subst IsWord (sym e) (is_keyword-IsWord (codes "deny") refl).0
]

parse_bounds-pair :
    (key : Str) (n : ℤ) (rest : List Str) (e : PrefixListEntry)
    → IsInt n
    → parse_bounds (key ∷ itoa n ∷ rest) e ≡ parse_bounds rest (set_bound key n e)
unfolding parse_bounds
parse_bounds-pair key n rest e h =
    ap (λ (o : Option ℤ). parse_bounds rest (elim o [ none ↦ e | some v ↦ set_bound key v e ]))
      (atoi-itoa n h)

parse_bounds-bounds :
    (e : PrefixListEntry) (eq ge le : Option ℤ)
    → IfSet IsInt eq
    → IfSet IsInt ge
    → IfSet IsInt le
    → (is_set eq && (is_set ge || is_set le)) ≡ false
    → parse_bounds (bounds eq ge le) (record e { eq = none; ge = none; le = none })
      ≡ record e { eq = eq; ge = ge; le = le }
unfolding parse_bounds str_eq
parse_bounds-bounds e (some eq) (some ge) le heq hge hle h = cc
parse_bounds-bounds e (some eq) none (some le) heq hge hle h = cc
parse_bounds-bounds e (some eq) none none heq hge hle h = parse_bounds-pair (codes "eq") eq [] _ heq
parse_bounds-bounds e none (some ge) (some le) heq hge hle h =
    parse_bounds-pair (codes "ge") ge (codes "le" ∷ itoa le ∷ []) _ hge
    ∙ parse_bounds-pair (codes "le") le [] _ hle
parse_bounds-bounds e none (some ge) none heq hge hle h = parse_bounds-pair (codes "ge") ge [] _ hge
parse_bounds-bounds e none none (some le) heq hge hle h = parse_bounds-pair (codes "le") le [] _ hle
parse_bounds-bounds e none none none heq hge hle h = refl

parse_tokens-entry_words :
    (e : PrefixListEntry) → IsPrintable e → parse_tokens (entry_words e) ≡ some e
unfolding parse_tokens str_eq
parse_tokens-entry_words e (known, word, seq, heq, hge, hle, h) =
    rw (atoi-itoa e.seq seq, known) (ap some (parse_bounds-bounds e e.eq e.ge e.le heq hge hle h))

pub entry_words-IsWord : (e : PrefixListEntry) → IsPrintable e → All IsWord (entry_words e)
entry_words-IsWord e p = (
  seq-IsWord,
  (itoa-IsWord e.seq, (action-IsWord e.action p.0, (p.1, bounds-IsWord e.eq e.ge e.le))),
)

pub parse-entry_words :
    (e : PrefixListEntry)
    → IsPrintable e
    → parse_prefix_list_entry_rest (join (entry_words e) (codes " ")) ≡ some e
unfolding parse_prefix_list_entry_rest
parse-entry_words e p =
    ap parse_tokens (fields-join (entry_words e) (cc) (entry_words-IsWord e p))
    ∙ parse_tokens-entry_words e p
