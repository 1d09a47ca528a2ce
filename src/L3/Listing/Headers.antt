-- ===== src/L3/Listing/Headers.antt =====
-- The header of a list's lines, and the two headers of community lists, which the code tells apart.
use pulumi_eos.Base.{
  true, List, [], ◌∷◌, ◌++◌, none, ◌≡◌, ◌≢◌, inl, inr, refl, ap, ◌∙◌, All, All-append, Option-cases,
  append_assoc, false≢true,
}
use mathlib.Core.Path.{subst}
use pulumi_eos.Text.{Str, codes, str_eq, cut_prefix, trim_space, trim_right, join, is_space, split}
use pulumi_eos.Text.Cut.{same_first}
use pulumi_eos.Text.Laws.{NoSpace, cut_prefix_sound, trim_right-end, trim_space-visible}
use pulumi_eos.Text.Split.{IsWord, split-join}
use pulumi_eos.Eapi.Staying.{OneLine, All-Lacks, is_keyword, is_keyword-IsWord}
use pulumi_eos.L3.PrefixList.{known_action}
use pulumi_eos.L3.PrefixList.Echo.{action-IsWord}
use pulumi_eos.L3.Listing.{over_lines, over_lines-append, over_lines-IsPassed, IsPassed}

regexp-IsWord : IsWord (codes "regexp")
unfolding is_keyword
regexp-IsWord = (is_keyword-IsWord (codes "regexp") refl).0

not_regexp_action : (a : Str) → known_action a ≡ true → a ≢ codes "regexp"
unfolding str_eq
not_regexp_action a h e = false≢true (subst (λ s. known_action s ≡ true) e h)

-- A standard line is no regexp line, whatever the name of the list.
pub standard_header :
    (name action value : Str)
    → All NoSpace name
    → known_action action ≡ true
    → cut_prefix
        (name ++ b' ' ∷ (action ++ b' ' ∷ value))
        (codes "regexp" ++ b' ' ∷ (name ++ codes " "))
      ≡ none
standard_header name action value hn known =
    elim (Option-cases (
      cut_prefix (name ++ b' ' ∷ (action ++ b' ' ∷ value))
        (codes "regexp" ++ b' ' ∷ (name ++ codes " ")))) [
          | inl e ↦ e
          | inr (r, e) ↦
              let whole = cut_prefix_sound _ (codes "regexp" ++ b' ' ∷ (name ++ codes " ")) r e in
              let (same, rest) =
                same_first name (codes "regexp") (action ++ b' ' ∷ value) ((name ++ codes " ") ++ r)
                  hn regexp-IsWord.1 whole in
              let (act, _) =
                same_first action name value r (action-IsWord action known).1 hn
                  (rest ∙ append_assoc name (codes " ") r) in
              absurd (not_regexp_action action known (act ∙ same))
        ]

-- A line that starts with `ip` and does not end with a space is its own trimmed text.
pub trim_space-ip :
    (s t : Str) → t ≢ [] → trim_right t ≡ t → trim_space (b'i' ∷ (s ++ t)) ≡ b'i' ∷ (s ++ t)
unfolding is_space
trim_space-ip s t ne h = trim_space-visible b'i' (s ++ t) refl (trim_right-end (b'i' ∷ s) t ne h)

-- The lines of a list among others.
pub over_lines-among :
    {S : Type 0} (step : Str → S → S) (before own after : List Str) (s t : S)
    → All (IsPassed step) before
    → All (IsPassed step) after
    → over_lines step own s ≡ t
    → over_lines step (before ++ (own ++ after)) s ≡ t
over_lines-among step before own after s t hb ha h =
    over_lines-append step before (own ++ after) s
    ∙ ap (over_lines step (own ++ after)) (over_lines-IsPassed step before s hb)
    ∙ over_lines-append step own after s
    ∙ over_lines-IsPassed step after _ ha
    ∙ h

-- Splitting the output gives its lines, where there is one at least.
pub split_among :
    (before : List Str) (l : Str) (own after : List Str)
    → All OneLine before
    → All OneLine (l ∷ own)
    → All OneLine after
    → split (join (before ++ ((l ∷ own) ++ after)) (codes "\n")) b'\n'
      ≡ before ++ ((l ∷ own) ++ after)
split_among before l own after hb ho ha =
    split-join (before ++ ((l ∷ own) ++ after)) b'\n' (some_line before l (own ++ after)) (
      All-Lacks (before ++ ((l ∷ own) ++ after)) (
        All-append OneLine before ((l ∷ own) ++ after) hb
          (All-append OneLine (l ∷ own) after ho ha)))
  where
    some_line : (xs : List Str) (x : Str) (ys : List Str) → xs ++ (x ∷ ys) ≢ []
    some_line [] x ys e = cc
    some_line (y ∷ xs) x ys e = cc
