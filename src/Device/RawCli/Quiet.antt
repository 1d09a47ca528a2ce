-- ===== src/Device/RawCli/Quiet.antt =====
-- What `isEmptyDiff` takes for no change.
use pulumi_eos.Base.{
  Bool, true, false, ◌&&◌, ◌||◌, List, [], ◌∷◌, ◌++◌, Option, none, some, ◌≡◌, ◌↔◌, ◌⊎◌, inl, inr,
  refl, All,
}
use pulumi_eos.Text.{Str, codes, split, trim_space, cut_prefix}
use pulumi_eos.Text.Laws.{str_eq_iff, cut_prefix-append, cut_prefix_sound}
use pulumi_eos.Device.RawCli.{was_cut, has_prefix, is_quiet, quiet_lines, is_empty_diff}

abbrev pub StartsWith : Str → Str → Type 0
StartsWith s p = (rest : Str) × (s ≡ p ++ rest)

was_cut_iff :
    (s p : Str) (o : Option Str) → cut_prefix s p ≡ o → (was_cut o ≡ true) ↔ StartsWith s p
was_cut_iff s p none e = (λ h. cc, λ (rest, h). cc (e, h, cut_prefix-append p rest))
was_cut_iff s p (some rest) e = (λ _. (rest, cut_prefix_sound s p rest e), λ _. refl)

has_prefix_iff : (s p : Str) → (has_prefix s p ≡ true) ↔ StartsWith s p
has_prefix_iff s p = was_cut_iff s p (cut_prefix s p) refl

-- A line that is blank, or the name of a file in the diff.
abbrev pub IsQuiet : Str → Type 0
IsQuiet l =
    (trim_space l ≡ [])
    ⊎ StartsWith (trim_space l) (codes "---")
    ⊎ StartsWith (trim_space l) (codes "+++")

or3_iff :
    {P Q R : Type 0} (a b c : Bool)
    → (a ≡ true) ↔ P
    → (b ≡ true) ↔ Q
    → (c ≡ true) ↔ R
    → ((a || b || c) ≡ true) ↔ (P ⊎ Q ⊎ R)
or3_iff true b c p q r = (λ _. inl (p.0 refl), λ _. refl)
or3_iff false true c p q r = (λ _. inr (inl (q.0 refl)), λ _. refl)
or3_iff false false true p q r = (λ _. inr (inr (r.0 refl)), λ _. refl)
or3_iff false false false p q r =
    (λ h. cc, λ x. elim x [ inl h ↦ p.1 h | inr (inl h) ↦ q.1 h | inr (inr h) ↦ r.1 h ])

is_quiet_iff : (l : Str) → (is_quiet (trim_space l) ≡ true) ↔ IsQuiet l
is_quiet_iff l =
    or3_iff _ _ _ (str_eq_iff (trim_space l) []) (has_prefix_iff (trim_space l) (codes "---"))
      (has_prefix_iff (trim_space l) (codes "+++"))

and_iff :
    {P Q : Type 0} (a b : Bool) → (a ≡ true) ↔ P → (b ≡ true) ↔ Q → ((a && b) ≡ true) ↔ (P × Q)
and_iff true b p q = (λ h. (p.0 refl, q.0 h), λ h. q.1 h.1)
and_iff false b p q = (λ h. cc, λ h. p.1 h.0)

quiet_lines_iff : (ls : List Str) → (quiet_lines ls ≡ true) ↔ All IsQuiet ls
unfolding quiet_lines
quiet_lines_iff [] = (λ _. tt, λ _. refl)
quiet_lines_iff (l ∷ ls) = and_iff _ _ (is_quiet_iff l) (quiet_lines_iff ls)

-- A diff counts as empty exactly when each of its lines is blank or names a file.
pub is_empty_diff_iff : (text : Str) → (is_empty_diff text ≡ true) ↔ All IsQuiet (split text b'\n')
unfolding is_empty_diff
is_empty_diff_iff text = quiet_lines_iff (split text b'\n')
