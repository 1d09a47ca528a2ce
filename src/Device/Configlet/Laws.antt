-- ===== src/Device/Configlet/Laws.antt =====
-- The lines of a body that count: what they look like, and that they are found again.
use pulumi_eos.Base.{
  ℕ, false, ◌==◌, List, [], ◌∷◌, ◌≡◌, ◌≢◌, refl, ap, ap₂, ◌∙◌, arith, All, Bool-cases, inl, inr,
  if◌then◌else◌,
}
use pulumi_eos.Text.{Str, codes, str_eq, split, join, trim_space, prepend}
use pulumi_eos.Text.Laws.{str_eq_iff}
use pulumi_eos.Text.Split.{Lacks, split-join}
use pulumi_eos.Device.Configlet.{
  is_trimmed, trim_line, keep_line, canonical_lines, canonical_configlet_lines,
}

-- Neither a space nor a tab nor a carriage return stands at the end.
abbrev pub EndsVisible : Str → Type 0
EndsVisible [] = Unit
EndsVisible (c ∷ []) = (c ≢ b' ') × (c ≢ b'\t') × (c ≢ b'\r')
EndsVisible (c ∷ d ∷ s) = EndsVisible (d ∷ s)

-- A line that is sent: more than blanks, without blanks at its end and without a line break.
abbrev pub IsLine : Str → Type 0
IsLine l = EndsVisible l × (trim_space l ≢ []) × Lacks b'\n' l

visible_end : (c : ℕ) → is_trimmed c ≡ false → (c ≢ b' ') × (c ≢ b'\t') × (c ≢ b'\r')
visible_end c h = (ground arith, ground arith, ground arith)

not_trimmed : (c : ℕ) → (c ≢ b' ') × (c ≢ b'\t') × (c ≢ b'\r') → is_trimmed c ≡ false
not_trimmed c h = ground arith

EndsVisible-cons :
    (c : ℕ) (t : Str)
    → EndsVisible t
    → EndsVisible (elim t [ [] ↦ if is_trimmed c then [] else c ∷ [] | d ∷ r ↦ c ∷ d ∷ r ])
EndsVisible-cons c [] h = elim (Bool-cases (is_trimmed c)) [
  | inl e ↦ rw e tt
  | inr e ↦ rw e (visible_end c e)
]
EndsVisible-cons c (d ∷ r) h = h

EndsVisible-trim_line : (s : Str) → EndsVisible (trim_line s)
unfolding trim_line
EndsVisible-trim_line [] = tt
EndsVisible-trim_line (c ∷ s) = EndsVisible-cons c (trim_line s) (EndsVisible-trim_line s)

trim_line-EndsVisible : (s : Str) → EndsVisible s → trim_line s ≡ s
unfolding trim_line
trim_line-EndsVisible [] h = refl
trim_line-EndsVisible (c ∷ []) h = rw (not_trimmed c h) refl
trim_line-EndsVisible (c ∷ d ∷ s) h = rw (trim_line-EndsVisible (d ∷ s) h) refl

Lacks-cons :
    (c : ℕ) (t : Str)
    → c ≢ b'\n'
    → Lacks b'\n' t
    → Lacks b'\n' (elim t [ [] ↦ if is_trimmed c then [] else c ∷ [] | d ∷ r ↦ c ∷ d ∷ r ])
Lacks-cons c [] h hs = elim (Bool-cases (is_trimmed c)) [ inl e ↦ rw e tt | inr e ↦ rw e (h, tt) ]
Lacks-cons c (d ∷ r) h hs = (h, hs)

Lacks-trim_line : (s : Str) → Lacks b'\n' s → Lacks b'\n' (trim_line s)
unfolding trim_line
Lacks-trim_line [] h = tt
Lacks-trim_line (c ∷ s) (h, hs) = Lacks-cons c (trim_line s) h (Lacks-trim_line s hs)

Lacks-prepend :
    (c : ℕ) (ls : List Str) → c ≢ b'\n' → All (Lacks b'\n') ls → All (Lacks b'\n') (prepend c ls)
Lacks-prepend c [] h hs = ((h, tt), tt)
Lacks-prepend c (l ∷ ls) h (hl, hs) = ((h, hl), hs)

differs : (c d : ℕ) → (c == d) ≡ false → c ≢ d
differs c d h = ground arith

Lacks-split : (s : Str) → All (Lacks b'\n') (split s b'\n')
unfolding split
Lacks-split [] = (tt, tt)
Lacks-split (c ∷ s) = elim (Bool-cases (c == b'\n')) [
  | inl e ↦ rw e (tt, Lacks-split s)
  | inr e ↦ rw e (Lacks-prepend c (split s b'\n') (differs c b'\n' e) (Lacks-split s))
]

keep_line-IsLine :
    (l : Str) (ls : List Str)
    → EndsVisible l
    → Lacks b'\n' l
    → All IsLine ls
    → All IsLine (keep_line l ls)
keep_line-IsLine l ls h hl hs = elim (Bool-cases (str_eq (trim_space l) [])) [
  | inl e ↦ rw e hs
  | inr e ↦ rw e ((h, (λ p. cc (e, (str_eq_iff (trim_space l) []).1 p)), hl), hs)
]

canonical_lines-IsLine : (ls : List Str) → All (Lacks b'\n') ls → All IsLine (canonical_lines ls)
unfolding canonical_lines
canonical_lines-IsLine [] h = tt
canonical_lines-IsLine (l ∷ ls) (h, hs) =
    keep_line-IsLine (trim_line l) (canonical_lines ls) (EndsVisible-trim_line l)
      (Lacks-trim_line l h) (canonical_lines-IsLine ls hs)

kept : (l : Str) (ls : List Str) → trim_space l ≢ [] → keep_line l ls ≡ l ∷ ls
kept l ls h = elim (Bool-cases (str_eq (trim_space l) [])) [
  | inl e ↦ absurd (h ((str_eq_iff (trim_space l) []).0 e))
  | inr e ↦ rw e refl
]

canonical_lines-fixed : (ls : List Str) → All IsLine ls → canonical_lines ls ≡ ls
unfolding canonical_lines
canonical_lines-fixed [] h = refl
canonical_lines-fixed (l ∷ ls) ((h, visible, _), hs) =
    ap₂ keep_line (trim_line-EndsVisible l h) (canonical_lines-fixed ls hs) ∙ kept l ls visible

All-Lacks : (ls : List Str) → All IsLine ls → All (Lacks b'\n') ls
All-Lacks [] h = tt
All-Lacks (l ∷ ls) (h, hs) = (h.2, All-Lacks ls hs)

-- The commands of a body that has any are lines of more than blanks that end with no space, tab or
-- carriage return;
-- and the text over which the digest is taken has the same commands, so that a body of just those
-- lines has the same digest.
pub canonical_configlet_lines_stable :
    (body : Str)
    → canonical_configlet_lines body ≢ []
    → All IsLine (canonical_configlet_lines body)
      × (canonical_configlet_lines (join (canonical_configlet_lines body) (codes "\n"))
          ≡ canonical_configlet_lines body)
unfolding canonical_configlet_lines
canonical_configlet_lines_stable body ne =
    let lines = canonical_lines-IsLine (split body b'\n') (Lacks-split body) in
    (
      lines,
      ap canonical_lines
            (split-join (canonical_lines (split body b'\n')) b'\n' ne (All-Lacks _ lines))
          ∙ canonical_lines-fixed _ lines,
    )
