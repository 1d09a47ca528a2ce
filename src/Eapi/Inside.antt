-- ===== src/Eapi/Inside.antt =====
-- Blocks of a configuration mode: a line that enters the mode, commands of the mode, and `exit`.
use pulumi_eos.Base.{
  true, List, [], ◌∷◌, ◌++◌, Option, none, some, ◌≡◌, refl, ap, ap₂, ◌∙◌, All, append_assoc, ℤ, pos,
  ltb_ℤ, if◌then◌else◌, Bool-cases, inl, inr,
}
use pulumi_eos.Text.{Str, codes, str_eq, fields}
use pulumi_eos.Text.Decimal.{itoa}
use pulumi_eos.Text.Split.{IsWord}
use pulumi_eos.Commands.{text_cmd, number_cmd, positive_cmd}
use pulumi_eos.Eapi.Modes.{has_newline, Mode, after_words, after_line, and_then, stays_inside}
use pulumi_eos.Eapi.Staying.{
  OneLine, OneLine?, OneLine-append, NoSpace-OneLine, fields-keyword, itoa-OneLine,
}

-- A line that is one of the mode's own, whatever modes stand around it.
abbrev pub Own : Mode → Str → Type 0
Own m l = OneLine l × ((up : List Mode) → after_words (m ∷ up) (fields l) ≡ some (m ∷ up))

pub Own-lines :
    (m : Mode) (up : List Mode) (ls rest : List Str)
    → All (Own m) ls
    → stays_inside (ls ++ rest) (m ∷ up) ≡ stays_inside rest (m ∷ up)
unfolding stays_inside after_line
Own-lines m up [] rest h = refl
Own-lines m up (l ∷ ls) rest ((line, own), hs) = rw (line, own up) (Own-lines m up ls rest hs)

-- A word that starts a command of the mode.
abbrev pub Starts : Mode → Str → Type 0
Starts m w =
    IsWord w × ((up : List Mode) (ws : List Str) → after_words (m ∷ up) (w ∷ ws) ≡ some (m ∷ up))

pub command-Own : (m : Mode) (w x : Str) → Starts m w → OneLine x → Own m (w ++ b' ' ∷ x)
unfolding has_newline
command-Own m w x (word, own) line = (
  OneLine-append w (b' ' ∷ x) (NoSpace-OneLine w word.1) line,
  λ up. ap (after_words (m ∷ up)) (fields-keyword w x word) ∙ own up (fields x),
)

-- A command of the mode whose first two words decide.
pub two_words-Own :
    (m : Mode) (w v x : Str)
    → IsWord w
    → IsWord v
    → OneLine x
    → ((up : List Mode) (ws : List Str) → after_words (m ∷ up) (w ∷ v ∷ ws) ≡ some (m ∷ up))
    → Own m (w ++ b' ' ∷ (v ++ b' ' ∷ x))
unfolding has_newline
two_words-Own m w v x word second line own = (
  OneLine-append w (b' ' ∷ (v ++ b' ' ∷ x)) (NoSpace-OneLine w word.1)
      (OneLine-append v (b' ' ∷ x) (NoSpace-OneLine v second.1) line),
  λ up.
      ap (after_words (m ∷ up)) (fields-keyword w (v ++ b' ' ∷ x) word)
      ∙ ap (λ ws. after_words (m ∷ up) (w ∷ ws)) (fields-keyword v x second)
      ∙ own up (fields x),
)

-- A line that goes from some modes to others.
abbrev pub Goes : List Mode → Str → List Mode → Type 0
Goes modes l modes' = after_line modes l ≡ some modes'

pub command-Goes :
    (w x : Str) (modes modes' : List Mode)
    → IsWord w
    → OneLine x
    → after_words modes (w ∷ fields x) ≡ some modes'
    → Goes modes (w ++ b' ' ∷ x) modes'
unfolding after_line
command-Goes w x modes modes' word line h =
    ap₂ (λ b o. if b then none else o) (OneLine-append w (b' ' ∷ x) (NoSpace-OneLine w word.1) line)
      (ap (after_words modes) (fields-keyword w x word) ∙ h)

-- A line whose first two words decide.
pub two_words-Goes :
    (w v x : Str) (modes modes' : List Mode)
    → IsWord w
    → IsWord v
    → OneLine x
    → ((ws : List Str) → after_words modes (w ∷ v ∷ ws) ≡ some modes')
    → Goes modes (w ++ b' ' ∷ (v ++ b' ' ∷ x)) modes'
unfolding has_newline
two_words-Goes w v x modes modes' word second line h =
    command-Goes w (v ++ b' ' ∷ x) modes modes' word
      (OneLine-append v (b' ' ∷ x) (NoSpace-OneLine v second.1) line)
      (ap (λ ws. after_words modes (w ∷ ws)) (fields-keyword v x second) ∙ h (fields x))

pub then_inside :
    (modes modes' : List Mode) (l : Str) (ls : List Str)
    → Goes modes l modes'
    → stays_inside ls modes' ≡ true
    → stays_inside (l ∷ ls) modes ≡ true
unfolding stays_inside
then_inside modes modes' l ls h k = ap (λ o. and_then o (stays_inside ls)) h ∙ k

-- `exit` in a mode.
pub exit_inside :
    (m : Mode) (up : List Mode) (ls : List Str)
    → stays_inside ls up ≡ true
    → stays_inside (codes "exit" ∷ ls) (m ∷ up) ≡ true
unfolding stays_inside after_line has_newline fields str_eq
exit_inside m up ls h = h

-- A block: the mode is entered, its own commands follow, and `exit` leaves it again.
pub block_inside :
    (modes up : List Mode) (m : Mode) (l : Str) (own rest : List Str)
    → Goes modes l (m ∷ up)
    → All (Own m) own
    → stays_inside rest up ≡ true
    → stays_inside (l ∷ (own ++ codes "exit" ∷ rest)) modes ≡ true
block_inside modes up m l own rest h ho hr =
    then_inside modes (m ∷ up) l (own ++ codes "exit" ∷ rest) h
      (Own-lines m up own (codes "exit" ∷ rest) ho ∙ exit_inside m up rest hr)

module _ (P : Str → Type 0) (w : Str) (p : (x : Str) → OneLine x → P (w ++ b' ' ∷ x)) where
  pub All-text_cmd :
      (t : Str) (o : Option Str) → OneLine t → OneLine? o → All P (text_cmd (w ++ b' ' ∷ t) o)
  unfolding str_eq
  All-text_cmd t none lt lo = tt
  All-text_cmd t (some []) lt lo = tt
  All-text_cmd t (some (c ∷ s)) lt lo =
      (rw append_assoc (p (t ++ c ∷ s) (OneLine-append t (c ∷ s) lt lo)), tt)

  pub All-number_cmd : (t : Str) (o : Option ℤ) → OneLine t → All P (number_cmd (w ++ b' ' ∷ t) o)
  All-number_cmd t none lt = tt
  All-number_cmd t (some v) lt =
      (rw append_assoc (p (t ++ itoa v) (OneLine-append t (itoa v) lt (itoa-OneLine v))), tt)

  pub All-positive_cmd :
      (t : Str) (o : Option ℤ) → OneLine t → All P (positive_cmd (w ++ b' ' ∷ t) o)
  All-positive_cmd t none lt = tt
  All-positive_cmd t (some v) lt = elim (Bool-cases (ltb_ℤ (pos 0) v)) [
    | inl e ↦ rw e (All-number_cmd t (some v) lt)
    | inr e ↦ rw e tt
  ]
