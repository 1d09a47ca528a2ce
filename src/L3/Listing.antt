-- ===== src/L3/Listing.antt =====
-- What the access lists of internal/resources/l3 share: one line of the running configuration for an
-- entry, read back by a loop over the lines of a grepped configuration. Also the constants of
-- internal/resources/l3/types.go.
pub mod Headers
use pulumi_eos.Base.{true, List, [], ◌∷◌, ◌++◌, map, ◌≡◌, ◌⊎◌, refl, ap, ◌∙◌, arith, All}
use pulumi_eos.Text.{Str, codes, trim_space, is_space}
use pulumi_eos.Text.Laws.{NoSpace, str_eq_iff}
use pulumi_eos.Text.Split.{IsWord}
use pulumi_eos.Eapi.Device.{has_newline, Stays}
use pulumi_eos.Eapi.Staying.{
  OneLine, OneLine-append, command-Stays, session_name-IsWord, is_keyword,
}
use pulumi_eos.L2.Interface.Staying.{NameRune}
use pulumi_eos.L3.PrefixList.{known_action}

abbrev pub list_type_standard : Str
list_type_standard = codes "standard"

abbrev pub list_type_regexp : Str
list_type_regexp = codes "regexp"

-- The loop `for raw := range strings.SplitSeq(out, "\n")`, whose body takes the trimmed line.
unfoldable pub over_lines {ℓ} : {S : Type ℓ} → (Str → S → S) → List Str → S → S
unfolding trim_space
over_lines step [] s = s
over_lines step (raw ∷ rest) s = over_lines step rest (step (trim_space raw) s)

abbrev pub over {ℓ} : {E S : Type ℓ} → (E → S → S) → List E → S → S
over add [] s = s
over add (e ∷ es) s = over add es (add e s)

-- Where the line of every entry does to the state what `add` says, the loop adds the entries.
pub over_lines-map :
    {E S : Type 0} (P : E → Type 0) (step : Str → S → S) (cmd : E → Str) (add : E → S → S)
    → ((e : E) (s : S) → P e → step (trim_space (cmd e)) s ≡ add e s)
    → (es : List E) (s : S) → All P es
    → over_lines step (map cmd es) s ≡ over add es s
unfolding over_lines
over_lines-map P step cmd add own [] s h = refl
over_lines-map P step cmd add own (e ∷ es) s (h, hs) =
    ap (over_lines step (map cmd es)) (own e s h)
    ∙ over_lines-map P step cmd add own es (add e s) hs

pub over_lines-append :
    {S : Type 0} (step : Str → S → S) (a b : List Str) (s : S)
    → over_lines step (a ++ b) s ≡ over_lines step b (over_lines step a s)
unfolding over_lines
over_lines-append step [] b s = refl
over_lines-append step (l ∷ a) b s = over_lines-append step a b (step (trim_space l) s)

-- Lines that the loop passes over, whatever it has found.
abbrev pub IsPassed {ℓ} : {S : Type ℓ} → (Str → S → S) → Str → Type ℓ
IsPassed {S = S} step l = (s : S) → step (trim_space l) s ≡ s

pub over_lines-IsPassed :
    {S : Type 0} (step : Str → S → S) (ls : List Str) (s : S)
    → All (IsPassed step) ls
    → over_lines step ls s ≡ s
unfolding over_lines
over_lines-IsPassed step [] s h = refl
over_lines-IsPassed step (l ∷ ls) s (h, hs) =
    ap (over_lines step ls) (h s) ∙ over_lines-IsPassed step ls s hs

pub NameRune-OneLine : (s : Str) → All NameRune s → OneLine s
unfolding has_newline is_space
NameRune-OneLine [] h = refl
NameRune-OneLine (c ∷ s) (h, hs) = ground (arith, NameRune-OneLine s hs)

pub tag-IsWord : (w x : Str) → is_keyword w ≡ true → All NoSpace x → IsWord (w ++ x)
tag-IsWord w x k hx = session_name-IsWord [] w x tt k hx

-- `permit` and `deny` are words.
pub action_cases : (a : Str) → known_action a ≡ true → (a ≡ codes "permit") ⊎ (a ≡ codes "deny")
action_cases a h = ground (arith, str_eq_iff a (codes "permit"), str_eq_iff a (codes "deny"))

-- A line of a list: its keyword and the list's kind, the name, and two texts.
pub entry_line-Stays :
    (w t name a b : Str)
    → is_keyword w ≡ true
    → OneLine t
    → OneLine name
    → OneLine a
    → OneLine b
    → Stays (w ++ b' ' ∷ (t ++ (name ++ (codes " " ++ (a ++ (codes " " ++ b))))))
unfolding has_newline
entry_line-Stays w t name a b k lt ln la lb =
    command-Stays w (t ++ (name ++ (codes " " ++ (a ++ (codes " " ++ b))))) k (
      OneLine-append t (name ++ (codes " " ++ (a ++ (codes " " ++ b)))) lt (
        OneLine-append name (codes " " ++ (a ++ (codes " " ++ b))) ln (
          OneLine-append (codes " ") (a ++ (codes " " ++ b)) refl
            (OneLine-append a (codes " " ++ b) la (OneLine-append (codes " ") b refl lb)))))

-- A command of a keyword, more words, and one text.
pub text_line-Stays :
    (w t x : Str) → is_keyword w ≡ true → OneLine t → OneLine x → Stays (w ++ b' ' ∷ (t ++ x))
text_line-Stays w t x k lt lx = command-Stays w (t ++ x) k (OneLine-append t x lt lx)

pub All-map :
    {A B : Type 0} (P : A → Type 0) (Q : B → Type 0) (f : A → B)
    → ((a : A) → P a → Q (f a))
    → (xs : List A) → All P xs
    → All Q (map f xs)
All-map P Q f h [] p = tt
All-map P Q f h (x ∷ xs) (p, ps) = (h x p, All-map P Q f h xs ps)
