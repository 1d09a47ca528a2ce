-- ===== src/Text/Laws.antt =====
-- Laws of the tests on texts.
use pulumi_eos.Base.{ℕ, true, false, [], ◌∷◌, ◌++◌, some, ◌≡◌, ◌≢◌, ◌↔◌, refl, ap, ◌∙◌, arith, All}
use pulumi_eos.Text.{Str, str_eq, cut_prefix, contains, is_space, trim_left, trim_right, trim_space}

pub str_eq_iff : (a b : Str) → (str_eq a b ≡ true) ↔ (a ≡ b)
unfolding str_eq
str_eq_iff (x ∷ a) (y ∷ b) = ground (arith, str_eq_iff a b)
str_eq_iff _ _ = ground arith

pub str_eq_refl : (a : Str) → str_eq a a ≡ true
str_eq_refl a = (str_eq_iff a a).1 refl

-- A prefix is cut off, and what comes back was behind it.
pub cut_prefix-append : (p s : Str) → cut_prefix (p ++ s) p ≡ some s
unfolding cut_prefix
cut_prefix-append [] s = refl
cut_prefix-append (c ∷ p) s = ground (arith, cut_prefix-append p s)

pub cut_prefix_sound : (s p r : Str) → cut_prefix s p ≡ some r → s ≡ p ++ r
unfolding cut_prefix
cut_prefix_sound s [] r h = ground arith
cut_prefix_sound [] (c ∷ p) r h = cc
cut_prefix_sound (d ∷ s) (c ∷ p) r h = ground (arith, cut_prefix_sound s p r)

-- A text contains what stands anywhere in it.
pub contains-append : (a b c : Str) → contains (a ++ (b ++ c)) b ≡ true
unfolding contains
contains-append [] [] [] = refl
contains-append [] [] (x ∷ c) = refl
contains-append [] (x ∷ b) c = ground (arith, cut_prefix-append (x ∷ b) c)
contains-append (x ∷ a) b c = ground (arith, contains-append a b c)

abbrev pub NoSpace : ℕ → Type 0
NoSpace c = is_space c ≡ false

-- Texts that `TrimSpace` leaves alone: no space at either end.
abbrev pub IsTrimmed : Str → Type 0
IsTrimmed s = trim_space s ≡ s

pub trim_right-NoSpace : (s : Str) → All NoSpace s → trim_right s ≡ s
unfolding trim_right
trim_right-NoSpace [] h = refl
trim_right-NoSpace (c ∷ []) (h, _) = rw h
trim_right-NoSpace (c ∷ d ∷ s) (h, hs) = rw (trim_right-NoSpace (d ∷ s) hs)

-- A text that ends with a rune that is no space keeps its end.
pub trim_right-append :
    (s : Str) (d : ℕ) (t : Str) → trim_right (d ∷ t) ≡ d ∷ t → trim_right (s ++ d ∷ t) ≡ s ++ d ∷ t
unfolding trim_right
trim_right-append [] d t h = h
trim_right-append (c ∷ []) d t h = rw h
trim_right-append (c ∷ e ∷ s) d t h = rw (trim_right-append (e ∷ s) d t h)

-- The end of a text is what counts for its right end.
pub trim_right-end : (s t : Str) → t ≢ [] → trim_right t ≡ t → trim_right (s ++ t) ≡ s ++ t
trim_right-end s [] h e = absurd (h refl)
trim_right-end s (d ∷ t) h e = trim_right-append s d t e

trim_left-visible : (c : ℕ) (s : Str) → is_space c ≡ false → trim_left (c ∷ s) ≡ c ∷ s
unfolding trim_left
trim_left-visible c s h = rw h

trim_left-indent :
    (c : ℕ) (s : Str) → is_space c ≡ false → trim_left (b' ' ∷ b' ' ∷ b' ' ∷ c ∷ s) ≡ c ∷ s
unfolding trim_left
trim_left-indent c s h = rw h

pub trim_space-visible :
    (c : ℕ) (s : Str) → is_space c ≡ false → trim_right (c ∷ s) ≡ c ∷ s → trim_space (c ∷ s) ≡ c ∷ s
unfolding trim_space
trim_space-visible c s h e = ap trim_right (trim_left-visible c s h) ∙ e

-- An indented line is trimmed to itself.
pub trim_space-indent :
    (c : ℕ) (s : Str)
    → is_space c ≡ false
    → trim_right (c ∷ s) ≡ c ∷ s
    → trim_space (b' ' ∷ b' ' ∷ b' ' ∷ c ∷ s) ≡ c ∷ s
unfolding trim_space
trim_space-indent c s h e = ap trim_right (trim_left-indent c s h) ∙ e
