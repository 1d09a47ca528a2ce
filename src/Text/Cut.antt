-- ===== src/Text/Cut.antt =====
-- strings.Cut and strings.CutSuffix, SplitN at a blank, and texts of digits.
use pulumi_eos.Base.{
  ℕ, Bool, true, false, ◌&&◌, [], ◌∷◌, ◌++◌, Option, none, some, ◌≡◌, refl, leb, ◌==◌,
  if◌then◌else◌, arith, All, ap, ◌∙◌, sym,
}
use pulumi_eos.Text.{Str, str_eq, is_space}
use pulumi_eos.Text.Laws.{NoSpace}

abbrev pub prepended : ℕ → Option (Str × Str) → Option (Str × Str)
prepended c none = none
prepended c (some (a, b)) = some (c ∷ a, b)

-- What stands before and behind the first separator; SplitN(s, sep, 2) has two parts where this is
-- some pair.
unfoldable pub cut : ℕ → Str → Option (Str × Str)
cut sep [] = none
cut sep (c ∷ s) = let rest = cut sep s in if c == sep then some ([], s) else prepended c rest

abbrev pub with_head : ℕ → Option Str → Option Str
with_head c none = none
with_head c (some s) = some (c ∷ s)

unfoldable pub cut_suffix : Str → Str → Option Str
unfolding str_eq
cut_suffix [] suffix = if str_eq [] suffix then some [] else none
cut_suffix (c ∷ s) suffix =
    let rest = cut_suffix s suffix in if str_eq (c ∷ s) suffix then some [] else with_head c rest

unfoldable pub all_digits : Str → Bool
all_digits [] = true
all_digits (c ∷ s) = leb b'0' c && leb c b'9' && all_digits s

-- `[0-9]+`, whole
unfoldable pub is_number : Str → Bool
unfolding all_digits
is_number [] = false
is_number (c ∷ s) = all_digits (c ∷ s)

-- The first word ends at the first blank.
pub cut-append : (a b : Str) → All NoSpace a → cut b' ' (a ++ b' ' ∷ b) ≡ some (a, b)
unfolding cut is_space
cut-append [] b h = refl
cut-append (c ∷ a) b (h, hs) = ground (arith, cut-append a b hs)

-- One separator alone tells two texts apart at the first blank.
pub same_first :
    (a b x y : Str)
    → All NoSpace a
    → All NoSpace b
    → a ++ b' ' ∷ x ≡ b ++ b' ' ∷ y
    → (a ≡ b) × (x ≡ y)
unfolding cut
same_first a b x y ha hb e =
    let same = sym (cut-append a x ha) ∙ ap (cut b' ') e ∙ cut-append b y hb in (cc, cc)
