-- ===== src/Text/Decimal.antt =====
-- `strconv.Itoa` and `strconv.Atoi`.
use pulumi_eos.Base.{
  ℕ, zero, suc, ◌+◌, ◌-◌, ◌*◌, ◌/◌, ◌%◌, ◌^◌, ◌≤◌, ◌<◌, ◌&&◌, [], ◌∷◌, Option, none, some, ◌≡◌, ◌≢◌,
  refl, arith, leb, ltb, ◌==◌, if◌then◌else◌, ℤ, pos, negsuc, All, Bool-cases, inl, inr,
}
use pulumi_eos.Text.{Str, codes}

-- One more digit than the number counts is never needed: see `scan-digits`.
digits : ℕ → ℕ → Str → Str
digits zero n out = out
digits (suc f) n out =
    let rest = digits f (n / 10) ((b'0' + n % 10) ∷ out) in
    if ltb n 10 then (b'0' + n) ∷ out else rest

unfoldable pub itoa : ℤ → Str
unfolding digits
itoa (pos n) = digits (n + 1) n []
itoa (negsuc n) = b'-' ∷ digits (n + 2) (n + 1) []

-- The value of a digit string; `none` at any other rune.
scan : Str → ℕ → Option ℕ
scan [] n = some n
scan (c ∷ s) n = if leb b'0' c && leb c b'9' then scan s (n * 10 + (c - b'0')) else none

magnitude : Str → Option ℕ
magnitude [] = none
magnitude (c ∷ s) = scan (c ∷ s) 0

abbrev pub int_limit : ℕ
int_limit = 2 ^ 63

positive : Option ℕ → Option ℤ
positive none = none
positive (some n) = if ltb n int_limit then some (pos n) else none

negative : Option ℕ → Option ℤ
negative none = none
negative (some zero) = some (pos 0)
negative (some (suc n)) = if ltb n int_limit then some (negsuc n) else none

-- A sign, then one or more digits, with a value that fits an `int`; any other text is an error.
unfoldable pub atoi : Str → Option ℤ
unfolding scan magnitude positive negative
atoi [] = none
atoi (c ∷ s) =
    if c == b'-'
    then negative (magnitude s)
    else if c == b'+'
    then positive (magnitude s)
    else positive (magnitude (c ∷ s))

-- The values of a 64-bit `int`.
abbrev pub IsInt : ℤ → Type 0
IsInt (pos n) = n < int_limit
IsInt (negsuc n) = n < int_limit

abbrev pub IsDigit : ℕ → Type 0
IsDigit c = (b'0' ≤ c) × (c ≤ b'9')

itoa_values :
    (itoa (pos 0) ≡ codes "0") × (itoa (pos 4094) ≡ codes "4094") × (itoa (negsuc 11) ≡ codes "-12")
unfolding itoa
itoa_values = (refl, refl, refl)

atoi_values :
    (atoi (codes "+7") ≡ some (pos 7))
    × (atoi (codes "-0") ≡ some (pos 0))
    × (atoi [] ≡ none)
    × (atoi (codes "-") ≡ none)
    × (atoi (codes "9223372036854775808") ≡ none)
    × (atoi (codes "-9223372036854775808") ≡ some (negsuc 9223372036854775807))
unfolding atoi
atoi_values = (refl, refl, refl, refl, refl, refl)

scan-digits : (f n : ℕ) (out : Str) → n < f → scan (digits f n out) 0 ≡ scan out n
unfolding digits scan
scan-digits zero n out h = elim h [ ]
scan-digits (suc f) n out h = ground (arith, scan-digits f (n / 10) ((b'0' + n % 10) ∷ out))

pub cons-ne-nil : (c : ℕ) (s : Str) → c ∷ s ≢ []
cons-ne-nil c s e = cc

digits-ne-nil : (f n : ℕ) (out : Str) → n < f → digits f n out ≢ []
unfolding digits
digits-ne-nil zero n out h = elim h [ ]
digits-ne-nil (suc f) n out h = ground (arith, digits-ne-nil f (n / 10) ((b'0' + n % 10) ∷ out))

digits-IsDigit : (f n : ℕ) (out : Str) → All IsDigit out → All IsDigit (digits f n out)
unfolding digits
digits-IsDigit zero n out h = h
digits-IsDigit (suc f) n out h = ground (arith, digits-IsDigit f (n / 10) ((b'0' + n % 10) ∷ out))

magnitude-digits : (s : Str) → s ≢ [] → magnitude s ≡ scan s 0
unfolding magnitude
magnitude-digits [] h = absurd (h refl)
magnitude-digits (c ∷ s) h = refl

atoi-digits : (s : Str) → s ≢ [] → All IsDigit s → atoi s ≡ positive (scan s 0)
unfolding atoi
atoi-digits [] h d = absurd (h refl)
atoi-digits (c ∷ s) h (d, _) = ground arith

-- Every `int` is read back from its decimal text, also behind other digits.
pub atoi-itoa : (z : ℤ) → IsInt z → atoi (itoa z) ≡ some z
unfolding itoa
atoi-itoa (pos n) h =
    rw
      (
        atoi-digits _ (digits-ne-nil (n + 1) n [] (omega arith)) (digits-IsDigit (n + 1) n [] tt),
        scan-digits (n + 1) n [] (omega arith),
      )
      (unfold scan positive in ground arith)
atoi-itoa (negsuc n) h =
    unfold atoi in
    rw
      (
        magnitude-digits _ (digits-ne-nil (n + 2) (n + 1) [] (omega arith)),
        scan-digits (n + 2) (n + 1) [] (omega arith),
      )
      (unfold scan negative in ground arith)

positive-IsInt : (o : Option ℕ) (z : ℤ) → positive o ≡ some z → IsInt z
unfolding positive
positive-IsInt none z h = cc
positive-IsInt (some n) (pos m) h = ground arith
positive-IsInt (some n) (negsuc m) h = ground arith

negative-IsInt : (o : Option ℕ) (z : ℤ) → negative o ≡ some z → IsInt z
unfolding negative
negative-IsInt none z h = cc
negative-IsInt (some zero) (pos m) h = ground arith
negative-IsInt (some zero) (negsuc m) h = cc
negative-IsInt (some (suc n)) (pos m) h = ground arith
negative-IsInt (some (suc n)) (negsuc m) h = ground arith

-- What `Atoi` accepts fits an `int`.
pub atoi-IsInt : (s : Str) (z : ℤ) → atoi s ≡ some z → IsInt z
unfolding atoi
atoi-IsInt [] z = λ h. cc
atoi-IsInt (c ∷ s) z = elim (Bool-cases (c == b'-')) [
  | inl e ↦ rw e (negative-IsInt (magnitude s) z)
  | inr e ↦ rw e (elim (Bool-cases (c == b'+')) [
    | inl e ↦ rw e (positive-IsInt (magnitude s) z)
    | inr e ↦ rw e (positive-IsInt (magnitude (c ∷ s)) z)
  ])
]

-- No white space, and at least one rune.
abbrev pub IsPlain : ℕ → Type 0
IsPlain c = (b'-' ≤ c) × (c ≤ b'9')

IsPlain-digits : (s : Str) → All IsDigit s → All IsPlain s
IsPlain-digits [] h = tt
IsPlain-digits (c ∷ s) (h, hs) = (omega arith, IsPlain-digits s hs)

pub itoa-IsPlain : (z : ℤ) → All IsPlain (itoa z)
unfolding itoa
itoa-IsPlain (pos n) = IsPlain-digits _ (digits-IsDigit (n + 1) n [] tt)
itoa-IsPlain (negsuc n) = (omega arith, IsPlain-digits _ (digits-IsDigit (n + 2) (n + 1) [] tt))

pub itoa-ne-nil : (z : ℤ) → itoa z ≢ []
unfolding itoa
itoa-ne-nil (pos n) = digits-ne-nil (n + 1) n [] (omega arith)
itoa-ne-nil (negsuc n) = cons-ne-nil b'-' _
