-- ===== src/L3/ResilientEcmp/Numbers.antt =====
-- `applyResilientEcmpLine` reads the numbers that `buildResilientEcmpCmds` writes.
use pulumi_eos.Base.{
  Bool, true, false, List, [], ◌∷◌, ◌++◌, Option, none, some, ◌≡◌, refl, sym, ap, ◌∙◌, All, ℤ,
  append-nil, Bool-cases, inl, inr, if◌then◌else◌,
}
use pulumi_eos.Text.{Str, codes, str_eq, join}
use pulumi_eos.Text.Decimal.{itoa, atoi, IsInt, atoi-itoa}
use pulumi_eos.Text.Laws.{str_eq_iff}
use pulumi_eos.Text.Split.{IsWord}
use pulumi_eos.Commands.{is_on}
use pulumi_eos.Eapi.Staying.{is_keyword, is_keyword-IsWord}
use pulumi_eos.L2.Switchport.{taken_or}
use pulumi_eos.L3.PrefixList.Echo.{itoa-IsWord}
use pulumi_eos.L3.ResilientEcmp.{
  ResilientEcmpArgs, ResilientEcmpRow, set_number, set_last, set_words, base,
}

abbrev pub ordered_words : Option Bool → List Str
ordered_words o = if is_on o then codes "ordered" ∷ [] else []

abbrev pub behind_first : ResilientEcmpArgs → List Str
behind_first a = itoa a.capacity ∷ codes "redundancy" ∷ itoa a.redundancy ∷ ordered_words a.ordered

abbrev pub words_of : ResilientEcmpArgs → List Str
words_of a = codes "capacity" ∷ behind_first a

-- The row of a binding.
abbrev pub row_of : ResilientEcmpArgs → Str → ResilientEcmpRow
row_of a family = record {
  prefix = a.prefix;
  family = family;
  capacity = a.capacity;
  redundancy = a.redundancy;
  ordered = is_on a.ordered;
}

some_none : {P : Type 0} {z : ℤ} → some z ≡ none → P
some_none e = cc

-- A number is no keyword.
pub not_number : (z : ℤ) (w : Str) → IsInt z → atoi w ≡ none → str_eq (itoa z) w ≡ false
not_number z w h k = elim (Bool-cases (str_eq (itoa z) w)) [
  | inl e ↦ some_none (sym (atoi-itoa z h) ∙ ap atoi ((str_eq_iff (itoa z) w).0 e) ∙ k)
  | inr e ↦ e
]

number_key : (z : ℤ) (v : Str) (row : ResilientEcmpRow) → IsInt z → set_number (itoa z) v row ≡ row
unfolding atoi
number_key z v row h =
    rw
      (
        not_number z (codes "capacity") h refl,
        not_number z (codes "redundancy") h refl,
        not_number z (codes "ordered") h refl,
      )
      refl

number_last : (z : ℤ) (row : ResilientEcmpRow) → IsInt z → set_last (itoa z) row ≡ row
unfolding atoi
number_last z row h = rw (not_number z (codes "ordered") h refl) refl

set_capacity :
    (z : ℤ) (row : ResilientEcmpRow)
    → IsInt z
    → set_number (codes "capacity") (itoa z) row ≡ record row { capacity = z }
unfolding str_eq
set_capacity z row h = ap (λ o. record row { capacity = taken_or row.capacity o }) (atoi-itoa z h)

set_redundancy :
    (z : ℤ) (row : ResilientEcmpRow)
    → IsInt z
    → set_number (codes "redundancy") (itoa z) row ≡ record row { redundancy = z }
unfolding str_eq
set_redundancy z row h =
    ap (λ o. record row { redundancy = taken_or row.redundancy o }) (atoi-itoa z h)

last_words :
    (z : ℤ) (b : Bool) (row : ResilientEcmpRow)
    → IsInt z
    → row.ordered ≡ false
    → set_words (itoa z ∷ (if b then codes "ordered" ∷ [] else [])) row ≡ record row { ordered = b }
unfolding set_words str_eq
last_words z true row h e = ap (set_last (codes "ordered")) (number_key z (codes "ordered") row h)
last_words z false row h e = number_last z row h ∙ ap (λ b. record row { ordered = b }) e

pub set_words-words_of :
    (a : ResilientEcmpArgs) (family : Str)
    → IsInt a.capacity
    → IsInt a.redundancy
    → set_words (words_of a) (base a.prefix family) ≡ row_of a family
unfolding set_words str_eq
set_words-words_of a family hc hr =
    let row = base a.prefix family in
    ap
      (λ r.
        set_words (codes "redundancy" ∷ itoa a.redundancy ∷ ordered_words a.ordered)
          (set_number (itoa a.capacity) (codes "redundancy") r))
      (set_capacity a.capacity row hc)
    ∙ ap (λ r. set_words (codes "redundancy" ∷ itoa a.redundancy ∷ ordered_words a.ordered) r)
        (number_key a.capacity (codes "redundancy") (record row { capacity = a.capacity }) hc)
    ∙ ap (λ r. set_words (itoa a.redundancy ∷ ordered_words a.ordered) r)
        (set_redundancy a.redundancy (record row { capacity = a.capacity }) hr)
    ∙ last_words a.redundancy (is_on a.ordered)
        (record row { capacity = a.capacity; redundancy = a.redundancy }) hr refl

ordered-IsWord : (b : Bool) → All IsWord (if b then codes "ordered" ∷ [] else [])
unfolding is_keyword
ordered-IsWord true = ((is_keyword-IsWord (codes "ordered") refl).0, tt)
ordered-IsWord false = tt

pub words_of-IsWord : (a : ResilientEcmpArgs) → All IsWord (words_of a)
unfolding is_keyword
words_of-IsWord a = (
  (is_keyword-IsWord (codes "capacity") refl).0,
  (
    itoa-IsWord a.capacity,
    (
      (is_keyword-IsWord (codes "redundancy") refl).0,
      (itoa-IsWord a.redundancy, ordered-IsWord (is_on a.ordered)),
    ),
  ),
)

pub numbers-join :
    (c r : Str) (b : Bool)
    → codes " capacity "
        ++ (c ++ (codes " redundancy " ++ (r ++ (if b then codes " ordered" else []))))
      ≡ codes " "
        ++ join
            (codes "capacity"
              ∷ c
              ∷ codes "redundancy"
              ∷ r
              ∷ (if b then codes "ordered" ∷ [] else []))
            (codes " ")
unfolding join
numbers-join c r true = refl
numbers-join c r false =
    ap (λ l. codes " capacity " ++ (c ++ (codes " redundancy " ++ l))) (append-nil r)
