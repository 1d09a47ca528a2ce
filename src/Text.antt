-- ===== src/Text.antt =====
-- Go strings as lists of runes, with the functions of package strings that the provider calls.
-- Every text here comes from JSON or from the Pulumi engine, so it is valid UTF-8 and the runes
-- determine it.
pub mod Decimal
pub mod Laws
pub mod Split
pub mod Netip
pub mod Cut
pub mod Netip6
use Prim.Native.Char.{code}
use Prim.Native.String.{String}
use pulumi_eos.Base.{
  ℕ, Bool, true, false, ◌&&◌, ◌||◌, List, [], ◌∷◌, ◌++◌, Option, none, some, leb, ◌==◌,
  if◌then◌else◌,
}

abbrev pub Str : Type 0
Str = List ℕ

-- The runes of a literal.
abbrev pub codes : String → Str
codes String.[] = []
codes (String.◌∷◌ c s) = code c ∷ codes s

-- Go's `==` on strings.
unfoldable pub str_eq : Str → Str → Bool
str_eq [] [] = true
str_eq (x ∷ xs) (y ∷ ys) = x == y && str_eq xs ys
str_eq _ _ = false

-- `strings.CutPrefix`: what stands behind the prefix.
unfoldable pub cut_prefix : Str → Str → Option Str
cut_prefix s [] = some s
cut_prefix [] (p ∷ ps) = none
cut_prefix (c ∷ s) (p ∷ ps) = if c == p then cut_prefix s ps else none

-- `strings.Contains`.
unfoldable pub contains : Str → Str → Bool
unfolding cut_prefix
contains [] sub = elim (cut_prefix [] sub) [ none ↦ false | some _ ↦ true ]
contains (c ∷ s) sub = elim (cut_prefix (c ∷ s) sub) [ none ↦ contains s sub | some _ ↦ true ]

-- `unicode.IsSpace`.
unfoldable pub is_space : ℕ → Bool
is_space c =
    leb 9 c && leb c 13
    || c == 32
    || c == 0x85
    || c == 0xa0
    || c == 0x1680
    || leb 0x2000 c && leb c 0x200a
    || c == 0x2028
    || c == 0x2029
    || c == 0x202f
    || c == 0x205f
    || c == 0x3000

unfoldable pub trim_left : Str → Str
unfolding is_space
trim_left [] = []
trim_left (c ∷ s) = if is_space c then trim_left s else c ∷ s

-- Spaces at the end go with the first rune from which on there are only spaces.
unfoldable pub trim_right : Str → Str
unfolding is_space
trim_right [] = []
trim_right (c ∷ s) = elim (trim_right s) [
  | [] ↦ if is_space c then [] else c ∷ []
  | d ∷ r ↦ c ∷ d ∷ r
]

-- `strings.TrimSpace`.
unfoldable pub trim_space : Str → Str
unfolding trim_left trim_right
trim_space s = trim_right (trim_left s)

-- `strings.Join`.
unfoldable pub join : List Str → Str → Str
join [] sep = []
join (s ∷ []) sep = s
join (s ∷ t ∷ rest) sep = s ++ (sep ++ join (t ∷ rest) sep)

abbrev pub prepend : ℕ → List Str → List Str
prepend c [] = (c ∷ []) ∷ []
prepend c (s ∷ rest) = (c ∷ s) ∷ rest

-- `strings.Split` and `strings.SplitSeq` at one rune; there is always at least one part.
unfoldable pub split : Str → ℕ → List Str
split [] sep = [] ∷ []
split (c ∷ s) sep = let parts = split s sep in if c == sep then [] ∷ parts else prepend c parts

-- `strings.Fields`: the maximal runs without white space. The flag says whether the rune before was
-- a space; `words` is the list of runs that begin at or after this rune, the first one open if the
-- rune before was none.
unfoldable pub words : Str → List Str
unfolding is_space
words [] = [] ∷ []
words (c ∷ s) = let rest = words s in if is_space c then [] ∷ rest else prepend c rest

unfoldable pub non_empty : List Str → List Str
non_empty [] = []
non_empty ([] ∷ rest) = non_empty rest
non_empty ((c ∷ s) ∷ rest) = (c ∷ s) ∷ non_empty rest

unfoldable pub fields : Str → List Str
unfolding words non_empty
fields s = non_empty (words s)
