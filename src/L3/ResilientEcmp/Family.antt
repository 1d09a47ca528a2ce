-- ===== src/L3/ResilientEcmp/Family.antt =====
-- The family that Create and Read take, and what Read makes of the command of Create.
use pulumi_eos.Base.{
  Bool, true, false, ◌||◌, [], ◌∷◌, ◌++◌, Option, none, some, ◌≡◌, refl, sym, ap, ◌∙◌, All,
  append_assoc, inl, inr, ◌⊎◌, if◌then◌else◌,
}
use mathlib.Core.Option.{some-injective}
use pulumi_eos.Text.{Str, codes, str_eq, cut_prefix, join, trim_space, is_space}
use pulumi_eos.Text.Decimal.{itoa, IsInt}
use pulumi_eos.Text.Laws.{NoSpace, cut_prefix-append, trim_right-end, trim_space-visible}
use pulumi_eos.Text.Split.{split-Lacks, fields-join, append-ne-nil}
use pulumi_eos.Commands.{set_text, is_on}
use pulumi_eos.Eapi.Device.{has_newline}
use pulumi_eos.Eapi.Staying.{OneLine, OneLine-append, OneLine-Lacks, NoSpace-OneLine}
use pulumi_eos.L3.PrefixList.{is_set}
use pulumi_eos.L3.PrefixList.Lines.{trim_right-join, join-OneLine, join-ne-nil}
use pulumi_eos.L3.ResilientEcmp.{
  ResilientEcmpArgs, ResilientEcmpRow, family_of, resilient_ecmp_keyword, ecmp_header,
  build_resilient_ecmp_cmds, set_words, apply_resilient_ecmp_line, base, taken, find_binding,
  parse_resilient_ecmp_lines, or_ipv4, deref, canonicalise_family, family_or_none, with_family,
  agreed, resilient_ecmp, resilient_ecmp_reader,
}
use pulumi_eos.L3.ResilientEcmp.Numbers.{
  behind_first, words_of, row_of, set_words-words_of, words_of-IsWord, numbers-join,
}

-- The line of a binding: its keyword `i…` and the fixed words, the prefix, and the numbers.
abbrev shown : Str → ResilientEcmpArgs → Str
shown s a = b'i' ∷ (s ++ (a.prefix ++ (codes " " ++ join (words_of a) (codes " "))))

trim_space-shown : (s : Str) (a : ResilientEcmpArgs) → trim_space (shown s a) ≡ shown s a
unfolding is_space
trim_space-shown s a =
    let rest = join (words_of a) (codes " ") in
    trim_space-visible b'i' _ refl (
      trim_right-end (b'i' ∷ s) (a.prefix ++ (codes " " ++ rest))
        (append-ne-nil a.prefix (codes " " ++ rest) (λ x. cc))
        (trim_right-end a.prefix (codes " " ++ rest) (λ x. cc)
          (trim_right-end (codes " ") rest
            (join-ne-nil (codes "capacity") (behind_first a) (λ x. cc))
            (trim_right-join (codes "capacity") (behind_first a) (words_of-IsWord a)))))

cut_prefix-shown :
    (s : Str) (a : ResilientEcmpArgs)
    → cut_prefix (trim_space (shown s a)) (b'i' ∷ (s ++ (a.prefix ++ codes " ")))
      ≡ some (join (words_of a) (codes " "))
cut_prefix-shown s a =
    let rest = join (words_of a) (codes " ") in
    ap (λ l. cut_prefix l (b'i' ∷ (s ++ (a.prefix ++ codes " "))))
      (trim_space-shown s a
        ∙ ap (λ l. b'i' ∷ (s ++ l)) (sym (append_assoc a.prefix (codes " ") rest))
        ∙ ap (λ l. b'i' ∷ l) (sym (append_assoc s (a.prefix ++ codes " ") rest)))
    ∙ cut_prefix-append (b'i' ∷ (s ++ (a.prefix ++ codes " "))) rest

apply-words_of :
    (a : ResilientEcmpArgs) (family : Str)
    → IsInt a.capacity
    → IsInt a.redundancy
    → apply_resilient_ecmp_line (join (words_of a) (codes " ")) (base a.prefix family)
      ≡ row_of a family
unfolding apply_resilient_ecmp_line
apply-words_of a family hc hr =
    ap (λ ws. set_words ws (base a.prefix family))
      (fields-join (words_of a) (λ e. cc) (words_of-IsWord a))
    ∙ set_words-words_of a family hc hr

ip_words : Str
ip_words = codes "p hardware fib ecmp resilience "

ipv6_words : Str
ipv6_words = codes "pv6 hardware fib ecmp resilience "

module _ (a : ResilientEcmpArgs) (hc : IsInt a.capacity) (hr : IsInt a.redundancy) where
  find-ipv4 :
      find_binding a.prefix (codes "ipv4") (shown ip_words a ∷ []) ≡ some (row_of a (codes "ipv4"))
  unfolding find_binding resilient_ecmp_keyword str_eq ip_words
  find-ipv4 =
      ap (λ o. taken a.prefix (codes "ipv4") o none) (cut_prefix-shown ip_words a)
      ∙ ap some (apply-words_of a (codes "ipv4") hc hr)

  find-ipv6 :
      find_binding a.prefix (codes "ipv6") (shown ipv6_words a ∷ [])
      ≡ some (row_of a (codes "ipv6"))
  unfolding find_binding resilient_ecmp_keyword str_eq ipv6_words
  find-ipv6 =
      ap (λ o. taken a.prefix (codes "ipv6") o none) (cut_prefix-shown ipv6_words a)
      ∙ ap some (apply-words_of a (codes "ipv6") hc hr)

-- The line of an IPv6 binding is no binding of the other family.
miss-ipv6 :
    (a : ResilientEcmpArgs) → find_binding a.prefix (codes "ipv4") (shown ipv6_words a ∷ []) ≡ none
unfolding find_binding resilient_ecmp_keyword str_eq ipv6_words cut_prefix
miss-ipv6 a =
    ap
      (λ l. taken a.prefix (codes "ipv4") (cut_prefix l (ecmp_header a.prefix (codes "ipv4"))) none)
      (trim_space-shown ipv6_words a)

-- The command of Create is the line.
build-ipv4 :
    (a : ResilientEcmpArgs)
    → build_resilient_ecmp_cmds a (codes "ipv4") false ≡ shown ip_words a ∷ []
unfolding build_resilient_ecmp_cmds resilient_ecmp_keyword str_eq ip_words
build-ipv4 a =
    ap (λ l. (codes "ip hardware fib ecmp resilience " ++ (a.prefix ++ l)) ∷ [])
      (numbers-join (itoa a.capacity) (itoa a.redundancy) (is_on a.ordered))

build-ipv6 :
    (a : ResilientEcmpArgs)
    → build_resilient_ecmp_cmds a (codes "ipv6") false ≡ shown ipv6_words a ∷ []
unfolding build_resilient_ecmp_cmds resilient_ecmp_keyword str_eq ipv6_words
build-ipv6 a =
    ap (λ l. (codes "ipv6 hardware fib ecmp resilience " ++ (a.prefix ++ l)) ∷ [])
      (numbers-join (itoa a.capacity) (itoa a.redundancy) (is_on a.ordered))

pub chosen :
    (b c : Bool) (f : Str)
    → (if b then some (codes "ipv4") else if c then some (codes "ipv6") else none) ≡ some f
    → (f ≡ codes "ipv4") ⊎ (f ≡ codes "ipv6")
chosen true c f h = inl (sym (some-injective (codes "ipv4") f h))
chosen false true f h = inr (sym (some-injective (codes "ipv6") f h))
chosen false false f h = cc

-- The arguments name no family, or that of the prefix.
abbrev pub Agrees : ResilientEcmpArgs → Str → Type 0
Agrees a f =
    (family_of a.prefix ≡ some f)
    × ((set_text a.ip_family ≡ none) ⊎ (set_text a.ip_family ≡ some f))

agreed-same :
    (o : Option Str) (f : Str)
    → (f ≡ codes "ipv4") ⊎ (f ≡ codes "ipv6")
    → (o ≡ none) ⊎ (o ≡ some f)
    → family_or_none (agreed o f) ≡ f
unfolding str_eq
agreed-same o f c (inl e) = rw e refl
agreed-same o f (inl c) (inr e) = rw (e, c) refl
agreed-same o f (inr c) (inr e) = rw (e, c) refl

canonical :
    (a : ResilientEcmpArgs) (f : Str) → Agrees a f → family_or_none (canonicalise_family a) ≡ f
unfolding canonicalise_family
canonical a f (h, agree) =
    ap (λ o. family_or_none (with_family a o)) h
    ∙ agreed-same (set_text a.ip_family) f (chosen _ _ f h) agree

-- The family that Read takes.
read_default : (o : Option Str) → set_text o ≡ none → or_ipv4 (deref o) ≡ codes "ipv4"
unfolding str_eq
read_default none h = refl
read_default (some []) h = refl
read_default (some (c ∷ s)) h = cc

read_given : (o : Option Str) (f : Str) → set_text o ≡ some f → or_ipv4 (deref o) ≡ f
unfolding str_eq
read_given none f h = cc
read_given (some []) f h = cc
read_given (some (c ∷ s)) f h = some-injective (c ∷ s) f h

shown-OneLine :
    (s : Str) (a : ResilientEcmpArgs) → OneLine s → All NoSpace a.prefix → OneLine (shown s a)
unfolding has_newline
shown-OneLine s a hs h =
    OneLine-append s (a.prefix ++ (codes " " ++ join (words_of a) (codes " "))) hs (
      OneLine-append a.prefix (codes " " ++ join (words_of a) (codes " "))
        (NoSpace-OneLine a.prefix h) (join-OneLine (words_of a) (words_of-IsWord a)))

parse-line :
    (l p family : Str)
    → OneLine l
    → parse_resilient_ecmp_lines (join (l ∷ []) (codes "\n")) p family
      ≡ find_binding p family (l ∷ [])
unfolding parse_resilient_ecmp_lines join
parse-line l p family h = ap (find_binding p family) (split-Lacks l b'\n' (OneLine-Lacks l h))

-- What Read finds in the command that Create sent.
abbrev answer : ResilientEcmpArgs → Str → Option ResilientEcmpRow
answer a f =
    parse_resilient_ecmp_lines (join (build_resilient_ecmp_cmds a f false) (codes "\n")) a.prefix
      (or_ipv4 (deref a.ip_family))

module _ (a : ResilientEcmpArgs) (h : All NoSpace a.prefix) (hc : IsInt a.capacity)
    (hr : IsInt a.redundancy) where
  answer-ipv4 :
      or_ipv4 (deref a.ip_family) ≡ codes "ipv4"
      → answer a (codes "ipv4") ≡ some (row_of a (codes "ipv4"))
  unfolding has_newline ip_words
  answer-ipv4 e =
      rw (build-ipv4 a, e)
        (parse-line (shown ip_words a) a.prefix (codes "ipv4") (shown-OneLine ip_words a refl h)
          ∙ find-ipv4 a hc hr)

  answer-ipv6 :
      or_ipv4 (deref a.ip_family) ≡ codes "ipv6"
      → answer a (codes "ipv6") ≡ some (row_of a (codes "ipv6"))
  unfolding has_newline ipv6_words
  answer-ipv6 e =
      rw (build-ipv6 a, e)
        (parse-line (shown ipv6_words a) a.prefix (codes "ipv6") (shown-OneLine ipv6_words a refl h)
          ∙ find-ipv6 a hc hr)

  answer-default : or_ipv4 (deref a.ip_family) ≡ codes "ipv4" → answer a (codes "ipv6") ≡ none
  unfolding has_newline ipv6_words
  answer-default e =
      rw (build-ipv6 a, e)
        (parse-line (shown ipv6_words a) a.prefix (codes "ipv4") (shown-OneLine ipv6_words a refl h)
          ∙ miss-ipv6 a)

  abbrev found : Str → Option ResilientEcmpRow
  found f =
      if str_eq f (codes "ipv4") || is_set (set_text a.ip_family) then some (row_of a f) else none

  answer-found :
      (f : Str)
      → (f ≡ codes "ipv4") ⊎ (f ≡ codes "ipv6")
      → (set_text a.ip_family ≡ none) ⊎ (set_text a.ip_family ≡ some f)
      → answer a f ≡ found f
  unfolding str_eq
  answer-found f (inl p) (inl e) = rw p (answer-ipv4 (read_default a.ip_family e))
  answer-found f (inl p) (inr e) = rw p (answer-ipv4 (read_given a.ip_family f e ∙ p))
  answer-found f (inr p) (inl e) = rw (p, e) (answer-default (read_default a.ip_family e))
  answer-found f (inr p) (inr e) = rw (p, e) (answer-ipv6 (read_given a.ip_family f e ∙ p))

-- Read finds the binding that Create sent, with its capacity, its redundancy and its order, where the
-- prefix is an IPv4 one or the arguments name the family. For an IPv6 prefix without a family it finds
-- nothing: it looks for the IPv4 command, though Create has sent the IPv6 one. The prefix parses, it
-- has no spaces, the family is that of the prefix where it is named, and the numbers fit Go's `int`.
pub read-resilient_ecmp :
    (a : ResilientEcmpArgs) (f : Str)
    → Agrees a f
    → All NoSpace a.prefix
    → IsInt a.capacity
    → IsInt a.redundancy
    → resilient_ecmp_reader.parse a (join (resilient_ecmp.commands a false) (codes "\n")) ≡ (
        if str_eq f (codes "ipv4") || is_set (set_text a.ip_family)
        then some (row_of a f)
        else none)
unfolding resilient_ecmp resilient_ecmp_reader
read-resilient_ecmp a f (p, agree) h hc hr =
    ap (answer a) (canonical a f (p, agree)) ∙ answer-found a h hc hr f (chosen _ _ f p) agree
