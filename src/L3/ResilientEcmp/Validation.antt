-- ===== src/L3/ResilientEcmp/Validation.antt =====
-- Which bindings validation accepts.
use pulumi_eos.Base.{
  ℕ, sym, Option, none, some, ◌≡◌, ◌⊎◌, ◌↔◌, inl, refl, ℤ, pos, ◌≤ℤ◌, arith, false, ltb_ℤ, ◌||◌,
}
use mathlib.Core.Path.{subst}
use mathlib.Core.Option.{some-injective}
use pulumi_eos.Text.{Str, codes}
use pulumi_eos.Text.Laws.{str_eq_iff}
use pulumi_eos.Commands.{set_text}
use pulumi_eos.Errors.{ok, ◌>>=◌}
use pulumi_eos.Errors.Laws.{Passes, both_iff, refuse_iff}
use pulumi_eos.L3.ResilientEcmp.{
  ResilientEcmpArgs, family_of, product, agreed, with_family, canonicalise_family,
  validate_resilient_ecmp,
}
use pulumi_eos.L3.ResilientEcmp.Family.{Agrees, chosen}

agreed_iff :
    (o : Option Str) (w : Str)
    → (w ≡ codes "ipv4") ⊎ (w ≡ codes "ipv6")
    → Passes (agreed o w >>= λ _. ok tt) ↔ ((o ≡ none) ⊎ (o ≡ some w))
agreed_iff none w h = (λ _. inl refl, λ _. refl)
agreed_iff (some f) w h =
    ground (arith, str_eq_iff f w, str_eq_iff f (codes "ipv4"), str_eq_iff f (codes "ipv6"))

with_family_iff :
    (a : ResilientEcmpArgs) (o : Option Str)
    → ((w : Str) → o ≡ some w → (w ≡ codes "ipv4") ⊎ (w ≡ codes "ipv6"))
    → Passes (with_family a o >>= λ _. ok tt) ↔ (
        (w : Str) × ((o ≡ some w)
          × ((set_text a.ip_family ≡ none) ⊎ (set_text a.ip_family ≡ some w))))
with_family_iff a none h = (λ x. cc, λ x. cc)
with_family_iff a (some w) h =
    let k = agreed_iff (set_text a.ip_family) w (h w refl) in
    (
      λ x. (w, (refl, k.0 x)),
      λ (v, (e, x)). k.1 (
          subst (λ u. (set_text a.ip_family ≡ none) ⊎ (set_text a.ip_family ≡ some u))
            (sym (some-injective w v e)) x),
    )

range_iff :
    (n : ℤ) (m : ℕ) → ((ltb_ℤ n (pos 1) || ltb_ℤ (pos m) n) ≡ false) ↔ ((pos 1 ≤ℤ n) × (n ≤ℤ pos m))
range_iff n m = ground arith

at_most_iff : (n : ℤ) (m : ℕ) → (ltb_ℤ (pos m) n ≡ false) ↔ (n ≤ℤ pos m)
at_most_iff n m = ground arith

-- Validation accepts exactly the bindings whose prefix parses, whose family is left out or that of the
-- prefix, whose capacity lies in 1..1024 and redundancy in 1..1023, and whose product of the two is
-- at most 2047.
pub validate_resilient_ecmp_iff :
    (a : ResilientEcmpArgs)
    → Passes (validate_resilient_ecmp a) ↔ (
        ((f : Str) × Agrees a f)
        × (((pos 1 ≤ℤ a.capacity) × (a.capacity ≤ℤ pos 1024))
            × (((pos 1 ≤ℤ a.redundancy) × (a.redundancy ≤ℤ pos 1023))
                × (product a.capacity a.redundancy ≤ℤ pos 2047))))
unfolding validate_resilient_ecmp canonicalise_family
validate_resilient_ecmp_iff a = both_iff _ _ (with_family_iff a (family_of a.prefix) (chosen _ _)) (
    both_iff _ _ (refuse_iff _ _ (range_iff a.capacity 1024)) (
      both_iff _ _ (refuse_iff _ _ (range_iff a.redundancy 1023))
        (refuse_iff _ _ (at_most_iff (product a.capacity a.redundancy) 2047))))
