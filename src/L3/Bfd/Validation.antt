-- ===== src/L3/Bfd/Validation.antt =====
-- Which BFD arguments validation accepts.
use pulumi_eos.Base.{Option, none, some, ◌≡◌, sym, ◌↔◌, refl, ℤ, pos, ◌≤ℤ◌, arith, ◌&&◌, not}
use mathlib.Core.Path.{subst}
use pulumi_eos.Errors.{Result, ok, err, refuse_if, ◌>>◌}
use pulumi_eos.Errors.Laws.{Passes, both_iff, refuse_iff}
use pulumi_eos.L2.Switchport.Laws.{IfSet}
use pulumi_eos.L3.PrefixList.{is_set}
use pulumi_eos.L3.Bfd.{
  BfdArgs, err_bfd_timer_bundle_incomplete, timers, some_set, check_timers, check_slow_timer,
  validate_bfd,
}

-- All three timers with their bounds, or none of them.
abbrev pub IsBundle : Option ℤ → Option ℤ → Option ℤ → Type 0
IsBundle none none none = Unit
IsBundle (some i) (some m) (some k) = (pos 1 ≤ℤ i) × (pos 1 ≤ℤ m) × (pos 3 ≤ℤ k) × (k ≤ℤ pos 50)
IsBundle (some i) none k = ⊥
IsBundle (some i) (some m) none = ⊥
IsBundle none (some m) k = ⊥
IsBundle none none (some k) = ⊥

check_slow_timer_iff : (o : Option ℤ) → Passes (check_slow_timer o) ↔ IfSet (λ t. pos 1 ≤ℤ t) o
check_slow_timer_iff none = (λ _. tt, λ _. refl)
check_slow_timer_iff (some t) = refuse_iff _ _ (ground arith)

then_assoc : (m k l : Result (Unit {0})) → (m >> (k >> l)) ≡ ((m >> k) >> l)
then_assoc (ok _) k l = refl
then_assoc (err e) k l = refl

-- The numbers of a bundle.
bundle_iff :
    (i m k : ℤ)
    → Passes (check_timers (some (i, m, k)))
      ↔ ((pos 1 ≤ℤ i) × (pos 1 ≤ℤ m) × (pos 3 ≤ℤ k) × (k ≤ℤ pos 50))
bundle_iff i m k = ground arith

-- The arguments with these timers.
abbrev timed : BfdArgs → Option ℤ → Option ℤ → Option ℤ → BfdArgs
timed a i m k = record a { interval = i; min_rx = m; multiplier = k }

timers_iff :
    (a : BfdArgs) (i m k : Option ℤ)
    → Passes (
        refuse_if
          (some_set (timed a i m k) && not (is_set (timers (timed a i m k))))
          err_bfd_timer_bundle_incomplete
        >> check_timers (timers (timed a i m k)))
      ↔ IsBundle i m k
timers_iff a none none none = (λ _. tt, λ _. refl)
timers_iff a none none (some k) = (λ x. cc, λ x. absurd x)
timers_iff a none (some m) k = (λ x. cc, λ x. absurd x)
timers_iff a (some i) none k = (λ x. cc, λ x. absurd x)
timers_iff a (some i) (some m) none = (λ x. cc, λ x. absurd x)
timers_iff a (some i) (some m) (some k) = bundle_iff i m k

-- Validation accepts exactly the BFD arguments whose interval, minimum and multiplier are all set, with
-- a positive interval and minimum and a multiplier in 3..50, or are all left out, and whose slow
-- timer is positive where it is set.
pub validate_bfd_iff :
    (a : BfdArgs)
    → Passes (validate_bfd a)
      ↔ (IsBundle a.interval a.min_rx a.multiplier × IfSet (λ t. pos 1 ≤ℤ t) a.slow_timer)
unfolding validate_bfd
validate_bfd_iff a =
    subst
      (λ r.
        Passes r
        ↔ (IsBundle a.interval a.min_rx a.multiplier × IfSet (λ t. pos 1 ≤ℤ t) a.slow_timer))
      (sym (then_assoc _ (check_timers (timers a)) (check_slow_timer a.slow_timer)))
      (both_iff _ _ (timers_iff a a.interval a.min_rx a.multiplier)
        (check_slow_timer_iff a.slow_timer))
