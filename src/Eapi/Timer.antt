-- ===== src/Eapi/Timer.antt =====
-- internal/client/eapi/client.go: `CommitTimer`, and the window that it asks for.
use pulumi_eos.Base.{
  ℕ, zero, suc, Bool, false, Bool-cases, inl, inr, ◌%◌, ◌≤◌, leb, neg_part, ◌+◌, ◌-◌, ◌*◌, ◌/◌, ◌<◌,
  List, [], ◌∷◌, ◌++◌, if◌then◌else◌, ltb, ℤ, pos, negsuc, ltb_ℤ, pos_part, ◌≡◌, refl, arith,
}
use pulumi_eos.Text.{Str, codes}
use pulumi_eos.Text.Decimal.{itoa}
use pulumi_eos.Errors.{err}
use pulumi_eos.Goeapi.{Goeapi}
use pulumi_eos.Eapi.{
  Shared, Session, Reply, send, done, default_commit_timer, err_session_closed, json,
}

pub record Clock : Type 0 where
  pub hh : ℕ
  pub mm : ℤ
  pub ss : ℤ

-- The largest power of two that is at most `n`, for 0 < n < 2 ^ fuel.
abbrev pub top_power : ℕ → ℕ → ℕ
top_power zero n = 1
top_power (suc fuel) n = let half = top_power fuel (n / 2) in if ltb n 2 then 1 else 2 * half

-- Whether float64(whole) + float64(part) / float64(unit) is whole + 1, for part < unit. The spacing of
-- the numbers just below whole + 1 is 2 * p / 2 ^ 53, where p is the largest power of two that is at
-- most `whole`, and the quotient is rounded to a multiple of 1 / 2 ^ 53 before: the sum is rounded up
-- where unit - part is at most unit * (2 * p + 1) / 2 ^ 54. Without whole units it never is.
abbrev pub rounds_up : ℕ → ℕ → ℕ → Bool
rounds_up unit zero part = false
rounds_up unit (suc n) part =
    leb ((unit - part) * 18014398509481984) (unit * (2 * top_power 64 (suc n) + 1))

-- int(timeout.Hours()), and the like: a duration in nanoseconds as a float64 of this unit, cut to a
-- whole number.
unfoldable pub whole_units : ℕ → ℕ → ℕ
whole_units unit ns = (ns / unit) + (if rounds_up unit (ns / unit) (ns % unit) then 1 else 0)

-- A difference of two Go `int`s that are not negative.
abbrev pub difference : ℕ → ℕ → ℤ
difference a b = if leb b a then pos (a - b) else negsuc (b - a - 1)

-- `hh := int(timeout.Hours())` and the two lines below. Minutes and seconds are taken for themselves,
-- so that they can be negative where the hours were rounded up.
unfoldable pub clock_of : ℕ → Clock
unfolding whole_units
clock_of ns =
    let hh = whole_units 3600000000000 ns in
    let mm = difference (whole_units 60000000000 ns) (hh * 60) in
    record {
      hh = hh;
      mm = mm;
      ss = difference (whole_units 1000000000 ns + neg_part mm * 60) (hh * 3600 + pos_part mm * 60);
    }

-- `%02d`
abbrev pub two_digits : ℤ → Str
two_digits (pos n) = if ltb n 10 then codes "0" ++ itoa (pos n) else itoa (pos n)
two_digits (negsuc n) = itoa (negsuc n)

abbrev pub clock_text : Clock → Str
clock_text c = itoa (pos c.hh) ++ (codes ":" ++ (two_digits c.mm ++ (codes ":" ++ two_digits c.ss)))

-- `if timeout <= 0 { timeout = DefaultCommitTimer }`
abbrev pub window : ℤ → ℕ
window timeout = pos_part (if ltb_ℤ (pos 0) timeout then timeout else default_commit_timer)

abbrev pub timer_batch : Str → ℤ → List Str
timer_batch name timeout =
    (codes "configure session "
      ++ (name ++ (codes " commit timer " ++ clock_text (clock_of (window timeout)))))
    ∷ []

module _ (g : Goeapi) where
  unfoldable pub commit_timer : ℤ → Session g → Shared g → Reply g Unit
  unfolding clock_of itoa
  commit_timer timeout x s =
      if x.is_open
      then (let (r, s') = send g x.parent (timer_batch x.name timeout) (json g) s in
          (done g (codes "eapi: commit-timer %s: %w") x.name r, x, s'))
      else (err err_session_closed, x, s)

half_le : (n h : ℕ) → h ≤ n / 2 → 2 * h ≤ n
half_le n h k = omega arith

top_power_le : (fuel n : ℕ) → 1 ≤ n → top_power fuel n ≤ n
top_power_le zero n h = h
top_power_le (suc fuel) n h = elim (Bool-cases (ltb n 2)) [
  | inl e ↦ rw e h
  | inr e ↦ rw e (half_le n (top_power fuel (n / 2)) (top_power_le fuel (n / 2) (ground arith)))
]

below_limit :
    (unit rest p : ℕ)
    → 1 ≤ rest
    → unit * (2 * p + 1) < 18014398509481984
    → leb (rest * 18014398509481984) (unit * (2 * p + 1)) ≡ false
below_limit unit rest p h k = ground arith

wider : (unit p q : ℕ) → p ≤ q → unit * (2 * p + 1) ≤ unit * (2 * q + 1)
wider unit p q h = grind arith

rounds_up_not :
    (unit whole part : ℕ)
    → part < unit
    → unit * (2 * whole + 1) < 18014398509481984
    → rounds_up unit whole part ≡ false
rounds_up_not unit zero part h k = refl
rounds_up_not unit (suc n) part h k =
    below_limit unit (unit - part) (top_power 64 (suc n)) (omega arith) (
      omega
        (arith, wider unit (top_power 64 (suc n)) (suc n) (top_power_le 64 (suc n) (omega arith))))

added : (b : Bool) (n : ℕ) → b ≡ false → n + (if b then 1 else 0) ≡ n
added b n h = ground arith

-- Below 2500 hours no sum is rounded up.
hours_exact : (ns : ℕ) → ns < 9000000000000000 → whole_units 3600000000000 ns ≡ ns / 3600000000000
unfolding whole_units
hours_exact ns h = added _ (ns / 3600000000000) (
    rounds_up_not 3600000000000 (ns / 3600000000000) (ns % 3600000000000) (omega arith)
      (omega arith))

minutes_exact : (ns : ℕ) → ns < 9000000000000000 → whole_units 60000000000 ns ≡ ns / 60000000000
unfolding whole_units
minutes_exact ns h =
    added _ (ns / 60000000000)
      (rounds_up_not 60000000000 (ns / 60000000000) (ns % 60000000000) (omega arith) (omega arith))

seconds_exact : (ns : ℕ) → ns < 9000000000000000 → whole_units 1000000000 ns ≡ ns / 1000000000
unfolding whole_units
seconds_exact ns h =
    added _ (ns / 1000000000)
      (rounds_up_not 1000000000 (ns / 1000000000) (ns % 1000000000) (omega arith) (omega arith))

difference_pos : (a b : ℕ) → b ≤ a → difference a b ≡ pos (a - b)
difference_pos a b h = ground arith

-- The window that is sent for a duration below 2500 hours is the duration, cut to whole seconds, in
-- hours, minutes and seconds: the minutes and the seconds are below sixty and not negative.
pub clock_of_exact :
    (ns : ℕ)
    → ns < 9000000000000000
    → (m : ℕ) × ((s : ℕ) × (((clock_of ns).mm ≡ pos m)
          × (((clock_of ns).ss ≡ pos s)
              × (((clock_of ns).hh * 3600 + m * 60 + s ≡ ns / 1000000000)
                  × ((m < 60) × (s < 60))))))
unfolding clock_of
clock_of_exact ns h =
    let hh = ns / 3600000000000 in
    let m = ns / 60000000000 - hh * 60 in
    rw
      (
        hours_exact ns h,
        minutes_exact ns h,
        seconds_exact ns h,
        difference_pos (ns / 60000000000) (hh * 60) (omega arith),
        difference_pos (ns / 1000000000 + 0) (hh * 3600 + m * 60) (omega arith),
      )
      (
        m,
        (
          ns / 1000000000 + 0 - (hh * 3600 + m * 60),
          (refl, (refl, (omega arith, (omega arith, omega arith)))),
        ),
      )

default_window : clock_text (clock_of (window (negsuc 0))) ≡ codes "0:05:00"
unfolding clock_of itoa
default_window = refl

-- Above 4096 hours the hours can be rounded up without the minutes.
negative_minutes : clock_text (clock_of 14749199999999999) ≡ codes "4097:-1:59"
unfolding clock_of whole_units itoa
negative_minutes = refl
