-- ===== src/L3/Bfd/RoundTrip.antt =====
-- What Read makes of the commands of `buildBfdCmds`.
use pulumi_eos.Base.{
  true, false, [], ◌∷◌, ◌++◌, Option, none, some, ◌≡◌, refl, ap, ◌∙◌, All, All-append, ℤ, pos, ◌≤ℤ◌,
  ltb_ℤ, Bool, ◌||◌, arith, if◌then◌else◌,
}
use pulumi_eos.Text.{codes, join}
use pulumi_eos.Text.Decimal.{itoa, IsInt}
use pulumi_eos.Text.Split.{split-join}
use pulumi_eos.Commands.{number_cmd, is_on}
use pulumi_eos.Errors.Laws.{Passes}
use pulumi_eos.Eapi.Device.{has_newline}
use pulumi_eos.Eapi.Staying.{OneLine, OneLine-append, itoa-OneLine, All-Lacks}
use pulumi_eos.L2.Interface.{shutdown_cmd}
use pulumi_eos.L2.Switchport.Laws.{IfSet}
use pulumi_eos.L3.PrefixList.Lines.{join-OneLine}
use pulumi_eos.L3.Listing.{over_lines}
use pulumi_eos.L3.Bfd.{
  BfdArgs, timers, timers_cmd, build_bfd_cmds, parse_bfd_line, no_row, parse_bfd_section,
  fill_state, validate_bfd,
}
use pulumi_eos.L3.Bfd.Validation.{IsBundle, validate_bfd_iff}
use pulumi_eos.L3.Bfd.Echo.{AreTimers, row_of, over-build_bfd_cmds, words_of-IsWord, words_of}

timers_cmd-OneLine : (o : Option (ℤ × ℤ × ℤ)) → All OneLine (timers_cmd o)
unfolding join
timers_cmd-OneLine none = tt
timers_cmd-OneLine (some (i, m, k)) = (join-OneLine (words_of i m k) (words_of-IsWord i m k), tt)

slow-OneLine : (o : Option ℤ) → All OneLine (number_cmd (codes "slow-timer ") o)
unfolding has_newline
slow-OneLine none = tt
slow-OneLine (some t) = (OneLine-append (codes "slow-timer ") (itoa t) refl (itoa-OneLine t), tt)

shutdown_cmd-OneLine : (o : Option Bool) → All OneLine (shutdown_cmd o)
unfolding has_newline
shutdown_cmd-OneLine none = tt
shutdown_cmd-OneLine (some true) = (refl, tt)
shutdown_cmd-OneLine (some false) = (refl, tt)

build_bfd_cmds-OneLine : (a : BfdArgs) → All OneLine (build_bfd_cmds a false)
unfolding build_bfd_cmds has_newline
build_bfd_cmds-OneLine a =
    let slow = number_cmd (codes "slow-timer ") a.slow_timer in
    let inner = slow ++ shutdown_cmd a.shutdown in
    (
      refl,
      All-append OneLine (timers_cmd (timers a) ++ inner) (codes "exit" ∷ [])
          (All-append OneLine (timers_cmd (timers a)) inner (timers_cmd-OneLine (timers a)) (
            All-append OneLine slow (shutdown_cmd a.shutdown) (slow-OneLine a.slow_timer)
              (shutdown_cmd-OneLine a.shutdown)))
          (refl, tt),
    )

section-row_of :
    (a : BfdArgs)
    → IfSet AreTimers (timers a)
    → IfSet IsInt a.slow_timer
    → parse_bfd_section (join (build_bfd_cmds a false) (codes "\n")) ≡ row_of a
unfolding parse_bfd_section build_bfd_cmds
section-row_of a ht hs =
    ap (λ ls. over_lines parse_bfd_line ls no_row)
      (split-join (build_bfd_cmds a false) b'\n' (λ x. cc)
        (All-Lacks (build_bfd_cmds a false) (build_bfd_cmds-OneLine a)))
    ∙ over-build_bfd_cmds a ht hs

-- Numbers that fit Go's `int`.
abbrev pub AreInts : BfdArgs → Type 0
AreInts a =
    IfSet IsInt a.interval
    × (IfSet IsInt a.min_rx × (IfSet IsInt a.multiplier × IfSet IsInt a.slow_timer))

-- The arguments of these numbers.
abbrev numbered : BfdArgs → Option ℤ → Option ℤ → Option ℤ → Option ℤ → Option Bool → BfdArgs
numbered a i m k t s = record a {
  interval = i;
  min_rx = m;
  multiplier = k;
  slow_timer = t;
  shutdown = s;
}

bundle-AreTimers :
    (a : BfdArgs) (i m k t : Option ℤ) (s : Option Bool)
    → IsBundle i m k
    → AreInts (numbered a i m k t s)
    → IfSet AreTimers (timers (numbered a i m k t s))
bundle-AreTimers a none none none t s b h = tt
bundle-AreTimers a none none (some k) t s b h = absurd b
bundle-AreTimers a none (some m) k t s b h = absurd b
bundle-AreTimers a (some i) none k t s b h = tt
bundle-AreTimers a (some i) (some m) none t s b h = tt
bundle-AreTimers a (some i) (some m) (some k) t s b h =
    ((h.0, b.0), ((h.1.0, b.1), (h.1.1.0, ground (arith, b.2))))

-- Nothing is known of the configuration.
abbrev pub unset : BfdArgs → BfdArgs
unset a = numbered a none none none none none

-- An administrative state that is not down is not kept.
abbrev pub kept : BfdArgs → BfdArgs
kept a = record a { shutdown = if is_on a.shutdown then some true else none }

or_false : (b : Bool) → (b || false) ≡ b
or_false b = ground arith

is_positive : (z : ℤ) → pos 1 ≤ℤ z → ltb_ℤ (pos 0) z ≡ true
is_positive z h = ground arith

fill_state-row_of :
    (a : BfdArgs) (i m k : Option ℤ) (t : Option ℤ) (s : Option Bool)
    → IsBundle i m k
    → IfSet (λ t. pos 1 ≤ℤ t) t
    → fill_state (row_of (numbered a i m k t s)) (unset a) ≡ kept (numbered a i m k t s)
unfolding fill_state
fill_state-row_of a none none none none s b h = rw (or_false (is_on s)) refl
fill_state-row_of a none none none (some t) s b h = rw (or_false (is_on s), is_positive t h) refl
fill_state-row_of a (some i) (some m) (some k) none s b h = rw (or_false (is_on s)) refl
fill_state-row_of a (some i) (some m) (some k) (some t) s b h =
    rw (or_false (is_on s), is_positive t h) refl
fill_state-row_of a (some i) none k t s b h = absurd b
fill_state-row_of a (some i) (some m) none t s b h = absurd b
fill_state-row_of a none (some m) k t s b h = absurd b
fill_state-row_of a none none (some k) t s b h = absurd b

-- Valid BFD arguments come back from the block that their commands leave: with nothing known before,
-- the state that Read fills from the text of the commands of Create has the interval, the minimum,
-- the multiplier and the slow timer that were sent, and the shutdown where it is on. The numbers fit
-- Go's `int`.
pub fill_state-build_bfd_cmds :
    (a : BfdArgs)
    → Passes (validate_bfd a)
    → AreInts a
    → fill_state (parse_bfd_section (join (build_bfd_cmds a false) (codes "\n"))) (unset a) ≡ kept a
fill_state-build_bfd_cmds a v h =
    let (b, s) = (validate_bfd_iff a).0 v in
    ap (λ r. fill_state r (unset a))
      (section-row_of a
        (bundle-AreTimers a a.interval a.min_rx a.multiplier a.slow_timer a.shutdown b h) h.1.1.1)
    ∙ fill_state-row_of a a.interval a.min_rx a.multiplier a.slow_timer a.shutdown b s
