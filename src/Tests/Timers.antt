-- ===== src/Tests/Timers.antt =====
-- BFD timers.
use pulumi_eos.Base.{◌↔◌, ◌≤ℤ◌, true, false, some, ◌≡◌, refl, pos, arith}
use pulumi_eos.Text.{codes, join}
use pulumi_eos.L3.Bfd
use pulumi_eos.L3.Bfd.{BfdArgs, validate_bfd, parse_bfd_section, build_bfd_cmds}
use pulumi_eos.L3.Bfd.Validation.{IsBundle, validate_bfd_iff}
use pulumi_eos.L3.Bfd.RoundTrip.{AreInts, unset, kept, fill_state-build_bfd_cmds}
use pulumi_eos.L2.Switchport.Laws.{IfSet}
use pulumi_eos.Errors.Laws.{Passes}
use pulumi_eos.Tests.{no_access}

-- BFD with all of its timers.
abbrev fast : BfdArgs
fast = record {
  interval = some (pos 300);
  min_rx = some (pos 300);
  multiplier = some (pos 3);
  slow_timer = some (pos 2000);
  shutdown = some true;
  access = no_access;
}

validate_bfd_iff_example :
    Passes (validate_bfd fast)
    ↔ (IsBundle fast.interval fast.min_rx fast.multiplier × IfSet (λ t. pos 1 ≤ℤ t) fast.slow_timer)
validate_bfd_iff_example = validate_bfd_iff fast

fast_valid : Passes (validate_bfd fast)
unfolding validate_bfd
fast_valid = refl

fast-AreInts : AreInts fast
fast-AreInts = (omega arith, (omega arith, (omega arith, omega arith)))

fill_state-build_bfd_cmds_example :
    Bfd.fill_state (parse_bfd_section (join (build_bfd_cmds fast false) (codes "\n"))) (unset fast)
    ≡ kept fast
fill_state-build_bfd_cmds_example = fill_state-build_bfd_cmds fast fast_valid fast-AreInts
