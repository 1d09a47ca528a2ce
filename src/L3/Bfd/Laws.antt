-- ===== src/L3/Bfd/Laws.antt =====
-- What the BFD resource sends: commands of the mode `router bfd`, which it leaves with `exit`.
use pulumi_eos.Base.{Bool, true, false, [], ◌∷◌, ◌++◌, Option, none, some, refl, All, All-append, ℤ}
use pulumi_eos.Text.{codes, str_eq, fields}
use pulumi_eos.Text.Decimal.{itoa}
use pulumi_eos.L2.Interface.{shutdown_cmd}
use pulumi_eos.Eapi.Device.{has_newline, stays_inside, leaves_session}
use pulumi_eos.Eapi.Modes.{Mode, after_line}
use pulumi_eos.Eapi.Staying.{
  OneLine-append, itoa-OneLine, is_keyword, is_keyword-IsWord, All-Stays-IsInside,
}
use pulumi_eos.Eapi.Inside.{Own, Starts, Goes, command-Own, block_inside, All-number_cmd}
use pulumi_eos.Resource.Kind.Laws.{IsSafe}
use pulumi_eos.L3.Bfd.{BfdArgs, timers, timers_cmd, bfd_lines, bfd_tag, build_bfd_cmds, bfd}

interval-Starts : Starts Mode.router_bfd (codes "interval")
unfolding is_keyword str_eq
interval-Starts = ((is_keyword-IsWord (codes "interval") refl).0, λ up ws. refl)

slow_timer-Starts : Starts Mode.router_bfd (codes "slow-timer")
unfolding is_keyword str_eq
slow_timer-Starts = ((is_keyword-IsWord (codes "slow-timer") refl).0, λ up ws. refl)

timers_cmd-Own : (o : Option (ℤ × ℤ × ℤ)) → All (Own Mode.router_bfd) (timers_cmd o)
unfolding has_newline
timers_cmd-Own none = tt
timers_cmd-Own (some (i, m, k)) = (
  command-Own Mode.router_bfd (codes "interval")
      (itoa i
        ++ (codes " min-rx " ++ (itoa m ++ (codes " multiplier " ++ (itoa k ++ codes " default")))))
      interval-Starts
      (OneLine-append (itoa i)
        (codes " min-rx " ++ (itoa m ++ (codes " multiplier " ++ (itoa k ++ codes " default"))))
        (itoa-OneLine i)
        (OneLine-append (itoa m) (codes " multiplier " ++ (itoa k ++ codes " default"))
          (itoa-OneLine m) (OneLine-append (itoa k) (codes " default") (itoa-OneLine k) refl))),
  tt,
)

shutdown_cmd-Own : (o : Option Bool) → All (Own Mode.router_bfd) (shutdown_cmd o)
unfolding has_newline fields str_eq
shutdown_cmd-Own none = tt
shutdown_cmd-Own (some true) = ((refl, λ up. refl), tt)
shutdown_cmd-Own (some false) = ((refl, λ up. refl), tt)

bfd_lines-Own : (a : BfdArgs) → All (Own Mode.router_bfd) (bfd_lines a)
unfolding has_newline
bfd_lines-Own a = All-append (Own Mode.router_bfd) _ _ (timers_cmd-Own (timers a)) (
    All-append (Own Mode.router_bfd) _ _
      (All-number_cmd (Own Mode.router_bfd) (codes "slow-timer")
        (λ x h. command-Own Mode.router_bfd (codes "slow-timer") x slow_timer-Starts h) []
        a.slow_timer refl)
      (shutdown_cmd-Own a.shutdown))

enters : Goes [] (codes "router bfd") (Mode.router_bfd ∷ [])
unfolding after_line has_newline fields str_eq
enters = refl

pub bfd-IsSafe : (a : BfdArgs) → IsSafe bfd a
unfolding bfd bfd_tag build_bfd_cmds is_keyword leaves_session stays_inside
bfd-IsSafe a = (
  (is_keyword-IsWord (codes "bfd-global") refl).0,
  block_inside [] [] Mode.router_bfd (codes "router bfd") (bfd_lines a) [] enters (bfd_lines-Own a)
      refl,
  All-Stays-IsInside (build_bfd_cmds a true) (refl, tt),
)
