-- ===== src/Tests/Sessions.antt =====
-- Sessions on the switch of the tests.
use pulumi_eos.Base.{
  arith, ℕ, Bool, true, false, [], ◌∷◌, map, some, ◌≡◌, ◌≢◌, refl, List, pos, ◌+◌, ◌*◌, ◌/◌, ◌<◌,
}
use pulumi_eos.Text.{Str, codes}
use pulumi_eos.Text.Split.{IsWord}
use pulumi_eos.Errors.{ok}
use pulumi_eos.Eapi.{
  Client, Session, Shared, acquire, taken, stage, diff, commit, abort, open_session,
}
use pulumi_eos.Eapi.Rich.{Command, plain, stage_rich}
use pulumi_eos.Eapi.Payload.{batch, accepts, posted, stage_rich-stage}
use pulumi_eos.Eapi.Closed.{
  Call, stage_call, abort_call, commit_call, call_all, behind, call_all-ended,
}
use pulumi_eos.Eapi.Timer.{commit_timer, clock_of, clock_of_exact}
use pulumi_eos.Eapi.Lab.{lab, lab_device}
use pulumi_eos.Eapi.Laws.{Opened, ends_session, keeps_session, abort-commit, open_session-slot}
use pulumi_eos.Eapi.Device.{succeeds, IsInside, stays_inside}
use pulumi_eos.Eapi.Staying.{is_keyword, is_keyword-IsWord}
use pulumi_eos.Eapi.Interleaving.{
  System, here, next, picks, acquires, update, is_owner, one_session, idle, opening,
}
use pulumi_eos.Eapi.Progress.{CanFree, slot_comes_free}
use pulumi_eos.Resource.{run_session, fresh}
use pulumi_eos.Resource.Atomic.{Run, run_session-Run}
use pulumi_eos.Tests.{switch}

abbrev pub client : Client lab
client = record {
  cfg = record {
    host = codes "leaf-01";
    port = pos 443;
    username = codes "admin";
    password = [];
    timeout = pos 0;
    use_https = true;
  };
  node = some tt;
}

abbrev pub name : Str
name = codes "pulumi-vlan-10"

abbrev pub commands : List Str
commands = codes "vlan 10" ∷ codes "name web" ∷ []

pub name-IsWord : IsWord name
unfolding is_keyword
name-IsWord = (is_keyword-IsWord name refl).0

pub commands-IsInside : IsInside commands
unfolding stays_inside
commands-IsInside = refl

abbrev session : Bool → Session lab
session b = record { parent = client; name = name; is_open = b }

abbrev shared : Bool → Shared lab
shared b = record { world = switch []; slot = b }

abbrev rich : List Command
rich = record { cmd = codes "banner motd"; input = codes "hello" } ∷ []

run_session-Run_example :
    Run lab lab_device name commands
      (fresh lab (switch []))
      (run_session lab client name commands (fresh lab (switch [])))
run_session-Run_example =
    run_session-Run lab lab_device name commands client (fresh lab (switch [])) name-IsWord
      commands-IsInside

abbrev later : List Call
later = stage_call commands ∷ abort_call ∷ commit_call ∷ []

call_all-ended_example :
    (call_all lab later (behind lab (commit lab (session true) (shared true)))
      ≡ behind lab (commit lab (session true) (shared true)))
    × (call_all lab later (behind lab (abort lab (session true) (shared true)))
        ≡ behind lab (abort lab (session true) (shared true)))
call_all-ended_example = call_all-ended lab later (session true) (shared true)

ends_session_example :
    ((commit lab (session true) (shared true)).1.is_open ≡ false)
    × ((commit lab (session true) (shared true)).2.slot ≡ false)
    × ((abort lab (session true) (shared true)).1.is_open ≡ false)
    × ((abort lab (session true) (shared true)).2.slot ≡ false)
ends_session_example = ends_session lab (session true) (shared true) refl

keeps_session_example :
    ((stage lab commands (session true) (shared true)).1 ≡ session true)
    × ((stage lab commands (session true) (shared true)).2.slot ≡ true)
    × ((stage_rich lab rich (session true) (shared true)).1 ≡ session true)
    × ((stage_rich lab rich (session true) (shared true)).2.slot ≡ true)
    × ((diff lab (session true) (shared true)).1 ≡ session true)
    × ((diff lab (session true) (shared true)).2.slot ≡ true)
    × ((commit_timer lab (pos 1) (session true) (shared true)).1 ≡ session true)
    × ((commit_timer lab (pos 1) (session true) (shared true)).2.slot ≡ true)
keeps_session_example = keeps_session lab (session true) (shared true) commands rich (pos 1)

abort-commit_example :
    abort lab
      (commit lab (session true) (shared true)).1
      (commit lab (session true) (shared true)).2
    ≡ (
      ok tt,
      (commit lab (session true) (shared true)).1,
      (commit lab (session true) (shared true)).2,
    )
abort-commit_example = abort-commit lab (session true) (shared true)

open_session-slot_example :
    Opened lab client name (shared false) (open_session lab client name (shared false))
open_session-slot_example = open_session-slot lab client name (shared false)

abbrev hour_and_more : ℕ
hour_and_more = 3725000000000

clock_of_exact_example :
    (m : ℕ) × ((s : ℕ) × (((clock_of hour_and_more).mm ≡ pos m)
        × (((clock_of hour_and_more).ss ≡ pos s)
            × (((clock_of hour_and_more).hh * 3600 + m * 60 + s ≡ hour_and_more / 1000000000)
                × ((m < 60) × (s < 60))))))
clock_of_exact_example = clock_of_exact hour_and_more (omega arith)

stage_rich-stage_example :
    ((stage_rich lab (map (plain lab) commands) (session true) (shared true)).2.world
      ≡ (posted lab commands (session true) (shared true)).1)
    × ((succeeds (stage_rich lab (map (plain lab) commands) (session true) (shared true)).0
          ≡ accepts (posted lab commands (session true) (shared true)).0)
        × (((stage_rich lab (map (plain lab) commands) (session true) (shared true)).1
              ≡ session true)
            × ((stage lab commands (session true) (shared true)).2.world
                ≡ (lab.run_commands (switch []) tt (batch name commands) (codes "json")).1)))
stage_rich-stage_example =
    stage_rich-stage lab commands (session true) (shared true) tt refl refl refl

-- The first goroutine is past the `select` of OpenSession.
abbrev one_opening : System lab client
one_opening = record {
  shared = record { world = switch []; slot = true };
  pc = update (λ i. idle) 0 (opening name);
}

free : acquire lab (shared false) ≡ taken
unfolding acquire
free = refl

name-ne-nil : name ≢ []
name-ne-nil e = cc

one_session_example :
    ((i j : ℕ)
      → is_owner lab client (one_opening.pc i) ≡ true
      → is_owner lab client (one_opening.pc j) ≡ true
      → i ≡ j)
    × ((i : ℕ) → is_owner lab client (one_opening.pc i) ≡ true → one_opening.shared.slot ≡ true)
    × (one_opening.shared.slot ≡ true → (i : ℕ) × (is_owner lab client (one_opening.pc i) ≡ true))
one_session_example =
    one_session lab client {w = switch []} {t = one_opening}
      (next here (picks 0 (acquires name name-ne-nil free)))

slot_comes_free_example : CanFree lab client one_opening
slot_comes_free_example =
    slot_comes_free lab client {w = switch []} {t = one_opening}
      (next here (picks 0 (acquires name name-ne-nil free))) refl
