-- ===== src/Resource/Atomic.antt =====
-- What one run of a session does to the switch, by the promises of Eapi/Device.
use pulumi_eos.Base.{true, false, List, [], ◌++◌, Option, none, some, ◌≡◌, refl, ap, ◌∙◌, pos}
use mathlib.Core.Path.{subst}
use pulumi_eos.Text.{Str}
use pulumi_eos.Text.Split.{IsWord}
use pulumi_eos.Errors.{Result, ok, err}
use pulumi_eos.Goeapi.{Goeapi}
use pulumi_eos.Eapi.{Client, Shared, Session, stage, commit, open_session}
use pulumi_eos.Eapi.Device.{SessionDevice, IsInside, succeeds}
use pulumi_eos.Eapi.Laws.{keeps_session}
use pulumi_eos.Resource.Steps.{
  running-stage, pending-stage, running-abort, failed-commit, running-commit,
}
use pulumi_eos.Resource.Opening.{Opening, open_session-Opening}
use pulumi_eos.Resource.{commit_or_abort, finish, run_session, went_on}

module _ (g : Goeapi) (d : SessionDevice g) where
  open d use {running, pending, replay}

  module _ (name : Str) (cmds : List Str) where
    -- All or nothing: with an error the running configuration is as before, and without one it is
    -- the old one with the session replayed: what the session held before, and then the commands.
    abbrev pub Transacted : Shared g → Result (Unit {0}) × Shared g → Type 0
    Transacted s (err e, s') = running s'.world ≡ running s.world
    Transacted s (ok _, s') =
        running s'.world ≡ replay (pending s.world name ++ cmds) (running s.world)

    -- The call waits only for another goroutine's session.
    abbrev pub Run : Shared g → Option (Result (Unit {0}) × Shared g) → Type 0
    Run s none = (s.slot ≡ true) × (g.ctx_err s.world ≡ none)
    Run s (some r) = Transacted s r

    outcome :
        (s s' : Shared g) (r : Result (Unit {0}))
        → (succeeds r ≡ true
            → running s'.world ≡ replay (pending s.world name ++ cmds) (running s.world))
        → (succeeds r ≡ false → running s'.world ≡ running s.world)
        → Transacted s (r, s')
    outcome s s' (ok _) good bad = good refl
    outcome s s' (err e) good bad = bad refl

    commit_or_abort-Transacted :
        (s s' : Shared g) (x : Session g) (r : Result (Unit {0}))
        → IsWord name
        → x.name ≡ name
        → running s'.world ≡ running s.world
        → (succeeds r ≡ true → pending s'.world name ≡ pending s.world name ++ cmds)
        → Transacted s (commit_or_abort g r x s')
    unfolding commit_or_abort
    commit_or_abort-Transacted s s' x (err e) word named same staged =
        running-abort g d x s' (rw named word) ∙ same
    commit_or_abort-Transacted s s' x (ok _) word named same staged =
        outcome s _ (commit g x s').0
          (λ good. running-commit g d x s' (rw named word) good ∙ rw (named, staged refl, same))
          (λ bad. failed-commit g d x s' (rw named word) bad ∙ same)

    finish-Transacted :
        (s s' : Shared g) (x : Session g)
        → IsWord name
        → IsInside cmds
        → x.name ≡ name
        → running s'.world ≡ running s.world
        → pending s'.world name ≡ pending s.world name
        → Transacted s (finish g cmds x s')
    unfolding finish
    finish-Transacted s s' x word stay named same held =
        commit_or_abort-Transacted s (stage g cmds x s').2 (stage g cmds x s').1
          (stage g cmds x s').0 word
          (ap (λ (y : Session g). y.name) (keeps_session g x s' cmds [] (pos 0)).0 ∙ named)
          (running-stage g d cmds x s' (rw named word) stay ∙ same)
          (λ good.
            subst (λ n. pending (stage g cmds x s').2.world n ≡ pending s'.world n ++ cmds) named
              (pending-stage g d cmds x s' (rw named word) stay good)
            ∙ ap (λ l. l ++ cmds) held)

    went_on-Run :
        (s : Shared g) (r : Option (Result (Session g) × Shared g))
        → IsWord name
        → IsInside cmds
        → Opening g d name s r
        → Run s (went_on g cmds r)
    went_on-Run s none word stay h = h
    went_on-Run s (some (err e, s')) word stay h = h
    went_on-Run s (some (ok x, s')) word stay (named, same, held) =
        finish-Transacted s s' x word stay named same held

    -- Opening, staging and committing is a transaction, whichever call fails and also if Abort fails
    -- too: behind an error the running configuration is what it was; without one it is the old one
    -- with the commands replayed, behind what a session of that name still held. The call waits only
    -- while the client's slot is taken and the context is not done. The session's name is a single
    -- word, and no command leaves the session.
    pub run_session-Run :
        (c : Client g) (s : Shared g)
        → IsWord name
        → IsInside cmds
        → Run s (run_session g c name cmds s)
    unfolding run_session
    run_session-Run c s word stay =
        went_on-Run s (open_session g c name s) word stay (open_session-Opening g d name c s word)
