-- ===== src/Device/RawCli/Laws.antt =====
-- What raw commands do to the switch.
use pulumi_eos.Base.{
  Bool, true, false, List, [], ◌∷◌, ◌++◌, Option, none, some, ◌≡◌, refl, ap, ◌∙◌, pos,
}
use mathlib.Core.Path.{subst}
use pulumi_eos.Text.{Str, codes}
use pulumi_eos.Text.Split.{IsWord}
use pulumi_eos.Errors.{GoError, Result, ok, err}
use pulumi_eos.Goeapi.{Goeapi}
use pulumi_eos.Std.{Std}
use pulumi_eos.Json.{Fields}
use pulumi_eos.Device.RawCli.Answered.{IsOutput, diff-answered}
use pulumi_eos.Eapi.{
  diff_batch, text_format, Client, Shared, Session, stage, diff, commit, abort, open_session,
}
use pulumi_eos.Eapi.Device.{SessionDevice, IsInside, succeeds}
use pulumi_eos.Eapi.Laws.{keeps_session}
use pulumi_eos.Resource.Steps.{
  running-stage, pending-stage, running-abort, failed-commit, running-commit, keeps-diff,
}
use pulumi_eos.Resource.Opening.{Opening, open_session-Opening}
use pulumi_eos.Device.RawCli.{
  is_empty_diff, decide, give_up, after_diff, after_stage, compare_and_decide, went_on, run_raw_cli,
  aborted, committed,
}

module _ (std : Std) (g : Goeapi) (d : SessionDevice g) where
  open d use {running, pending, replay}

  module _ (name : Str) (cmds : List Str) where
    -- The text of the answer that the switch gives to the question for the session's diff, where the
    -- commands are staged behind what the session held and the running configuration is as before.
    abbrev pub IsDiff : Shared g → Str → Type 0
    IsDiff s text =
        (w : g.World) × ((running w ≡ running s.world)
          × ((pending w name ≡ pending s.world name ++ cmds)
              × ((h : g.Handle) × ((rows : List Fields) × (((g.run_commands w h
                          ((codes "show session-config named " ++ (name ++ codes " diffs")) ∷ [])
                          (codes "text")).0
                        ≡ ok rows)
                      × IsOutput rows text)))))

    -- With an error, or an empty diff, the running configuration is as before. Else the session is
    -- replayed, and the digest is that of the switch's diff, which is not empty.
    abbrev pub Outcome : Shared g → Result (Str × Bool) × Shared g → Type 0
    Outcome s (err e, s') = running s'.world ≡ running s.world
    Outcome s (ok (sha, true), s') =
        (running s'.world ≡ running s.world)
        × ((sha ≡ []) × ((text : Str) × (IsDiff s text × (is_empty_diff text ≡ true))))
    Outcome s (ok (sha, false), s') =
        (running s'.world ≡ replay (pending s.world name ++ cmds) (running s.world))
        × ((text : Str) × (IsDiff s text
              × ((sha ≡ std.sha256_hex text) × (is_empty_diff text ≡ false))))

    -- The call waits only for another goroutine's session.
    abbrev pub Run : Shared g → Option (Result (Str × Bool) × Shared g) → Type 0
    Run s none = (s.slot ≡ true) × (g.ctx_err s.world ≡ none)
    Run s (some r) = Outcome s r

    give_up-Outcome :
        (s s' : Shared g) (x : Session g) (e : GoError)
        → IsWord name
        → x.name ≡ name
        → running s'.world ≡ running s.world
        → Outcome s (give_up std g e x s')
    give_up-Outcome s s' x e word named same = running-abort g d x s' (rw named word) ∙ same

    aborted-Outcome :
        (s s' : Shared g) (text : Str) (r : Result (Unit {0}))
        → IsDiff s text
        → is_empty_diff text ≡ true
        → running s'.world ≡ running s.world
        → Outcome s (aborted std g text r, s')
    aborted-Outcome s s' text (ok _) asked empty same = (same, (refl, (text, (asked, empty))))
    aborted-Outcome s s' text (err e) asked empty same = same

    committed-Outcome :
        (s s' : Shared g) (text : Str) (r : Result (Unit {0}))
        → IsDiff s text
        → is_empty_diff text ≡ false
        → (succeeds r ≡ true
            → running s'.world ≡ replay (pending s.world name ++ cmds) (running s.world))
        → (succeeds r ≡ false → running s'.world ≡ running s.world)
        → Outcome s (committed std g text r, s')
    committed-Outcome s s' text (ok _) asked full good bad =
        (good refl, (text, (asked, (refl, full))))
    committed-Outcome s s' text (err e) asked full good bad = bad refl

    decide-Outcome :
        (s s' : Shared g) (x : Session g) (text : Str) (b : Bool)
        → IsDiff s text
        → is_empty_diff text ≡ b
        → IsWord name
        → x.name ≡ name
        → running s'.world ≡ running s.world
        → pending s'.world name ≡ pending s.world name ++ cmds
        → Outcome s (decide std g b text x s')
    unfolding decide
    decide-Outcome s s' x text true asked e word named same staged =
        aborted-Outcome s (abort g x s').2 text (abort g x s').0 asked e
          (running-abort g d x s' (rw named word) ∙ same)
    decide-Outcome s s' x text false asked e word named same staged =
        committed-Outcome s (commit g x s').2 text (commit g x s').0 asked e
          (λ good. running-commit g d x s' (rw named word) good ∙ rw (named, staged, same))
          (λ bad. failed-commit g d x s' (rw named word) bad ∙ same)

    after_diff-Outcome :
        (s s' : Shared g) (x : Session g) (r : Result Str)
        → ((text : Str) → r ≡ ok text → IsDiff s text)
        → IsWord name
        → x.name ≡ name
        → running s'.world ≡ running s.world
        → pending s'.world name ≡ pending s.world name ++ cmds
        → Outcome s (after_diff std g r x s')
    unfolding after_diff
    after_diff-Outcome s s' x (err e) asked word named same staged =
        give_up-Outcome s s' x e word named same
    after_diff-Outcome s s' x (ok text) asked word named same staged =
        decide-Outcome s s' x text (is_empty_diff text) (asked text refl) refl word named same
          staged

    after_stage-Outcome :
        (s s' : Shared g) (x : Session g) (r : Result (Unit {0}))
        → IsWord name
        → x.name ≡ name
        → running s'.world ≡ running s.world
        → (succeeds r ≡ true → pending s'.world name ≡ pending s.world name ++ cmds)
        → Outcome s (after_stage std g r x s')
    unfolding after_stage
    after_stage-Outcome s s' x (err e) word named same staged =
        give_up-Outcome s s' x e word named same
    after_stage-Outcome s s' x (ok _) word named same staged =
        after_diff-Outcome s (diff g x s').2 (diff g x s').1 (diff g x s').0
          (λ text h. (
            s'.world,
            (
              same,
              (
                staged refl,
                subst
                    (λ n.
                      (h : g.Handle) × ((rows : List Fields) × (((g.run_commands s'.world h
                              (diff_batch g n) (text_format g)).0
                            ≡ ok rows)
                          × IsOutput rows text)))
                    named (diff-answered g x s' text h),
              ),
            ),
          ))
          word (ap (λ (y : Session g). y.name) (keeps_session g x s' [] [] (pos 0)).4 ∙ named)
          (keeps-diff g d running x s' (λ h. d.diffs s'.world h x.name (rw named word)) ∙ same)
          (keeps-diff g d (λ w. pending w name) x s'
              (λ h. d.diffs_pending s'.world h x.name name (rw named word))
            ∙ staged refl)

    compare-Outcome :
        (s s' : Shared g) (x : Session g)
        → IsWord name
        → IsInside cmds
        → x.name ≡ name
        → running s'.world ≡ running s.world
        → pending s'.world name ≡ pending s.world name
        → Outcome s (compare_and_decide std g cmds x s')
    unfolding compare_and_decide
    compare-Outcome s s' x word stay named same held =
        after_stage-Outcome s (stage g cmds x s').2 (stage g cmds x s').1 (stage g cmds x s').0 word
          (ap (λ (y : Session g). y.name) (keeps_session g x s' cmds [] (pos 0)).0 ∙ named)
          (running-stage g d cmds x s' (rw named word) stay ∙ same)
          (λ good.
            subst (λ n. pending (stage g cmds x s').2.world n ≡ pending s'.world n ++ cmds) named
              (pending-stage g d cmds x s' (rw named word) stay good)
            ∙ ap (λ l. l ++ cmds) held)

    went_on-Run :
        (s : Shared g) (r : Option (Result (Session g) × Shared g))
        → IsWord name
        → IsInside cmds
        → Opening g d name s r
        → Run s (went_on std g cmds r)
    went_on-Run s none word stay h = h
    went_on-Run s (some (err e, s')) word stay h = h
    went_on-Run s (some (ok x, s')) word stay (named, same, held) =
        compare-Outcome s s' x word stay named same held

    -- Raw commands are applied only where the switch's diff is not empty. With an error at any call the
    -- running configuration is what it was. Without one the switch has been asked for the diff of the
    -- session with the commands staged: where that text is empty, the running configuration is what it
    -- was and the digest is empty; where it is not, the running configuration is the old one with the
    -- commands replayed, behind what a session of that name still held, and the answer is the digest
    -- of that text. The call waits only while the client's slot is taken and the
    -- context is not done. The session's name is a single word, and no command leaves the session.
    pub run_raw_cli-Run :
        (c : Client g) (s : Shared g)
        → IsWord name
        → IsInside cmds
        → Run s (run_raw_cli std g c name cmds s)
    unfolding run_raw_cli
    run_raw_cli-Run c s word stay =
        went_on-Run s (open_session g c name s) word stay (open_session-Opening g d name c s word)
