-- ===== src/Resource/Steps.antt =====
-- What the calls of a session do to the switch, by the promises of Eapi/Device.
use pulumi_eos.Base.{some, true, false, List, [], ◌++◌, ◌≡◌, refl, sym, ◌∙◌, Bool-cases, inl, inr}
use pulumi_eos.Text.{Str, codes, str_eq}
use pulumi_eos.Text.Split.{IsWord}
use pulumi_eos.Errors.{Result, ok, err}
use pulumi_eos.Json.{Fields}
use pulumi_eos.Goeapi.{Goeapi}
use pulumi_eos.Eapi.{
  Shared, Session, stage, diff, commit, abort, json, diff_batch, text_format, release, done,
}
use pulumi_eos.Eapi.Device.{SessionDevice, IsInside, succeeds}
use pulumi_eos.Eapi.Sending.{keeps-run_cmds, fails-run_cmds, succeeds-run_cmds}

succeeds-done :
    (g : Goeapi) (f n : Str) (r : Result (List Fields)) → succeeds (done g f n r) ≡ succeeds r
succeeds-done g f n (ok a) = refl
succeeds-done g f n (err e) = refl

pub json_known : str_eq (codes "json") [] ≡ false
unfolding str_eq
json_known = refl

pub text_known : str_eq (codes "text") [] ≡ false
unfolding str_eq
text_known = refl

module _ (g : Goeapi) (d : SessionDevice g) where
  open d use {running, pending, replay}

  pub running-stage :
      (cmds : List Str) (x : Session g) (s : Shared g)
      → IsWord x.name
      → IsInside cmds
      → running (stage g cmds x s).2.world ≡ running s.world
  unfolding stage
  running-stage cmds x s word stay = elim (Bool-cases x.is_open) [
    | inl e ↦ rw e (
        keeps-run_cmds g _ (json g) json_known s.world running (some x.parent)
          (λ h. d.stages s.world h x.name cmds word stay))
    | inr e ↦ rw e refl
  ]

  pub pending-stage :
      (cmds : List Str) (x : Session g) (s : Shared g)
      → IsWord x.name
      → IsInside cmds
      → succeeds (stage g cmds x s).0 ≡ true
      → pending (stage g cmds x s).2.world x.name ≡ pending s.world x.name ++ cmds
  unfolding stage
  pending-stage cmds x s word stay = elim (Bool-cases x.is_open) [
    | inl e ↦ rw e λ good.
        succeeds-run_cmds g _ (json g) json_known s.world (λ w. pending w x.name) _ (some x.parent)
          (λ h. d.stages_pending s.world h x.name cmds word stay)
          (sym (succeeds-done g _ _ _) ∙ good)
    | inr e ↦ rw e (λ good. cc)
  ]

  pub running-abort :
      (x : Session g) (s : Shared g)
      → IsWord x.name
      → running (abort g x s).2.world ≡ running s.world
  unfolding abort release
  running-abort x s word = elim (Bool-cases x.is_open) [
    | inl e ↦ rw e (
        keeps-run_cmds g _ (json g) json_known s.world running (some x.parent)
          (λ h. d.aborts s.world h x.name word))
    | inr e ↦ rw e refl
  ]

  -- A commit that fails leaves the running configuration; one that succeeds replays the session.
  pub failed-commit :
      (x : Session g) (s : Shared g)
      → IsWord x.name
      → succeeds (commit g x s).0 ≡ false
      → running (commit g x s).2.world ≡ running s.world
  unfolding commit release
  failed-commit x s word = elim (Bool-cases x.is_open) [
    | inl e ↦ rw e λ bad.
        fails-run_cmds g _ (json g) json_known s.world running (some x.parent)
          (λ h. d.commit_fails s.world h x.name word) (sym (succeeds-done g _ _ _) ∙ bad)
    | inr e ↦ rw e (λ bad. refl)
  ]

  pub running-commit :
      (x : Session g) (s : Shared g)
      → IsWord x.name
      → succeeds (commit g x s).0 ≡ true
      → running (commit g x s).2.world ≡ replay (pending s.world x.name) (running s.world)
  unfolding commit release
  running-commit x s word = elim (Bool-cases x.is_open) [
    | inl e ↦ rw e λ good.
        succeeds-run_cmds g _ (json g) json_known s.world running _ (some x.parent)
          (λ h. d.commits s.world h x.name word) (sym (succeeds-done g _ _ _) ∙ good)
    | inr e ↦ rw e (λ good. cc)
  ]

  -- The diff changes nothing.
  pub keeps-diff :
      {A : Type 0} (P : g.World → A) (x : Session g) (s : Shared g)
      → ((h : g.Handle)
          → P (g.run_commands s.world h (diff_batch g x.name) (text_format g)).1 ≡ P s.world)
      → P (diff g x s).2.world ≡ P s.world
  unfolding diff
  keeps-diff P x s keep = elim (Bool-cases x.is_open) [
    | inl e ↦ rw e (keeps-run_cmds g _ (text_format g) text_known s.world P (some x.parent) keep)
    | inr e ↦ rw e refl
  ]
