-- ===== src/Resource/Opening.antt =====
-- What OpenSession does to the switch, by the promises of Eapi/Device.
use pulumi_eos.Base.{true, List, [], Option, none, some, ◌≡◌, refl, Bool-cases, inl, inr}
use pulumi_eos.Text.{Str, str_eq}
use pulumi_eos.Text.Split.{IsWord}
use pulumi_eos.Errors.{Result, ok, err}
use pulumi_eos.Json.{Fields}
use pulumi_eos.Goeapi.{Goeapi}
use pulumi_eos.Eapi.{
  Client, Shared, Session, Acquired, taken, cancelled, blocked, run_cmds, acquire, opened,
  open_answer, on_acquired, open_session, json, open_batch,
}
use pulumi_eos.Eapi.Device.{SessionDevice, succeeds}
use pulumi_eos.Eapi.Laws.{blocked-slot}
use pulumi_eos.Eapi.Sending.{keeps-run_cmds, succeeds-run_cmds}
use pulumi_eos.Resource.Steps.{json_known}

module _ (g : Goeapi) (d : SessionDevice g) (name : Str) where
  open d use {running, pending}

  -- The running configuration stays; a session that is handed out holds what it held on the switch;
  -- the call waits only while the slot is taken and the context is not done.
  abbrev pub Opening : Shared g → Option (Result (Session g) × Shared g) → Type 0
  Opening s none = (s.slot ≡ true) × (g.ctx_err s.world ≡ none)
  Opening s (some (err e, s')) = running s'.world ≡ running s.world
  Opening s (some (ok x, s')) =
      (x.name ≡ name)
      × (running s'.world ≡ running s.world)
      × (pending s'.world name ≡ pending s.world name)

  answer-Opening :
      (s : Shared g) (w : g.World) (c : Client g) (r : Result (List Fields))
      → running w ≡ running s.world
      → (succeeds r ≡ true → pending w name ≡ pending s.world name)
      → Opening s (some (open_answer g c name r (record { world = w; slot = true })))
  answer-Opening s w c (ok _) same held = (refl, same, held refl)
  answer-Opening s w c (err e) same held = same

  opened-Opening :
      (s : Shared g) (c : Client g)
      → IsWord name
      → Opening s (some (opened g c name (record s { slot = true })))
  unfolding opened
  opened-Opening s c word =
      let (r, w) = run_cmds g (some c) (open_batch g name) (json g) s.world in
      answer-Opening s w c r
        (keeps-run_cmds g _ (json g) json_known s.world running (some c)
          (λ h. d.opens s.world h name word))
        (succeeds-run_cmds g _ (json g) json_known s.world (λ w. pending w name) _ (some c)
          (λ h. d.opens_pending s.world h name word))

  acquired-Opening :
      (s : Shared g) (c : Client g)
      → IsWord name
      → (a : Acquired g) → acquire g s ≡ a
      → Opening s (on_acquired g c name s a)
  acquired-Opening s c word taken h = opened-Opening s c word
  acquired-Opening s c word (cancelled e) h = refl
  acquired-Opening s c word blocked h = blocked-slot g s h

  pub open_session-Opening :
      (c : Client g) (s : Shared g) → IsWord name → Opening s (open_session g c name s)
  unfolding open_session
  open_session-Opening c s word = elim (Bool-cases (str_eq name [])) [
    | inl e ↦ rw e refl
    | inr e ↦ rw e (acquired-Opening s c word (acquire g s) refl)
  ]
