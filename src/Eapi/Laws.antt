-- ===== src/Eapi/Laws.antt =====
-- The life of one session: what an operation leaves open, and what it refuses.
use pulumi_eos.Base.{
  true, false, List, Option, none, some, ◌≡◌, ◌≢◌, refl, sym, ℤ, Bool-cases, arith, inl, inr, [],
}
use pulumi_eos.Text.{Str, str_eq}
use pulumi_eos.Text.Laws.{str_eq_iff}
use pulumi_eos.Errors.{Result, ok, err}
use pulumi_eos.Json.{Fields}
use pulumi_eos.Goeapi.{Goeapi}
use pulumi_eos.Eapi.{
  blocked, taken, open_answer, cancelled, Acquired, on_acquired, json, open_batch, Client, Shared,
  Session, run_cmds, acquire, opened, open_session, release, stage, diff, commit, abort,
  err_session_closed,
}
use pulumi_eos.Eapi.Rich.{Command, stage_rich}
use pulumi_eos.Eapi.Timer.{commit_timer}

module _ (g : Goeapi) where
  open g use {ctx_err}

  -- A closed session refuses every operation but Abort, which reports success; none of them
  -- reaches the device or changes the session, the slot or the world.
  pub closed_refuses :
      (x : Session g) (s : Shared g) (cmds : List Str) (rich : List Command) (timeout : ℤ)
      → x.is_open ≡ false
      → (stage g cmds x s ≡ (err err_session_closed, x, s))
        × (stage_rich g rich x s ≡ (err err_session_closed, x, s))
        × (diff g x s ≡ (err err_session_closed, x, s))
        × (commit_timer g timeout x s ≡ (err err_session_closed, x, s))
        × (commit g x s ≡ (err err_session_closed, x, s))
        × (abort g x s ≡ (ok tt, x, s))
  unfolding stage stage_rich diff commit_timer commit abort
  closed_refuses x s cmds rich timeout h = (rw h, rw h, rw h, rw h, rw h, rw h)

  -- Commit and Abort of an open session close it and free the client's slot, whatever the device
  -- answers.
  pub ends_session :
      (x : Session g) (s : Shared g)
      → x.is_open ≡ true
      → ((commit g x s).1.is_open ≡ false)
        × ((commit g x s).2.slot ≡ false)
        × ((abort g x s).1.is_open ≡ false)
        × ((abort g x s).2.slot ≡ false)
  unfolding commit abort release
  ends_session x s h = (rw h, rw h, rw h, rw h)

  -- Staging, with and without inputs, Diff and CommitTimer leave the session and the slot alone.
  pub keeps_session :
      (x : Session g) (s : Shared g) (cmds : List Str) (rich : List Command) (timeout : ℤ)
      → ((stage g cmds x s).1 ≡ x)
        × ((stage g cmds x s).2.slot ≡ s.slot)
        × ((stage_rich g rich x s).1 ≡ x)
        × ((stage_rich g rich x s).2.slot ≡ s.slot)
        × ((diff g x s).1 ≡ x)
        × ((diff g x s).2.slot ≡ s.slot)
        × ((commit_timer g timeout x s).1 ≡ x)
        × ((commit_timer g timeout x s).2.slot ≡ s.slot)
  unfolding stage stage_rich diff commit_timer
  keeps_session x s cmds rich timeout = (
    ground arith,
    ground arith,
    ground arith,
    ground arith,
    ground arith,
    ground arith,
    ground arith,
    ground arith,
  )

  -- After Commit, also a failed one, Abort sends nothing: it returns at once, and so the pending
  -- session of a failed commit stays on the device.
  pub abort-commit :
      (x : Session g) (s : Shared g)
      → abort g (commit g x s).1 (commit g x s).2 ≡ (ok tt, (commit g x s).1, (commit g x s).2)
  unfolding commit abort
  abort-commit x s = elim (Bool-cases x.is_open) [ inl e ↦ rw e | inr e ↦ rw e ]

  -- What OpenSession leaves behind, for each answer it can give.
  abbrev pub Opened : Client g → Str → Shared g → Option (Result (Session g) × Shared g) → Type 0
  Opened c name s none = (s.slot ≡ true) × (ctx_err s.world ≡ none)
  Opened c name s (some (ok x, s')) =
      (s.slot ≡ false)
      × (s'.slot ≡ true)
      × (x ≡ record { parent = c; name = name; is_open = true })
      × (name ≢ [])
  Opened c name s (some (err e, s')) = s'.slot ≡ s.slot

  pub blocked-slot :
      (s : Shared g) → acquire g s ≡ blocked → (s.slot ≡ true) × (ctx_err s.world ≡ none)
  unfolding acquire
  blocked-slot s h = ground arith

  pub taken-slot : (s : Shared g) → acquire g s ≡ taken → s.slot ≡ false
  unfolding acquire
  taken-slot s h = ground arith

  answer-slot :
      (c : Client g) (name : Str) (s : Shared g) (w : g.World) (r : Result (List Fields))
      → name ≢ []
      → s.slot ≡ false
      → Opened c name s (some (open_answer g c name r (record { world = w; slot = true })))
  answer-slot c name s w (ok _) ne free = (free, refl, refl, ne)
  answer-slot c name s w (err e) ne free = sym free

  opened-slot :
      (c : Client g) (name : Str) (s : Shared g)
      → name ≢ []
      → s.slot ≡ false
      → Opened c name s (some (opened g c name (record s { slot = true })))
  unfolding opened
  opened-slot c name s ne free =
      let (r, w) = run_cmds g (some c) (open_batch g name) (json g) s.world in
      answer-slot c name s w r ne free

  acquired-slot :
      (c : Client g) (name : Str) (s : Shared g)
      → name ≢ []
      → (a : Acquired g) → acquire g s ≡ a
      → Opened c name s (on_acquired g c name s a)
  acquired-slot c name s ne taken h = opened-slot c name s ne (taken-slot s h)
  acquired-slot c name s ne (cancelled e) h = refl
  acquired-slot c name s ne blocked h = blocked-slot s h

  -- A session is opened only on a free slot, under a name, and takes the slot; a failed call leaves
  -- the slot as it was; a call waits only while the slot is taken and the context is not done.
  pub open_session-slot :
      (c : Client g) (name : Str) (s : Shared g) → Opened c name s (open_session g c name s)
  unfolding open_session
  open_session-slot c name s = elim (Bool-cases (str_eq name [])) [
    | inl e ↦ rw e refl
    | inr e ↦
        rw e (acquired-slot c name s (λ p. cc (e, (str_eq_iff name []).1 p)) (acquire g s) refl)
  ]
