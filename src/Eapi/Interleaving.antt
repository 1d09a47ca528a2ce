-- ===== src/Eapi/Interleaving.antt =====
-- Goroutines that share one client, in any order of their calls: who owns the session slot.
-- OpenSession is two steps here, the `select` and the answer of the device. The other calls are one
-- step: they write `open` and the slot once, behind the device's answer.
use pulumi_eos.Base.{
  some, ℕ, Bool, true, false, List, ◌≡◌, ◌≢◌, refl, ◌∙◌, sym, ap, pos, arith, ◌==◌, if◌then◌else◌,
  [], ℤ, Bool-cases, inl, inr,
}
use pulumi_eos.Text.{Str}
use pulumi_eos.Errors.{Result, ok, err}
use pulumi_eos.Json.{Fields}
use pulumi_eos.Goeapi.{Goeapi}
use pulumi_eos.Eapi.{
  Client, Shared, Session, acquire, taken, open_batch, open_answer, json, stage, diff, commit,
  abort, run_cmds, Reply,
}
use pulumi_eos.Eapi.Rich.{Command, stage_rich}
use pulumi_eos.Eapi.Timer.{commit_timer}
use pulumi_eos.Eapi.Laws.{keeps_session, ends_session, closed_refuses, taken-slot}

abbrev pub update {ℓ} : {A : Type ℓ} → (ℕ → A) → ℕ → A → ℕ → A
update f i a j = if i == j then a else f j

module _ (g : Goeapi) (c : Client g) where
  -- Where a goroutine is: outside, past the `select` of OpenSession, or with a session in hand.
  pub data Pc : Type 0 where
    idle : Pc
    opening : Str → Pc
    holding : Session g → Pc

  abbrev pub after_open : Result (Session g) → Pc
  after_open (ok x) = holding x
  after_open (err e) = idle

  pub data Move : Shared g → Pc → Shared g → Pc → Type 0 where
    acquires :
        {s : Shared g} (name : Str)
        → name ≢ []
        → acquire g s ≡ taken
        → Move s idle (record s { slot = true }) (opening name)
    answers :
        {s : Shared g} {name : Str} (r : Result (List Fields)) (w : g.World)
        → run_cmds g (some c) (open_batch g name) (json g) s.world ≡ (r, w)
        → Move s
            (opening name)
            (open_answer g c name r (record s { world = w })).1
            (after_open (open_answer g c name r (record s { world = w })).0)
    stages :
        {s : Shared g} {x : Session g} (cmds : List Str)
        → Move s (holding x) (stage g cmds x s).2 (holding (stage g cmds x s).1)
    stages_rich :
        {s : Shared g} {x : Session g} (cmds : List Command)
        → Move s (holding x) (stage_rich g cmds x s).2 (holding (stage_rich g cmds x s).1)
    diffs :
        {s : Shared g} {x : Session g} → Move s (holding x) (diff g x s).2 (holding (diff g x s).1)
    sets_timer :
        {s : Shared g} {x : Session g} (timeout : ℤ)
        → Move s (holding x) (commit_timer g timeout x s).2 (holding (commit_timer g timeout x s).1)
    commits :
        {s : Shared g} {x : Session g}
        → Move s (holding x) (commit g x s).2 (holding (commit g x s).1)
    aborts :
        {s : Shared g} {x : Session g}
        → Move s (holding x) (abort g x s).2 (holding (abort g x s).1)
    drops : {s : Shared g} {x : Session g} → x.is_open ≡ false → Move s (holding x) s idle

  abbrev pub is_owner : Pc → Bool
  is_owner idle = false
  is_owner (opening name) = true
  is_owner (holding x) = x.is_open

  -- What a move does to the slot and to the mover's ownership.
  data Effect (s : Shared g) (p : Pc) (s' : Shared g) (p' : Pc) : Type 0 where
    keeps : s'.slot ≡ s.slot → is_owner p' ≡ is_owner p → Effect s p s' p'
    enters :
        is_owner p ≡ false → s.slot ≡ false → s'.slot ≡ true → is_owner p' ≡ true → Effect s p s' p'
    leaves : is_owner p ≡ true → s'.slot ≡ false → is_owner p' ≡ false → Effect s p s' p'

  answers-Effect :
      (s : Shared g) (name : Str) (r : Result (List Fields)) (w : g.World)
      → Effect s
          (opening name)
          (open_answer g c name r (record s { world = w })).1
          (after_open (open_answer g c name r (record s { world = w })).0)
  answers-Effect s name (ok _) w = keeps refl refl
  answers-Effect s name (err e) w = leaves refl refl refl

  ends-Effect :
      (s : Shared g) (x : Session g)
      → Effect s (holding x) (commit g x s).2 (holding (commit g x s).1)
        × Effect s (holding x) (abort g x s).2 (holding (abort g x s).1)
  ends-Effect s x = elim (Bool-cases x.is_open) [
    | inl e ↦
        let (commit_closed, commit_free, abort_closed, abort_free) = ends_session g x s e in
        (leaves e commit_free commit_closed, leaves e abort_free abort_closed)
    | inr e ↦
        let (_, _, _, _, after_commit, after_abort) = closed_refuses g x s [] [] (pos 0) e in
        (
          keeps (ap (λ (r : Reply g Unit). r.2.slot) after_commit)
              (ap (λ (r : Reply g Unit). r.1.is_open) after_commit),
          keeps (ap (λ (r : Reply g Unit). r.2.slot) after_abort)
              (ap (λ (r : Reply g Unit). r.1.is_open) after_abort),
        )
  ]

  abbrev opened_flag : Session g → Bool
  opened_flag x = x.is_open

  Move-Effect : {s s' : Shared g} {p p' : Pc} → Move s p s' p' → Effect s p s' p'
  Move-Effect (acquires {s} name ne h) = enters refl (taken-slot g s h) refl refl
  Move-Effect (answers {s} {name} r w h) = answers-Effect s name r w
  Move-Effect (stages {s} {x} cmds) =
      let k = keeps_session g x s cmds [] (pos 0) in keeps k.1 (ap opened_flag k.0)
  Move-Effect (stages_rich {s} {x} cmds) =
      let k = keeps_session g x s [] cmds (pos 0) in keeps k.3 (ap opened_flag k.2)
  Move-Effect (diffs {s} {x}) =
      let k = keeps_session g x s [] [] (pos 0) in keeps k.5 (ap opened_flag k.4)
  Move-Effect (sets_timer {s} {x} t) =
      let k = keeps_session g x s [] [] t in keeps k.7 (ap opened_flag k.6)
  Move-Effect (commits {s} {x}) = (ends-Effect s x).0
  Move-Effect (aborts {s} {x}) = (ends-Effect s x).1
  Move-Effect (drops h) = keeps refl (sym h)

  pub record System : Type 0 where
    pub shared : Shared g
    pub pc : ℕ → Pc

  -- A goroutine moves, or the world does: time passes, a context ends, others use the device.
  pub data Step (t : System) : System → Type 0 where
    picks :
        (i : ℕ) {s : Shared g} {p : Pc}
        → Move t.shared (t.pc i) s p
        → Step t (record { shared = s; pc = update t.pc i p })
    turns : (w : g.World) → Step t (record t { shared = record t.shared { world = w } })

  pub data Reach (t : System) : System → Type 0 where
    here : Reach t t
    next : {u v : System} → Reach t u → Step u v → Reach t v

  pub record Inv (t : System) : Type 0 where
    pub owned : (i : ℕ) → is_owner (t.pc i) ≡ true → t.shared.slot ≡ true
    pub unique : (i j : ℕ) → is_owner (t.pc i) ≡ true → is_owner (t.pc j) ≡ true → i ≡ j
    pub held : t.shared.slot ≡ true → (i : ℕ) × (is_owner (t.pc i) ≡ true)

  Effect-Inv :
      {t : System} (i : ℕ) {s : Shared g} {p : Pc}
      → Inv t
      → Effect t.shared (t.pc i) s p
      → Inv (record { shared = s; pc = update t.pc i p })
  Effect-Inv {t} i {s} {p} v (keeps slot own) = record {
    owned = λ j h. ground (arith, v.owned j, v.owned i);
    unique = λ j k hj hk. ground (arith, v.unique j k, v.unique i k, v.unique j i);
    held = λ h. let (j, hj) = v.held (sym slot ∙ h) in (j, ground arith);
  }
  Effect-Inv {t} i {s} {p} v (enters was free slot own) = record {
    owned = λ j h. slot;
    unique = λ j k hj hk. ground (arith, v.owned j, v.owned k);
    held = λ h. (i, ground arith);
  }
  Effect-Inv {t} i {s} {p} v (leaves was slot own) = record {
    owned = λ j h. ground (arith, v.unique i j);
    unique = λ j k hj hk. ground (arith, v.unique j k);
    held = λ h. cc;
  }

  Step-Inv : {t u : System} → Step t u → Inv t → Inv u
  Step-Inv (picks i m) v = Effect-Inv i v (Move-Effect m)
  Step-Inv (turns w) v = record { owned = v.owned; unique = v.unique; held = v.held }

  pub Reach-Inv : {t u : System} → Inv t → Reach t u → Inv u
  Reach-Inv v here = v
  Reach-Inv v (next r st) = Step-Inv st (Reach-Inv v r)

  -- A client just made, with no goroutine in a call.
  abbrev pub init : g.World → System
  init w = record { shared = record { world = w; slot = false }; pc = λ _. idle }

  init-Inv : (w : g.World) → Inv (init w)
  init-Inv w = record { owned = λ i h. cc; unique = λ i j hi hj. cc; held = λ h. cc }

  -- However goroutines share a client, at most one of them is opening or holds an open session; the
  -- client's slot is taken exactly while one does.
  pub one_session :
      {w : g.World} {t : System}
      → Reach (init w) t
      → ((i j : ℕ) → is_owner (t.pc i) ≡ true → is_owner (t.pc j) ≡ true → i ≡ j)
        × ((i : ℕ) → is_owner (t.pc i) ≡ true → t.shared.slot ≡ true)
        × (t.shared.slot ≡ true → (i : ℕ) × (is_owner (t.pc i) ≡ true))
  one_session {w} r = let v = Reach-Inv (init-Inv w) r in (v.unique, v.owned, v.held)
