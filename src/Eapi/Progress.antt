-- ===== src/Eapi/Progress.antt =====
-- How the goroutine that owns the session slot of a shared client hands it back.
use pulumi_eos.Base.{ℕ, true, false, some, List, ◌≡◌, refl, sym, arith, false≢true}
use mathlib.Core.Path.{subst}
use pulumi_eos.Text.{Str}
use pulumi_eos.Errors.{Result, ok, err}
use pulumi_eos.Json.{Fields}
use pulumi_eos.Goeapi.{Goeapi}
use pulumi_eos.Eapi.{Client, Session, abort, open_answer, open_batch, run_cmds, json}
use pulumi_eos.Eapi.Laws.{ends_session}
use pulumi_eos.Eapi.Interleaving.{
  Pc, idle, opening, holding, Move, answers, aborts, is_owner, after_open, update, System, picks,
  Reach, here, next, init, one_session,
}

update_same : {A : Type 0} (f : ℕ → A) (i : ℕ) (a : A) → update f i a i ≡ a
update_same f i a = ground arith

module _ (g : Goeapi) (c : Client g) where
  -- The system can go on to one whose slot is free.
  abbrev pub CanFree : System g c → Type 0
  CanFree t = (u : System g c) × Reach g c t u × (u.shared.slot ≡ false)

  holding-CanFree :
      (t : System g c) (r : System g c) (i : ℕ) (x : Session g)
      → Reach g c t r
      → r.pc i ≡ holding x
      → x.is_open ≡ true
      → CanFree t
  holding-CanFree t r i x reach e is_open = (
    record { shared = (abort g x r.shared).2; pc = update r.pc i (holding (abort g x r.shared).1) },
    next reach (
        picks i (
          subst (λ p. Move g c r.shared p (abort g x r.shared).2 (holding (abort g x r.shared).1))
            (sym e) aborts)),
    (ends_session g x r.shared is_open).3,
  )

  -- What the answer of the device leads to.
  abbrev Answered : System g c → Pc g c → Str → Result (List Fields) → g.World → Type 0
  Answered t p name r w =
      let a = open_answer g c name r (record t.shared { world = w }) in
      Move g c t.shared p a.1 (after_open g c a.0)

  Answered-CanFree :
      (t : System g c) (i : ℕ) (name : Str) (r : Result (List Fields)) (w : g.World)
      → Answered t (t.pc i) name r w
      → CanFree t
  Answered-CanFree t i name (err e) w m = (
    record {
      shared = (open_answer g c name (err e) (record t.shared { world = w })).1;
      pc = update t.pc i idle;
    },
    next here (picks i m),
    refl,
  )
  Answered-CanFree t i name (ok rows) w m =
      let x : Session g = record { parent = c; name = name; is_open = true } in
      holding-CanFree t
        (record {
          shared = (open_answer g c name (ok rows) (record t.shared { world = w })).1;
          pc = update t.pc i (holding x);
        })
        i x (next here (picks i m)) (update_same t.pc i (holding x)) refl

  owner-CanFree :
      (t : System g c) (i : ℕ) (p : Pc g c) → t.pc i ≡ p → is_owner g c p ≡ true → CanFree t
  owner-CanFree t i idle e h = absurd (false≢true h)
  owner-CanFree t i (opening name) e h =
      let (r, w) = run_cmds g (some c) (open_batch g name) (json g) t.shared.world in
      Answered-CanFree t i name r w (subst (λ p. Answered t p name r w) (sym e) (answers r w refl))
  owner-CanFree t i (holding x) e h = holding-CanFree t t i x here e h

  -- A taken slot is never stuck: wherever goroutines that share a client have come to, if the slot is
  -- taken then the system can go on to a state where it is free.
  pub slot_comes_free :
      {w : g.World} {t : System g c} → Reach g c (init g c w) t → t.shared.slot ≡ true → CanFree t
  slot_comes_free {w} {t} r h =
      let (i, own) = (one_session g c r).2 h in owner-CanFree t i (t.pc i) refl own
