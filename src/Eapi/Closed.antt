-- ===== src/Eapi/Closed.antt =====
-- What any calls on a session do once it is closed.
use pulumi_eos.Base.{false, List, [], ◌∷◌, ◌≡◌, refl, ap, ◌∙◌, ℤ, pos, Bool-cases, inl, inr}
use pulumi_eos.Text.{Str}
use pulumi_eos.Goeapi.{Goeapi}
use pulumi_eos.Eapi.{Shared, Session, Reply, stage, diff, commit, abort}
use pulumi_eos.Eapi.Rich.{Command, stage_rich}
use pulumi_eos.Eapi.Timer.{commit_timer}
use pulumi_eos.Eapi.Laws.{closed_refuses, ends_session}

-- A call of a method of a session.
pub data Call : Type 0 where
  stage_call : List Str → Call
  stage_rich_call : List Command → Call
  diff_call : Call
  timer_call : ℤ → Call
  commit_call : Call
  abort_call : Call

module _ (g : Goeapi) where
  -- The session and what is shared, behind a reply.
  abbrev pub behind {ℓ} : {R : Type ℓ} → R × Session g × Shared g → Session g × Shared g
  behind r = (r.1, r.2)

  unfoldable pub call : Call → Session g × Shared g → Session g × Shared g
  unfolding stage stage_rich diff commit_timer commit abort
  call (stage_call cmds) (x, s) = behind (stage g cmds x s)
  call (stage_rich_call cmds) (x, s) = behind (stage_rich g cmds x s)
  call diff_call (x, s) = behind (diff g x s)
  call (timer_call t) (x, s) = behind (commit_timer g t x s)
  call commit_call (x, s) = behind (commit g x s)
  call abort_call (x, s) = behind (abort g x s)

  unfoldable pub call_all : List Call → Session g × Shared g → Session g × Shared g
  unfolding call
  call_all [] t = t
  call_all (c ∷ cs) t = call_all cs (call c t)

  call-closed :
      (c : Call) (x : Session g) (s : Shared g) → x.is_open ≡ false → call c (x, s) ≡ (x, s)
  unfolding call
  call-closed (stage_call cmds) x s h = ap behind (closed_refuses g x s cmds [] (pos 0) h).0
  call-closed (stage_rich_call cmds) x s h = ap behind (closed_refuses g x s [] cmds (pos 0) h).1
  call-closed diff_call x s h = ap behind (closed_refuses g x s [] [] (pos 0) h).2
  call-closed (timer_call t) x s h = ap behind (closed_refuses g x s [] [] t h).3
  call-closed commit_call x s h = ap behind (closed_refuses g x s [] [] (pos 0) h).4
  call-closed abort_call x s h = ap behind (closed_refuses g x s [] [] (pos 0) h).5

  call_all-closed :
      (cs : List Call) (x : Session g) (s : Shared g)
      → x.is_open ≡ false
      → call_all cs (x, s) ≡ (x, s)
  unfolding call_all
  call_all-closed [] x s h = refl
  call_all-closed (c ∷ cs) x s h = ap (call_all cs) (call-closed c x s h) ∙ call_all-closed cs x s h

  commit-closed :
      (x : Session g) (s : Shared g)
      → ((commit g x s).1.is_open ≡ false) × ((abort g x s).1.is_open ≡ false)
  commit-closed x s = elim (Bool-cases x.is_open) [
    | inl e ↦ let h = ends_session g x s e in (h.0, h.2)
    | inr e ↦
        let h = closed_refuses g x s [] [] (pos 0) e in
        (
          ap (λ (r : Reply g Unit). r.1.is_open) h.4 ∙ e,
          ap (λ (r : Reply g Unit). r.1.is_open) h.5 ∙ e,
        )
  ]

  -- Commit and Abort end a session for good, whatever the device has answered: no calls on it behind
  -- them, in any number and order, reach the device or change the session or the client's slot.
  pub call_all-ended :
      (cs : List Call) (x : Session g) (s : Shared g)
      → (call_all cs (behind (commit g x s)) ≡ behind (commit g x s))
        × (call_all cs (behind (abort g x s)) ≡ behind (abort g x s))
  call_all-ended cs x s = (
    call_all-closed cs (commit g x s).1 (commit g x s).2 (commit-closed x s).0,
    call_all-closed cs (abort g x s).1 (abort g x s).2 (commit-closed x s).1,
  )
