-- ===== src/Eapi/Device.antt =====
-- What the provider relies on of the switch: the documented behaviour of EOS configuration sessions.
-- Between two calls nobody else changes the switch.
use pulumi_eos.Base.{Bool, true, false, List, ◌++◌, ◌≡◌, ℤ}
use pulumi_eos.Text.{Str}
unfoldable pub use pulumi_eos.Eapi.Modes.{
  has_newline, leaves_first, leaves_session, Stays, stays_inside, IsInside,
}
use pulumi_eos.Text.Split.{IsWord}
use pulumi_eos.Errors.{Result, ok, err}
use pulumi_eos.Goeapi.{Goeapi}
use pulumi_eos.Eapi.{
  open_batch, stage_batch, commit_batch, abort_batch, diff_batch, json, text_format,
}

abbrev pub succeeds {ℓ} : {A : Type ℓ} → Result A → Bool
succeeds (ok a) = true
succeeds (err e) = false

-- `running` is the running configuration, `pending w n` what session `n` holds, and `replay` the
-- effect of configuration commands. Names are single words: a name with a blank in it could not be
-- told from the words behind it.
pub record SessionDevice (g : Goeapi) : Type 1 where
  pub Running : Type 0
  pub running : g.World → Running
  pub pending : g.World → Str → List Str
  pub replay : List Str → Running → Running
  -- connecting changes nothing
  pub connects :
      (w : g.World) (transport host user pass : Str) (port : ℤ)
      → running (g.connect w transport host user pass port).1 ≡ running w
  pub connects_pending :
      (w : g.World) (transport host user pass : Str) (port : ℤ) (n : Str)
      → pending (g.connect w transport host user pass port).1 n ≡ pending w n
  -- entering a session keeps what it holds already
  pub opens :
      (w : g.World) (h : g.Handle) (n : Str)
      → IsWord n
      → running (g.run_commands w h (open_batch g n) (json g)).1 ≡ running w
  pub opens_pending :
      (w : g.World) (h : g.Handle) (n : Str)
      → IsWord n
      → succeeds (g.run_commands w h (open_batch g n) (json g)).0 ≡ true
      → pending (g.run_commands w h (open_batch g n) (json g)).1 n ≡ pending w n
  -- commands that stay in the session are staged, and change nothing else
  pub stages :
      (w : g.World) (h : g.Handle) (n : Str) (cmds : List Str)
      → IsWord n
      → IsInside cmds
      → running (g.run_commands w h (stage_batch g n cmds) (json g)).1 ≡ running w
  pub stages_pending :
      (w : g.World) (h : g.Handle) (n : Str) (cmds : List Str)
      → IsWord n
      → IsInside cmds
      → succeeds (g.run_commands w h (stage_batch g n cmds) (json g)).0 ≡ true
      → pending (g.run_commands w h (stage_batch g n cmds) (json g)).1 n ≡ pending w n ++ cmds
  -- a commit is all or nothing
  pub commits :
      (w : g.World) (h : g.Handle) (n : Str)
      → IsWord n
      → succeeds (g.run_commands w h (commit_batch g n) (json g)).0 ≡ true
      → running (g.run_commands w h (commit_batch g n) (json g)).1
        ≡ replay (pending w n) (running w)
  pub commit_fails :
      (w : g.World) (h : g.Handle) (n : Str)
      → IsWord n
      → succeeds (g.run_commands w h (commit_batch g n) (json g)).0 ≡ false
      → running (g.run_commands w h (commit_batch g n) (json g)).1 ≡ running w
  -- dropping a session, and asking for its diff
  pub aborts :
      (w : g.World) (h : g.Handle) (n : Str)
      → IsWord n
      → running (g.run_commands w h (abort_batch g n) (json g)).1 ≡ running w
  pub diffs :
      (w : g.World) (h : g.Handle) (n : Str)
      → IsWord n
      → running (g.run_commands w h (diff_batch g n) (text_format g)).1 ≡ running w
  pub diffs_pending :
      (w : g.World) (h : g.Handle) (n m : Str)
      → IsWord n
      → pending (g.run_commands w h (diff_batch g n) (text_format g)).1 m ≡ pending w m
