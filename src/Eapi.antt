-- ===== src/Eapi.antt =====
-- internal/client/eapi/client.go: the connection to one device, and named configuration sessions.
-- The 1-slot channel of a client is the flag `slot`; a session's `open` field is `is_open`.
-- RunCmdsRich, StageRich and postEAPI are in Eapi/Rich, CommitTimer in Eapi/Timer.
pub mod Rich
pub mod Payload
pub mod Timer
pub mod Laws
pub mod Modes
pub mod Device
pub mod Staying
pub mod Inside
pub mod Sending
pub mod Lab
pub mod Interleaving
pub mod Progress
pub mod Closed
use pulumi_eos.Base.{
  Bool, true, false, List, [], ◌∷◌, ◌++◌, Option, none, some, if◌then◌else◌, ℤ, pos, eqb_ℤ,
}
use pulumi_eos.Text.{Str, codes, str_eq}
use pulumi_eos.Errors.{GoError, sentinel, wrapped, text, texts, Result, ok, err, wrap_err}
use pulumi_eos.Json.{Fields, as_string, get}
use pulumi_eos.Goeapi.{Goeapi}

abbrev pub default_port : ℤ
default_port = pos 443

-- Nanoseconds, as a time.Duration.
abbrev pub default_commit_timer : ℤ
default_commit_timer = pos 300000000000

abbrev pub err_host_required : GoError
err_host_required = sentinel (codes "eapi: host is required")

abbrev pub err_username_required : GoError
err_username_required = sentinel (codes "eapi: username is required")

abbrev pub err_client_not_init : GoError
err_client_not_init = sentinel (codes "eapi: client not initialised")

abbrev pub err_session_name_required : GoError
err_session_name_required = sentinel (codes "eapi: session name is required")

abbrev pub err_session_closed : GoError
err_session_closed = sentinel (codes "eapi: session is closed")

pub record Config : Type 0 where
  pub host : Str
  pub port : ℤ
  pub username : Str
  pub password : Str
  pub timeout : ℤ
  pub use_https : Bool

-- `func (c Config) validate() error`
unfoldable pub validate : Config → Option GoError
unfolding str_eq
validate c =
    if str_eq c.host []
    then some err_host_required
    else if str_eq c.username []
    then some err_username_required
    else none

module _ (g : Goeapi) where
  open g use {World, Handle, connect, run_commands, ctx_err, picks_done}

  pub record Client : Type 0 where
    pub cfg : Config
    pub node : Option Handle

  -- The world, and whether the client's `sessionSlot` is taken.
  pub record Shared : Type 0 where
    pub world : World
    pub slot : Bool

  -- Only OpenSession makes a session, so its parent is a client.
  pub record Session : Type 0 where
    pub parent : Client
    pub name : Str
    pub is_open : Bool

  unfoldable pub new : Config → World → Result Client × World
  unfolding validate
  new cfg w = elim (validate cfg) [
    | some e ↦ (err e, w)
    | none ↦
        let transport = if cfg.use_https then codes "https" else codes "http" in
        let port = if eqb_ℤ cfg.port (pos 0) then default_port else cfg.port in
        let (r, w') = connect w transport cfg.host cfg.username cfg.password port in
        elim r [
          | ok node ↦ (ok (record { cfg = cfg; node = some node }), w')
          | err e ↦ (err (wrapped (codes "eapi: connect %s: %w") (text cfg.host ∷ []) e), w')
        ]
  ]

  -- `RunCmds` with a node at hand.
  unfoldable pub run_on : Handle → List Str → Str → World → Result (List Fields) × World
  unfolding str_eq
  run_on node cmds format w = elim (ctx_err w) [
    | some e ↦ (err e, w)
    | none ↦
        let (r, w') =
          run_commands w node cmds (if str_eq format [] then codes "json" else format) in
        (wrap_err (codes "eapi: runCmds %v: %w") (texts cmds ∷ []) r, w')
  ]

  abbrev pub run_node : Option Handle → List Str → Str → World → Result (List Fields) × World
  run_node none cmds format w = (err err_client_not_init, w)
  run_node (some node) cmds format w = run_on node cmds format w

  -- A nil client is `none`.
  unfoldable pub run_cmds : Option Client → List Str → Str → World → Result (List Fields) × World
  unfolding run_on
  run_cmds none cmds format w = (err err_client_not_init, w)
  run_cmds (some c) cmds format w = run_node c.node cmds format w

  abbrev pub send : Client → List Str → Str → Shared → Result (List Fields) × Shared
  send c cmds format s =
      let (r, w) = run_cmds (some c) cmds format s.world in (r, record s { world = w })

  abbrev pub json : Str
  json = codes "json"

  abbrev pub open_batch : Str → List Str
  open_batch name = (codes "configure session " ++ name) ∷ codes "end" ∷ []

  abbrev pub stage_batch : Str → List Str → List Str
  stage_batch name cmds = (codes "configure session " ++ name) ∷ (cmds ++ codes "end" ∷ [])

  abbrev pub commit_batch : Str → List Str
  commit_batch name = (codes "configure session " ++ (name ++ codes " commit")) ∷ []

  abbrev pub abort_batch : Str → List Str
  abort_batch name = (codes "no configure session " ++ name) ∷ []

  abbrev pub diff_batch : Str → List Str
  diff_batch name = (codes "show session-config named " ++ (name ++ codes " diffs")) ∷ []

  abbrev pub text_format : Str
  text_format = codes "text"

  -- What the `select` of OpenSession does: take the slot, give up with the context's error, or
  -- wait for another goroutine.
  pub data Acquired : Type 0 where
    taken : Acquired
    cancelled : GoError → Acquired
    blocked : Acquired

  unfoldable pub acquire : Shared → Acquired
  acquire s = elim (ctx_err s.world) [
    | none ↦ if s.slot then blocked else taken
    | some e ↦ if s.slot then cancelled e else if picks_done s.world then cancelled e else taken
  ]

  -- The answer to the first batch; a failure releases the slot.
  abbrev pub open_answer : Client → Str → Result (List Fields) → Shared → Result Session × Shared
  open_answer c name (ok _) s = (ok (record { parent = c; name = name; is_open = true }), s)
  open_answer c name (err e) s = (
    err (wrapped (codes "eapi: open session %s: %w") (text name ∷ []) e),
    record s { slot = false },
  )

  unfoldable pub opened : Client → Str → Shared → Result Session × Shared
  unfolding run_cmds
  opened c name s = let (r, s') = send c (open_batch name) json s in open_answer c name r s'

  abbrev pub on_acquired : Client → Str → Shared → Acquired → Option (Result Session × Shared)
  on_acquired c name s taken = some (opened c name (record s { slot = true }))
  on_acquired c name s (cancelled e) = some (err e, s)
  on_acquired c name s blocked = none

  -- On a nil client the Go code panics, and so the client is no option here. `none` where the call
  -- does not return before another
  -- goroutine moves.
  unfoldable pub open_session : Client → Str → Shared → Option (Result Session × Shared)
  unfolding acquire opened run_cmds str_eq
  open_session c name s =
      if str_eq name []
      then some (err err_session_name_required, s)
      else on_acquired c name s (acquire s)

  -- A session has a parent, so the guard against a nil one never holds.
  unfoldable pub release : Shared → Shared
  release s = record s { slot = false }

  -- Each method of a session returns its error, the session and what is shared.
  abbrev pub Reply : Type 0 → Type 0
  Reply A = Result A × Session × Shared

  abbrev pub done {ℓ} : {A : Type ℓ} → Str → Str → Result A → Result (Unit {0})
  done f name (ok _) = ok tt
  done f name (err e) = err (wrapped f (text name ∷ []) e)

  unfoldable pub stage : List Str → Session → Shared → Reply Unit
  unfolding run_cmds
  stage cmds x s =
      if x.is_open
      then (let (r, s') = send x.parent (stage_batch x.name cmds) json s in
          (done (codes "eapi: stage in %s: %w") x.name r, x, s'))
      else (err err_session_closed, x, s)

  abbrev pub output : List Fields → Str
  output [] = []
  output (row ∷ _) = elim (as_string (get row (codes "output"))) [ some v ↦ v | none ↦ [] ]

  abbrev pub diff_text : Str → Result (List Fields) → Result Str
  diff_text name (ok rows) = ok (output rows)
  diff_text name (err e) = err (wrapped (codes "eapi: diff %s: %w") (text name ∷ []) e)

  unfoldable pub diff : Session → Shared → Reply Str
  unfolding run_cmds get
  diff x s =
      if x.is_open
      then (let (r, s') = send x.parent (diff_batch x.name) text_format s in
          (diff_text x.name r, x, s'))
      else (err err_session_closed, x, s)

  unfoldable pub commit : Session → Shared → Reply Unit
  unfolding run_cmds release
  commit x s =
      if x.is_open
      then (let (r, s') = send x.parent (commit_batch x.name) json s in
          (done (codes "eapi: commit %s: %w") x.name r, record x { is_open = false }, release s'))
      else (err err_session_closed, x, s)

  unfoldable pub abort : Session → Shared → Reply Unit
  unfolding run_cmds release
  abort x s =
      if x.is_open
      then (let (r, s') = send x.parent (abort_batch x.name) json s in
          (done (codes "eapi: abort %s: %w") x.name r, record x { is_open = false }, release s'))
      else (ok tt, x, s)
