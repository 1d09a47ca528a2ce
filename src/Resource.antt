-- ===== src/Resource.antt =====
-- What every resource of internal/resources does around its own commands: the block that opens a
-- session, stages the commands and commits (the tail of each `apply…` function), and the bodies of
-- Create, Update and Delete around it.
pub mod Steps
pub mod Opening
pub mod Atomic
pub mod Laws
pub mod Kind
use pulumi_eos.Base.{Bool, true, false, List, [], ◌∷◌, ◌++◌, Option, none, some}
use pulumi_eos.Text.{Str}
use pulumi_eos.Errors.{GoError, joined, Operand, Result, ok, err, ◌>>=◌, wrap_err}
use pulumi_eos.Std.{Std}
use pulumi_eos.Goeapi.{Goeapi}
use pulumi_eos.Eapi
use pulumi_eos.Eapi.{Client, Shared, Session}
use pulumi_eos.Config.{Config, session_prefix}
use pulumi_eos.Config.Clients.{eapi_client}

-- `if abortErr := sess.Abort(ctx); abortErr != nil { return errors.Join(err, abortErr) }; return err`
abbrev pub after_abort : GoError → Result (Unit {0}) → GoError
after_abort e (ok _) = e
after_abort e (err a) = joined e a

-- infer.CreateResponse; infer.UpdateResponse has the output alone.
pub record CreateResponse (S : Type 0) : Type 0 where
  pub id : Str
  pub output : S

-- infer.ReadResponse. A read that finds nothing answers with an empty response, whose empty ID says
-- that the resource is gone: `none` below.
pub record ReadResponse (I S : Type 0) : Type 0 where
  pub id : Str
  pub inputs : I
  pub state : S

-- The per-resource overrides of host, username and password.
pub record Access : Type 0 where
  pub host : Option Str
  pub username : Option Str
  pub password : Option Str

module _ (g : Goeapi) where
  open g use {World}

  -- Behind Stage: commit, or abort where staging failed.
  unfoldable pub commit_or_abort :
      Result (Unit {0}) → Session g → Shared g → Result (Unit {0}) × Shared g
  unfolding Eapi.commit Eapi.abort
  commit_or_abort (err e) x s = let (a, x', s') = Eapi.abort g x s in (err (after_abort e a), s')
  commit_or_abort (ok _) x s = let (r, x', s') = Eapi.commit g x s in (r, s')

  -- Stage and commit in an open session.
  unfoldable pub finish : List Str → Session g → Shared g → Result (Unit {0}) × Shared g
  unfolding Eapi.stage commit_or_abort
  finish cmds x s = let (r, x', s') = Eapi.stage g cmds x s in commit_or_abort r x' s'

  abbrev pub went_on :
      List Str → Option (Result (Session g) × Shared g) → Option (Result (Unit {0}) × Shared g)
  went_on cmds none = none
  went_on cmds (some (err e, s)) = some (err e, s)
  went_on cmds (some (ok x, s)) = some (finish cmds x s)

  -- `none` where OpenSession waits for another goroutine.
  unfoldable pub run_session :
      Client g → Str → List Str → Shared g → Option (Result (Unit {0}) × Shared g)
  unfolding Eapi.open_session finish
  run_session c name cmds s = went_on cmds (Eapi.open_session g c name s)

  -- One operation: the world afterwards, or `none` if it never returns.
  abbrev pub Op : Type 0 → Type 0
  Op A = World → Option (Result A × World)

  abbrev pub world_of {ℓ} : {A : Type ℓ} → Option (Result A × Shared g) → Option (Result A × World)
  world_of none = none
  world_of (some (r, s)) = some (r, s.world)

  abbrev pub fresh : World → Shared g
  fresh w = record { world = w; slot = false }

  abbrev pub map_result {ℓ κ} :
      {A : Type ℓ} {B : Type κ}
      → (Result A → Result B)
      → Option (Result A × World)
      → Option (Result B × World)
  map_result f none = none
  map_result f (some (r, w)) = some (f r, w)

  -- Delete: apply, and wrap the error.
  unfoldable pub delete_with : Str → List Operand → Op (Unit {0}) → Op (Unit {0})
  delete_with f args apply w = map_result (wrap_err f args) (apply w)

  -- Create and Update: validate, stop at a dry run, apply, answer.
  unfoldable pub submit_with :
      {R : Type 0} → Result (Unit {0}) → Bool → R → Str → List Operand → Op (Unit {0}) → Op R
  submit_with valid dry_run response f args apply w = elim valid [
    | err e ↦ some (err e, w)
    | ok _ ↦ elim dry_run [
      | true ↦ some (ok response, w)
      | false ↦ map_result (λ r. wrap_err f args r >>= λ _. ok response) (apply w)
    ]
  ]

  module _ (std : Std) (cfg : Config) where
    -- `newClient(ctx, args.Host, args.Username, args.Password)`
    unfoldable pub new_client : Access → World → Result (Client g) × World
    unfolding eapi_client
    new_client a w = eapi_client std g (some cfg) a.host a.username a.password w

    abbrev pub on_client :
        Str → List Str → Result (Client g) × World → Option (Result (Unit {0}) × World)
    on_client name cmds (err e, w) = some (err e, w)
    on_client name cmds (ok c, w) = world_of (run_session c name cmds (fresh w))

    -- The session's name is the configured prefix and the resource's own part.
    unfoldable pub apply_with : Access → Str → List Str → Op (Unit {0})
    unfolding new_client run_session session_prefix
    apply_with a tag cmds w = on_client (session_prefix cfg ++ tag) cmds (new_client a w)
