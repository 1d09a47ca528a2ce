-- ===== src/Device/RawCli.antt =====
-- internal/resources/device/raw_cli.go: commands that are committed only if they change something.
pub mod Answered
pub mod Laws
pub mod Quiet
use pulumi_eos.Base.{
  Bool, true, false, not, ◌&&◌, ◌||◌, List, [], ◌∷◌, ◌++◌, Option, none, some, if◌then◌else◌,
}
use pulumi_eos.Text.{Str, codes, str_eq, cut_prefix, split, join, trim_space}
use pulumi_eos.Errors.{
  GoError, sentinel, wrapped, text, Operand, Result, ok, err, ◌>>=◌, ◌>>◌, refuse_if, wrap_err,
}
use pulumi_eos.Goeapi.{Goeapi}
use pulumi_eos.Std.{Std}
use pulumi_eos.Eapi
use pulumi_eos.Eapi.{Client, Shared, Session}
use pulumi_eos.Config.{Config, session_prefix}
use pulumi_eos.Resource.{
  Access, CreateResponse, ReadResponse, Op, after_abort, fresh, world_of, new_client,
}
use pulumi_eos.Device.Configlet.{canonical_configlet_lines, sanitize_for_session, digested}

abbrev pub err_raw_cli_name_required : GoError
err_raw_cli_name_required = sentinel (codes "rawCli name is required")

abbrev pub err_raw_cli_content_required : GoError
err_raw_cli_content_required =
    sentinel (codes "rawCli body is required (at least one non-blank line)")

pub record RawCliArgs : Type 0 where
  pub name : Str
  pub description : Option Str
  pub body : Str
  pub delete_body : Option Str
  pub access : Access

pub record RawCliState : Type 0 where
  pub args : RawCliArgs
  pub body_sha256 : Str
  pub last_diff_sha256 : Str
  pub last_diff_empty : Bool

abbrev pub was_cut : Option Str → Bool
was_cut none = false
was_cut (some _) = true

-- `strings.HasPrefix`
abbrev pub has_prefix : Str → Str → Bool
has_prefix s p = was_cut (cut_prefix s p)

-- A trimmed line of a diff that tells of no change: blank, or a file header.
abbrev pub is_quiet : Str → Bool
is_quiet line = str_eq line [] || has_prefix line (codes "---") || has_prefix line (codes "+++")

unfoldable pub quiet_lines : List Str → Bool
unfolding trim_space str_eq cut_prefix
quiet_lines [] = true
quiet_lines (raw ∷ rest) = is_quiet (trim_space raw) && quiet_lines rest

unfoldable pub is_empty_diff : Str → Bool
unfolding quiet_lines split
is_empty_diff diff = quiet_lines (split diff b'\n')

unfoldable pub raw_cli_id : Str → Str
raw_cli_id name = codes "rawCli/" ++ name

module _ (std : Std) where
  unfoldable pub prepare_raw_cli : RawCliArgs → Result (List Str × Str)
  unfolding trim_space str_eq canonical_configlet_lines join
  prepare_raw_cli a = do
    refuse_if (str_eq (trim_space a.name) []) err_raw_cli_name_required
    digested std err_raw_cli_content_required (canonical_configlet_lines a.body)

  -- Read asks no device, and keeps the digest of the last diff.
  unfoldable pub read : RawCliArgs → RawCliState → Result (ReadResponse RawCliArgs RawCliState)
  unfolding prepare_raw_cli raw_cli_id
  read a s = do
    (cmds, digest) ← prepare_raw_cli a
    ok (record {
      id = raw_cli_id a.name;
      inputs = a;
      state = record s { args = a; body_sha256 = digest };
    })

  module _ (g : Goeapi) where
    open g use {World}

    -- What `applyRawCli` answers: the digest of the diff, and whether the diff was empty.
    abbrev pub Applied : Type 0
    Applied = Str × Bool

    abbrev pub aborted : Str → Result (Unit {0}) → Result Applied
    aborted diff (ok _) = ok ([], true)
    aborted diff (err e) = err e

    abbrev pub committed : Str → Result (Unit {0}) → Result Applied
    committed diff (ok _) = ok (std.sha256_hex diff, false)
    committed diff (err e) = err e

    -- Behind a successful diff: abort where it is empty, and else commit.
    unfoldable pub decide : Bool → Str → Session g → Shared g → Result Applied × Shared g
    unfolding Eapi.abort Eapi.commit
    decide true diff x s = let (a, x', s') = Eapi.abort g x s in (aborted diff a, s')
    decide false diff x s = let (r, x', s') = Eapi.commit g x s in (committed diff r, s')

    abbrev pub give_up : GoError → Session g → Shared g → Result Applied × Shared g
    give_up e x s = let (a, x', s') = Eapi.abort g x s in (err (after_abort e a), s')

    unfoldable pub after_diff : Result Str → Session g → Shared g → Result Applied × Shared g
    unfolding Eapi.abort is_empty_diff decide
    after_diff (err e) x s = give_up e x s
    after_diff (ok diff) x s = decide (is_empty_diff diff) diff x s

    unfoldable pub after_stage :
        Result (Unit {0}) → Session g → Shared g → Result Applied × Shared g
    unfolding Eapi.abort Eapi.diff after_diff
    after_stage (err e) x s = give_up e x s
    after_stage (ok _) x s = let (d, x', s') = Eapi.diff g x s in after_diff d x' s'

    unfoldable pub compare_and_decide : List Str → Session g → Shared g → Result Applied × Shared g
    unfolding Eapi.stage after_stage
    compare_and_decide cmds x s = let (r, x', s') = Eapi.stage g cmds x s in after_stage r x' s'

    abbrev pub went_on :
        List Str → Option (Result (Session g) × Shared g) → Option (Result Applied × Shared g)
    went_on cmds none = none
    went_on cmds (some (err e, s)) = some (err e, s)
    went_on cmds (some (ok x, s)) = some (compare_and_decide cmds x s)

    unfoldable pub run_raw_cli :
        Client g → Str → List Str → Shared g → Option (Result Applied × Shared g)
    unfolding Eapi.open_session compare_and_decide
    run_raw_cli c name cmds s = went_on cmds (Eapi.open_session g c name s)

    module _ (cfg : Config) where
      unfoldable pub apply_raw_cli : RawCliArgs → List Str → Str → Op g Applied
      unfolding new_client run_raw_cli session_prefix sanitize_for_session
      apply_raw_cli a cmds op w =
          let (r, w') = new_client g std cfg a.access w in
          elim r [
            | err e ↦ some (err e, w')
            | ok c ↦ world_of g (
                run_raw_cli c
                  (session_prefix cfg
                    ++ (codes "rawcli-" ++ (op ++ (codes "-" ++ sanitize_for_session a.name))))
                  cmds (fresh g w'))
          ]

      abbrev answered :
          {R : Type 0}
          → Str
          → RawCliArgs
          → (Applied → R)
          → Option (Result Applied × World)
          → Option (Result R × World)
      answered f a answer none = none
      answered f a answer (some (ok r, w)) = some (ok (answer r), w)
      answered f a answer (some (err e, w)) = some (err (wrapped f (text a.name ∷ []) e), w)

      abbrev new_state : RawCliArgs → Str → Applied → RawCliState
      new_state a digest (sha, empty) = record {
        args = a;
        body_sha256 = digest;
        last_diff_sha256 = sha;
        last_diff_empty = empty;
      }

      abbrev submit :
          {R : Type 0}
          → Result (List Str × Str)
          → RawCliArgs
          → Bool
          → (RawCliState → R)
          → Str
          → Str
          → Op g R
      submit (err e) a dry_run answer f op w = some (err e, w)
      submit (ok (cmds, digest)) a true answer f op w =
          some (ok (answer (new_state a digest ([], false))), w)
      submit (ok (cmds, digest)) a false answer f op w =
          answered f a (λ r. answer (new_state a digest r)) (apply_raw_cli a cmds op w)

      unfoldable pub create : RawCliArgs → Bool → Op g (CreateResponse RawCliState)
      unfolding prepare_raw_cli raw_cli_id apply_raw_cli
      create a dry_run =
          submit (prepare_raw_cli a) a dry_run (λ s. record { id = raw_cli_id a.name; output = s })
            (codes "create rawCli %s: %w") (codes "create")

      unfoldable pub update : RawCliArgs → Bool → Op g RawCliState
      unfolding prepare_raw_cli apply_raw_cli
      update a dry_run =
          submit (prepare_raw_cli a) a dry_run (λ s. s) (codes "update rawCli %s: %w")
            (codes "update")

      abbrev delete_lines : RawCliState → List Str → Op g (Unit {0})
      delete_lines s [] w = some (ok tt, w)
      delete_lines s (c ∷ cmds) w =
          answered (codes "delete rawCli %s: %w") s.args (λ _. tt)
            (apply_raw_cli s.args (c ∷ cmds) (codes "delete") w)

      abbrev delete_body_of : RawCliState → Option Str → Op g (Unit {0})
      delete_body_of s none w = some (ok tt, w)
      delete_body_of s (some body) w = delete_lines s (canonical_configlet_lines body) w

      unfoldable pub delete : RawCliState → Op g (Unit {0})
      unfolding canonical_configlet_lines apply_raw_cli
      delete s = delete_body_of s s.args.delete_body
