-- ===== src/Device/Configlet.antt =====
-- internal/resources/device/configlet.go.
pub mod Laws
use pulumi_eos.Base.{
  ℕ, Bool, true, false, not, ◌||◌, ◌==◌, List, [], ◌∷◌, ◌++◌, map, Option, none, some,
  if◌then◌else◌,
}
use pulumi_eos.Text.{Str, codes, str_eq, split, join, trim_space}
use pulumi_eos.Errors.{GoError, sentinel, wrapped, text, Result, ok, err, ◌>>=◌, ◌>>◌, refuse_if}
use pulumi_eos.Goeapi.{Goeapi}
use pulumi_eos.Std.{Std}
use pulumi_eos.Config.{Config}
use pulumi_eos.Resource.{Access, CreateResponse, ReadResponse, Op, apply_with, submit_with}

abbrev pub err_configlet_name_required : GoError
err_configlet_name_required = sentinel (codes "configlet name is required")

abbrev pub err_configlet_content_required : GoError
err_configlet_content_required =
    sentinel (codes "configlet content is required (at least one non-blank line)")

pub record ConfigletArgs : Type 0 where
  pub name : Str
  pub description : Option Str
  pub body : Str
  pub access : Access

pub record ConfigletState : Type 0 where
  pub args : ConfigletArgs
  pub body_sha256 : Str

abbrev pub is_trimmed : ℕ → Bool
is_trimmed c = c == b' ' || c == b'\t' || c == b'\r'

-- `strings.TrimRight(raw, " \t\r")`
unfoldable pub trim_line : Str → Str
trim_line [] = []
trim_line (c ∷ s) = elim (trim_line s) [
  | [] ↦ if is_trimmed c then [] else c ∷ []
  | d ∷ r ↦ c ∷ d ∷ r
]

abbrev pub keep_line : Str → List Str → List Str
keep_line line rest = if str_eq (trim_space line) [] then rest else line ∷ rest

unfoldable pub canonical_lines : List Str → List Str
unfolding trim_line trim_space str_eq
canonical_lines [] = []
canonical_lines (raw ∷ rest) = keep_line (trim_line raw) (canonical_lines rest)

unfoldable pub canonical_configlet_lines : Str → List Str
unfolding split canonical_lines
canonical_configlet_lines body = canonical_lines (split body b'\n')

unfoldable pub configlet_id : Str → Str
configlet_id name = codes "configlet/" ++ name

-- strings.NewReplacer of single runes.
abbrev replaced : ℕ → ℕ
replaced c = if c == b'/' || c == b' ' || c == b':' || c == b'.' then b'-' else c

unfoldable pub sanitize_for_session : Str → Str
sanitize_for_session = map replaced

-- The commands and the digest of a body with at least one line.
abbrev pub digested : Std → GoError → List Str → Result (List Str × Str)
digested std e [] = err e
digested std e (c ∷ cmds) = ok (c ∷ cmds, std.sha256_hex (join (c ∷ cmds) (codes "\n")))

module _ (std : Std) where
  unfoldable pub prepare_configlet : ConfigletArgs → Result (List Str × Str)
  unfolding trim_space str_eq canonical_configlet_lines join
  prepare_configlet a = do
    refuse_if (str_eq (trim_space a.name) []) err_configlet_name_required
    digested std err_configlet_content_required (canonical_configlet_lines a.body)

  -- Read asks no device.
  unfoldable pub read : ConfigletArgs → Result (ReadResponse ConfigletArgs ConfigletState)
  unfolding prepare_configlet configlet_id
  read a = do
    (cmds, digest) ← prepare_configlet a
    ok (record {
      id = configlet_id a.name;
      inputs = a;
      state = record { args = a; body_sha256 = digest };
    })

  module _ (g : Goeapi) (cfg : Config) where
    unfoldable pub apply_configlet : ConfigletArgs → List Str → Op g (Unit {0})
    unfolding apply_with sanitize_for_session
    apply_configlet a cmds =
        apply_with g std cfg a.access (codes "configlet-" ++ sanitize_for_session a.name) cmds

    -- The preparation is the validation; its commands and digest go on.
    abbrev submit :
        {R : Type 0} → Result (List Str × Str) → ConfigletArgs → Bool → (Str → R) → Str → Op g R
    submit (err e) a dry_run answer f w = some (err e, w)
    submit (ok (cmds, digest)) a dry_run answer f w =
        submit_with g (ok tt) dry_run (answer digest) f (text a.name ∷ []) (apply_configlet a cmds)
          w

    unfoldable pub create : ConfigletArgs → Bool → Op g (CreateResponse ConfigletState)
    unfolding prepare_configlet configlet_id submit_with apply_configlet
    create a dry_run =
        submit (prepare_configlet a) a dry_run
          (λ digest. record {
            id = configlet_id a.name;
            output = record { args = a; body_sha256 = digest };
          })
          (codes "create configlet %s: %w")

    unfoldable pub update : ConfigletArgs → Bool → Op g ConfigletState
    unfolding prepare_configlet submit_with apply_configlet
    update a dry_run =
        submit (prepare_configlet a) a dry_run (λ digest. record { args = a; body_sha256 = digest })
          (codes "update configlet %s: %w")

    -- Nothing happens on the device.
    unfoldable pub delete : ConfigletState → Op g (Unit {0})
    delete s w = some (ok tt, w)
