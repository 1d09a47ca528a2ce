-- ===== src/Resource/Kind.antt =====
-- The form that the resources of internal/resources share: what a type of resource adds is a value of
-- `Kind`, and Create, Read, Update and Delete are the same composition for each of them.
pub mod Laws
use pulumi_eos.Base.{Bool, true, false, List, [], ◌∷◌, ◌++◌, Option, none, some}
use pulumi_eos.Text.{Str, codes}
use pulumi_eos.Errors.{Operand, Result, ok, err}
use pulumi_eos.Json
use pulumi_eos.Json.{as_string}
use pulumi_eos.Exec.{Exec, pure, ◌>>=◌}
use pulumi_eos.Goeapi.{Goeapi}
use pulumi_eos.Std.{Std}
use pulumi_eos.Eapi
use pulumi_eos.Config.{Config}
use pulumi_eos.Resource.{
  Access, CreateResponse, ReadResponse, Op, apply_with, submit_with, delete_with, new_client,
}

-- What a resource with the arguments `A` adds to Create, Update and Delete.
pub record Kind (A : Type 0) : Type 0 where
  -- `validate…`
  pub validate : A → Result (Unit {0})
  -- `…ID`
  pub id : A → Str
  -- The session's name behind the configured prefix.
  pub tag : A → Str
  -- `build…Cmds`, where `true` removes
  pub commands : A → Bool → List Str
  -- What `apply…` checks before it asks for a client.
  pub prepare : A → Result (Unit {0})
  pub access : A → Access
  -- What the errors of Create, Update and Delete name, with their verb and its operands.
  pub label : Str
  pub operands : A → List Operand

-- The command of Read, and what it makes of the answer: a row, and of the row a state.
pub record Reader (A R : Type 0) : Type 0 where
  pub show : A → Str
  pub parse : A → Str → Option R
  -- What Read makes of an answer without rows.
  pub missing : Option R
  pub fill : R → A → A

-- `if len(resp) == 0 { return … }; out, _ := resp[0]["output"].(string)`
abbrev pub on_output {ℓ} : {R : Type ℓ} → Option R → (Str → Option R) → List Json.Fields → Option R
on_output missing parse [] = missing
on_output missing parse (row ∷ _) = elim (as_string (Json.get row (codes "output"))) [
  | some out ↦ parse out
  | none ↦ parse []
]

module _ {A : Type 0} (k : Kind A) where
  abbrev pub message : Str → Str
  message verb = verb ++ (codes " " ++ (k.label ++ codes ": %w"))

  module _ (g : Goeapi) (std : Std) (cfg : Config) where
    abbrev pub prepared : Result (Unit {0}) → Op g (Unit {0}) → Op g (Unit {0})
    prepared (err e) apply w = some (err e, w)
    prepared (ok _) apply w = apply w

    -- `apply…`
    unfoldable pub apply_kind : A → Bool → Op g (Unit {0})
    unfolding apply_with
    apply_kind a remove =
        prepared (k.prepare a) (apply_with g std cfg (k.access a) (k.tag a) (k.commands a remove))

    unfoldable pub create_kind : A → Bool → Op g (CreateResponse A)
    unfolding submit_with apply_kind
    create_kind a dry_run =
        submit_with g (k.validate a) dry_run (record { id = k.id a; output = a })
          (message (codes "create")) (k.operands a) (apply_kind a false)

    unfoldable pub update_kind : A → Bool → Op g A
    unfolding submit_with apply_kind
    update_kind a dry_run =
        submit_with g (k.validate a) dry_run a (message (codes "update")) (k.operands a)
          (apply_kind a false)

    unfoldable pub delete_kind : A → Op g (Unit {0})
    unfolding delete_with apply_kind
    delete_kind a = delete_with g (message (codes "delete")) (k.operands a) (apply_kind a true)

module _ {A R : Type 0} (k : Kind A) (r : Reader A R) where
  -- `resp.ID` is empty where nothing was found.
  abbrev pub refreshed : A → Option R → Option (ReadResponse A A)
  refreshed a none = none
  refreshed a (some row) = some (record { id = k.id a; inputs = a; state = r.fill row a })

  module _ (g : Goeapi) (std : Std) (cfg : Config) where
    -- `read…`
    unfoldable pub read_row : Option (Eapi.Client g) → A → Exec g.World (Option R)
    unfolding Eapi.run_cmds Json.get
    read_row c a = do
      resp ← Eapi.run_cmds g c (r.show a ∷ []) (codes "text")
      pure (on_output r.missing (r.parse a) resp)

    unfoldable pub read_kind : A → Exec g.World (Option (ReadResponse A A))
    unfolding new_client read_row
    read_kind a = do
      c ← new_client g std cfg (k.access a)
      row ← read_row (some c) a
      pure (refreshed a row)
