-- ===== src/Device/RawCli/Answered.antt =====
-- Where the text of a diff comes from: an answer of the switch.
use pulumi_eos.Base.{
  false, List, [], ◌∷◌, Option, none, some, ◌≡◌, ◌⊎◌, refl, sym, ap, ◌∙◌, inl, inr, Bool-cases,
  Option-cases, arith,
}
use mathlib.Core.Path.{subst}
use pulumi_eos.Text.{Str, codes, str_eq}
use pulumi_eos.Errors.{Operand, texts, Result, ok, err, wrap_err}
use pulumi_eos.Json
use pulumi_eos.Json.{Fields, as_string}
use pulumi_eos.Goeapi.{Goeapi}
use pulumi_eos.Eapi.{
  Client, Shared, Session, diff, diff_text, diff_batch, text_format, output, run_cmds, run_node,
  run_on,
}

-- The text under `output` in the first row of an answer, and no text where there is none.
abbrev pub IsOutput : List Fields → Str → Type 0
IsOutput [] text = text ≡ []
IsOutput (row ∷ _) text =
    (as_string (Json.get row (codes "output")) ≡ some text)
    ⊎ ((as_string (Json.get row (codes "output")) ≡ none) × (text ≡ []))

ok_value : {A : Type 0} {x y : A} → ok x ≡ ok y → x ≡ y
ok_value e = cc

wrap_err-ok :
    {A : Type 0} (f : Str) (args : List Operand) (r : Result A) (a : A)
    → wrap_err f args r ≡ ok a
    → r ≡ ok a
wrap_err-ok f args (ok b) a h = h
wrap_err-ok f args (err e) a h = cc

module _ (g : Goeapi) where
  output-IsOutput : (rows : List Fields) → IsOutput rows (output g rows)
  output-IsOutput [] = refl
  output-IsOutput (row ∷ rest) = elim (Option-cases (as_string (Json.get row (codes "output")))) [
    | inl e ↦ inr (e, ap (λ o. elim o [ some v ↦ v | none ↦ [] ]) e)
    | inr (v, e) ↦ inl (e ∙ ap some (sym (ap (λ o. elim o [ some v ↦ v | none ↦ [] ]) e)))
  ]

  diff_text-ok :
      (n : Str) (r : Result (List Fields)) (text : Str)
      → diff_text g n r ≡ ok text
      → (rows : List Fields) × ((r ≡ ok rows) × IsOutput rows text)
  diff_text-ok n (ok rows) text h =
      (rows, (refl, subst (IsOutput rows) (ok_value h) (output-IsOutput rows)))
  diff_text-ok n (err e) text h = cc

  module _ (cmds : List Str) (format : Str) (known : str_eq format [] ≡ false) (w : g.World) where
    -- The switch answers with these rows.
    abbrev Answers : List Fields → Type 0
    Answers rows = (h : g.Handle) × ((g.run_commands w h cmds format).0 ≡ ok rows)

    run_on-ok :
        (h : g.Handle) (rows : List Fields)
        → (run_on g h cmds format w).0 ≡ ok rows
        → (g.run_commands w h cmds format).0 ≡ ok rows
    unfolding run_on
    run_on-ok h rows k = ground (
      arith,
      wrap_err-ok (codes "eapi: runCmds %v: %w") (texts cmds ∷ [])
          (g.run_commands w h cmds format).0 rows,
    )

    run_node-ok :
        (n : Option g.Handle) (rows : List Fields)
        → (run_node g n cmds format w).0 ≡ ok rows
        → Answers rows
    run_node-ok none rows k = cc
    run_node-ok (some h) rows k = (h, run_on-ok h rows k)

    run_cmds-ok :
        (c : Client g) (rows : List Fields)
        → (run_cmds g (some c) cmds format w).0 ≡ ok rows
        → Answers rows
    unfolding run_cmds
    run_cmds-ok c rows k = run_node-ok c.node rows k

  known : str_eq (codes "text") [] ≡ false
  unfolding str_eq
  known = refl

  -- The diff of a session is what the switch answers to the question for it.
  pub diff-answered :
      (x : Session g) (s : Shared g) (text : Str)
      → (diff g x s).0 ≡ ok text
      → (h : g.Handle) × ((rows : List Fields) × (((g.run_commands s.world h
                (diff_batch g x.name)
                (text_format g)).0
              ≡ ok rows)
            × IsOutput rows text))
  unfolding diff
  diff-answered x s text = elim (Bool-cases x.is_open) [
    | inl e ↦ rw e λ k.
        let (rows, (sent, shown)) = diff_text-ok x.name _ text k in
        let (h, answer) =
          run_cmds-ok (diff_batch g x.name) (text_format g) known s.world x.parent rows sent in
        (h, (rows, (answer, shown)))
    | inr e ↦ rw e (λ k. cc)
  ]
