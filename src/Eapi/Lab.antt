-- ===== src/Eapi/Lab.antt =====
-- A small switch that keeps the promises of Eapi/Device, to run the provider's code on. A list of
-- faults says which calls fail.
use pulumi_eos.Base.{
  ℕ, Bool, true, false, List, [], ◌∷◌, ◌++◌, Option, none, some, ◌≡◌, refl, ap, ◌∙◌, arith,
  if◌then◌else◌, append-nil, length, length-append, Bool-cases, inl, inr,
}
use pulumi_eos.Text.{Str, codes, str_eq, cut_prefix}
use pulumi_eos.Text.Laws.{str_eq_iff, str_eq_refl}
use pulumi_eos.Errors.{GoError, sentinel, Result, ok, err}
use pulumi_eos.Json.{Fields, empty}
use pulumi_eos.Goeapi.{Goeapi}
use pulumi_eos.Eapi.{open_batch, stage_batch, commit_batch, abort_batch, diff_batch}
use pulumi_eos.Eapi.Device.{SessionDevice, succeeds}

pub record LabWorld : Type 0 where
  pub running : List Str
  pub sessions : Str → List Str
  pub faults : List Bool

abbrev pub lab_error : GoError
lab_error = sentinel (codes "lab: fault")

abbrev grown : ℕ → Option Str → Option Str
grown c none = none
grown c (some r) = some (c ∷ r)

unfoldable pub cut_suffix : Str → Str → Option Str
unfolding str_eq
cut_suffix [] p = if str_eq [] p then some [] else none
cut_suffix (c ∷ s) p =
    let rest = cut_suffix s p in if str_eq (c ∷ s) p then some [] else grown c rest

abbrev pub put : (Str → List Str) → Str → List Str → Str → List Str
put f n cmds m = if str_eq n m then cmds else f m

unfoldable pub front : List Str → List Str
front [] = []
front (x ∷ []) = []
front (x ∷ y ∷ rest) = x ∷ front (y ∷ rest)

-- `configure session NAME commit`, and else nothing.
abbrev pub commit_line : Option Str → LabWorld → LabWorld
commit_line none w = w
commit_line (some rest) w = elim (cut_suffix rest (codes " commit")) [
  | none ↦ w
  | some n ↦ record w { running = w.running ++ w.sessions n; sessions = put w.sessions n [] }
]

abbrev pub single : Str → LabWorld → LabWorld
single line w = elim (cut_prefix line (codes "no configure session ")) [
  | some n ↦ record w { sessions = put w.sessions n [] }
  | none ↦ commit_line (cut_prefix line (codes "configure session ")) w
]

abbrev pub several : Option Str → List Str → LabWorld → LabWorld
several none body w = w
several (some n) body w = record w { sessions = put w.sessions n (w.sessions n ++ front body) }

unfoldable pub run_batch : List Str → LabWorld → LabWorld
unfolding cut_prefix cut_suffix front str_eq
run_batch [] w = w
run_batch (line ∷ []) w = single line w
run_batch (line ∷ x ∷ rest) w = several (cut_prefix line (codes "configure session ")) (x ∷ rest) w

unfoldable pub lab_step : List Bool → LabWorld → List Str → Result (List Fields) × LabWorld
unfolding run_batch
lab_step [] w cmds = (ok (empty ∷ []), run_batch cmds w)
lab_step (true ∷ rest) w cmds = (err lab_error, record w { faults = rest })
lab_step (false ∷ rest) w cmds = (ok (empty ∷ []), run_batch cmds (record w { faults = rest }))

abbrev pub lab : Goeapi
lab = record {
  World = LabWorld;
  Handle = Unit {0};
  connect = λ w transport host user pass port. (ok tt, w);
  run_commands = λ w h cmds format. lab_step w.faults w cmds;
  http_post = λ w request. (err lab_error, w);
  ctx_err = λ w. none;
  picks_done = λ w. false;
}

str_eq-longer : (c : ℕ) (n p : Str) → str_eq (c ∷ (n ++ p)) p ≡ false
str_eq-longer c n p = elim (Bool-cases (str_eq (c ∷ (n ++ p)) p)) [
  | inl e ↦ absurd (omega (arith, ap length ((str_eq_iff (c ∷ (n ++ p)) p).0 e), length-append n p))
  | inr e ↦ e
]

cut_suffix-append : (n p : Str) → cut_suffix (n ++ p) p ≡ some n
unfolding cut_suffix
cut_suffix-append [] [] = refl
cut_suffix-append [] (c ∷ p) = ground (arith, str_eq_refl p)
cut_suffix-append (c ∷ n) p = rw (str_eq-longer c n p, cut_suffix-append n p)

front-append : (cmds : List Str) (e : Str) → front (cmds ++ e ∷ []) ≡ cmds
unfolding front
front-append [] e = refl
front-append (c ∷ []) e = refl
front-append (c ∷ d ∷ cmds) e = ap (λ l. c ∷ l) (front-append (d ∷ cmds) e)

-- A part of the switch that the faults do not touch.
abbrev Part : (LabWorld → List Str) → Type 0
Part P = (w : LabWorld) (rest : List Bool) → P (record w { faults = rest }) ≡ P w

keeps-lab_step :
    (P : LabWorld → List Str) (cmds : List Str)
    → ((w : LabWorld) → P (run_batch cmds w) ≡ P w)
    → Part P
    → (f : List Bool) (w : LabWorld) → P (lab_step f w cmds).1 ≡ P w
unfolding lab_step
keeps-lab_step P cmds batch part [] w = batch w
keeps-lab_step P cmds batch part (true ∷ rest) w = part w rest
keeps-lab_step P cmds batch part (false ∷ rest) w = batch _ ∙ part w rest

succeeds-lab_step :
    (P F : LabWorld → List Str) (cmds : List Str)
    → ((w : LabWorld) → P (run_batch cmds w) ≡ F w)
    → Part F
    → (f : List Bool) (w : LabWorld) → succeeds (lab_step f w cmds).0 ≡ true
    → P (lab_step f w cmds).1 ≡ F w
unfolding lab_step
succeeds-lab_step P F cmds batch part [] w good = batch w
succeeds-lab_step P F cmds batch part (true ∷ rest) w good = cc
succeeds-lab_step P F cmds batch part (false ∷ rest) w good = batch _ ∙ part w rest

fails-lab_step :
    (f : List Bool) (w : LabWorld) (cmds : List Str)
    → succeeds (lab_step f w cmds).0 ≡ false
    → (lab_step f w cmds).1.running ≡ w.running
unfolding lab_step
fails-lab_step [] w cmds h = cc
fails-lab_step (true ∷ rest) w cmds h = refl
fails-lab_step (false ∷ rest) w cmds h = cc

module _ (n : Str) where
  -- What each batch does to the running configuration and to the session `n`.
  stage-running :
      (cmds : List Str) (w : LabWorld) → (run_batch (stage_batch lab n cmds) w).running ≡ w.running
  unfolding run_batch
  stage-running [] w = refl
  stage-running (c ∷ cmds) w = refl

  put_self : (f : Str → List Str) (cmds : List Str) → put f n cmds n ≡ cmds
  put_self f cmds = rw (str_eq_refl n)

  stage-pending :
      (cmds : List Str) (w : LabWorld)
      → (run_batch (stage_batch lab n cmds) w).sessions n ≡ w.sessions n ++ cmds
  unfolding run_batch
  stage-pending [] w = put_self w.sessions (w.sessions n ++ [])
  stage-pending (c ∷ cmds) w =
      put_self w.sessions (w.sessions n ++ front (c ∷ (cmds ++ codes "end" ∷ [])))
      ∙ ap (λ l. w.sessions n ++ l) (front-append (c ∷ cmds) (codes "end"))

  open-pending : (w : LabWorld) → (run_batch (open_batch lab n) w).sessions n ≡ w.sessions n
  open-pending w = stage-pending [] w ∙ append-nil (w.sessions n)

  commit-running :
      (w : LabWorld) → (run_batch (commit_batch lab n) w).running ≡ w.running ++ w.sessions n
  unfolding run_batch
  commit-running w = ground (arith, cut_suffix-append n (codes " commit"))

pub lab_device : SessionDevice lab
unfolding run_batch
lab_device = record {
  Running = List Str;
  running = λ w. w.running;
  pending = λ w n. w.sessions n;
  replay = λ cmds r. r ++ cmds;
  connects = λ w transport host user pass port. refl;
  connects_pending = λ w transport host user pass port n. refl;
  opens = λ w h n word.
      keeps-lab_step (λ w. w.running) (open_batch lab n) (stage-running n []) (λ w rest. refl)
        w.faults w;
  opens_pending = λ w h n word good.
      keeps-lab_step (λ w. w.sessions n) (open_batch lab n) (open-pending n) (λ w rest. refl)
        w.faults w;
  stages = λ w h n cmds word stay.
      keeps-lab_step (λ w. w.running) (stage_batch lab n cmds) (stage-running n cmds)
        (λ w rest. refl) w.faults w;
  stages_pending = λ w h n cmds word stay good.
      succeeds-lab_step (λ w. w.sessions n) (λ w. w.sessions n ++ cmds) (stage_batch lab n cmds)
        (stage-pending n cmds) (λ w rest. refl) w.faults w good;
  commits = λ w h n word good.
      succeeds-lab_step (λ w. w.running) (λ w. w.running ++ w.sessions n) (commit_batch lab n)
        (commit-running n) (λ w rest. refl) w.faults w good;
  commit_fails = λ w h n word bad. fails-lab_step w.faults w (commit_batch lab n) bad;
  aborts = λ w h n word.
      keeps-lab_step (λ w. w.running) (abort_batch lab n) (λ w. refl) (λ w rest. refl) w.faults w;
  diffs = λ w h n word.
      keeps-lab_step (λ w. w.running) (diff_batch lab n) (λ w. refl) (λ w rest. refl) w.faults w;
  diffs_pending = λ w h n m word.
      keeps-lab_step (λ w. w.sessions m) (diff_batch lab n) (λ w. refl) (λ w rest. refl) w.faults w;
}
