-- ===== src/Errors/Laws.antt =====
-- A chain of checks succeeds exactly when each of them does.
use pulumi_eos.Base.{Bool, true, false, ◌≡◌, ◌↔◌, refl}
use pulumi_eos.Errors.{GoError, Operand, Result, ok, err, ◌>>◌, refuse_if, wrap_err}
use pulumi_eos.Text.{Str}
use pulumi_eos.Base.{List}

abbrev pub Passes : Result (Unit {0}) → Type 0
Passes r = r ≡ ok tt

pub then_iff : (m k : Result (Unit {0})) → Passes (m >> k) ↔ (Passes m × Passes k)
then_iff (ok _) k = (λ h. (refl, h), λ h. h.1)
then_iff (err e) k = (λ h. cc, λ h. cc)

pub refuse_if_iff : (b : Bool) (e : GoError) → Passes (refuse_if b e) ↔ (b ≡ false)
refuse_if_iff true e = (λ h. cc, λ h. cc)
refuse_if_iff false e = (λ h. refl, λ h. refl)

pub wrap_err_iff :
    (f : Str) (args : List Operand) (r : Result (Unit {0})) → Passes (wrap_err f args r) ↔ Passes r
wrap_err_iff f args (ok _) = (λ h. h, λ h. h)
wrap_err_iff f args (err e) = (λ h. cc, λ h. cc)

-- Two checks, each with the condition that it stands for.
pub both_iff :
    {P Q : Type 0} (m k : Result (Unit {0}))
    → Passes m ↔ P
    → Passes k ↔ Q
    → Passes (m >> k) ↔ (P × Q)
both_iff m k p q = (
  λ h. let (hm, hk) = (then_iff m k).0 h in (p.0 hm, q.0 hk),
  λ h. (then_iff m k).1 (p.1 h.0, q.1 h.1),
)

pub refuse_iff :
    {P : Type 0} (b : Bool) (e : GoError) → (b ≡ false) ↔ P → Passes (refuse_if b e) ↔ P
refuse_iff b e p = (λ h. p.0 ((refuse_if_iff b e).0 h), λ h. (refuse_if_iff b e).1 (p.1 h))
