-- ===== src/Errors.antt =====
-- Go errors as values (errors.New, fmt.Errorf with %w, errors.Join, errors.Is), and results.
-- A sentinel is known by its message: the messages of the repository's errors.New calls are all
-- different. A wrapped error keeps its format string and the operands behind it, unrendered.
pub mod Laws
use pulumi_eos.Base.{Bool, true, false, ◌||◌, List, Option, none, some, ℤ}
use pulumi_eos.Text.{Str, str_eq}

pub data Operand : Type 0 where
  text : Str → Operand
  number : ℤ → Operand
  texts : List Str → Operand

pub data GoError : Type 0 where
  sentinel : Str → GoError
  -- `fmt.Errorf` with a `%w` among its verbs
  wrapped : Str → List Operand → GoError → GoError
  -- `fmt.Errorf` with none
  formatted : Str → List Operand → GoError
  joined : GoError → GoError → GoError

-- `errors.Is`, at the sentinel with the message `m`.
unfoldable pub errors_is : GoError → Str → Bool
unfolding str_eq
errors_is (sentinel m') m = str_eq m' m
errors_is (wrapped f args e) m = errors_is e m
errors_is (formatted f args) m = false
errors_is (joined a b) m = errors_is a m || errors_is b m

-- A function that returns `(A, error)`: the value counts only where the error is nil.
pub data Result {ℓ} (A : Type ℓ) : Type ℓ where
  ok : A → Result A
  err : GoError → Result A

-- `if err != nil { return …, err }`, and the rest of the function.
module _ {ℓ κ} {A : Type ℓ} {B : Type κ} where
  infixl 5 ◌>>=◌
  abbrev pub ◌>>=◌ : Result A → (A → Result B) → Result B
  ◌>>=◌ (err e) rest = err e
  ◌>>=◌ (ok a) rest = rest a

-- The same for a call that returns an error alone.
module _ {ℓ} {B : Type ℓ} where
  infixl 5 ◌>>◌
  abbrev pub ◌>>◌ : Result (Unit {0}) → Result B → Result B
  check >> rest = check >>= λ _. rest

-- `if fails { return err }`.
abbrev pub refuse_if : Bool → GoError → Result (Unit {0})
refuse_if b e = elim b [ true ↦ err e | false ↦ ok tt ]

-- `return fmt.Errorf(format, args, err)` where the error is not nil.
abbrev pub wrap_err {ℓ} : {A : Type ℓ} → Str → List Operand → Result A → Result A
wrap_err f args (ok a) = ok a
wrap_err f args (err e) = err (wrapped f args e)
