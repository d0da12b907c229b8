-- ===== src/Base/Outcomes.antt =====
-- The outcome of kernel code: a value, or a stop of the machine from which nothing returns.
use mathlib.Core.Option.{Option, none, some}

pub data Halt : Type 0 where
  -- `kernel_panic`, which ends in `exit(1)`
  panic : Halt
  -- `kernel_exit`, which ends in `exit(0)`
  exited : Halt
  -- a read or write through a null pointer
  null_pointer : Halt
  -- a division by zero, or one whose quotient is no `int`
  divide_error : Halt
  -- an access past the end of an array
  out_of_bounds : Halt
  -- the model's own: a loop had too little fuel
  out_of_fuel : Halt

pub data Outcome {ℓ} (A : Type ℓ) : Type ℓ where
  ok : A → Outcome A
  halt : Halt → Outcome A

infixl 5 ◌>>=◌
abbrev pub ◌>>=◌ {ℓ κ} : {A : Type ℓ} {B : Type κ} → Outcome A → (A → Outcome B) → Outcome B
ok a >>= f = f a
halt h >>= f = halt h

-- A pointer that is used without a test, and an option that the code answers with a panic.
abbrev pub deref {ℓ} : {A : Type ℓ} → Option A → Outcome A
deref none = halt null_pointer
deref (some a) = ok a

abbrev pub or_panic {ℓ} : {A : Type ℓ} → Option A → Outcome A
or_panic none = halt panic
or_panic (some a) = ok a
