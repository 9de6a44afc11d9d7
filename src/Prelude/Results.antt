-- ===== src/Prelude/Results.antt =====
-- The result of a piece of kernel code. State is passed explicitly, inside the value of `ok`.
use mathlib.Core.Option.{Option, none, some}
use mathlib.Core.Bool.{Bool, true, false}

-- `panic` is a call of panic(); `fault` an access outside an array, which C leaves undefined;
-- `out_of_fuel` is the model's own, for a loop that was given too few rounds.
pub data Outcome {ℓ} (A : Type ℓ) : Type ℓ where
  ok : A → Outcome A
  panic : Outcome A
  fault : Outcome A
  out_of_fuel : Outcome A

infixl 5 ◌>>=◌
abbrev pub ◌>>=◌ {ℓ ℓ'} : {X : Type ℓ} {Y : Type ℓ'} → Outcome X → (X → Outcome Y) → Outcome Y
panic >>= next = panic
fault >>= next = fault
out_of_fuel >>= next = out_of_fuel
ok x >>= next = next x

-- An array access: `none` stands for one out of bounds.
abbrev pub in_bounds {ℓ} : {A : Type ℓ} → Option A → Outcome A
in_bounds none = fault
in_bounds (some a) = ok a

-- acquire() of a spinlock by the processor that runs the code: it panics if this processor holds
-- the lock. release() panics if it does not.
abbrev pub acquire : Bool → Outcome Bool
acquire true = panic
acquire false = ok true

abbrev pub release : Bool → Outcome Bool
release true = ok false
release false = panic
