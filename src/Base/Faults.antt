-- ===== src/Base/Faults.antt =====
-- What a C call comes to: a value, or the fault that ends the program (or leaves its behaviour
-- undefined). `ms.h` lets MS_ASSERT be `assert`.
use Prim.Native.Nat.{ℕ}
use mathlib.Core.Bool.{Bool, true, false}
use libms.Base.Tests.{leb, if◌then◌else◌}

-- `out_of_fuel` is the model's own: a loop that used up the rounds it was given.
pub data Fault : Type 0 where
  assert_failed out_of_bounds int_overflow null_pointer out_of_fuel : Fault

pub data Outcome {ℓ} (A : Type ℓ) : Type ℓ where
  ok : A → Outcome A
  fault : Fault → Outcome A

infixl 5 ◌>>=◌ ◌>>◌
abbrev pub ◌>>=◌ {ℓ κ} : {A : Type ℓ} {B : Type κ} → Outcome A → (A → Outcome B) → Outcome B
ok a >>= f = f a
fault e >>= f = fault e

abbrev pub ◌>>◌ {ℓ} : {B : Type ℓ} → Outcome (Unit {0}) → Outcome B → Outcome B
m >> k = m >>= λ _. k

-- MS_ASSERT
abbrev pub ms_assert : Bool → Outcome (Unit {0})
ms_assert true = ok tt
ms_assert false = fault Fault.assert_failed

-- An `int` product or sum of numbers that are not negative: undefined from 2 ^ 31 on.
abbrev pub int_max : ℕ
int_max = 2147483647

abbrev pub to_int : ℕ → Outcome ℕ
to_int n = if leb n int_max then ok n else fault Fault.int_overflow
