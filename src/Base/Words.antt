-- ===== src/Base/Words.antt =====
-- 64-bit words as the patterns of their bits: a `size_t`, or an `int64_t` in two's complement.
use Prim.Native.Nat.{ℕ, ◌+◌, ◌-◌, ◌%◌, ◌^◌, ◌≤◌, ◌<◌}
use mathlib.Core.Path.{◌≡◌}
use mathlib.Core.Bool.{Bool}
use native.Mathlib.Omega.{arith}
use libms.Base.Tests.{ltb, leb}

-- A sum and a difference.
abbrev pub add64 : ℕ → ℕ → ℕ
add64 a b = (a + b) % 2 ^ 64

abbrev pub sub64 : ℕ → ℕ → ℕ
sub64 a b = (a + 2 ^ 64 - b) % 2 ^ 64

-- `a <= b` on the `int64_t` values of two patterns.
abbrev pub leb_int64 : ℕ → ℕ → Bool
leb_int64 a b = leb ((a + 2 ^ 63) % 2 ^ 64) ((b + 2 ^ 63) % 2 ^ 64)

-- `a >= 0` on the `int64_t` value.
abbrev pub is_nonneg : ℕ → Bool
is_nonneg a = ltb a (2 ^ 63)

-- `(int64_t) -1`
abbrev pub minus_one : ℕ
minus_one = 18446744073709551615

pub sub64-exact : (a b : ℕ) → b ≤ a → a < 2 ^ 64 → sub64 a b ≡ a - b
sub64-exact a b h k = omega arith

pub add64-exact : (a b : ℕ) → a + b < 2 ^ 64 → add64 a b ≡ a + b
add64-exact a b h = omega arith

pub leb_int64-exact : (a b : ℕ) → a < 2 ^ 63 → b < 2 ^ 63 → leb_int64 a b ≡ leb a b
leb_int64-exact a b h k = ground arith
