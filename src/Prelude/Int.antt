-- ===== src/Prelude/Int.antt =====
-- Go's `int`, of which the program tests the sign and compares small values: the library's ℤ over the
-- native numbers.
use Prim.Native.Nat.{ℕ, suc, ◌+◌, ◌-◌}
use mathlib.Core.Bool.{Bool, true, false}
use pulsesyn.Prelude.Tests.{ltb, leb, if◌then◌else◌}

-- `negsuc n` is -(n + 1).
pub data ℤ : Type 0 where
  pos : ℕ → ℤ
  negsuc : ℕ → ℤ

-- The number if it is positive, and 0 otherwise.
abbrev pub to_nat : ℤ → ℕ
to_nat (pos n) = n
to_nat (negsuc n) = 0

-- `a <= n` and `a < n`, for n that is not negative
abbrev pub le_nat : ℤ → ℕ → Bool
le_nat (pos m) n = leb m n
le_nat (negsuc m) n = true

abbrev pub lt_nat : ℤ → ℕ → Bool
lt_nat (pos m) n = ltb m n
lt_nat (negsuc m) n = true

-- `a < b` and `a + b`
abbrev pub int_lt : ℤ → ℤ → Bool
int_lt (pos m) (pos n) = ltb m n
int_lt (pos m) (negsuc n) = false
int_lt (negsuc m) (pos n) = true
int_lt (negsuc m) (negsuc n) = ltb n m

-- a - b
abbrev pub nat_diff : ℕ → ℕ → ℤ
nat_diff a b = if leb b a then pos (a - b) else negsuc (b - suc a)

infixl 65 ◌+ℤ◌
abbrev pub ◌+ℤ◌ : ℤ → ℤ → ℤ
pos m +ℤ pos n = pos (m + n)
pos m +ℤ negsuc n = nat_diff m (suc n)
negsuc m +ℤ pos n = nat_diff n (suc m)
negsuc m +ℤ negsuc n = negsuc (suc (m + n))
