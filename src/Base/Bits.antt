-- ===== src/Base/Bits.antt =====
-- Bounds of the operations on binary digits.
use Prim.Native.Nat.{digits, bit_and-bitwise, min}
use Prim.Native.Nat.{ℕ, zero, suc, ◌/◌, ◌≤◌, bit_and}
use mathlib.Core.Path.{sym, subst}
use native.Mathlib.Omega.{arith}

digits-min-le : (n a b : ℕ) → digits (λ b. zero) min n a b ≤ b
digits-min-le zero a b = omega arith
digits-min-le (suc n) zero b = omega arith
digits-min-le (suc n) (suc a) b = omega (arith, digits-min-le n (suc a / 2) (b / 2))

-- The digits of both numbers are a number that is no larger than the second.
pub bit_and-le : (a b : ℕ) → bit_and a b ≤ b
bit_and-le a b = subst (λ (x : ℕ). x ≤ b) (sym (bit_and-bitwise a b)) (digits-min-le a a b)
