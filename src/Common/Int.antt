-- ===== src/Common/Int.antt =====
-- Differences of amounts, which may be negative: integers over the native numbers.
use Prim.Native.Nat.{ℕ, ◌+◌, ◌-◌}
use mathlib.Core.Path.{◌≡◌}
use native.Mathlib.Omega.{arith}
use noryx_platform.Common.Tests.{leb, if◌then◌else◌}

-- `negsuc n` is -(n + 1).
pub data ℤ : Type 0 where
  pos : ℕ → ℤ
  negsuc : ℕ → ℤ

-- a - b, as an integer.
abbrev pub sub_ℕ : ℕ → ℕ → ℤ
sub_ℕ a b = if leb b a then pos (a - b) else negsuc (b - a - 1)

infixl 6 ◌+ℤ◌
abbrev pub ◌+ℤ◌ : ℤ → ℤ → ℤ
pos m +ℤ pos n = pos (m + n)
pos m +ℤ negsuc n = sub_ℕ m (n + 1)
negsuc m +ℤ pos n = sub_ℕ n (m + 1)
negsuc m +ℤ negsuc n = negsuc (m + n + 1)

-- Differences add up.
pub sub_ℕ-add : (a b x y : ℕ) → sub_ℕ (a + x) (b + y) ≡ sub_ℕ a b +ℤ sub_ℕ x y
sub_ℕ-add a b x y = ground arith
