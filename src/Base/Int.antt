-- ===== src/Base/Int.antt =====
-- Python's signed integers over the native numbers, under the library's names.
use linuxrecomp.Base.Tests.{leb, if◌then◌else◌}
use Prim.Native.Nat.{ℕ, suc, ◌+◌, ◌-◌, ◌%◌, ◌<◌}
use native.Mathlib.Omega.{arith}

-- `negsuc n` is -(n + 1).
pub data ℤ : Type 0 where
  pos : ℕ → ℤ
  negsuc : ℕ → ℤ

abbrev pub pos_part : ℤ → ℕ
pos_part (pos n) = n
pos_part (negsuc n) = 0

abbrev pub neg_part : ℤ → ℕ
neg_part (pos n) = 0
neg_part (negsuc n) = suc n

-- a - b, as an integer.
abbrev pub sub_ℕ : ℕ → ℕ → ℤ
sub_ℕ a b = if leb b a then pos (a - b) else negsuc (b - a - 1)

infixl 65 ◌+ℤ◌
unfoldable pub ◌+ℤ◌ : ℤ → ℤ → ℤ
a +ℤ b = sub_ℕ (pos_part a + pos_part b) (neg_part a + neg_part b)

-- Python's `z & (m - 1)` for a power of two `m`, which is `z % m` with a result from 0 on.
unfoldable pub wrap : ℕ → ℤ → ℕ
wrap m (pos n) = n % m
wrap m (negsuc n) = m - 1 - n % m

-- `wrap` stays below a positive modulus.
pub wrap-lt : (m : ℕ) (z : ℤ) → 0 < m → wrap m z < m
unfolding wrap
wrap-lt m (pos n) h = omega arith
wrap-lt m (negsuc n) h = omega arith
