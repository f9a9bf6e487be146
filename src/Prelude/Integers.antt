-- ===== src/Prelude/Integers.antt =====
-- Signed integers over the native numbers, with their Boolean order.
use Prim.Native.Nat.{ℕ}
use mathlib.Core.Bool.{Bool, true, false}
use trackone.Prelude.Tests.{ltb, ◌==◌}

-- `negsuc n` is `-(n + 1)`.
pub data ℤ : Type 0 where
  pos negsuc : ℕ → ℤ

abbrev pub ltbℤ : ℤ → ℤ → Bool
ltbℤ (pos m) (pos n) = ltb m n
ltbℤ (pos m) (negsuc n) = false
ltbℤ (negsuc m) (pos n) = true
ltbℤ (negsuc m) (negsuc n) = ltb n m

abbrev pub ==ℤ : ℤ → ℤ → Bool
==ℤ (pos m) (pos n) = m == n
==ℤ (pos m) (negsuc n) = false
==ℤ (negsuc m) (pos n) = false
==ℤ (negsuc m) (negsuc n) = m == n
