-- ===== src/Common/Int.antt =====
-- Python's integers, with the comparisons that the engine makes.
use Prim.Native.Nat.{ℕ, suc, ◌-◌, ◌*◌, ◌^◌}
use mathlib.Core.Bool.{Bool, true, false}
use justflow.Common.Tests.{ltb, ◌==◌}

-- `negsuc n` is -(n + 1).
pub data ℤ : Type 0 where
  pos : ℕ → ℤ
  negsuc : ℕ → ℤ

unfoldable pub eqb : ℤ → ℤ → Bool
eqb (pos a) (pos b) = a == b
eqb (negsuc a) (negsuc b) = a == b
eqb _ _ = false

-- a < b
unfoldable pub ltz : ℤ → ℤ → Bool
ltz (pos a) (pos b) = ltb a b
ltz (pos a) (negsuc b) = false
ltz (negsuc a) (pos b) = true
ltz (negsuc a) (negsuc b) = ltb b a

-- a * 2 ** k
unfoldable pub scale : ℤ → ℕ → ℤ
scale (pos a) k = pos (a * 2 ^ k)
scale (negsuc a) k = negsuc (suc a * 2 ^ k - 1)
