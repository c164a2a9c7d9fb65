-- ===== src/Prelude/Ints.antt =====
-- The integers, for the arguments of which the source tests the sign.
use Prim.Native.Nat.{ℕ}

pub data ℤ : Type 0 where
  pos negsuc : ℕ → ℤ
