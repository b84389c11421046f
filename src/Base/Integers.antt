-- ===== src/Base/Integers.antt =====
-- Numbers with a sign.
use Prim.Native.Nat.{ℕ}

pub data ℤ : Type 0 where
  pos negsuc : ℕ → ℤ
