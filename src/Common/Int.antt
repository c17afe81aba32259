-- ===== src/Common/Int.antt =====
-- Signed integers over the native numbers: the `int` room ids, where -1 is "no room".
use Prim.Native.Nat.{ℕ}

-- `negsuc n` is -(n + 1).
pub data ℤ : Type 0 where
  pos : ℕ → ℤ
  negsuc : ℕ → ℤ
