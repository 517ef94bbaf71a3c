-- ===== src/Prelude/Ints.antt =====
-- Signed integers over the native numbers.
use Prim.Native.Nat.{ℕ}

-- `negsuc n` is `-(n + 1)`.
pub data ℤ : Type 0 where
  pos negsuc : ℕ → ℤ
