-- ===== src/Prelude/Int.antt =====
-- Signed integers, as far as the program reads and writes them.
use Prim.Native.Nat.{ℕ}

-- `negsuc n` is -(n + 1).
pub data ℤ : Type 0 where
  pos : ℕ → ℤ
  negsuc : ℕ → ℤ
