-- ===== src/Prelude/Ints.antt =====
-- C's `int` over native numbers, for handles and indices that may be negative.
use Prim.Native.Nat.{ℕ}

pub data ℤ : Type 0 where
  pos : (n : ℕ) → ℤ
  negsuc : (n : ℕ) → ℤ
