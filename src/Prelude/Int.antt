-- ===== src/Prelude/Int.antt =====
-- Signed numbers, for the `long` and `time_t` fields that the servers store and pass on.
use Prim.Native.Nat.{ℕ}

-- `negsuc n` is -(n + 1).
pub data ℤ : Type 0 where
  pos : ℕ → ℤ
  negsuc : ℕ → ℤ
