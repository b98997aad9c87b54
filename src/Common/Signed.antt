-- ===== src/Common/Signed.antt =====
-- Signed integers: `off_t`, `int` and `long` values that the programs test for a negative sign.
use Prim.Native.Nat.{ℕ}

-- `negsuc n` is -(n + 1).
pub data ℤ : Type 0 where
  pos : ℕ → ℤ
  negsuc : ℕ → ℤ
