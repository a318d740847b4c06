-- ===== src/Base/Int.antt =====
-- The signed integers, of which `as i64` and the difference of two instants are one.
use Prim.Native.Nat.{ℕ}

pub data ℤ : Type 0 where
  pos negsuc : ℕ → ℤ
