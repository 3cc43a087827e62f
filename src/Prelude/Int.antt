-- ===== src/Prelude/Int.antt =====
-- Signed integers over the native numbers, and the bounds of a signed 64-bit integer
-- (`_INT_MIN`, `_INT_MAX` of wire.py, engine.py, cel.py and yaml12.py).
use Prim.Native.Nat.{ℕ, ◌^◌}
use mathlib.Core.Bool.{Bool}
use determa_state_python.Prelude.Tests.{ltb}

-- `negsuc n` is -(n + 1).
pub data ℤ : Type 0 where
  pos : ℕ → ℤ
  negsuc : ℕ → ℤ

abbrev pub int_limit : ℕ
int_limit = 2 ^ 63

-- `_INT_MIN <= value <= _INT_MAX`
abbrev pub in_int_range : ℤ → Bool
in_int_range (pos n) = ltb n int_limit
in_int_range (negsuc n) = ltb n int_limit
