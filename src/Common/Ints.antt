-- ===== src/Common/Ints.antt =====
-- Integers over the native numbers, and the conversion of a C int to an unsigned type.
use Prim.Native.Nat.{ℕ, ◌-◌, ◌%◌, ◌^◌}
use antenna_guardian_pi_lite.Common.Tests.{ltb}
use mathlib.Core.Bool.{Bool, true, false}

pub data ℤ : Type 0 where
  pos negsuc : ℕ → ℤ

-- z < n and n < z, for a literal n.
abbrev pub int_below : ℤ → ℕ → Bool
int_below (pos m) n = ltb m n
int_below (negsuc m) n = true

abbrev pub int_above : ℤ → ℕ → Bool
int_above (pos m) n = ltb n m
int_above (negsuc m) n = false

-- The conversion to an unsigned type of w bits.
abbrev pub to_unsigned : ℕ → ℤ → ℕ
to_unsigned w (pos m) = m % 2 ^ w
to_unsigned w (negsuc m) = 2 ^ w - 1 - m % 2 ^ w
