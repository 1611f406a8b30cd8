-- ===== src/Prelude/Int.antt =====
-- Signed integers, and the two's complement pattern of a w-bit one.
use Prim.Native.Nat.{ℕ, ◌-◌, ◌*◌, ◌<◌}
use mathlib.Core.Path.{◌≡◌}
use native.Mathlib.Omega.{arith}
use exarrow_rs.Prelude.Tests.{ltb, if◌then◌else◌}

-- `negsuc n` is -(n + 1).
pub data ℤ : Type 0 where
  pos : ℕ → ℤ
  negsuc : ℕ → ℤ

-- The bit pattern of a value in a word with `2 * half` patterns.
abbrev pub to_bits : ℕ → ℤ → ℕ
to_bits half (pos n) = n
to_bits half (negsuc n) = 2 * half - 1 - n

abbrev pub from_bits : ℕ → ℕ → ℤ
from_bits half u = if ltb u half then pos u else negsuc (2 * half - 1 - u)

-- The word's range is -half up to half - 1.
abbrev pub Fits : ℕ → ℤ → Type 0
Fits half (pos n) = n < half
Fits half (negsuc n) = n < half

pub from_bits-to_bits : (half : ℕ) (z : ℤ) → Fits half z → from_bits half (to_bits half z) ≡ z
from_bits-to_bits half (pos n) h = ground arith
from_bits-to_bits half (negsuc n) h = ground arith

pub to_bits-lt : (half : ℕ) (z : ℤ) → Fits half z → to_bits half z < 2 * half
to_bits-lt half (pos n) h = omega arith
to_bits-lt half (negsuc n) h = omega arith
