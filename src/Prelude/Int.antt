-- ===== src/Prelude/Int.antt =====
-- Signed integers over the native numbers, under the library's names, and the integers that the bit
-- patterns of machine words stand for.
use Prim.Native.Nat.{ℕ, suc, ◌+◌, ◌-◌, ◌%◌, ◌≤◌, ◌<◌}
use mathlib.Core.Path.{◌≡◌}
use mathlib.Core.Bool.{Bool}
use native.Mathlib.Omega.{arith}
use lateral_root.Prelude.Tests.{ltb, leb, if◌then◌else◌}

-- `negsuc n` is -(n + 1).
pub data ℤ : Type 0 where
  pos : ℕ → ℤ
  negsuc : ℕ → ℤ

abbrev pub pos_part : ℤ → ℕ
pos_part (pos n) = n
pos_part (negsuc n) = 0

abbrev pub neg_part : ℤ → ℕ
neg_part (pos n) = 0
neg_part (negsuc n) = suc n

-- a - b, as an integer.
abbrev pub sub_ℕ : ℕ → ℕ → ℤ
sub_ℕ a b = if leb b a then pos (a - b) else negsuc (b - a - 1)

infixl 65 ◌+ℤ◌ ◌-ℤ◌
infix 50 ◌≤ℤ◌
abbrev pub ◌+ℤ◌ : ℤ → ℤ → ℤ
a +ℤ b = sub_ℕ (pos_part a + pos_part b) (neg_part a + neg_part b)

abbrev pub ◌-ℤ◌ : ℤ → ℤ → ℤ
a -ℤ b = sub_ℕ (pos_part a + neg_part b) (neg_part a + pos_part b)

abbrev pub neg_ℤ : ℤ → ℤ
neg_ℤ a = sub_ℕ (neg_part a) (pos_part a)

abbrev pub ◌≤ℤ◌ : ℤ → ℤ → Type 0
a ≤ℤ b = pos_part a + neg_part b ≤ pos_part b + neg_part a

abbrev pub ltb_ℤ : ℤ → ℤ → Bool
ltb_ℤ a b = ltb (pos_part a + neg_part b) (pos_part b + neg_part a)

-- The 16 bits of an integer: what a conversion to `uint16_t` gives.
abbrev pub bits_16 : ℤ → ℕ
bits_16 (pos n) = n % 65536
bits_16 (negsuc n) = 65535 - n % 65536

-- The integer that 16 bits stand for in an `int16_t`.
abbrev pub int16_of : ℕ → ℤ
int16_of n = if ltb (n % 65536) 32768 then pos (n % 65536) else negsuc (65535 - n % 65536)

-- What an `int16_t` keeps of an integer.
abbrev pub wrap_int16 : ℤ → ℤ
wrap_int16 a = int16_of (bits_16 a)

-- The same for an `int8_t`.
abbrev pub bits_8 : ℤ → ℕ
bits_8 (pos n) = n % 256
bits_8 (negsuc n) = 255 - n % 256

abbrev pub int8_of : ℕ → ℤ
int8_of n = if ltb (n % 256) 128 then pos (n % 256) else negsuc (255 - n % 256)

abbrev pub wrap_int8 : ℤ → ℤ
wrap_int8 a = int8_of (bits_8 a)

abbrev pub IsInt16 : ℤ → Type 0
IsInt16 (pos n) = n < 32768
IsInt16 (negsuc n) = n < 32768

pub wrap_int16_lem : (a : ℤ) → IsInt16 a → wrap_int16 a ≡ a
wrap_int16_lem (pos n) h = ground arith
wrap_int16_lem (negsuc n) h = ground arith
