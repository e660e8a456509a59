-- ===== src/Base/Int.antt =====
-- Signed numbers over the native ones, and the bit patterns of `int8_t`.
use Prim.Native.Nat.{ℕ, suc, ◌+◌, ◌-◌, ◌%◌, ◌≤◌, ◌<◌}
use mathlib.Core.Path.{◌≡◌}
use mathlib.Core.Bool.{Bool}
use native.Mathlib.Omega.{arith}
use ubiquitous_chainsaw.Base.Tests.{ltb, if◌then◌else◌}

-- `negsuc n` is -(n + 1).
pub data ℤ : Type 0 where
  pos : ℕ → ℤ
  negsuc : ℕ → ℤ

abbrev pub pos_part : ℤ → ℕ
pos_part (pos n) = n
pos_part (negsuc n) = 0

abbrev pub neg_part : ℤ → ℕ
neg_part (pos n) = 0
neg_part (negsuc n) = suc n

infix 50 ◌≤ℤ◌ ◌<ℤ◌
abbrev pub ◌≤ℤ◌ : ℤ → ℤ → Type 0
a ≤ℤ b = pos_part a + neg_part b ≤ pos_part b + neg_part a

abbrev pub ◌<ℤ◌ : ℤ → ℤ → Type 0
a <ℤ b = pos_part a + neg_part b < pos_part b + neg_part a

abbrev pub ltb_ℤ : ℤ → ℤ → Bool
ltb_ℤ a b = ltb (pos_part a + neg_part b) (pos_part b + neg_part a)

-- The values of `int8_t`.
abbrev pub IsInt8 : ℤ → Type 0
IsInt8 (pos n) = n < 128
IsInt8 (negsuc n) = n < 128

-- `static_cast<uint8_t>` of an `int8_t`, and back.
abbrev pub u8_of_int8 : ℤ → ℕ
u8_of_int8 (pos n) = n % 256
u8_of_int8 (negsuc n) = 255 - n

abbrev pub int8_of_u8 : ℕ → ℤ
int8_of_u8 b = if ltb b 128 then pos b else negsuc (255 - b)

pub int8_of_u8-u8_of_int8 : (v : ℤ) → IsInt8 v → int8_of_u8 (u8_of_int8 v) ≡ v
int8_of_u8-u8_of_int8 (pos n) h = ground arith
int8_of_u8-u8_of_int8 (negsuc n) h = ground arith

pub u8_of_int8-lt : (v : ℤ) → u8_of_int8 v < 256
u8_of_int8-lt (pos n) = omega arith
u8_of_int8-lt (negsuc n) = omega arith
