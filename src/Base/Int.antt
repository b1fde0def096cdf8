-- ===== src/Base/Int.antt =====
-- Signed integers over the native numbers, and the words of 32 bits that carry them.
use Prim.Native.Nat.{ℕ, suc, ◌+◌, ◌-◌, ◌*◌, ◌%◌, ◌^◌, ◌≤◌, ◌<◌}
use mathlib.Core.Path.{◌≡◌}
use mathlib.Core.Bool.{Bool, ◌&&◌}
use mathlib.Core.Option.{Option, none, some}
use native.Mathlib.Omega.{arith}
use atria.Base.Tests.{ltb, leb, ◌==◌, if◌then◌else◌}

-- `negsuc n` is -(n + 1).
pub data ℤ : Type 0 where
  pos : ℕ → ℤ
  negsuc : ℕ → ℤ

abbrev pub pos_part : ℤ → ℕ
pos_part (pos n) = n
pos_part (negsuc n) = 0

abbrev pub neg_part : ℤ → ℕ
neg_part (pos n) = 0
neg_part (negsuc n) = suc n

-- a - b, as an integer.
abbrev pub sub_ℕ : ℕ → ℕ → ℤ
sub_ℕ a b = if leb b a then pos (a - b) else negsuc (b - a - 1)

infixl 65 ◌+ℤ◌ ◌-ℤ◌
infixl 70 ◌*ℤ◌
infix 50 ◌≤ℤ◌ ◌<ℤ◌
unfoldable pub ◌+ℤ◌ : ℤ → ℤ → ℤ
a +ℤ b = sub_ℕ (pos_part a + pos_part b) (neg_part a + neg_part b)

unfoldable pub ◌-ℤ◌ : ℤ → ℤ → ℤ
a -ℤ b = sub_ℕ (pos_part a + neg_part b) (neg_part a + pos_part b)

unfoldable pub ◌*ℤ◌ : ℤ → ℤ → ℤ
a *ℤ b =
    sub_ℕ (pos_part a * pos_part b + neg_part a * neg_part b)
      (pos_part a * neg_part b + neg_part a * pos_part b)

abbrev pub ◌≤ℤ◌ : ℤ → ℤ → Type 0
a ≤ℤ b = pos_part a + neg_part b ≤ pos_part b + neg_part a

abbrev pub ◌<ℤ◌ : ℤ → ℤ → Type 0
a <ℤ b = pos_part a + neg_part b < pos_part b + neg_part a

abbrev pub ltb_ℤ : ℤ → ℤ → Bool
ltb_ℤ a b = ltb (pos_part a + neg_part b) (pos_part b + neg_part a)

abbrev pub leb_ℤ : ℤ → ℤ → Bool
leb_ℤ a b = leb (pos_part a + neg_part b) (pos_part b + neg_part a)

abbrev pub eqb_ℤ : ℤ → ℤ → Bool
eqb_ℤ a b = pos_part a + neg_part b == pos_part b + neg_part a

pub +ℤ_parts :
    (a b : ℤ)
    → pos_part (a +ℤ b) + neg_part a + neg_part b ≡ neg_part (a +ℤ b) + pos_part a + pos_part b
unfolding ◌+ℤ◌
+ℤ_parts a b = ground arith

pub -ℤ_parts :
    (a b : ℤ)
    → pos_part (a -ℤ b) + neg_part a + pos_part b ≡ neg_part (a -ℤ b) + pos_part a + neg_part b
unfolding ◌-ℤ◌
-ℤ_parts a b = ground arith

pub ruleset int_laws = (arith, +ℤ_parts, -ℤ_parts)

-- The values of an `i32`.
abbrev pub i32_min : ℤ
i32_min = negsuc 2147483647

abbrev pub i32_max : ℤ
i32_max = pos 2147483647

abbrev pub fits_i32 : ℤ → Bool
fits_i32 a = leb_ℤ i32_min a && leb_ℤ a i32_max

abbrev pub IsI32 : ℤ → Type 0
IsI32 a = (i32_min ≤ℤ a) × (a ≤ℤ i32_max)

-- Two's complement in 64 bits: the bits of an integer, and the `i64` that has them.
abbrev pub i64_bits : ℤ → ℕ
i64_bits (pos n) = n % 2 ^ 64
i64_bits (negsuc n) = 2 ^ 64 - 1 - n % 2 ^ 64

unfoldable pub i64_wrap : ℤ → ℤ
i64_wrap a =
    if ltb (i64_bits a) (2 ^ 63) then pos (i64_bits a) else negsuc (2 ^ 64 - 1 - i64_bits a)

-- The bit pattern of an `i32`, and the number that a pattern stands for.
abbrev pub u32_of_i32 : ℤ → ℕ
u32_of_i32 (pos n) = n
u32_of_i32 (negsuc n) = 4294967295 - n

abbrev pub i32_of_u32 : ℕ → ℤ
i32_of_u32 w = if ltb w 2147483648 then pos w else negsuc (4294967295 - w)

-- `i32::checked_add`.
abbrev pub i32_checked_add : ℤ → ℤ → Option ℤ
i32_checked_add a b = if fits_i32 (a +ℤ b) then some (a +ℤ b) else none

-- A value beyond the range of `i32` becomes the bound that it passed.
abbrev pub i32_saturate : ℤ → ℤ
i32_saturate a = if ltb_ℤ a i32_min then i32_min else (if ltb_ℤ i32_max a then i32_max else a)

-- `i32::saturating_add_unsigned` and `i32::saturating_sub`.
abbrev pub i32_saturating_add_unsigned : ℤ → ℕ → ℤ
i32_saturating_add_unsigned a n = i32_saturate (a +ℤ pos n)

abbrev pub i32_saturating_sub : ℤ → ℤ → ℤ
i32_saturating_sub a b = i32_saturate (a -ℤ b)

pub i32_of_u32-u32_of_i32 : (a : ℤ) → IsI32 a → i32_of_u32 (u32_of_i32 a) ≡ a
i32_of_u32-u32_of_i32 (pos n) h = ground arith
i32_of_u32-u32_of_i32 (negsuc n) h = ground arith

pub u32_of_i32-lt : (a : ℤ) → IsI32 a → u32_of_i32 a < 4294967296
u32_of_i32-lt (pos n) h = omega arith
u32_of_i32-lt (negsuc n) h = omega arith
