-- ===== src/Checked.antt =====
-- Machine integers: the checked, saturating and unchecked operations that the handlers use on
-- u64, u32 and i64. An unchecked `+` or `-` panics where it overflows.
use synapse_sap.Common.{ℕ, ◌+◌, ◌-◌, ◌*◌, ◌/◌, ◌%◌, ◌&&◌, leb, ◌==◌, if◌then◌else◌}
use synapse_sap.Common.Int.{ℤ, pos, negsuc, ◌+ℤ◌, ◌-ℤ◌, leb_ℤ, ltb_ℤ}
use synapse_sap.Errors.{SapError, arithmetic_overflow, Error, Result, ok, err, sap, panicked}

abbrev pub u64_max : ℕ
u64_max = 18446744073709551615

abbrev pub u32_max : ℕ
u32_max = 4294967295

-- A result that must fit, or the error of the caller's `ok_or`.
abbrev pub fits : ℕ → ℕ → Error → Result ℕ
fits bound n e = if leb n bound then ok n else err e

abbrev pub checked_add_u64 : ℕ → ℕ → Result ℕ
checked_add_u64 a b = fits u64_max (a + b) (sap arithmetic_overflow)

abbrev pub checked_sub_u64 : ℕ → ℕ → SapError → Result ℕ
checked_sub_u64 a b e = if leb b a then ok (a - b) else err (sap e)

abbrev pub checked_mul_u64 : ℕ → ℕ → Result ℕ
checked_mul_u64 a b = fits u64_max (a * b) (sap arithmetic_overflow)

abbrev pub checked_add_u32 : ℕ → ℕ → Result ℕ
checked_add_u32 a b = fits u32_max (a + b) (sap arithmetic_overflow)

abbrev pub u8_max : ℕ
u8_max = 255

abbrev pub checked_add_u8 : ℕ → ℕ → Result ℕ
checked_add_u8 a b = fits u8_max (a + b) (sap arithmetic_overflow)

abbrev pub u16_max : ℕ
u16_max = 65535

abbrev pub checked_add_u16 : ℕ → ℕ → Result ℕ
checked_add_u16 a b = fits u16_max (a + b) (sap arithmetic_overflow)

abbrev pub saturating_add_u64 : ℕ → ℕ → ℕ
saturating_add_u64 a b = if leb (a + b) u64_max then a + b else u64_max

abbrev pub saturating_mul_u64 : ℕ → ℕ → ℕ
saturating_mul_u64 a b = if leb (a * b) u64_max then a * b else u64_max

abbrev pub saturating_add_u32 : ℕ → ℕ → ℕ
saturating_add_u32 a b = if leb (a + b) u32_max then a + b else u32_max

-- `a.saturating_sub(b)` on an unsigned type is the subtraction of ℕ.
abbrev pub saturating_sub : ℕ → ℕ → ℕ
saturating_sub a b = a - b

abbrev pub add_u64 : ℕ → ℕ → Result ℕ
add_u64 a b = fits u64_max (a + b) panicked

abbrev pub sub_u64 : ℕ → ℕ → Result ℕ
sub_u64 a b = if leb b a then ok (a - b) else err panicked

-- `a / b` on u64; division by zero panics.
abbrev pub div_u64 : ℕ → ℕ → Result ℕ
div_u64 a b = if b == 0 then err panicked else ok (a / b)

-- `n as u32` keeps the low 32 bits.
abbrev pub as_u32 : ℕ → ℕ
as_u32 n = n % 4294967296

abbrev pub i64_max : ℤ
i64_max = pos 9223372036854775807

abbrev pub i64_min : ℤ
i64_min = negsuc 9223372036854775807

abbrev pub fits_i64 : ℤ → Error → Result ℤ
fits_i64 x e = if leb_ℤ i64_min x && leb_ℤ x i64_max then ok x else err e

unfoldable pub checked_add_i64 : ℤ → ℤ → Result ℤ
unfolding ◌+ℤ◌
checked_add_i64 a b = fits_i64 (a +ℤ b) (sap arithmetic_overflow)

unfoldable pub add_i64 : ℤ → ℤ → Result ℤ
unfolding ◌+ℤ◌
add_i64 a b = fits_i64 (a +ℤ b) panicked

unfoldable pub saturating_sub_i64 : ℤ → ℤ → ℤ
unfolding ◌-ℤ◌
saturating_sub_i64 a b =
    if ltb_ℤ i64_max (a -ℤ b) then i64_max else if ltb_ℤ (a -ℤ b) i64_min then i64_min else a -ℤ b

-- `n as u32` of an i64: the low 32 bits of its two's complement.
abbrev pub as_u32_of_i64 : ℤ → ℕ
as_u32_of_i64 (pos n) = as_u32 n
as_u32_of_i64 (negsuc n) = 4294967295 - n % 4294967296

-- An unchecked product of two i64 that are not negative.
abbrev pub mul_i64 : ℕ → ℕ → Result ℤ
mul_i64 a b = fits_i64 (pos (a * b)) panicked
