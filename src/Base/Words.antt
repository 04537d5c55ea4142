-- ===== src/Base/Words.antt =====
-- Machine integers. An unsigned word is a native number below its modulus; a signed word is its
-- two's complement bit pattern, so a cast between the two of one width changes nothing.
use Prim.Native.Nat.{ℕ, ◌+◌, ◌-◌, ◌*◌, ◌/◌, ◌%◌, ◌^◌}
use mathlib.Core.Bool.{Bool}
use mizl_h_public.Base.Tests.{ltb, leb, if◌then◌else◌}

abbrev pub u8_mod : ℕ
u8_mod = 256

abbrev pub u32_mod : ℕ
u32_mod = 2 ^ 32

abbrev pub u64_mod : ℕ
u64_mod = 2 ^ 64

-- Wrapping `+`, `-` and `*` of `u64` and `usize`.
abbrev pub add64 : ℕ → ℕ → ℕ
add64 a b = (a + b) % u64_mod

abbrev pub sub64 : ℕ → ℕ → ℕ
sub64 a b = (a + u64_mod - b) % u64_mod

abbrev pub mul64 : ℕ → ℕ → ℕ
mul64 a b = (a * b) % u64_mod

-- Wrapping `+` and `-` of `i32` and `u32`.
abbrev pub add32 : ℕ → ℕ → ℕ
add32 a b = (a + b) % u32_mod

abbrev pub sub32 : ℕ → ℕ → ℕ
sub32 a b = (a + u32_mod - b) % u32_mod

-- `-1` as an `i32`.
abbrev pub minus_one32 : ℕ
minus_one32 = 0xffff_ffff

-- The pattern of an `i32` in the order of the numbers that the patterns stand for.
abbrev pub rank32 : ℕ → ℕ
rank32 a = (a + 2 ^ 31) % u32_mod

abbrev pub rank64 : ℕ → ℕ
rank64 a = (a + 2 ^ 63) % u64_mod

-- `a < b` and `a <= b` of `i32`, and `a < b` of `i64`.
abbrev pub lt_i32 : ℕ → ℕ → Bool
lt_i32 a b = ltb (rank32 a) (rank32 b)

abbrev pub le_i32 : ℕ → ℕ → Bool
le_i32 a b = leb (rank32 a) (rank32 b)

abbrev pub lt_i64 : ℕ → ℕ → Bool
lt_i64 a b = ltb (rank64 a) (rank64 b)

-- `i32 as u64` and `i32 as usize`: the sign is extended.
abbrev pub i32_as_u64 : ℕ → ℕ
i32_as_u64 a = if ltb a (2 ^ 31) then a else a + (u64_mod - u32_mod)

-- `/` of `i32` by a positive number, which rounds towards zero.
abbrev pub div_i32 : ℕ → ℕ → ℕ
div_i32 a d = if ltb a (2 ^ 31) then a / d else (u32_mod - (u32_mod - a) / d) % u32_mod

-- A cast from `w` bits to more, with the sign extended: `v as i64` of an `i32` and the like.
abbrev pub sign_extend : ℕ → ℕ → ℕ → ℕ
sign_extend from to a = if ltb a (2 ^ (from - 1)) then a else a + (2 ^ to - 2 ^ from)

-- `<<` and `>>` of `u32` and `u64`: a release build takes the amount modulo the width.
abbrev pub shl32 : ℕ → ℕ → ℕ
shl32 a k = (a * 2 ^ (k % 32)) % u32_mod

abbrev pub shr32 : ℕ → ℕ → ℕ
shr32 a k = a / 2 ^ (k % 32)

abbrev pub shl64 : ℕ → ℕ → ℕ
shl64 a k = (a * 2 ^ (k % 64)) % u64_mod

abbrev pub shr64 : ℕ → ℕ → ℕ
shr64 a k = a / 2 ^ (k % 64)

-- `!a` of `u32` and `u64`.
abbrev pub not32 : ℕ → ℕ
not32 a = u32_mod - 1 - a

abbrev pub not64 : ℕ → ℕ
not64 a = u64_mod - 1 - a

-- `((1u64 << k) - 1) as u32`
abbrev pub low_mask32 : ℕ → ℕ
low_mask32 k = sub64 (shl64 1 k) 1 % u32_mod

-- `*` of `i32`.
abbrev pub mul32 : ℕ → ℕ → ℕ
mul32 a b = (a * b) % u32_mod

-- The rounds of `while n > 0 { ..; n -= 1 }` for an `i32`.
abbrev pub rounds_i32 : ℕ → ℕ
rounds_i32 n = if ltb n (2 ^ 31) then n else 0

-- `-a` of `i64`.
abbrev pub neg64 : ℕ → ℕ
neg64 a = sub64 0 a

abbrev pub is_negative64 : ℕ → Bool
is_negative64 a = leb (2 ^ 63) a

-- The distance of an `i64` from 0: `unsigned_abs`.
abbrev pub abs64 : ℕ → ℕ
abs64 a = if is_negative64 a then neg64 a else a

-- `>>` of `i64`, which rounds down and keeps the sign.
abbrev pub sar64 : ℕ → ℕ → ℕ
sar64 a k =
    if is_negative64 a then u64_mod - 1 - (u64_mod - 1 - a) / 2 ^ (k % 64) else a / 2 ^ (k % 64)
