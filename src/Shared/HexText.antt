-- ===== src/Shared/HexText.antt =====
-- A signed number as hexadecimal text: `i64_to_str_fast` of mizl_core/src/shared/fast_util.rs. A
-- string is its UTF-8 bytes.
pub mod Laws
use mizl_h_public.Base.{
  ℕ, zero, suc, ◌+◌, ◌-◌, ◌/◌, ◌%◌, Bool, List, [], ◌∷◌, length, get_or, ltb, ◌==◌, if◌then◌else◌,
  is_negative64, abs64, Outcome, ok, panic,
}

abbrev pub hex_chars : List ℕ
hex_chars = 48 ∷ 49 ∷ 50 ∷ 51 ∷ 52 ∷ 53 ∷ 54 ∷ 55 ∷ 56 ∷ 57 ∷ 97 ∷ 98 ∷ 99 ∷ 100 ∷ 101 ∷ 102 ∷ []

-- The loop: the part of the buffer that was written, for the digits of `num`. A 64 bit number has
-- at most 16 of them, so that many rounds are enough.
unfoldable pub write_digits : ℕ → ℕ → List ℕ → List ℕ
write_digits zero num written = written
write_digits (suc rounds) num written =
    let more = write_digits rounds (num / 16) (get_or hex_chars (num % 16) 0 ∷ written) in
    if num == 0 then written else more

-- What is in front of the digits. The buffer has 18 bytes: where the digits leave less than the
-- three of `-0x`, the index of the sign is out of range.
abbrev pub with_prefix : ℕ → List ℕ → Outcome (List ℕ)
with_prefix value written =
    if value == 0
    then ok (48 ∷ 120 ∷ 48 ∷ [])
    else if is_negative64 value
    then if ltb (18 - length written) 3 then panic else ok (45 ∷ 48 ∷ 120 ∷ written)
    else ok (48 ∷ 120 ∷ written)

unfoldable pub i64_to_str_fast : ℕ → Outcome (List ℕ)
unfolding write_digits
i64_to_str_fast value = with_prefix value (write_digits 16 (abs64 value) [])
