-- ===== src/Sleigh/Memory.antt =====
-- Bits of the instruction memory and of the context: mizl_core/src/sleigh/memory.rs. An `i32`
-- argument is its bit pattern; `|` of words with no bit in common is a sum.
pub mod Laws
pub mod Write
use Prim.Native.Nat.{bit_and, bit_or}
use mizl_h_public.Base.{
  ℕ, zero, suc, ◌+◌, ◌-◌, ◌*◌, ◌/◌, ◌%◌, Bool, true, false, not, ◌&&◌, List, [], ◌∷◌, Option, none,
  some, length, get_elem?, set, ltb, ◌==◌, if◌then◌else◌, add32, sub32, mul32, add64, i32_as_u64,
  div_i32, lt_i32, shl32, shr32, shl64, shr64, not32, low_mask32, rounds_i32, u32_mod, u64_mod,
  Outcome, ok, panic, ◌>>=◌,
}
use mizl_h_public.MemView.Codec.{big_endian}
use mizl_h_public.MemView.Trait.{MemReader, read_u32, read_u64}

-- The loop of a flip, for words below a modulus: `res <<= 8; res |= value & 0xff; value >>= 8`.
unfoldable pub flip_from : ℕ → ℕ → ℕ → ℕ → ℕ
flip_from modulus zero value res = res
flip_from modulus (suc byte_count) value res =
    flip_from modulus byte_count (value / 256) ((res * 256) % modulus + value % 256)

unfoldable pub flip_u32_byte_order : ℕ → ℕ → ℕ
unfolding flip_from
flip_u32_byte_order value byte_count = flip_from u32_mod (rounds_i32 byte_count) value 0

unfoldable pub flip_u64_byte_order : ℕ → ℕ → ℕ
unfolding flip_from
flip_u64_byte_order value byte_count = flip_from u64_mod (rounds_i32 byte_count) value 0

-- `(start_bit + bit_size - 1) / d + 1`
abbrev pub unit_count : ℕ → ℕ → ℕ → ℕ
unit_count start_bit bit_size d = add32 (div_i32 (sub32 (add32 start_bit bit_size) 1) d) 1

module _ (mem : MemReader) where
  unfoldable pub read_mem_u32_bits_at : ℕ → ℕ → ℕ → Bool → Outcome ℕ
  unfolding read_u32 flip_u32_byte_order
  read_mem_u32_bits_at off bit_off bit_size is_big_endian = do
    let start_bit = bit_off % 8
    let addr = add64 off (i32_as_u64 (div_i32 bit_off 8))
    let byte_count = unit_count start_bit bit_size 8
    (_, word) ← read_u32 mem addr big_endian
    let res = shr32 (shl32 word start_bit) (sub32 32 bit_size)
    ok (if not is_big_endian then flip_u32_byte_order res byte_count else res)

  -- The bytes that `bit_off` stands for are not added to the offset here.
  unfoldable pub read_mem_u64_bits_at : ℕ → ℕ → ℕ → Bool → Outcome ℕ
  unfolding read_u64 flip_u64_byte_order
  read_mem_u64_bits_at off bit_off bit_size is_big_endian = do
    let start_bit = bit_off % 8
    let byte_count = unit_count start_bit bit_size 8
    (_, word) ← read_u64 mem off big_endian
    let res = shr64 (shl64 word start_bit) (sub32 64 bit_size)
    ok (if not is_big_endian then flip_u64_byte_order res byte_count else res)

-- `ctx[i]`
abbrev pub context_word : Option ℕ → Outcome ℕ
context_word (some w) = ok w
context_word none = panic

-- The bits that lie in the second word, where there is one.
abbrev pub with_second : ℕ → ℕ → Option ℕ → ℕ
with_second res remaining none = res
with_second res remaining (some w) = bit_or res (shr32 w (sub32 32 remaining))

unfoldable pub read_ctx_u32_bits_at : List ℕ → ℕ → ℕ → Outcome ℕ
read_ctx_u32_bits_at ctx bit_off bit_size =
    let bit_offset = bit_off % 32 in
    let start_byte = i32_as_u64 (div_i32 bit_off 32) in
    let word_count = unit_count bit_offset bit_size 32 in
    let remaining = add32 (sub32 bit_size 32) bit_offset in
    let bits : Outcome ℕ = context_word (get_elem? ctx start_byte) >>= λ word.
    let res = shr32 (shl32 word bit_offset) (sub32 32 bit_size) in
    ok (
      if lt_i32 0 remaining
      then with_second res remaining (get_elem? ctx (add64 start_byte 1))
      else res) in
    if word_count == 0 then ok 0 else if lt_i32 2 word_count then panic else bits

abbrev pub set_word : List ℕ → ℕ → (ℕ → ℕ) → Option ℕ → Outcome (List ℕ)
set_word ctx i change none = panic
set_word ctx i change (some w) = ok (set ctx i (change w))

-- `(word & !mask) | (mask & value)`
abbrev pub masked : ℕ → ℕ → ℕ → ℕ
masked mask value word = bit_or (bit_and word (not32 mask)) (bit_and mask value)

unfoldable pub write_ctx_u32_bits_at : List ℕ → ℕ → ℕ → ℕ → Outcome (List ℕ)
write_ctx_u32_bits_at ctx bit_off bit_size value =
    let start_bit = bit_off % 32 in
    let start_byte = i32_as_u64 (div_i32 bit_off 32) in
    let mask = shl32 (low_mask32 bit_size) start_bit in
    let written = set_word ctx start_byte (masked mask value) (get_elem? ctx start_byte) in
    if lt_i32 32 (add32 start_bit bit_size) then panic else written

-- `bits_left.min(8 - start_bit)`
abbrev pub bits_in_byte : ℕ → ℕ → ℕ
bits_in_byte bits_left start_bit =
    let free = sub32 8 start_bit in if lt_i32 free bits_left then free else bits_left

-- The change of one byte of a context word.
abbrev pub put_bits : ℕ → ℕ → ℕ → ℕ → ℕ → ℕ
put_bits bit_mask mask_shift ctx_shift cur_value word =
    let ctx_masked = shl32 bit_mask mask_shift in
    let value_masked = shl32 (bit_and cur_value bit_mask) mask_shift in
    bit_or (bit_and word (not32 (shl32 ctx_masked ctx_shift))) (shl32 value_masked ctx_shift)

-- The loop over the bytes from `byte_idx` on.
unfoldable pub range_loop : ℕ → ℕ → List ℕ → ℕ → ℕ → ℕ → Outcome (List ℕ)
range_loop zero byte_idx ctx start_bit bits_left cur_value = ok ctx
range_loop (suc n) byte_idx ctx start_bit bits_left cur_value = do
  let ctx_elm_idx = byte_idx / 8
  let ctx_shift = (3 - byte_idx % 4) * 8
  let bit_count = bits_in_byte bits_left start_bit
  let bit_mask = low_mask32 bit_count
  let mask_shift = sub32 (sub32 8 start_bit) bit_count
  ctx' ←
      set_word ctx ctx_elm_idx (put_bits bit_mask mask_shift ctx_shift cur_value)
        (get_elem? ctx ctx_elm_idx)
  range_loop n (suc byte_idx) ctx' 0 (sub32 bits_left bit_count) (shr32 cur_value bit_count)

unfoldable pub write_ctx_u32_bits_range : List ℕ → ℕ → ℕ → ℕ → Outcome (List ℕ)
unfolding range_loop
write_ctx_u32_bits_range ctx bit_low bit_high value =
    let bits = sub32 (add32 bit_high 1) bit_low in
    let start_byte = i32_as_u64 (div_i32 bit_low 32) in
    let end_byte = i32_as_u64 (div_i32 bit_high 32) in
    let written =
      range_loop (add64 end_byte 1 - start_byte) start_byte ctx (bit_low % 8) bits value in
    if lt_i32 32 bits then panic else written
