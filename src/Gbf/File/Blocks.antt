-- ===== src/Gbf/File/Blocks.antt =====
-- Where the blocks and buffers of a file are.
use native.Mathlib.Nat.{add-mul, one-mul, mul-le-mul, mod-eq_of_lt}
use mizl_h_public.Base.{
  ℕ, ◌+◌, ◌-◌, ◌*◌, ◌^◌, ◌≤◌, ◌<◌, ◌≡◌, ap, sym, ◌∙◌, add64, sub64, add32, i32_as_u64, arith,
}
use mizl_h_public.Gbf.File.{
  GbfFile, get_block_address, get_block_address_static, get_buffer_address,
  get_buffer_address_static, get_buffer_size,
}

product : (a b : ℕ) → a < 2 ^ 31 → b < 2 ^ 31 → a * b ≤ 2 ^ 62
product a b h k = omega (arith, bound)
  where
    bound : a * b ≤ 2 ^ 31 * 2 ^ 31
    bound = mul-le-mul {n₂ = 2 ^ 31} {m₂ = 2 ^ 31} (omega arith) (omega arith)

next_block : (a b : ℕ) → (a + 1 + 1) * b ≡ (a + 1) * b + b
next_block a b = add-mul (a + 1) 1 b ∙ ap (λ c. (a + 1) * b + c) (one-mul b)

module _ (gbf : GbfFile) (lo : 5 ≤ gbf.block_size) (hi : gbf.block_size < 2 ^ 31) where
  block_at : (id : ℕ) → id + 1 < 2 ^ 31 → get_block_address gbf id ≡ (id + 1) * gbf.block_size
  unfolding get_block_address get_block_address_static
  block_at id h =
      let next_id : i32_as_u64 (add32 id 1) ≡ id + 1 = ground arith in
      let size : i32_as_u64 gbf.block_size ≡ gbf.block_size = ground arith in
      rw (next_id, size) (mod-eq_of_lt (omega (arith, product (id + 1) gbf.block_size h hi)))

  ends : (id : ℕ) → id + 2 < 2 ^ 31 → get_buffer_address gbf id ≡ (id + 1) * gbf.block_size + 5
  unfolding get_buffer_address get_buffer_address_static get_block_address
  ends id h =
      ap (λ a. add64 a 5) (block_at id (omega arith))
      ∙ mod-eq_of_lt (omega (arith, product (id + 1) gbf.block_size (omega arith) hi))

  to_next :
      (id : ℕ)
      → id + 2 < 2 ^ 31
      → (id + 1) * gbf.block_size + 5 + get_buffer_size gbf ≡ get_block_address gbf (id + 1)
  unfolding get_buffer_size
  to_next id h =
      let size : sub64 (i32_as_u64 gbf.block_size) 5 ≡ gbf.block_size - 5 = ground arith in
      ap (λ n. (id + 1) * gbf.block_size + 5 + n) size
      ∙ omega (arith, next_block id gbf.block_size)
      ∙ sym (block_at (id + 1) (omega arith))

  -- For a block size of 5 bytes or more, the block `id` starts behind the file's header and the
  -- blocks before it, its buffer starts 5 bytes behind its start, and ends where the next block
  -- starts. No address wraps. (For a positive `i32` as the size, and an id that stays two below the
  -- greatest.)
  pub get_buffer_address-tiles :
      (id : ℕ)
      → id + 2 < 2 ^ 31
      → (get_block_address gbf id ≡ (id + 1) * gbf.block_size)
        × (get_buffer_address gbf id ≡ get_block_address gbf id + 5)
        × (get_buffer_address gbf id + get_buffer_size gbf ≡ get_block_address gbf (id + 1))
  get_buffer_address-tiles id h = (
    block_at id (omega arith),
    ends id h ∙ sym (ap (λ a. a + 5) (block_at id (omega arith))),
    ap (λ a. a + get_buffer_size gbf) (ends id h) ∙ to_next id h,
  )
