-- ===== src/Sleigh/Memory/Write.antt =====
-- A word of the context that is written.
use mizl_h_public.Base.{
  ℕ, ◌-◌, ◌*◌, ◌/◌, ◌%◌, ◌^◌, ◌<◌, ◌≡◌, refl, ap, ◌∙◌, List, some, get_elem?, get_elem?-set_self,
  set, arith, i32_as_u64, div_i32, shl32, shr32, sub32, low_mask32, u32_mod, ok, mask-bit_and,
  bit_and-zero, zero-bit_or,
}
use mizl_h_public.Sleigh.Memory.{read_ctx_u32_bits_at, write_ctx_u32_bits_at, masked}
use mizl_h_public.Sleigh.Memory.Laws.{read_ctx-word}

whole_mask : shl32 (low_mask32 32) 0 ≡ 2 ^ 32 - 1
whole_mask = refl

-- With the mask of a whole word, the old word is replaced.
masked-whole : (v w : ℕ) → v < u32_mod → masked (2 ^ 32 - 1) v w ≡ v
masked-whole v w h =
    rw (mask-bit_and 32 v, bit_and-zero w) (zero-bit_or (v % 2 ^ 32) ∙ omega (arith, h))

module _ (i : ℕ) (h : i < 2 ^ 26) where
  offset_of : (i * 32) % 32 ≡ 0
  offset_of = omega arith

  index_of : i32_as_u64 (div_i32 (i * 32) 32) ≡ i
  index_of = ground (arith, h)

  quotient_of : (i * 32) / 32 ≡ i
  quotient_of = omega arith

  same_word : (v : ℕ) → v < u32_mod → shr32 (shl32 v 0) (sub32 32 32) ≡ v
  same_word v l = omega (arith, l)

  -- A whole word that is written is the word at its index, and it is read back.
  pub read_ctx-write_ctx :
      (ctx : List ℕ) (old v : ℕ)
      → v < u32_mod
      → get_elem? ctx i ≡ some old
      → (write_ctx_u32_bits_at ctx (i * 32) 32 v ≡ ok (set ctx i v))
        × (read_ctx_u32_bits_at (set ctx i v) (i * 32) 32 ≡ ok v)
  unfolding write_ctx_u32_bits_at
  read_ctx-write_ctx ctx old v l e = (
    rw (offset_of, index_of, e) (ap (λ w. ok (set ctx i w)) (masked-whole v old l)),
    rw
        (
          read_ctx-word (set ctx i v) (i * 32) 32 (omega (arith, h), omega arith, omega arith),
          offset_of,
          quotient_of,
          get_elem?-set_self ctx i v e,
        )
        (ap ok (same_word v l)),
  )
