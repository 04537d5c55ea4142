-- ===== src/Gbf/Chained/Laws.antt =====
-- What a read of a buffer that is in one block returns, whatever its offset.
use native.Mathlib.Nat.{div-eq_of_lt, mod-eq_of_lt}
use mizl_h_public.Base.{
  ℕ, suc, ◌+◌, ◌-◌, ◌%◌, ◌/◌, ◌^◌, ◌≤◌, ◌<◌, ◌≡◌, refl, ap, ◌∙◌, true, false, List, [], ◌∷◌, some,
  length, get_elem?, overwrite, replicate, leb, ◌==◌, if◌then◌else◌, add64, sub64, sub32,
  i32_as_u64, lt_i32, u32_mod, min, not, Outcome, ok, err, panic, no_fuel, ◌>>=◌, >>=-assoc, arith,
}
use mizl_h_public.Gbf.File.{get_buffer_address}
use mizl_h_public.Gbf.Chained.{
  GbfChainedBufMemView, get_chain_data_len, get_chain_data_prefix_len, is_indexed, buffer_bytes,
  fill, decrypt, read_bytes_from_buffer, read_loop, chained_read,
}

-- The bytes from `addr` on are in the one buffer `nid` of the view.
pub record InOneBuffer (v : GbfChainedBufMemView) (nid addr count : ℕ) : Type 0 where
  pub buffer : v.buffer_map ≡ nid ∷ []
  pub initialised : nid < 2 ^ 31
  pub some_byte : 1 ≤ count
  pub in_view : addr + count ≤ v.buffer_size
  pub in_buffer : addr + count ≤ get_chain_data_len v
  pub size : v.buffer_size < 2 ^ 31
  pub block : get_chain_data_len v < 2 ^ 31

-- The machine arithmetic of such a read does not wrap.
read_len_eq :
    (len addr count : ℕ)
    → addr + count ≤ len
    → len < 2 ^ 31
    → min (sub64 len addr) (i32_as_u64 count) ≡ count
read_len_eq len addr count p q = ground arith

last_lt :
    (size addr count : ℕ)
    → 1 ≤ count
    → addr + count ≤ size
    → size < 2 ^ 31
    → leb (i32_as_u64 size) (sub64 (add64 addr (i32_as_u64 count)) 1) ≡ false
last_lt size addr count p q r = ground arith

positive : (count : ℕ) → 1 ≤ count → count < 2 ^ 31 → lt_i32 0 count ≡ true
positive count p q = ground arith

not_negative : (count : ℕ) → count < 2 ^ 31 → lt_i32 count 0 ≡ false
not_negative count q = ground arith

moved : (addr count : ℕ) → addr + count < 2 ^ 31 → add64 addr (i32_as_u64 count) ≡ addr + count
moved addr count q = ground arith

none_left : (count : ℕ) → count < 2 ^ 31 → sub32 count count ≡ 0
none_left count q = omega arith

not_zero : (n : ℕ) → 0 < n → (n == 0) ≡ false
not_zero n q = ground arith

module _ (v : GbfChainedBufMemView) (nid addr count : ℕ) (i : InOneBuffer v nid addr count) where
  module _ (out_data : List ℕ) (fits : length out_data ≡ count) where
    fits_it : not (leb (0 + count) (length out_data)) ≡ false
    fits_it = ground (arith, fits)

    filled :
        fill v addr out_data 0 count (some nid)
        ≡ (buffer_bytes v nid addr count >>= λ bytes. ok (overwrite out_data 0 bytes, count))
    unfolding fill
    filled =
        let same : count % u32_mod ≡ count = omega (arith, i.in_buffer, i.block) in
        rw (fits_it, not_negative nid i.initialised, same) refl

    once :
        read_bytes_from_buffer v 0 addr out_data 0 count
        ≡ (buffer_bytes v nid addr count >>= λ bytes. ok (overwrite out_data 0 bytes, count))
    unfolding read_bytes_from_buffer
    once =
        ap (fill v addr out_data 0 (min (sub64 (get_chain_data_len v) addr) (i32_as_u64 count)))
          (ap (λ (m : List ℕ). get_elem? m (i32_as_u64 0)) i.buffer)
        ∙ ap (λ n. fill v addr out_data 0 n (some nid))
            (read_len_eq (get_chain_data_len v) addr count i.in_buffer i.block)
        ∙ filled

    rounds_of :
        (fuel : ℕ) (m : Outcome (List ℕ))
        → read_bytes_from_buffer v 0 addr out_data 0 count
          ≡ (m >>= λ bytes. ok (overwrite out_data 0 bytes, count))
        → read_loop v (suc (suc fuel)) 0 addr 0 count addr out_data
          ≡ (m >>= λ bytes. ok (addr + count, overwrite out_data 0 bytes))
    unfolding read_loop
    rounds_of fuel (ok bytes) e =
        let small : count < 2 ^ 31 = omega (arith, i.in_buffer, i.block) in
        let near : addr + count < 2 ^ 31 = omega (arith, i.in_buffer, i.block) in
        rw (positive count i.some_byte small, e, none_left count small, moved addr count near) refl
    rounds_of fuel (err f) e =
        rw (positive count i.some_byte (omega (arith, i.in_buffer, i.block)), e) refl
    rounds_of fuel panic e =
        rw (positive count i.some_byte (omega (arith, i.in_buffer, i.block)), e) refl
    rounds_of fuel no_fuel e =
        rw (positive count i.some_byte (omega (arith, i.in_buffer, i.block)), e) refl

    run :
        chained_read v addr out_data count
        ≡ (buffer_bytes v nid addr count >>= λ bytes. ok (addr + count, overwrite out_data 0 bytes))
    unfolding chained_read
    run =
        let small : count < 2 ^ 31 = omega (arith, i.in_buffer, i.block) in
        let len : ℕ = get_chain_data_len v in
        let first : addr / len ≡ 0 = div-eq_of_lt (omega (arith, i.in_buffer, i.some_byte)) in
        let offset : addr % len ≡ addr = mod-eq_of_lt (omega (arith, i.in_buffer, i.some_byte)) in
        let enough : count + 1 ≡ suc (suc (count - 1)) = omega (arith, i.some_byte) in
        rw
          (
            last_lt v.buffer_size addr count i.some_byte i.in_view i.size,
            not_negative count small,
            not_zero len (omega (arith, i.in_buffer, i.some_byte)),
            first,
            offset,
            enough,
          )
          (rounds_of (count - 1) (buffer_bytes v nid addr count) once)

  -- A read that lies in the one buffer of a view ends. Wherever in the buffer it starts, what it
  -- returns are the first `count` bytes of the buffer, decrypted, where the view is obfuscated,
  -- with the mask for its offset; or what the read of them in the file comes to. (The buffer is one
  -- that is initialised, and the sizes are positive `i32`s.)
  pub chained_read-first_bytes :
      (out_data : List ℕ)
      → length out_data ≡ count
      → chained_read v addr out_data count ≡ (
          v.gbf.mv.read_bytes
            (add64 (get_buffer_address v.gbf nid) (get_chain_data_prefix_len (is_indexed v)))
            (replicate count 0)
            count
          >>= λ (r : ℕ × List ℕ). ok (
            addr + count,
            overwrite out_data 0 (if v.obfuscated then decrypt (addr % 128) r.1 else r.1),
          ))
  unfolding buffer_bytes
  chained_read-first_bytes out_data fits =
      run out_data fits
      ∙ >>=-assoc (file_bytes (count % u32_mod)) decrypted
          (λ bytes. ok (addr + count, overwrite out_data 0 bytes))
      ∙ ap
          (λ n. file_bytes n >>= λ r.
            decrypted r >>= λ bytes. ok (addr + count, overwrite out_data 0 bytes))
          (omega (arith, i.in_buffer, i.block))
    where
      file_bytes : ℕ → Outcome (ℕ × List ℕ)
      file_bytes n =
          v.gbf.mv.read_bytes
            (add64 (get_buffer_address v.gbf nid) (get_chain_data_prefix_len (is_indexed v)))
            (replicate count 0) n

      decrypted : ℕ × List ℕ → Outcome (List ℕ)
      decrypted r = ok (if v.obfuscated then decrypt (addr % 128) r.1 else r.1)
