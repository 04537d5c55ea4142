-- ===== src/Chunked/ReadLoop.antt =====
-- The loop of `read_bytes`, round by round.
use mizl_h_public.Base.{
  ℕ, zero, suc, ◌+◌, ◌-◌, ◌*◌, ◌^◌, ◌≤◌, ◌<◌, ◌≡◌, refl, ap, sym, ◌∙◌, ◌⊎◌, inl, inr, List, Option,
  none, some, length, overwrite, slice, min, ◌||◌, ltb, leb, arith, Bool-cases, Option-cases,
  Outcome, err, end_of_stream, length-overwrite, length-slice, get_elem?-overwrite_lt,
  get_elem?-overwrite_self, get_elem?-slice, i32_as_u64, add64, mul64, sub64, sub32, if◌then◌else◌,
  ltb→lt, ltb→le, leb→le, leb→lt, le→leb, lt→leb,
}
use mizl_h_public.Chunked.{FreeMemChunk, ChunkedFreeMemView, read_loop}
use mizl_h_public.Chunked.Map.{get}
use mizl_h_public.Chunked.Cells.{chunk_cell, IsChunk, IsValid, cell-eq-cell_at}
use mizl_h_public.Chunked.ReadSteps.{
  cell_in_range, LoopReads, LoopReads-round, cell_behind_range, cell_before_range,
}

module _ (c : ChunkedFreeMemView) where
  module _ (valid : IsValid c) (end_addr : ℕ) (low : end_addr + c.chunk_len < 2 ^ 64) where
    -- The loop variables before a round.
    pub record Inv (idx off dst count : ℕ) (out : List ℕ) : Type 0 where
      pub offset : off < c.chunk_len
      pub fits : dst + count ≡ length out
      pub small : length out < 2 ^ 31
      pub ahead :
          (idx * c.chunk_len + off + count ≡ end_addr)
          ⊎ ((count ≡ 0) × (end_addr ≤ idx * c.chunk_len + off))
      pub near : idx * c.chunk_len + off ≤ end_addr + c.chunk_len

    idx-le : (idx : ℕ) → idx ≤ idx * c.chunk_len
    idx-le idx = let p = valid.positive in grind arith

    module _ (idx off dst count : ℕ) (out : List ℕ) (inv : Inv idx off dst count out) where
      pos : ℕ
      pos = idx * c.chunk_len + off

      abbrev step_len : ℕ
      step_len = min (c.chunk_len - off) count

      abbrev step_out : FreeMemChunk → List ℕ
      step_out info = overwrite out dst (slice info.bytes off (off + step_len))

      -- A round without its wrap-arounds, and without its panics, which do not happen.
      abbrev plain_round : Outcome (List ℕ) → Option FreeMemChunk → Outcome (List ℕ)
      plain_round rest none = err end_of_stream
      plain_round rest (some info) =
          if ltb off info.range_start || ltb (info.range_start + info.range_len) (off + step_len)
          then err end_of_stream
          else rest

      step_wraps :
          (add64 (mul64 idx c.chunk_len) off ≡ idx * c.chunk_len + off)
          × (sub64 c.chunk_len off ≡ c.chunk_len - off)
          × (i32_as_u64 count ≡ count)
          × (add64 off step_len ≡ off + step_len)
          × (add64 dst step_len ≡ dst + step_len)
          × (sub32 count step_len ≡ count - step_len)
      step_wraps = (omega arith, omega arith, ground arith, omega arith, omega arith, omega arith)

      module _ (go_on : idx * c.chunk_len + off < end_addr) where
        step_pos : (0 < step_len) × (step_len ≤ count) × (off + step_len ≤ c.chunk_len)
        step_pos = omega (arith, inv.ahead)

        module _ (info : FreeMemChunk) (at_idx : get idx c.chunks ≡ some info) where
          chunk : IsChunk c.chunk_len info
          chunk = valid.are_chunks idx info at_idx

          chunk_wraps :
              (add64 info.range_start info.range_len ≡ info.range_start + info.range_len)
              × (add64 idx 1 ≡ idx + 1)
          chunk_wraps = (omega (arith, chunk, valid), omega (arith, idx-le idx))

          abbrev step_slice : List ℕ
          step_slice = slice info.bytes off (off + step_len)

          length-step_slice : length step_slice ≡ step_len
          length-step_slice =
              omega (arith, step_pos, chunk, length-slice info.bytes off (off + step_len))

          length-step_out : length (step_out info) ≡ length out
          length-step_out =
              length-overwrite out dst step_slice (omega (arith, length-step_slice, inv, step_pos))

          next-Inv : Inv (idx + 1) 0 (dst + step_len) (count - step_len) (step_out info)
          next-Inv = record {
            offset = valid.positive;
            fits = omega (arith, length-step_out, step_pos, inv);
            small = omega (arith, length-step_out, inv);
            ahead = omega (arith, inv.ahead, inv.offset);
            near = omega (arith, go_on, inv.offset);
          }

          in_range :
              info.range_start ≤ off
              → off + step_len ≤ info.range_start + info.range_len
              → (rest : Outcome (List ℕ))
              → LoopReads c
                  ((idx + 1) * c.chunk_len + 0)
                  (count - step_len)
                  (dst + step_len)
                  (step_out info)
                  rest
              → LoopReads c (idx * c.chunk_len + off) count dst out rest
          in_range p q =
              let (_, le, inside) = step_pos in
              let l = length-step_slice in
              LoopReads-round c (idx * c.chunk_len + off) ((idx + 1) * c.chunk_len + 0) step_len
                count dst out (step_out info) le (λ more. omega arith) length-step_out
                (λ i h.
                  cell_in_range c idx off step_len info at_idx inside p q i h
                  ∙ sym (get_elem?-slice info.bytes off (off + step_len) i (omega arith))
                  ∙ sym (
                      get_elem?-overwrite_self out dst i step_slice (omega (arith, inv))
                        (omega arith)))
                (λ j h. get_elem?-overwrite_lt out dst j step_slice h (omega (arith, inv)))

          step-LoopReads :
              (rest : Outcome (List ℕ))
              → LoopReads c
                  ((idx + 1) * c.chunk_len + 0)
                  (count - step_len)
                  (dst + step_len)
                  (step_out info)
                  rest
              → LoopReads c (idx * c.chunk_len + off) count dst out (plain_round rest (some info))
          step-LoopReads rest h =
              let (p, le, inside) = step_pos in
              elim (Bool-cases (ltb off info.range_start)) [
                | inl e ↦ rw e (
                  refl,
                  (
                    0,
                    omega arith,
                    cell_before_range c idx off step_len info at_idx inside p (ltb→lt _ _ e),
                  ),
                )
                | inr e ↦
                    rw e
                      (elim (Bool-cases
                        (ltb (info.range_start + info.range_len) (off + step_len))) [
                          | inl f ↦ rw f (
                            refl,
                            (
                              step_len - 1,
                              omega arith,
                              cell_behind_range c idx off step_len info at_idx inside p
                                  (ltb→lt _ _ f),
                            ),
                          )
                          | inr f ↦ rw f (in_range (ltb→le _ _ e) (ltb→le _ _ f) rest h)
                        ])
              ]

    -- What the loop computes in a round that finds a chunk.
    round_eq :
        (fuel idx off dst count : ℕ) (out : List ℕ)
        → Inv idx off dst count out
        → idx * c.chunk_len + off < end_addr
        → (info : FreeMemChunk) → get idx c.chunks ≡ some info
        → read_loop c end_addr (suc fuel) idx off dst count out ≡ (
            if ltb off info.range_start
              || ltb (info.range_start + info.range_len) (off + min (c.chunk_len - off) count)
            then err end_of_stream
            else read_loop c end_addr fuel
                (idx + 1)
                0
                (dst + min (c.chunk_len - off) count)
                (count - min (c.chunk_len - off) count)
                (overwrite out dst (slice info.bytes off (off + min (c.chunk_len - off) count))))
    unfolding read_loop
    round_eq fuel idx off dst count out inv go_on info at_idx =
        let (w1, w2, w3, w4, w5, w6) = step_wraps idx off dst count out inv in
        let (w7, w8) = chunk_wraps idx off dst count out inv go_on info at_idx in
        let v = chunk idx off dst count out inv go_on info at_idx in
        let p = step_pos idx off dst count out inv go_on in
        rw (
          w1,
          at_idx,
          w2,
          w3,
          w4,
          w5,
          w6,
          w7,
          w8,
          lt→leb end_addr (idx * c.chunk_len + off) go_on,
          le→leb off (off + min (c.chunk_len - off) count) (omega arith),
          le→leb (off + min (c.chunk_len - off) count) (length info.bytes) (omega (arith, v, p)),
          le→leb (dst + min (c.chunk_len - off) count) (length out) (omega (arith, p)),
        )

    round_ended :
        (fuel idx off dst count : ℕ) (out : List ℕ)
        → Inv idx off dst count out
        → end_addr ≤ idx * c.chunk_len + off
        → LoopReads c
            (idx * c.chunk_len + off)
            count
            dst
            out
            (read_loop c end_addr (suc fuel) idx off dst count out)
    unfolding read_loop
    round_ended fuel idx off dst count out inv h =
        rw ((step_wraps idx off dst count out inv).0, le→leb end_addr (idx * c.chunk_len + off) h)
          (refl, λ i k. absurd (omega (arith, inv.ahead)), λ j k. refl)

    round_absent :
        (fuel idx off dst count : ℕ) (out : List ℕ)
        → Inv idx off dst count out
        → idx * c.chunk_len + off < end_addr
        → get idx c.chunks ≡ none
        → LoopReads c
            (idx * c.chunk_len + off)
            count
            dst
            out
            (read_loop c end_addr (suc fuel) idx off dst count out)
    unfolding read_loop
    round_absent fuel idx off dst count out inv h g =
        rw
          ((step_wraps idx off dst count out inv).0, lt→leb end_addr (idx * c.chunk_len + off) h, g)
          (
            refl,
            (
              0,
              omega (arith, inv.ahead),
              cell-eq-cell_at c (idx * c.chunk_len + off + 0) idx off inv.offset (omega arith)
                  ∙ ap (λ o. chunk_cell o off) g,
            ),
          )

    pub read_loop-LoopReads :
        (fuel idx off dst count : ℕ) (out : List ℕ)
        → count < fuel
        → Inv idx off dst count out
        → LoopReads c
            (idx * c.chunk_len + off)
            count
            dst
            out
            (read_loop c end_addr fuel idx off dst count out)
    read_loop-LoopReads zero idx off dst count out h inv = elim h [ ]
    read_loop-LoopReads (suc fuel) idx off dst count out h inv =
        elim (Bool-cases (leb end_addr (idx * c.chunk_len + off))) [
          | inl e ↦ round_ended fuel idx off dst count out inv (leb→le _ _ e)
          | inr e ↦ elim (Option-cases (get idx c.chunks)) [
            | inl g ↦ round_absent fuel idx off dst count out inv (leb→lt _ _ e) g
            | inr (info, g) ↦ rw (round_eq fuel idx off dst count out inv (leb→lt _ _ e) info g) (
                step-LoopReads idx off dst count out inv (leb→lt _ _ e) info g _ (
                  read_loop-LoopReads fuel (idx + 1) 0 _ _ _
                    (omega (arith, step_pos idx off dst count out inv (leb→lt _ _ e)))
                    (next-Inv idx off dst count out inv (leb→lt _ _ e) info g)))
          ]
        ]
