-- ===== src/Chunked/WriteLoop.antt =====
-- The loop of `write_bytes`, round by round.
use mathlib.Core.Path.{subst}
use mizl_h_public.Base.{
  ℕ, zero, suc, ◌+◌, ◌-◌, ◌*◌, ◌^◌, ◌≤◌, ◌<◌, ◌≡◌, ap, sym, ◌∙◌, ◌⊎◌, inl, inr, List, some, length,
  get_elem?, get_or, slice, min, ltb, leb, arith, tests, Bool-cases, Option-cases, Outcome, ok, err,
  panic, no_fuel, length-slice, length-replicate, get_elem?-slice, get_elem?-some, add64, sub64,
  mul64, ltb→lt, leb→le, leb→lt, le→leb, lt→leb,
}
use mizl_h_public.Chunked.{FreeMemChunk, new_chunk, entry_or, write_loop}
use mizl_h_public.Chunked.Map.{get, insert}
use mizl_h_public.Chunked.Cells.{cell, chunk_cell, IsChunk, AreChunks}
use mizl_h_public.Chunked.Patch.{
  view, inserted, cell-inserted, AreChunks-insert, Grown, patched-IsChunk, cell-inserted_kept,
  patched, grown-Grown, grown, chunk_cell-kept, chunk_cell-patched,
}

module _ (len : ℕ) (value : List ℕ) where
  -- What a part of the loop comes to, from `pos` on with `count` bytes of `value` to go, from `src`
  -- on.
  abbrev pub LoopWrites :
      (pos count src : ℕ) → List (ℕ × FreeMemChunk) → Outcome (List (ℕ × FreeMemChunk)) → Type 0
  LoopWrites pos count src m (ok m') =
      AreChunks len m'
      × ((i : ℕ) → i < count → cell (view len m') (pos + i) ≡ get_elem? value (src + i))
      × ((x b : ℕ)
          → (x < pos) ⊎ (pos + count ≤ x)
          → cell (view len m) x ≡ some b
          → cell (view len m') x ≡ some b)
  LoopWrites pos count src m (err e) = ⊥
  LoopWrites pos count src m panic = ⊥
  LoopWrites pos count src m no_fuel = ⊥

  LoopWrites-round :
      (pos pos' n count src : ℕ) (m m1 : List (ℕ × FreeMemChunk))
      → n ≤ count
      → pos + n ≤ pos'
      → (n < count → pos' ≡ pos + n)
      → src + count ≤ length value
      → ((i : ℕ) → i < n → cell (view len m1) (pos + i) ≡ get_elem? value (src + i))
      → ((x b : ℕ)
          → (x < pos) ⊎ (pos + n ≤ x)
          → cell (view len m) x ≡ some b
          → cell (view len m1) x ≡ some b)
      → (r : Outcome (List (ℕ × FreeMemChunk))) → LoopWrites pos' (count - n) (src + n) m1 r
      → LoopWrites pos count src m r
  LoopWrites-round pos pos' n count src m m1 p p' q fits here kept (ok m') (chunks, there, later) =
      (chunks, both, λ x b h e. later x b (outside x h) (kept x b (beside x h) e))
    where
      outside : (x : ℕ) → (x < pos) ⊎ (pos + count ≤ x) → (x < pos') ⊎ (pos' + (count - n) ≤ x)
      outside x h = elim (Bool-cases (ltb n count)) [
        | inl e ↦ elim h [
          | inl k ↦ inl (omega arith)
          | inr k ↦ inr (omega (tests, q (omega tests)))
        ]
        | inr e ↦ elim (Bool-cases (ltb x pos')) [
          | inl k ↦ inl (omega tests)
          | inr k ↦ inr (omega tests)
        ]
      ]

      beside : (x : ℕ) → (x < pos) ⊎ (pos + count ≤ x) → (x < pos) ⊎ (pos + n ≤ x)
      beside x (inl h) = inl h
      beside x (inr h) = inr (omega arith)

      both : (i : ℕ) → i < count → cell (view len m') (pos + i) ≡ get_elem? value (src + i)
      both i h = elim (Bool-cases (ltb i n)) [
        | inl e ↦
            let w = get_elem?-some value (src + i) 0 (omega arith) in
            later (pos + i) (get_or value (src + i) 0) (inl (omega tests))
              (here i (ltb→lt i n e) ∙ w)
            ∙ sym w
        | inr e ↦
            ap (cell (view len m')) (omega (tests, q (omega tests)))
            ∙ there (i - n) (omega tests)
            ∙ ap (get_elem? value) (omega tests)
      ]
  LoopWrites-round pos pos' n count src m m1 p p' q fits here kept (err e) bad = bad
  LoopWrites-round pos pos' n count src m m1 p p' q fits here kept panic bad = bad
  LoopWrites-round pos pos' n count src m m1 p p' q fits here kept no_fuel bad = bad

  module _ (end_addr : ℕ) (low : end_addr + len < 2 ^ 64) (positive : 0 < len)
      (small : len < 2 ^ 63) (short : length value < 2 ^ 31) where
    -- The loop variables before a round.
    pub record Inv (idx off src count : ℕ) (m : List (ℕ × FreeMemChunk)) : Type 0 where
      pub offset : off < len
      pub fits : src + count ≡ length value
      pub ahead :
          (idx * len + off + count ≡ end_addr) ⊎ ((count ≡ 0) × (end_addr ≤ idx * len + off))
      pub near : idx * len + off ≤ end_addr + len
      pub chunks : AreChunks len m

    idx-le : (idx : ℕ) → idx ≤ idx * len
    idx-le idx = grind arith

    module _ (idx off src count : ℕ) (m : List (ℕ × FreeMemChunk))
        (inv : Inv idx off src count m) where
      abbrev step_len : ℕ
      step_len = min (len - off) count

      abbrev step_old : FreeMemChunk
      step_old = entry_or (get idx m) (new_chunk off step_len len)

      abbrev step_new : FreeMemChunk
      step_new = grown off step_len step_old

      abbrev step_part : List ℕ
      step_part = slice value src (src + step_len)

      abbrev step_map : List (ℕ × FreeMemChunk)
      step_map = insert idx (patched off step_part step_new) m

      step_wraps :
          (add64 (mul64 idx len) off ≡ idx * len + off)
          × (sub64 len off ≡ len - off)
          × (add64 off step_len ≡ off + step_len)
          × (sub64 (off + step_len) off ≡ step_len)
          × (add64 src step_len ≡ src + step_len)
          × (sub64 count step_len ≡ count - step_len)
      step_wraps = (omega arith, omega arith, omega arith, omega arith, omega arith, omega arith)

      module _ (go_on : idx * len + off < end_addr) where
        step_pos : (0 < step_len) × (step_len ≤ count) × (off + step_len ≤ len)
        step_pos = omega (arith, inv.ahead)

        length-step_part : length step_part ≡ step_len
        length-step_part =
            omega (arith, step_pos, inv.fits, length-slice value src (src + step_len))

        old-IsChunk : IsChunk len step_old
        old-IsChunk = elim (Option-cases (get idx m)) [
          | inl g ↦
              rw g (record { full = length-replicate len 0; within = omega (arith, step_pos) })
          | inr (info, g) ↦ rw g (inv.chunks idx info g)
        ]

        room : off + length step_part ≤ len
        room = omega (arith, step_pos, length-step_part)

        new-Grown : Grown len off (length step_part) step_old step_new
        new-Grown =
            rw length-step_part (grown-Grown len off step_len step_old small step_pos.2 old-IsChunk)

        next-Inv : Inv (idx + 1) 0 (src + step_len) (count - step_len) step_map
        next-Inv = record {
          offset = positive;
          fits = omega (arith, step_pos, inv.fits);
          ahead = omega (arith, inv.ahead, inv.offset);
          near = omega (arith, go_on, inv.offset);
          chunks =
              AreChunks-insert len idx (patched off step_part step_new) m inv.chunks
                (patched-IsChunk len off step_part step_old step_new old-IsChunk new-Grown room);
        }

        step_kept :
            (o b : ℕ)
            → (o < off) ⊎ (off + length step_part ≤ o)
            → chunk_cell (get idx m) o ≡ some b
            → chunk_cell (some (patched off step_part step_new)) o ≡ some b
        step_kept o b place e = elim (Option-cases (get idx m)) [
          | inl g ↦ cc (ap (λ c. chunk_cell c o) g)
          | inr (info, g) ↦
              let old : step_old ≡ info = ap (λ c. entry_or c (new_chunk off step_len len)) g in
              chunk_cell-kept len off step_part step_old step_new old-IsChunk new-Grown o b room
                place
                (ap (λ (c : FreeMemChunk). chunk_cell (some c) o) old
                  ∙ ap (λ c. chunk_cell c o) (sym g)
                  ∙ e)
        ]

        step_there :
            (i : ℕ)
            → i < step_len
            → cell (view len step_map) (idx * len + off + i) ≡ get_elem? value (src + i)
        step_there i h =
            let new = patched off step_part step_new in
            unfold inserted in
            cell-inserted len idx off step_part m new positive i (omega (arith, step_pos))
            ∙ chunk_cell-patched len off step_part step_old step_new old-IsChunk new-Grown i room
                (omega (arith, length-step_part))
            ∙ get_elem?-slice value src (src + step_len) i (omega arith)

        step-LoopWrites :
            (r : Outcome (List (ℕ × FreeMemChunk)))
            → LoopWrites ((idx + 1) * len + 0) (count - step_len) (src + step_len) step_map r
            → LoopWrites (idx * len + off) count src m r
        step-LoopWrites =
            LoopWrites-round (idx * len + off) ((idx + 1) * len + 0) step_len count src m step_map
              step_pos.1 (omega (arith, step_pos)) (λ more. omega arith) (omega (arith, inv.fits))
              step_there
              (λ x b place.
                unfold inserted in
                cell-inserted_kept len idx off step_part m (patched off step_part step_new) positive
                  step_kept x b
                  (subst (λ k. (x < idx * len + off) ⊎ (idx * len + off + k ≤ x))
                    (sym length-step_part) place))

    round_ended :
        (fuel idx off src count : ℕ) (m : List (ℕ × FreeMemChunk))
        → Inv idx off src count m
        → end_addr ≤ idx * len + off
        → LoopWrites
            (idx * len + off)
            count
            src
            m
            (write_loop len value end_addr (suc fuel) idx off src count m)
    unfolding write_loop
    round_ended fuel idx off src count m inv h =
        rw ((step_wraps idx off src count m inv).0, le→leb end_addr (idx * len + off) h)
          (inv.chunks, λ i k. absurd (omega (arith, inv.ahead)), λ x b k e. e)

    -- What the loop computes in a round, its wrap-arounds and its panics apart.
    round_eq :
        (fuel idx off src count : ℕ) (m : List (ℕ × FreeMemChunk)) (inv : Inv idx off src count m)
        → idx * len + off < end_addr
        → write_loop len value end_addr (suc fuel) idx off src count m
          ≡ write_loop len value end_addr fuel
              (idx + 1)
              0
              (src + min (len - off) count)
              (count - min (len - off) count)
              (step_map idx off src count m inv)
    unfolding write_loop
    round_eq fuel idx off src count m inv go_on =
        let (w1, w2, w3, w4, w5, w6) = step_wraps idx off src count m inv in
        let w7 : add64 idx 1 ≡ idx + 1 = omega (arith, idx-le idx) in
        let p = step_pos idx off src count m inv go_on in
        rw (
          w1,
          w2,
          w3,
          w4,
          w5,
          w6,
          w7,
          lt→leb end_addr (idx * len + off) go_on,
          le→leb (src + min (len - off) count) (length value) (omega (arith, p, inv.fits)),
          le→leb (off + min (len - off) count) (length (step_new idx off src count m inv).bytes)
              (omega (arith, p, full)),
        )
      where
        full : length (step_new idx off src count m inv).bytes ≡ len
        full =
            ap length (new-Grown idx off src count m inv go_on).same_bytes
            ∙ (old-IsChunk idx off src count m inv go_on).full

    pub write_loop-LoopWrites :
        (fuel idx off src count : ℕ) (m : List (ℕ × FreeMemChunk))
        → count < fuel
        → Inv idx off src count m
        → LoopWrites
            (idx * len + off)
            count
            src
            m
            (write_loop len value end_addr fuel idx off src count m)
    write_loop-LoopWrites zero idx off src count m h inv = elim h [ ]
    write_loop-LoopWrites (suc fuel) idx off src count m h inv =
        elim (Bool-cases (leb end_addr (idx * len + off))) [
          | inl e ↦ round_ended fuel idx off src count m inv (leb→le _ _ e)
          | inr e ↦ rw (round_eq fuel idx off src count m inv (leb→lt _ _ e)) (
              step-LoopWrites idx off src count m inv (leb→lt _ _ e) _ (
                write_loop-LoopWrites fuel (idx + 1) 0 _ _ _
                  (omega (arith, step_pos idx off src count m inv (leb→lt _ _ e)))
                  (next-Inv idx off src count m inv (leb→lt _ _ e))))
        ]
