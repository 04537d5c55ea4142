-- ===== src/Chunked/ReadSteps.antt =====
-- One round of a read, and the cells of the chunk that it meets.
use mizl_h_public.Base.{
  ℕ, ◌+◌, ◌-◌, ◌*◌, ◌≤◌, ◌<◌, ◌≡◌, ap, sym, ◌∙◌, inl, inr, List, none, some, length, get_elem?, ltb,
  arith, tests, Bool-cases, Outcome, ok, err, panic, no_fuel, end_of_stream,
}
use mizl_h_public.Chunked.{FreeMemChunk, ChunkedFreeMemView}
use mizl_h_public.Chunked.Map.{get}
use mizl_h_public.Chunked.Cells.{cell, chunk_cell, cell-eq-cell_at}

module _ (c : ChunkedFreeMemView) where
  -- What a part of the loop comes to, from `pos` on with `count` bytes to go, into `out_data` from
  -- `dst` on.
  abbrev pub LoopReads : (pos count dst : ℕ) → List ℕ → Outcome (List ℕ) → Type 0
  LoopReads pos count dst out (ok bytes) =
      (length bytes ≡ length out)
      × ((i : ℕ) → i < count → cell c (pos + i) ≡ get_elem? bytes (dst + i))
      × ((j : ℕ) → j < dst → get_elem? bytes j ≡ get_elem? out j)
  LoopReads pos count dst out (err e) =
      (e ≡ end_of_stream) × ((i : ℕ) × (i < count) × (cell c (pos + i) ≡ none))
  LoopReads pos count dst out panic = ⊥
  LoopReads pos count dst out no_fuel = ⊥

  -- One round reads `n` bytes, and the rest of the loop the others.
  pub LoopReads-round :
      (pos pos' n count dst : ℕ) (out out' : List ℕ)
      → n ≤ count
      → (n < count → pos' ≡ pos + n)
      → length out' ≡ length out
      → ((i : ℕ) → i < n → cell c (pos + i) ≡ get_elem? out' (dst + i))
      → ((j : ℕ) → j < dst → get_elem? out' j ≡ get_elem? out j)
      → (r : Outcome (List ℕ)) → LoopReads pos' (count - n) (dst + n) out' r
      → LoopReads pos count dst out r
  LoopReads-round pos pos' n count dst out out' p q l here before (ok bytes) (l', there, kept) =
      (l' ∙ l, both, λ j h. kept j (omega arith) ∙ before j h)
    where
      both : (i : ℕ) → i < count → cell c (pos + i) ≡ get_elem? bytes (dst + i)
      both i h = elim (Bool-cases (ltb i n)) [
        | inl e ↦ here i (omega tests) ∙ sym (kept (dst + i) (omega tests))
        | inr e ↦
            ap (cell c) (omega (tests, q (omega tests)))
            ∙ there (i - n) (omega tests)
            ∙ ap (get_elem? bytes) (omega tests)
      ]
  LoopReads-round pos pos' n count dst out out' p q l here before (err e) (e', (i, h, k)) =
      (e', (i + n, omega arith, ap (cell c) (omega (arith, q (omega arith))) ∙ k))
  LoopReads-round pos pos' n count dst out out' p q l here before panic bad = bad
  LoopReads-round pos pos' n count dst out out' p q l here before no_fuel bad = bad

  -- The cells of one chunk, met at `idx * chunk_len + off + i`.
  module _ (idx off n : ℕ) (info : FreeMemChunk) (at_idx : get idx c.chunks ≡ some info) where
    chunk_cell_at :
        (i : ℕ)
        → off + i < c.chunk_len
        → cell c (idx * c.chunk_len + off + i) ≡ chunk_cell (some info) (off + i)
    chunk_cell_at i h =
        cell-eq-cell_at c (idx * c.chunk_len + off + i) idx (off + i) h (omega arith)
        ∙ ap (λ o. chunk_cell o (off + i)) at_idx

    module _ (inside : off + n ≤ c.chunk_len) where
      pub cell_in_range :
          info.range_start ≤ off
          → off + n ≤ info.range_start + info.range_len
          → (i : ℕ) → i < n
          → cell c (idx * c.chunk_len + off + i) ≡ get_elem? info.bytes (off + i)
      cell_in_range p q i h = chunk_cell_at i (omega arith) ∙ ground arith

      pub cell_before_range :
          0 < n → off < info.range_start → cell c (idx * c.chunk_len + off + 0) ≡ none
      cell_before_range p h = chunk_cell_at 0 (omega arith) ∙ ground arith

      pub cell_behind_range :
          0 < n
          → info.range_start + info.range_len < off + n
          → cell c (idx * c.chunk_len + off + (n - 1)) ≡ none
      cell_behind_range p h = chunk_cell_at (n - 1) (omega arith) ∙ ground arith
