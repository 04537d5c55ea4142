-- ===== src/Chunked/Read.antt =====
-- Reading from the chunks: the bytes at the addresses, or the end of the stream at the first read
-- of a chunk that meets an address with nothing in it.
use native.Mathlib.Nat.{mod-lt, div-add-mod'}
use mathlib.Core.Path.{subst}
use mizl_h_public.Base.{
  ℕ, ◌+◌, ◌*◌, ◌/◌, ◌%◌, ◌^◌, ◌<◌, ◌≡◌, refl, ap, ◌∙◌, inl, List, none, length, get_elem?, arith,
  Outcome, ok, err, panic, no_fuel, end_of_stream, i32_as_u64, add64, lt→leb, ne→==, ◌>>=◌,
}
use mizl_h_public.Chunked.{ChunkedFreeMemView, read_loop, chunked_read}
use mizl_h_public.Chunked.Cells.{cell, IsValid}
use mizl_h_public.Chunked.ReadSteps.{LoopReads}
use mizl_h_public.Chunked.ReadLoop.{read_loop-LoopReads, Inv}

module _ (c : ChunkedFreeMemView) where
  -- The outcome of `read_bytes`: all bytes from `addr` on, or the end of the stream because some
  -- address has none.
  abbrev pub Reads : (addr count : ℕ) → Outcome (ℕ × List ℕ) → Type 0
  Reads addr count (ok (addr', bytes)) =
      (addr' ≡ addr + count)
      × (length bytes ≡ count)
      × ((i : ℕ) → i < count → cell c (addr + i) ≡ get_elem? bytes i)
  Reads addr count (err e) =
      (e ≡ end_of_stream) × ((i : ℕ) × (i < count) × (cell c (addr + i) ≡ none))
  Reads addr count panic = ⊥
  Reads addr count no_fuel = ⊥

  loop→Reads :
      (addr count : ℕ) (out : List ℕ)
      → length out ≡ count
      → (r : Outcome (List ℕ)) → LoopReads c addr count 0 out r
      → Reads addr count (r >>= λ bytes. ok (addr + count, bytes))
  loop→Reads addr count out e (ok bytes) (l, there, _) =
      (refl, l ∙ e, λ i h. there i h ∙ ap (get_elem? bytes) (omega arith))
  loop→Reads addr count out e (err f) h = h
  loop→Reads addr count out e panic h = h
  loop→Reads addr count out e no_fuel h = h

  -- Of a valid view, `read_bytes` returns the bytes at the `count` addresses from `addr` on, and
  -- moves the address behind them, or answers `EndOfStream` because one of them has no byte. It
  -- does not panic, and its loop ends. The read is of fewer than 2 ^ 31 bytes, as many as
  -- `out_data` has, and keeps one chunk's length off the top of the `u64` addresses.
  pub chunked_read-Reads :
      (addr count : ℕ) (out_data : List ℕ)
      → IsValid c
      → length out_data ≡ count
      → count < 2 ^ 31
      → addr + count + c.chunk_len < 2 ^ 64
      → Reads addr count (chunked_read c addr out_data count)
  unfolding chunked_read
  chunked_read-Reads addr count out_data valid e h k =
      let len = c.chunk_len in
      let whole : addr / len * len + addr % len ≡ addr = div-add-mod' addr len in
      let unwrapped : add64 addr (i32_as_u64 count) ≡ addr + count = ground arith in
      let start : Inv c valid (addr + count) k (addr / len) (addr % len) 0 count out_data = record {
        offset = mod-lt addr valid.positive;
        fits = omega arith;
        small = omega arith;
        ahead = inl (omega arith);
        near = omega arith;
      } in
      let loop =
        subst
          (λ pos.
            LoopReads c pos count 0 out_data
              (read_loop c (addr + count) (count + 2) (addr / len) (addr % len) 0 count out_data))
          whole
          (read_loop-LoopReads c valid (addr + count) k (count + 2) (addr / len) (addr % len) 0
            count out_data (omega arith) start) in
      rw (lt→leb (2 ^ 31) count h, ne→== len 0 (omega arith), unwrapped)
        (loop→Reads addr count out_data e _ loop)
