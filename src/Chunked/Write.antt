-- ===== src/Chunked/Write.antt =====
-- Writing to the chunks: the bytes stand at the addresses from `addr` on, and no other byte that
-- was there is lost.
use native.Mathlib.Nat.{mod-lt, div-add-mod'}
use mathlib.Core.Path.{subst}
use mizl_h_public.Base.{
  ℕ, ◌+◌, ◌*◌, ◌/◌, ◌%◌, ◌^◌, ◌≤◌, ◌<◌, ◌≡◌, refl, ap, ◌∙◌, ◌⊎◌, inl, List, some, length, get_elem?,
  arith, Outcome, ok, err, panic, no_fuel, ◌>>=◌, add64, le→ltb, ne→==,
}
use mizl_h_public.Chunked.{FreeMemChunk, ChunkedFreeMemView, write_loop, chunked_write}
use mizl_h_public.Chunked.Cells.{cell, IsValid}
use mizl_h_public.Chunked.WriteLoop.{LoopWrites, write_loop-LoopWrites, Inv}

-- The outcome of `write_bytes`: the address behind the bytes, and a view that holds them.
abbrev pub Writes : ChunkedFreeMemView → ℕ → List ℕ → Outcome (ChunkedFreeMemView × ℕ) → Type 0
Writes c addr value (ok (c', addr')) =
    (addr' ≡ addr + length value)
    × IsValid c'
    × (c'.chunk_len ≡ c.chunk_len)
    × ((i : ℕ) → i < length value → cell c' (addr + i) ≡ get_elem? value i)
    × ((x b : ℕ) → (x < addr) ⊎ (addr + length value ≤ x) → cell c x ≡ some b → cell c' x ≡ some b)
Writes c addr value (err e) = ⊥
Writes c addr value panic = ⊥
Writes c addr value no_fuel = ⊥

loop→Writes :
    (c : ChunkedFreeMemView) (addr : ℕ) (value : List ℕ)
    → IsValid c
    → (r : Outcome (List (ℕ × FreeMemChunk)))
    → LoopWrites c.chunk_len value addr (length value) 0 c.chunks r
    → Writes c addr value (r >>= λ m. ok (record c { chunks = m }, addr + length value))
loop→Writes c addr value v (ok m) (chunks, there, kept) = (
  refl,
  record { positive = v.positive; small = v.small; are_chunks = chunks },
  refl,
  λ i h. there i h ∙ ap (get_elem? value) (omega arith),
  kept,
)
loop→Writes c addr value v (err e) h = h
loop→Writes c addr value v panic h = h
loop→Writes c addr value v no_fuel h = h

-- To a valid view, `write_bytes` writes all bytes from `addr` on, moves the address behind them and
-- leaves a valid view. Every byte at another address stays. It does not panic, and its loop ends.
-- The write is of fewer than 2 ^ 31 bytes, and keeps one chunk's length off the top of the `u64`
-- addresses.
pub chunked_write-Writes :
    (c : ChunkedFreeMemView) (addr : ℕ) (value : List ℕ)
    → IsValid c
    → length value < 2 ^ 31
    → addr + length value + c.chunk_len < 2 ^ 64
    → Writes c addr value (chunked_write c addr value)
unfolding chunked_write
chunked_write-Writes c addr value valid h k =
    let len = c.chunk_len in
    let count = length value in
    let whole : addr / len * len + addr % len ≡ addr = div-add-mod' addr len in
    let unwrapped : add64 addr count ≡ addr + count = omega arith in
    let start : Inv len value (addr + count) k valid.positive valid.small h (addr / len)
        (addr % len) 0 count c.chunks =
      record {
        offset = mod-lt addr valid.positive;
        fits = omega arith;
        ahead = inl (omega arith);
        near = omega arith;
        chunks = valid.are_chunks;
      } in
    let loop =
      subst
        (λ pos. LoopWrites len value pos count 0 c.chunks (
          write_loop len value (addr + count) (count + 2) (addr / len) (addr % len) 0 count
            c.chunks))
        whole
        (write_loop-LoopWrites len value (addr + count) k valid.positive valid.small h (count + 2)
          (addr / len) (addr % len) 0 count c.chunks (omega arith) start) in
    rw (le→ltb 0x7fff_ffff count (omega arith), ne→== len 0 (omega arith), unwrapped)
      (loop→Writes c addr value valid _ loop)
