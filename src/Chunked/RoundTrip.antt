-- ===== src/Chunked/RoundTrip.antt =====
-- Reading back what was written, and `max_address` over the bytes that are there.
use mizl_h_public.Base.{
  ℕ, ◌+◌, ◌^◌, ◌<◌, ◌≡◌, refl, ap, sym, ◌∙◌, List, none, length, get_elem?, Outcome, ok, err, panic,
  no_fuel, get_elem?-some, get_elem?-ext, arith,
}
use mizl_h_public.Chunked.{
  ChunkedFreeMemView, chunked_read, chunked_write, chunked_max_address, new_view,
}
use mizl_h_public.Chunked.Map.{get}
use mizl_h_public.Chunked.Cells.{cell, IsValid}
use mizl_h_public.Chunked.Read.{Reads, chunked_read-Reads}
use mizl_h_public.Chunked.Write.{Writes, chunked_write-Writes}

module _ (c : ChunkedFreeMemView) (addr : ℕ) (value : List ℕ) where
  Reads→eq :
      ((i : ℕ) → i < length value → cell c (addr + i) ≡ get_elem? value i)
      → (r : Outcome (ℕ × List ℕ)) → Reads c addr (length value) r
      → r ≡ ok (addr + length value, value)
  Reads→eq here (ok (addr', bytes)) (a, l, there) =
      let same : bytes ≡ value =
        get_elem?-ext bytes value l (λ i h. sym (there i (omega arith)) ∙ here i (omega arith)) in
      cc
  Reads→eq here (err e) (_, (i, h, gone)) =
      let w = get_elem?-some value i 0 h in let v = here i h in absurd (cc)
  Reads→eq here panic bad = absurd bad
  Reads→eq here no_fuel bad = absurd bad

-- The bytes written to a valid view at an address are read back from it, and both calls succeed and
-- move the address behind them. (A read of as many bytes as were written, fewer than 2 ^ 31, that
-- keep one chunk's length off the top of the `u64` addresses.)
pub chunked_read-chunked_write :
    (c : ChunkedFreeMemView) (addr : ℕ) (value out_data : List ℕ)
    → IsValid c
    → length out_data ≡ length value
    → length value < 2 ^ 31
    → addr + length value + c.chunk_len < 2 ^ 64
    → (c' : ChunkedFreeMemView) × (chunked_write c addr value ≡ ok (c', addr + length value))
      × (chunked_read c' addr out_data (length value) ≡ ok (addr + length value, value))
chunked_read-chunked_write c addr value out_data valid e h k =
    written (chunked_write c addr value) refl (chunked_write-Writes c addr value valid h k)
  where
    written :
        (r : Outcome (ChunkedFreeMemView × ℕ))
        → chunked_write c addr value ≡ r
        → Writes c addr value r
        → (c' : ChunkedFreeMemView) × (chunked_write c addr value ≡ ok (c', addr + length value))
          × (chunked_read c' addr out_data (length value) ≡ ok (addr + length value, value))
    written (ok (c', addr')) q (a, valid', l, here, _) = (
      c',
      q ∙ ap (λ (x : ℕ). ok (c', x)) a,
      Reads→eq c' addr value here _
          (chunked_read-Reads c' addr (length value) out_data valid' e h (omega (arith, l))),
    )
    written (err f) q bad = absurd bad
    written panic q bad = absurd bad
    written no_fuel q bad = absurd bad

-- A view with no chunk in it has no byte, and its `max_address` is the length of a chunk, which is
-- one that fits a `u64`.
pub chunked_max_address-new_view :
    (chunk_len : ℕ)
    → chunk_len < 2 ^ 64
    → (chunked_max_address (new_view chunk_len) ≡ ok chunk_len)
      × ((x : ℕ) → cell (new_view chunk_len) x ≡ none)
unfolding chunked_max_address cell get
chunked_max_address-new_view chunk_len h = (ap ok (omega arith), λ x. refl)
