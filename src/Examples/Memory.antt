-- ===== src/Examples/Memory.antt =====
-- The static and the chunked memory views, on a few bytes.
use mathlib.Core.Path.{subst}
use mizl_h_public.Base.{
  some, none, ℕ, ◌≤◌, ◌<◌, ◌≡◌, ◌⊎◌, refl, [], ◌∷◌, length, get_elem?, ok, arith, Bool-cases, inl,
  inr, ◌==◌,
}
use mizl_h_public.MemView.Codec.{little_endian, big_endian, swap_bytes, to_be_bytes}
use mizl_h_public.MemView.Trait.{encode, read_word, write_word}
use mizl_h_public.MemView.Static.{
  StaticMemView, static_read, static_write, static_reader, static_view,
}
use mizl_h_public.MemView.Static.Laws as StaticLaws
use mizl_h_public.Chunked.{
  ChunkedFreeMemView, FreeMemChunk, new_view, chunked_read, chunked_write, chunked_max_address,
}
use mizl_h_public.Chunked.Cells.{IsValid, cell, AreChunks, IsChunk}
use mizl_h_public.Chunked.Map.{get, insert}
use mizl_h_public.Chunked.Read
use mizl_h_public.Chunked.Write
use mizl_h_public.Chunked.RoundTrip

abbrev six : StaticMemView
six = record { bytes = 1 ∷ 2 ∷ 3 ∷ 4 ∷ 5 ∷ 6 ∷ [] }

-- Little endian is written big endian first.
word_bytes :
    write_word static_view 2 six 1 0x0708 little_endian
    ≡ ok (record { bytes = 1 ∷ 7 ∷ 8 ∷ 4 ∷ 5 ∷ 6 ∷ [] }, 3)
unfolding write_word static_view encode to_be_bytes
word_bytes = refl

static_read-static_write_example :
    (s' : StaticMemView) × (static_write six 1 (7 ∷ 8 ∷ []) ≡ ok (s', 3))
    × (static_read s' 1 (0 ∷ 0 ∷ []) 2 ≡ ok (3, 7 ∷ 8 ∷ []))
    × (length s'.bytes ≡ 6)
    × ((i : ℕ) → (i < 1) ⊎ (3 ≤ i) → get_elem? s'.bytes i ≡ get_elem? six.bytes i)
static_read-static_write_example =
    StaticLaws.static_read-static_write six 1 (7 ∷ 8 ∷ []) (0 ∷ 0 ∷ [])
      (omega arith, omega arith, omega arith) refl

read_word-write_word_example :
    (s' : StaticMemView) × (write_word static_view 2 six 1 0x0708 little_endian ≡ ok (s', 3))
    × (read_word (static_reader s') 2 1 big_endian ≡ ok (3, 0x0708))
    × (read_word (static_reader s') 2 1 little_endian ≡ ok (3, swap_bytes 2 0x0708))
read_word-write_word_example =
    StaticLaws.read_word-write_word six 2 1 0x0708 little_endian
      (omega arith, omega arith, omega arith) (omega arith)

-- Chunks of 4 bytes, of which the second one holds bytes at the addresses 5 and 6.
abbrev second : FreeMemChunk
second = record { range_start = 1; range_len = 2; bytes = 0 ∷ 9 ∷ 8 ∷ 0 ∷ [] }

abbrev two_bytes : ChunkedFreeMemView
two_bytes = record { chunks = (1, second) ∷ []; chunk_len = 4 }

made : chunked_write (new_view 4) 5 (9 ∷ 8 ∷ []) ≡ ok (two_bytes, 7)
unfolding chunked_write get insert
made = refl

two_bytes-AreChunks : AreChunks 4 two_bytes.chunks
unfolding get
two_bytes-AreChunks idx info h = elim (Bool-cases (1 == idx)) [
  | inl e ↦
      let f = rw e at h in
      let same : second ≡ info = cc in
      subst (IsChunk 4) same (record { full = refl; within = omega arith })
  | inr e ↦ let f = rw e at h in absurd (cc)
]

two_bytes-IsValid : IsValid two_bytes
two_bytes-IsValid = record {
  positive = omega arith;
  small = omega arith;
  are_chunks = two_bytes-AreChunks;
}

chunked_read-Reads_example : Read.Reads two_bytes 5 2 (chunked_read two_bytes 5 (0 ∷ 0 ∷ []) 2)
chunked_read-Reads_example =
    Read.chunked_read-Reads two_bytes 5 2 (0 ∷ 0 ∷ []) two_bytes-IsValid refl (omega arith)
      (omega arith)

-- The last byte of the two is at 6, but the end of the chunk is at 8.
end_of_chunk :
    (chunked_max_address two_bytes ≡ ok 8) × (cell two_bytes 6 ≡ some 8) × (cell two_bytes 7 ≡ none)
unfolding chunked_max_address cell get
end_of_chunk = (refl, refl, refl)

-- A write over the end of a chunk.
chunked_write-Writes_example :
    Write.Writes two_bytes 6 (7 ∷ 6 ∷ 5 ∷ []) (chunked_write two_bytes 6 (7 ∷ 6 ∷ 5 ∷ []))
chunked_write-Writes_example =
    Write.chunked_write-Writes two_bytes 6 (7 ∷ 6 ∷ 5 ∷ []) two_bytes-IsValid (omega arith)
      (omega arith)

chunked_read-chunked_write_example :
    (c' : ChunkedFreeMemView) × (chunked_write two_bytes 6 (7 ∷ 6 ∷ 5 ∷ []) ≡ ok (c', 9))
    × (chunked_read c' 6 (0 ∷ 0 ∷ 0 ∷ []) 3 ≡ ok (9, 7 ∷ 6 ∷ 5 ∷ []))
chunked_read-chunked_write_example =
    RoundTrip.chunked_read-chunked_write two_bytes 6 (7 ∷ 6 ∷ 5 ∷ []) (0 ∷ 0 ∷ 0 ∷ [])
      two_bytes-IsValid refl (omega arith) (omega arith)
