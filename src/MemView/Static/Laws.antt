-- ===== src/MemView/Static/Laws.antt =====
-- What the reads and writes of `StaticMemView` promise, and where words come back swapped.
use mathlib.Core.Path.{subst}
use mizl_h_public.Base.{
  ℕ, ◌+◌, ◌^◌, ◌≤◌, ◌<◌, ◌≡◌, refl, ap, ◌∙◌, ◌⊎◌, inl, inr, List, length, get_elem?, overwrite,
  slice, slice-overwrite, length-overwrite, get_elem?-overwrite_lt, get_elem?-overwrite_ge, arith,
  replicate, length-replicate, ok, err, end_of_stream,
}
use mizl_h_public.MemView.Codec.{
  Endianness, little_endian, big_endian, to_le_bytes, to_be_bytes, swap_bytes, from_be_bytes,
  from_be_bytes-to_be_bytes, from_le_bytes-to_le_bytes, length-to_le_bytes, length-reverse,
}
use mizl_h_public.MemView.Trait.{read_word, write_word, encode, decode}
use mizl_h_public.MemView.Static.{
  StaticMemView, static_read, static_write, static_reader, static_view,
}

abbrev Fits : StaticMemView → ℕ → ℕ → Type 0
Fits s addr n = (addr + n < length s.bytes) × (length s.bytes < 2 ^ 63) × (n < 2 ^ 31)

abbrev written : StaticMemView → ℕ → List ℕ → StaticMemView
written s addr value = record { bytes = overwrite s.bytes addr value }

pub static_write-written :
    (s : StaticMemView) (addr : ℕ) (value : List ℕ)
    → Fits s addr (length value)
    → static_write s addr value ≡ ok (written s addr value, addr + length value)
unfolding static_write
static_write-written s addr value h = ground arith

pub static_read-slice :
    (s : StaticMemView) (addr : ℕ) (out_data : List ℕ) (n : ℕ)
    → Fits s addr n
    → length out_data ≡ n
    → static_read s addr out_data n ≡ ok (addr + n, slice s.bytes addr (addr + n))
unfolding static_read
static_read-slice s addr out_data n h e = ground arith

-- Bytes that are written below the last byte of the view are read back from the same address, both
-- calls move the address behind them, and every other byte and the length stay as they were. (For
-- fewer than 2 ^ 31 bytes, in a view of fewer than 2 ^ 63, and as many bytes read as written.)
pub static_read-static_write :
    (s : StaticMemView) (addr : ℕ) (value out_data : List ℕ)
    → Fits s addr (length value)
    → length out_data ≡ length value
    → (s' : StaticMemView) × (static_write s addr value ≡ ok (s', addr + length value))
      × (static_read s' addr out_data (length value) ≡ ok (addr + length value, value))
      × (length s'.bytes ≡ length s.bytes)
      × ((i : ℕ)
          → (i < addr) ⊎ (addr + length value ≤ i)
          → get_elem? s'.bytes i ≡ get_elem? s.bytes i)
static_read-static_write s addr value out_data h e =
    let same = length-overwrite s.bytes addr value (omega arith) in
    (
      written s addr value,
      static_write-written s addr value h,
      static_read-slice (written s addr value) addr out_data (length value) (rw same h) e
          ∙ ap (λ (l : List ℕ). ok (addr + length value, l))
              (slice-overwrite s.bytes addr value (omega arith)),
      same,
      λ i. elim [
        | inl before ↦ get_elem?-overwrite_lt s.bytes addr i value before (omega arith)
        | inr behind ↦ get_elem?-overwrite_ge s.bytes addr i value behind (omega arith)
      ],
    )

module _ (s : StaticMemView) (addr n : ℕ) (value : List ℕ) where
  static_write-length :
      Fits s addr n
      → length value ≡ n
      → static_write s addr value ≡ ok (written s addr value, addr + n)
  static_write-length h m = ground (arith, static_write-written s addr value)

  static_read-written :
      Fits s addr n
      → length value ≡ n
      → static_read (written s addr value) addr (replicate n 0) n ≡ ok (addr + n, value)
  static_read-written h m =
      let same = length-overwrite s.bytes addr value (omega arith) in
      let whole = slice-overwrite s.bytes addr value (omega arith) in
      static_read-slice (written s addr value) addr (replicate n 0) n (omega (arith, same))
        (length-replicate n 0)
      ∙ ap (λ (l : List ℕ). ok (addr + n, l))
          (subst (λ k. slice (written s addr value).bytes addr (addr + k) ≡ value) m whole)

abbrev pub opposite : Endianness → Endianness
opposite little_endian = big_endian
opposite big_endian = little_endian

module _ (n v : ℕ) where
  length-encode : (e : Endianness) → length (encode e n v) ≡ n
  unfolding encode to_be_bytes
  length-encode little_endian = length-reverse (to_le_bytes n v) ∙ length-to_le_bytes n v
  length-encode big_endian = length-to_le_bytes n v

  decode-encode-opposite : (e : Endianness) → v < 256 ^ n → decode (opposite e) (encode e n v) ≡ v
  unfolding encode decode
  decode-encode-opposite little_endian h = from_be_bytes-to_be_bytes n v h
  decode-encode-opposite big_endian h = from_le_bytes-to_le_bytes n v h

  decode-encode_same : (e : Endianness) → decode e (encode e n v) ≡ swap_bytes n v
  unfolding encode decode swap_bytes from_be_bytes to_be_bytes
  decode-encode_same e = decoded e
    where
      decoded : (e : Endianness) → decode e (encode e n v) ≡ swap_bytes n v
      decoded little_endian = refl
      decoded big_endian = refl

-- A word of `n` bytes that is written under one byte order is read back from the same address as
-- the same word under the other byte order, and with its bytes swapped under the same one. (For a
-- word below the last byte of the view, which has fewer than 2 ^ 63 bytes.)
pub read_word-write_word :
    (s : StaticMemView) (n addr v : ℕ) (e : Endianness)
    → Fits s addr n
    → v < 256 ^ n
    → (s' : StaticMemView) × (write_word static_view n s addr v e ≡ ok (s', addr + n))
      × (read_word (static_reader s') n addr (opposite e) ≡ ok (addr + n, v))
      × (read_word (static_reader s') n addr e ≡ ok (addr + n, swap_bytes n v))
unfolding read_word write_word static_view static_reader
read_word-write_word s n addr v e h hv =
    let value = encode e n v in
    let m = length-encode n v e in
    let back = static_read-written s addr n value h m in
    (
      written s addr value,
      static_write-length s addr n value h m,
      rw back (ap (λ (w : ℕ). ok (addr + n, w)) (decode-encode-opposite n v e hv)),
      rw back (ap (λ (w : ℕ). ok (addr + n, w)) (decode-encode_same n v e)),
    )

-- A read that ends at `max_address`, such as a read of the whole view or of its last byte, is
-- refused as being past the end, although `max_address` is the address behind the last byte. (For a
-- read of fewer than 2 ^ 31 bytes.)
pub static_read-max_address :
    (s : StaticMemView) (addr n : ℕ) (out_data : List ℕ)
    → addr + n < 2 ^ 64
    → n < 2 ^ 31
    → (static_reader s).max_address ≡ ok (addr + n)
    → static_read s addr out_data n ≡ err end_of_stream
unfolding static_reader static_read
static_read-max_address s addr n out_data h k e = ground arith
