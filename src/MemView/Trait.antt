-- ===== src/MemView/Trait.antt =====
-- The trait `MemView` of mizl_core/src/memory/memview.rs: its required methods as a record, its
-- provided methods as functions over it. An address that a method moves is passed and returned.
use mizl_h_public.Base.{ℕ, Bool, List, [], ◌∷◌, get_or, replicate, Outcome, ok, ◌>>=◌}
use mizl_h_public.MemView.Codec.{
  Endianness, little_endian, big_endian, to_le_bytes, to_be_bytes, from_le_bytes, from_be_bytes,
}

-- The methods on `&self`, of a view in one state. `read_bytes addr out_data count` returns the
-- address moved and `out_data` filled.
pub record MemReader : Type 0 where
  pub read_bytes : ℕ → List ℕ → ℕ → Outcome (ℕ × List ℕ)
  pub max_address : Outcome ℕ
  pub can_read_while_running : Bool
  pub can_write_while_running : Bool

-- The trait, for a view whose states are `S`.
pub record MemView (S : Type 0) : Type 0 where
  pub reader : S → MemReader
  pub write_bytes : S → ℕ → List ℕ → Outcome (S × ℕ)

-- `if endian == Endianness::LittleEndian { from_le_bytes(bytes) } else { from_be_bytes(bytes) }`
unfoldable pub decode : Endianness → List ℕ → ℕ
decode little_endian bytes = from_le_bytes bytes
decode big_endian bytes = from_be_bytes bytes

-- `if endian == Endianness::LittleEndian { to_be_bytes(value) } else { to_le_bytes(value) }`
unfoldable pub encode : Endianness → ℕ → ℕ → List ℕ
encode little_endian n value = to_be_bytes n value
encode big_endian n value = to_le_bytes n value

module _ (r : MemReader) where
  -- `read_u16`, `read_u32` and so on, for a word of `n` bytes.
  unfoldable pub read_word : ℕ → ℕ → Endianness → Outcome (ℕ × ℕ)
  read_word n addr endian = do
    (addr', bytes) ← r.read_bytes addr (replicate n 0) n
    ok (addr', decode endian bytes)

  unfoldable pub read_u8 : ℕ → Outcome (ℕ × ℕ)
  read_u8 addr = do (addr', bytes) ← r.read_bytes addr (0 ∷ []) 1; ok (addr', get_or bytes 0 0)

  unfoldable pub read_i8 : ℕ → Outcome (ℕ × ℕ)
  unfolding read_u8
  read_i8 addr = read_u8 addr

  unfoldable pub read_u16 : ℕ → Endianness → Outcome (ℕ × ℕ)
  unfolding read_word
  read_u16 addr endian = read_word 2 addr endian

  unfoldable pub read_u32 : ℕ → Endianness → Outcome (ℕ × ℕ)
  unfolding read_word
  read_u32 addr endian = read_word 4 addr endian

  unfoldable pub read_u64 : ℕ → Endianness → Outcome (ℕ × ℕ)
  unfolding read_word
  read_u64 addr endian = read_word 8 addr endian

  unfoldable pub read_i16 : ℕ → Endianness → Outcome (ℕ × ℕ)
  unfolding read_word
  read_i16 addr endian = read_word 2 addr endian

  unfoldable pub read_i32 : ℕ → Endianness → Outcome (ℕ × ℕ)
  unfolding read_word
  read_i32 addr endian = read_word 4 addr endian

  unfoldable pub read_i64 : ℕ → Endianness → Outcome (ℕ × ℕ)
  unfolding read_word
  read_i64 addr endian = read_word 8 addr endian

  unfoldable pub read_f32 : ℕ → Endianness → Outcome (ℕ × ℕ)
  unfolding read_word
  read_f32 addr endian = read_word 4 addr endian

  unfoldable pub read_f64 : ℕ → Endianness → Outcome (ℕ × ℕ)
  unfolding read_word
  read_f64 addr endian = read_word 8 addr endian

module _ {S : Type 0} (mv : MemView S) where
  -- `write_u16`, `write_u32` and so on.
  unfoldable pub write_word : ℕ → S → ℕ → ℕ → Endianness → Outcome (S × ℕ)
  write_word n s addr value endian = mv.write_bytes s addr (encode endian n value)

  unfoldable pub write_u8 : S → ℕ → ℕ → Outcome (S × ℕ)
  write_u8 s addr value = mv.write_bytes s addr (value ∷ [])

  unfoldable pub write_i8 : S → ℕ → ℕ → Outcome (S × ℕ)
  write_i8 s addr value = mv.write_bytes s addr (value ∷ [])

  unfoldable pub write_u16 : S → ℕ → ℕ → Endianness → Outcome (S × ℕ)
  unfolding write_word
  write_u16 s addr value endian = write_word 2 s addr value endian

  unfoldable pub write_u32 : S → ℕ → ℕ → Endianness → Outcome (S × ℕ)
  unfolding write_word
  write_u32 s addr value endian = write_word 4 s addr value endian

  unfoldable pub write_u64 : S → ℕ → ℕ → Endianness → Outcome (S × ℕ)
  unfolding write_word
  write_u64 s addr value endian = write_word 8 s addr value endian

  unfoldable pub write_i16 : S → ℕ → ℕ → Endianness → Outcome (S × ℕ)
  unfolding write_word
  write_i16 s addr value endian = write_word 2 s addr value endian

  unfoldable pub write_i32 : S → ℕ → ℕ → Endianness → Outcome (S × ℕ)
  unfolding write_word
  write_i32 s addr value endian = write_word 4 s addr value endian

  unfoldable pub write_i64 : S → ℕ → ℕ → Endianness → Outcome (S × ℕ)
  unfolding write_word
  write_i64 s addr value endian = write_word 8 s addr value endian

  unfoldable pub write_f32 : S → ℕ → ℕ → Endianness → Outcome (S × ℕ)
  unfolding write_word
  write_f32 s addr value endian = write_word 4 s addr value endian

  unfoldable pub write_f64 : S → ℕ → ℕ → Endianness → Outcome (S × ℕ)
  unfolding write_word
  write_f64 s addr value endian = write_word 8 s addr value endian
