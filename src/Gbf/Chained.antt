-- ===== src/Gbf/Chained.antt =====
-- A buffer that is spread over the blocks of the file:
-- mizl_core/src/database/gbf_chained_buf_memview.rs.
pub mod Laws
use Prim.Native.Nat.{bit_xor}
use mizl_h_public.Base.{
  ℕ, zero, suc, ◌+◌, ◌-◌, ◌*◌, ◌/◌, ◌%◌, ◌^◌, min, Bool, true, false, not, ◌&&◌, List, [], ◌∷◌,
  ◌++◌, Option, none, some, length, get_elem?, get_or, slice, overwrite, replicate, ltb, leb, ◌==◌,
  if◌then◌else◌, add64, sub64, add32, sub32, i32_as_u64, lt_i32, u32_mod, Outcome, ok, err, panic,
  no_fuel, generic, end_of_stream, ◌>>=◌,
}
use mizl_h_public.MemView.Codec.{big_endian}
use mizl_h_public.MemView.Trait.{MemReader, read_u8, read_u32, read_i32}
use mizl_h_public.Gbf.File.{GbfFile, get_buffer_address, get_buffer_size}
use mizl_h_public.Gbf.File.NodeKind.{chained_buffer_index, chained_buffer_data}

pub record GbfChainedBufMemView : Type 0 where
  pub gbf : GbfFile
  pub buffer_size : ℕ
  pub obfuscated : Bool
  pub index_map : List ℕ
  pub buffer_map : List ℕ

abbrev pub xor_mask_bytes : List ℕ
xor_mask_bytes =
    0x59 ∷ 0xea ∷ 0x67 ∷ 0x23 ∷ 0xda ∷ 0xb8 ∷ 0x00 ∷ 0xb8 ∷ 0xc3 ∷ 0x48 ∷ 0xdd ∷ 0x8b ∷ 0x21 ∷ 0xd6
    ∷ 0x94 ∷ 0x78 ∷ 0x35 ∷ 0xab ∷ 0x2b ∷ 0x7e ∷ 0xb2 ∷ 0x4f ∷ 0x82 ∷ 0x4e ∷ 0x0e ∷ 0x16 ∷ 0xc4
    ∷ 0x57 ∷ 0x12 ∷ 0x8e ∷ 0x7e ∷ 0xe6 ∷ 0xb6 ∷ 0xbd ∷ 0x56 ∷ 0x91 ∷ 0x57 ∷ 0x72 ∷ 0xe6 ∷ 0x91
    ∷ 0xdc ∷ 0x52 ∷ 0x2e ∷ 0xf2 ∷ 0x1a ∷ 0xb7 ∷ 0xd6 ∷ 0x6f ∷ 0xda ∷ 0xde ∷ 0xe8 ∷ 0x48 ∷ 0xb1
    ∷ 0xbb ∷ 0x50 ∷ 0x6f ∷ 0xf4 ∷ 0xdd ∷ 0x11 ∷ 0xee ∷ 0xf2 ∷ 0x67 ∷ 0xfe ∷ 0x48 ∷ 0x8d ∷ 0xae
    ∷ 0x69 ∷ 0x1a ∷ 0xe0 ∷ 0x26 ∷ 0x8c ∷ 0x24 ∷ 0x8e ∷ 0x17 ∷ 0x76 ∷ 0x51 ∷ 0xe2 ∷ 0x60 ∷ 0xd7
    ∷ 0xe6 ∷ 0x83 ∷ 0x65 ∷ 0xd5 ∷ 0xf0 ∷ 0x7f ∷ 0xf2 ∷ 0xa0 ∷ 0xd6 ∷ 0x4b ∷ 0xbd ∷ 0x24 ∷ 0xd8
    ∷ 0xab ∷ 0xea ∷ 0x9e ∷ 0xa6 ∷ 0x48 ∷ 0x94 ∷ 0x3e ∷ 0x7b ∷ 0x2c ∷ 0xf4 ∷ 0xce ∷ 0xdc ∷ 0x69
    ∷ 0x11 ∷ 0xf8 ∷ 0x3c ∷ 0xa7 ∷ 0x3f ∷ 0x5d ∷ 0x77 ∷ 0x94 ∷ 0x3f ∷ 0xe4 ∷ 0x8e ∷ 0x48 ∷ 0x20
    ∷ 0xdb ∷ 0x56 ∷ 0x32 ∷ 0xc1 ∷ 0x87 ∷ 0x01 ∷ 0x2e ∷ 0xe3 ∷ 0x7f ∷ 0x40 ∷ []

abbrev pub is_empty : List ℕ → Bool
is_empty [] = true
is_empty (x ∷ xs) = false

-- An indexed chain's data has no length in front of it.
unfoldable pub get_chain_data_prefix_len : Bool → ℕ
get_chain_data_prefix_len is_indexed = if is_indexed then 1 else 5

module _ (gbf : GbfFile) (index_count indexes_per_buffer : ℕ) where
  -- The indices that one buffer of the index lists: what is pushed, the address behind it, and
  -- `cur_index`. A round ends at `indexes_per_buffer`, or with the last index.
  unfoldable pub read_indexes : ℕ → ℕ → ℕ → ℕ → Outcome (List ℕ × ℕ × ℕ)
  unfolding read_i32
  read_indexes zero at cur_index cur_buffer_index = no_fuel
  read_indexes (suc fuel) at cur_index cur_buffer_index =
      let pushed = (do
        (at', id) ← read_i32 gbf.mv at big_endian
        (ids, at'', cur') ← read_indexes fuel at' (add64 cur_index 1) (add64 cur_buffer_index 1)
        ok (id ∷ ids, at'', cur')) in
      if ltb cur_index index_count && ltb cur_buffer_index indexes_per_buffer
      then pushed
      else ok ([], at, cur_index)

  -- The buffers of the index, one round for each. The model's fuel bounds the rounds: where a
  -- buffer holds no index, the program does not end.
  unfoldable pub read_index_buffers : ℕ → ℕ → ℕ → List ℕ → List ℕ → Outcome (List ℕ × List ℕ)
  unfolding read_i32 read_indexes get_buffer_address
  read_index_buffers zero at cur_index index_map buffer_map = no_fuel
  read_index_buffers (suc fuel) at cur_index index_map buffer_map =
      let round : Outcome (List ℕ × List ℕ) =
        (read_i32 gbf.mv at big_endian >>= λ (r : ℕ × ℕ).
        read_indexes (index_count + 1) r.0 cur_index 0 >>= λ (s : List ℕ × ℕ × ℕ).
        if s.2 == max_index
        then read_index_buffers fuel s.1 s.2 index_map (buffer_map ++ s.0)
        else read_index_buffers fuel (add64 (get_buffer_address gbf r.1) 9) s.2
            (index_map ++ (r.1 ∷ [])) (buffer_map ++ s.0)) in
      if ltb cur_index index_count then round else ok (index_map, buffer_map)
    where
      -- `std::cmp::max(index_count - 1, 0)`
      max_index : ℕ
      max_index = sub64 index_count 1

unfoldable pub new : ℕ → GbfFile → ℕ → Outcome GbfChainedBufMemView
unfolding get_buffer_address read_u8 read_u32 get_buffer_size get_chain_data_prefix_len
    read_index_buffers
new fuel gbf nid = do
  (at1, node_kind) ← read_u8 gbf.mv (get_buffer_address gbf nid)
  (at2, obf_buffer_size) ← read_u32 gbf.mv at1 big_endian
  let buffer_size = obf_buffer_size % 2 ^ 31
  let obfuscated = leb (2 ^ 31) obf_buffer_size
  let chain_data_len = sub64 (get_buffer_size gbf) (get_chain_data_prefix_len true)
  let index_count = add64 (sub64 buffer_size 1 / chain_data_len) 1
  let indexes_per_buffer = sub64 (get_buffer_size gbf) 9 / 4
  let single : GbfChainedBufMemView = record {
    gbf = gbf;
    buffer_size = buffer_size;
    obfuscated = obfuscated;
    index_map = [];
    buffer_map = nid ∷ [];
  }
  let index : Outcome GbfChainedBufMemView =
      (read_index_buffers gbf index_count indexes_per_buffer fuel at2 0 (nid ∷ []) []
        >>= λ (r : List ℕ × List ℕ). ok (record single { index_map = r.0; buffer_map = r.1 }))
  if node_kind == chained_buffer_data
      then ok single
      else if node_kind == chained_buffer_index
      then if chain_data_len == 0 then panic else index
      else err (generic "unexpected block id {} while reading chained buffer" (node_kind ∷ []))

-- The bytes from mask index `xor_idx` on, which starts again behind the last one.
unfoldable pub decrypt : ℕ → List ℕ → List ℕ
decrypt xor_idx [] = []
decrypt xor_idx (b ∷ bs) =
    let next = xor_idx + 1 in
    bit_xor b (get_or xor_mask_bytes xor_idx 0) ∷ decrypt (if next == 128 then 0 else next) bs

module _ (v : GbfChainedBufMemView) where
  abbrev pub is_indexed : Bool
  is_indexed = not (is_empty v.index_map)

  unfoldable pub get_chain_data_len : ℕ
  unfolding get_buffer_size get_chain_data_prefix_len
  get_chain_data_len = sub64 (get_buffer_size v.gbf) (get_chain_data_prefix_len is_indexed)

  -- The bytes of one buffer, decrypted.
  unfoldable pub buffer_bytes : ℕ → ℕ → ℕ → Outcome (List ℕ)
  unfolding get_buffer_address get_chain_data_prefix_len decrypt
  buffer_bytes buffer_id buffer_offset read_len = do
    let read_addr =
        add64 (get_buffer_address v.gbf buffer_id) (get_chain_data_prefix_len is_indexed)
    (at, bytes) ← v.gbf.mv.read_bytes read_addr (replicate read_len 0) (read_len % u32_mod)
    ok (if v.obfuscated then decrypt (buffer_offset % 128) bytes else bytes)

  -- What is written into `out_data`, for the buffer at an index of the map. An uninitialised buffer
  -- is zeros. An index out of range panics, and so does a slice.
  unfoldable pub fill : ℕ → List ℕ → ℕ → ℕ → Option ℕ → Outcome (List ℕ × ℕ)
  unfolding buffer_bytes
  fill buffer_offset out_data out_offset read_len none = panic
  fill buffer_offset out_data out_offset read_len (some buffer_id) =
      let read = buffer_bytes buffer_id buffer_offset read_len in
      (if not (leb (out_offset + read_len) (length out_data))
        then panic
        else if lt_i32 buffer_id 0
        then ok (replicate read_len 0)
        else read)
      >>= λ bytes. ok (overwrite out_data out_offset bytes, read_len % u32_mod)

  -- `out_data` filled from `out_offset` on, and how far. The bytes are read from the start of the
  -- buffer's data, wherever `buffer_offset` is.
  unfoldable pub read_bytes_from_buffer : ℕ → ℕ → List ℕ → ℕ → ℕ → Outcome (List ℕ × ℕ)
  unfolding get_chain_data_len fill
  read_bytes_from_buffer buffer_index buffer_offset out_data out_offset len =
      fill buffer_offset out_data out_offset
        (min (sub64 get_chain_data_len buffer_offset) (i32_as_u64 len))
        (get_elem? v.buffer_map (i32_as_u64 buffer_index))

  -- while len > 0 { .. }
  unfoldable pub read_loop : ℕ → ℕ → ℕ → ℕ → ℕ → ℕ → List ℕ → Outcome (ℕ × List ℕ)
  unfolding read_bytes_from_buffer
  read_loop zero index addr out_data_offset len buffer_data_offset out_data = no_fuel
  read_loop (suc fuel) index addr out_data_offset len buffer_data_offset out_data =
      let round = (do
        (out', n) ← read_bytes_from_buffer index buffer_data_offset out_data out_data_offset len
        read_loop fuel (add32 index 1) (add64 addr (i32_as_u64 n))
            (add64 out_data_offset (i32_as_u64 n)) (sub32 len n) 0 out') in
      if lt_i32 0 len then round else ok (addr, out_data)

  -- The test for the end of the buffer is first, and takes a negative count for a large one.
  unfoldable pub chained_read : ℕ → List ℕ → ℕ → Outcome (ℕ × List ℕ)
  unfolding get_chain_data_len read_loop
  chained_read addr out_data count =
      let run =
        read_loop (count + 1) (addr / get_chain_data_len % u32_mod) addr 0 count
          (addr % get_chain_data_len) out_data in
      if leb (i32_as_u64 v.buffer_size) (sub64 (add64 addr (i32_as_u64 count)) 1)
      then err end_of_stream
      else if lt_i32 count 0
      then ok (addr, out_data)
      else if get_chain_data_len == 0
      then panic
      else run

-- The trait's methods on `&self`. A write panics.
unfoldable pub chained_reader : GbfChainedBufMemView → MemReader
unfolding chained_read
chained_reader v = record {
  read_bytes = chained_read v;
  max_address = ok (i32_as_u64 v.buffer_size);
  can_read_while_running = true;
  can_write_while_running = true;
}
