-- ===== src/Chunked.antt =====
-- `ChunkedFreeMemView` of mizl_core/src/debugger/chunked_free_memview.rs: memory kept in chunks of
-- one length, each with the range of it that has been written. The hash map is an association list.
pub mod Map
pub mod Cells
mod ReadSteps
mod ReadLoop
pub mod Read
mod Patch
mod WriteLoop
pub mod Write
pub mod RoundTrip
use mizl_h_public.Base.{
  ℕ, zero, suc, ◌+◌, ◌-◌, ◌*◌, ◌/◌, ◌%◌, ◌^◌, ◌≤◌, ◌<◌, min, Bool, true, false, List, [], ◌∷◌, ◌&&◌,
  ◌||◌, Option, none, some, length, slice, overwrite, replicate, ltb, leb, ◌==◌, if◌then◌else◌,
  add64, sub64, mul64, sub32, i32_as_u64, Outcome, ok, err, panic, no_fuel, ◌>>=◌, end_of_stream,
  generic,
}
use mizl_h_public.Chunked.Map.{get, insert}
use mizl_h_public.MemView.Trait.{MemReader, MemView}

pub record FreeMemChunk : Type 0 where
  pub range_start : ℕ
  pub range_len : ℕ
  pub bytes : List ℕ

pub record ChunkedFreeMemView : Type 0 where
  pub chunks : List (ℕ × FreeMemChunk)
  pub chunk_len : ℕ

abbrev pub new_chunk : ℕ → ℕ → ℕ → FreeMemChunk
new_chunk range_start range_len len = record {
  range_start = range_start;
  range_len = range_len;
  bytes = replicate len 0;
}

abbrev pub new_view : ℕ → ChunkedFreeMemView
new_view chunk_len = record { chunks = []; chunk_len = chunk_len }

module _ (c : ChunkedFreeMemView) (end_addr : ℕ) where
  -- The loop of `read_bytes`: it returns `out_data`.
  unfoldable pub read_loop : ℕ → ℕ → ℕ → ℕ → ℕ → List ℕ → Outcome (List ℕ)
  read_loop zero idx off dst count out_data = no_fuel
  read_loop (suc fuel) idx off dst count out_data =
      let body : Outcome (List ℕ) = elim (get idx c.chunks) [
        | none ↦ err end_of_stream
        | some info ↦
            let n = min (sub64 c.chunk_len off) (i32_as_u64 count) in
            let chunk_end = add64 off n in
            let rest =
              read_loop fuel (add64 idx 1) 0 (add64 dst n) (sub32 count n)
                (overwrite out_data dst (slice info.bytes off chunk_end)) in
            if ltb off info.range_start || ltb (add64 info.range_start info.range_len) chunk_end
            then err end_of_stream
            else if leb off chunk_end
                && leb chunk_end (length info.bytes)
                && leb (add64 dst n) (length out_data)
            then rest
            else panic
      ] in
      if leb end_addr (add64 (mul64 idx c.chunk_len) off) then ok out_data else body

-- A division by the chunk length 0 panics. Each round but the last reads a byte at least, so
-- `count + 2` rounds are enough.
unfoldable pub chunked_read : ChunkedFreeMemView → ℕ → List ℕ → ℕ → Outcome (ℕ × List ℕ)
unfolding read_loop
chunked_read c addr out_data count =
    let end_addr = add64 addr (i32_as_u64 count) in
    let run = (do
      bytes ←
          read_loop c end_addr (count + 2) (addr / c.chunk_len) (addr % c.chunk_len) 0 count
            out_data
      ok (end_addr, bytes)) in
    if leb (2 ^ 31) count then ok (addr, out_data) else if c.chunk_len == 0 then panic else run

-- `entry(..).or_insert_with(..)`
abbrev pub entry_or : Option FreeMemChunk → FreeMemChunk → FreeMemChunk
entry_or none new = new
entry_or (some info) new = info

-- The written range grows to take in `off..chunk_end`, first at its start, then at its end.
abbrev pub grow_start : ℕ → FreeMemChunk → FreeMemChunk
grow_start off info =
    if ltb off info.range_start
    then record info {
      range_start = off;
      range_len = add64 info.range_len (sub64 info.range_start off);
    }
    else info

abbrev pub grow_end : ℕ → FreeMemChunk → FreeMemChunk
grow_end chunk_end info =
    let range_end = add64 info.range_start info.range_len in
    if ltb range_end chunk_end
    then record info { range_len = add64 info.range_len (sub64 chunk_end range_end) }
    else info

module _ (chunk_len : ℕ) (value : List ℕ) (end_addr : ℕ) where
  -- The loop of `write_bytes`: it returns the chunks.
  unfoldable pub write_loop :
      ℕ → ℕ → ℕ → ℕ → ℕ → List (ℕ × FreeMemChunk) → Outcome (List (ℕ × FreeMemChunk))
  write_loop zero idx off src count chunks = no_fuel
  write_loop (suc fuel) idx off src count chunks =
      let n = min (sub64 chunk_len off) count in
      let chunk_end = add64 off n in
      let info = grow_end chunk_end (
        grow_start off
          (entry_or (get idx chunks) (new_chunk off (sub64 chunk_end off) chunk_len))) in
      let bytes = overwrite info.bytes off (slice value src (add64 src n)) in
      let rest =
        write_loop fuel (add64 idx 1) 0 (add64 src n) (sub64 count n)
          (insert idx (record info { bytes = bytes }) chunks) in
      if leb end_addr (add64 (mul64 idx chunk_len) off)
      then ok chunks
      else if leb (add64 src n) (length value) && leb (add64 off n) (length info.bytes)
      then rest
      else panic

unfoldable pub chunked_write : ChunkedFreeMemView → ℕ → List ℕ → Outcome (ChunkedFreeMemView × ℕ)
unfolding write_loop
chunked_write c addr value =
    let count = length value in
    let end_addr = add64 addr count in
    let run = (do
      chunks ←
          write_loop c.chunk_len value end_addr (count + 2) (addr / c.chunk_len)
            (addr % c.chunk_len) 0 count c.chunks
      ok (record c { chunks = chunks }, end_addr)) in
    if ltb 0x7fff_ffff count
    then err (generic "cannot use write more than i32::MAX bytes" [])
    else if c.chunk_len == 0
    then panic
    else run

abbrev pub largest_chunk : ℕ → List (ℕ × FreeMemChunk) → ℕ
largest_chunk m [] = m
largest_chunk m ((idx, info) ∷ chunks) = largest_chunk (if ltb m idx then idx else m) chunks

unfoldable pub chunked_max_address : ChunkedFreeMemView → Outcome ℕ
chunked_max_address c = ok (mul64 (add64 (largest_chunk 0 c.chunks) 1) c.chunk_len)

unfoldable pub chunked_view : MemView ChunkedFreeMemView
unfolding chunked_read chunked_write chunked_max_address
chunked_view = record {
  reader = λ c. record {
    read_bytes = chunked_read c;
    max_address = chunked_max_address c;
    can_read_while_running = true;
    can_write_while_running = false;
  };
  write_bytes = chunked_write;
}
