-- ===== src/Chunked/Cells.antt =====
-- The memory that the chunks stand for: a byte, or nothing, at each address. And the invariant.
use native.Mathlib.Nat.{mul-add-div_right, div-eq_of_lt, mul-add-mod_self_right, mod-eq_of_lt}
use mizl_h_public.Base.{
  ℕ, ◌+◌, ◌*◌, ◌/◌, ◌%◌, ◌^◌, ◌≤◌, ◌<◌, ◌≡◌, ◌∙◌, List, Option, none, some, length, get_elem?, ltb,
  leb, ◌&&◌, if◌then◌else◌, arith,
}
use mizl_h_public.Chunked.{FreeMemChunk, ChunkedFreeMemView}
use mizl_h_public.Chunked.Map.{get}

-- The byte at an offset of a chunk, inside its written range.
abbrev pub chunk_cell : Option FreeMemChunk → ℕ → Option ℕ
chunk_cell none off = none
chunk_cell (some info) off =
    if leb info.range_start off && ltb off (info.range_start + info.range_len)
    then get_elem? info.bytes off
    else none

abbrev pub cell_at : List (ℕ × FreeMemChunk) → ℕ → ℕ → Option ℕ
cell_at chunks idx off = chunk_cell (get idx chunks) off

unfoldable pub cell : ChunkedFreeMemView → ℕ → Option ℕ
cell c addr = cell_at c.chunks (addr / c.chunk_len) (addr % c.chunk_len)

pub record IsChunk (chunk_len : ℕ) (info : FreeMemChunk) : Type 0 where
  pub full : length info.bytes ≡ chunk_len
  pub within : info.range_start + info.range_len ≤ chunk_len

abbrev pub AreChunks : ℕ → List (ℕ × FreeMemChunk) → Type 0
AreChunks chunk_len chunks =
    (idx : ℕ) (info : FreeMemChunk) → get idx chunks ≡ some info → IsChunk chunk_len info

pub record IsValid (c : ChunkedFreeMemView) : Type 0 where
  pub positive : 0 < c.chunk_len
  pub small : c.chunk_len < 2 ^ 63
  pub are_chunks : AreChunks c.chunk_len c.chunks

-- An address inside a chunk, taken apart.
pub div-chunk : (idx off len : ℕ) → off < len → (idx * len + off) / len ≡ idx
div-chunk idx off len h =
    mul-add-div_right {m = len} (omega arith) idx off
    ∙ omega (arith, div-eq_of_lt {n = off} {m = len} h)

pub mod-chunk : (idx off len : ℕ) → off < len → (idx * len + off) % len ≡ off
mod-chunk idx off len h = mul-add-mod_self_right idx len off ∙ mod-eq_of_lt h

pub cell-eq-cell_at :
    (c : ChunkedFreeMemView) (addr idx off : ℕ)
    → off < c.chunk_len
    → addr ≡ idx * c.chunk_len + off
    → cell c addr ≡ cell_at c.chunks idx off
unfolding cell
cell-eq-cell_at c addr idx off h e =
    rw (e, div-chunk idx off c.chunk_len h, mod-chunk idx off c.chunk_len h)
