-- ===== src/Sleigh/State.antt =====
-- The state of a decoder, `DisasmState` of mizl_core/src/sleigh/disasm.rs: the memory, the context
-- and the addresses of the instruction.
use mizl_h_public.Base.{
  ℕ, ◌%◌, Bool, List, length, slice, leb, if◌then◌else◌, mul64, add64, u32_mod, Outcome, ok, panic,
  ◌>>=◌, ◌&&◌,
}
use mizl_h_public.MemView.Codec.{Endianness, little_endian, big_endian}
use mizl_h_public.MemView.Trait.{MemReader, read_u32}
use mizl_h_public.Sleigh.Memory.{
  read_ctx_u32_bits_at, read_mem_u32_bits_at, read_mem_u64_bits_at, write_ctx_u32_bits_at,
}

pub record DisasmState : Type 0 where
  pub mem : MemReader
  pub ctx : List ℕ
  pub start_addr : ℕ
  pub end_addr : ℕ
  pub next2_addr : ℕ

abbrev pub new_state : MemReader → List ℕ → ℕ → DisasmState
new_state mem ctx start_addr = record {
  mem = mem;
  ctx = ctx;
  start_addr = start_addr;
  end_addr = start_addr;
  next2_addr = start_addr;
}

abbrev pub endian_of : Bool → Endianness
endian_of is_big_endian = if is_big_endian then big_endian else little_endian

module _ (state : DisasmState) where
  unfoldable pub read_ctx_at : ℕ → ℕ → Outcome (List ℕ)
  read_ctx_at off size =
      let to = add64 off size in
      if leb off to && leb to (length state.ctx) then ok (slice state.ctx off to) else panic

  unfoldable pub read_mem_u32_at : ℕ → Bool → Outcome ℕ
  unfolding read_u32
  read_mem_u32_at off is_big_endian = do
    (_, v) ← read_u32 state.mem off (endian_of is_big_endian)
    ok v

  unfoldable pub state_mem_u32_bits_at : ℕ → ℕ → ℕ → Bool → Outcome ℕ
  unfolding read_mem_u32_bits_at
  state_mem_u32_bits_at off bit_off bit_size is_big_endian =
      read_mem_u32_bits_at state.mem off bit_off bit_size is_big_endian

  unfoldable pub state_mem_u64_bits_at : ℕ → ℕ → ℕ → Bool → Outcome ℕ
  unfolding read_mem_u64_bits_at
  state_mem_u64_bits_at off bit_off bit_size is_big_endian =
      read_mem_u64_bits_at state.mem off bit_off bit_size is_big_endian

  unfoldable pub state_ctx_u32_bits_at : ℕ → ℕ → Outcome ℕ
  unfolding read_ctx_u32_bits_at
  state_ctx_u32_bits_at bit_off bit_size = read_ctx_u32_bits_at state.ctx bit_off bit_size

  -- `(off * 8) as i32`
  unfoldable pub read_ctx_u32_at : ℕ → Outcome ℕ
  unfolding state_ctx_u32_bits_at
  read_ctx_u32_at off = state_ctx_u32_bits_at (mul64 off 8 % u32_mod) 32

  unfoldable pub state_write_ctx_u32_bits_at : ℕ → ℕ → ℕ → Outcome DisasmState
  unfolding write_ctx_u32_bits_at
  state_write_ctx_u32_bits_at bit_off bit_size value = do
    ctx ← write_ctx_u32_bits_at state.ctx bit_off bit_size value
    ok (record state { ctx = ctx })

  abbrev pub get_context : List ℕ
  get_context = state.ctx

  abbrev pub get_start_ins : ℕ
  get_start_ins = state.start_addr

  abbrev pub get_end_ins : ℕ
  get_end_ins = state.end_addr

  -- Not supported by the program, which panics.
  abbrev pub get_next2_ins : Outcome ℕ
  get_next2_ins = panic

  abbrev pub set_end_ins : ℕ → DisasmState
  set_end_ins value = record state { end_addr = value }
