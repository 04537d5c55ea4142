-- ===== src/MemView/Static.antt =====
-- `StaticMemView` of mizl_core/src/memory/memview.rs: a view over one vector of bytes.
pub mod Laws
use mizl_h_public.Base.{
  ℕ, ◌+◌, ◌-◌, Bool, true, List, ◌&&◌, length, slice, overwrite, ltb, leb, ◌==◌, if◌then◌else◌,
  add64, i32_as_u64, Outcome, ok, err, panic, end_of_stream,
}
use mizl_h_public.MemView.Trait.{MemReader, MemView}

pub record StaticMemView : Type 0 where
  pub bytes : List ℕ

-- `clone_from_slice` panics where the lengths differ, and so does a slice whose end is before its
-- start.
unfoldable pub static_read : StaticMemView → ℕ → List ℕ → ℕ → Outcome (ℕ × List ℕ)
static_read s addr out_data count =
    let addr_end = add64 addr (i32_as_u64 count) in
    if leb (length s.bytes) addr_end
    then err end_of_stream
    else if leb addr addr_end && (length out_data == addr_end - addr)
    then ok (addr_end, slice s.bytes addr addr_end)
    else panic

unfoldable pub static_write : StaticMemView → ℕ → List ℕ → Outcome (StaticMemView × ℕ)
static_write s addr value =
    let addr_end = add64 addr (length value) in
    if leb (length s.bytes) addr_end
    then err end_of_stream
    else if leb addr addr_end
    then ok (record { bytes = overwrite s.bytes addr value }, addr_end)
    else panic

unfoldable pub static_reader : StaticMemView → MemReader
unfolding static_read
static_reader s = record {
  read_bytes = static_read s;
  max_address = ok (length s.bytes);
  can_read_while_running = true;
  can_write_while_running = true;
}

unfoldable pub static_view : MemView StaticMemView
unfolding static_reader static_write
static_view = record { reader = static_reader; write_bytes = static_write }
