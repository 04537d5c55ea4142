-- ===== src/Breakpoint.antt =====
-- The breakpoints of mizl_core/src/debugger/breakpoint.rs: the sorted container and the memory view
-- that wraps another one. The hash map from ids to indices is a function.
pub mod Sorted
pub mod Lookup
pub mod Range
use Prim.Native.Nat.{compare, Ordering}
use mizl_h_public.Base.{
  ℕ, zero, suc, ◌+◌, ◌-◌, ◌%◌, Bool, true, List, [], ◌∷◌, Option, none, some, length, get_elem?,
  drop, insert_at, ltb, ◌==◌, if◌then◌else◌, add32, sub32, add64, Outcome, ok, ◌>>=◌,
}
use mizl_h_public.Base.Search.{Position, found, missing, binary_search_by, index_of}
use mizl_h_public.MemView.Trait.{MemReader, MemView}

pub data BreakpointKind : Type 0 where
  normal : BreakpointKind

pub record BreakpointEntry : Type 0 where
  pub addr : ℕ
  pub enabled : Bool
  pub bp_kind : BreakpointKind
  pub bp_bytes : List ℕ
  pub orig_bytes : List ℕ

pub record BreakpointContainer : Type 0 where
  pub bps_sorted : List BreakpointEntry
  pub bps_by_id : ℕ → Option ℕ
  pub bp_id : ℕ

abbrev pub new_entry : ℕ → List ℕ → List ℕ → BreakpointEntry
new_entry addr bp_bytes orig_bytes = record {
  addr = addr;
  enabled = true;
  bp_kind = normal;
  bp_bytes = bp_bytes;
  orig_bytes = orig_bytes;
}

abbrev pub new_container : BreakpointContainer
new_container = record { bps_sorted = []; bps_by_id = λ _. none; bp_id = 0 }

-- `|e| e.addr.cmp(&addr)`
abbrev pub by_addr : ℕ → BreakpointEntry → Ordering
by_addr addr e = compare e.addr addr

-- `|e| (e.addr + e.bp_bytes.len() as u64).cmp(&end)`
abbrev pub by_end : ℕ → BreakpointEntry → Ordering
by_end end_addr e = compare (add64 e.addr (length e.bp_bytes)) end_addr

abbrev pub insert_idx : BreakpointContainer → ℕ → ℕ
insert_idx c addr = index_of (binary_search_by (by_addr addr) c.bps_sorted)

-- The id is the counter before the call. The index recorded for it is `bps_sorted.len() - 1`,
-- taken after the insertion.
unfoldable pub add_breakpoint : BreakpointContainer → BreakpointEntry → BreakpointContainer × ℕ
add_breakpoint c entry =
    let bps = insert_at (insert_idx c entry.addr) entry c.bps_sorted in
    let bp_id = add32 c.bp_id 1 in
    (
      record {
        bps_sorted = bps;
        bps_by_id = λ k. if k == c.bp_id then some (length bps - 1) else c.bps_by_id k;
        bp_id = bp_id;
      },
      sub32 bp_id 1,
    )

abbrev pub at_position : List BreakpointEntry → Position → Option BreakpointEntry
at_position bps (found i) = get_elem? bps i
at_position bps (missing i) = none

unfoldable pub get_breakpoint : BreakpointContainer → ℕ → Option BreakpointEntry
get_breakpoint c start = at_position c.bps_sorted (binary_search_by (by_addr start) c.bps_sorted)

-- `Ok(i) => i + 1, Err(i) => i`
abbrev pub past : Position → ℕ
past (found i) = i + 1
past (missing i) = i

unfoldable pub find_bps_in_range : BreakpointContainer → ℕ → ℕ → ℕ × ℕ
find_bps_in_range c start end_addr =
    let start_idx = index_of (binary_search_by (by_addr start) c.bps_sorted) in
    let end_idx =
      past (binary_search_by (by_end end_addr) (drop start_idx c.bps_sorted)) + start_idx in
    if ltb start_idx end_idx then (start_idx, end_idx) else (0, 0)

-- The body of `fixup_bp_memory` is commented out: the bytes stay as they are.
unfoldable pub fixup_bp_memory : BreakpointContainer → List ℕ → ℕ → List ℕ
fixup_bp_memory c bytes data_addr = bytes

module _ {S : Type 0} (mem_view : MemView S) (bp_cont : BreakpointContainer) where
  unfoldable pub wrap_read_bytes : S → ℕ → List ℕ → ℕ → Outcome (ℕ × List ℕ)
  unfolding fixup_bp_memory
  wrap_read_bytes s addr out_data count = do
    (addr', bytes) ← (mem_view.reader s).read_bytes addr out_data count
    ok (addr', fixup_bp_memory bp_cont bytes addr)

  unfoldable pub wrap_mem_view : MemView S
  unfolding wrap_read_bytes
  wrap_mem_view = record {
    reader = λ s. record (mem_view.reader s) { read_bytes = wrap_read_bytes s };
    write_bytes = mem_view.write_bytes;
  }
