-- ===== src/Shared/SwapBytes.antt =====
-- `read_swap_bytes` of mizl_core/src/debugger/fast_util.rs, on a little endian target. A value of
-- the type `T` is its bytes in memory.
use mizl_h_public.Base.{
  ℕ, zero, suc, ◌-◌, ◌/◌, ◌%◌, Bool, not, ◌&&◌, ◌||◌, List, Option, none, some, length, get_elem?,
  set, reverse, replicate, ltb, ◌==◌, if◌then◌else◌, Outcome, ok, panic, ◌>>=◌,
}

-- `tmp[i] = v`, where there is a place and a value.
abbrev pub put : List ℕ → ℕ → Option ℕ → Outcome (List ℕ)
put tmp i none = panic
put tmp i (some v) = if ltb i (length tmp) then ok (set tmp i v) else panic

-- The loop of the slow way, from `i` on. The index that mirrors `i` is one too far.
unfoldable pub swap_loop : ℕ → ℕ → List ℕ → List ℕ → Outcome (List ℕ)
swap_loop zero i data_bytes tmp = ok tmp
swap_loop (suc n) i data_bytes tmp = do
  tmp' ← put tmp i (get_elem? data_bytes (length data_bytes - i))
  tmp'' ← put tmp' (length data_bytes - i) (get_elem? data_bytes i)
  swap_loop n (suc i) data_bytes tmp''

unfoldable pub read_swap_bytes : ℕ → List ℕ → Bool → Outcome (List ℕ)
unfolding swap_loop
read_swap_bytes type_size data_bytes big_endian =
    let swap = ltb 1 type_size && big_endian in
    let slow = swap_loop (type_size / 2) 0 data_bytes (replicate type_size 0) in
    if not (length data_bytes == type_size) || not (type_size % 2 == 0)
    then panic
    else if not swap
    then ok data_bytes
    else if type_size == 2 || (type_size == 4 || type_size == 8)
    then ok (reverse data_bytes)
    else slow
