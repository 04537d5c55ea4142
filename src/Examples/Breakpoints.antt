-- ===== src/Examples/Breakpoints.antt =====
-- A container with two breakpoints.
use mizl_h_public.Base.Search.{binary_search_by}
use mizl_h_public.Base.{
  ℕ, zero, suc, ◌+◌, ◌%◌, ◌^◌, ◌≤◌, ◌<◌, ◌≡◌, ◌↔◌, refl, [], ◌∷◌, none, some, length, ◌==◌,
  if◌then◌else◌, arith,
}
use mizl_h_public.Breakpoint.{
  BreakpointEntry, BreakpointContainer, new_entry, add_breakpoint, get_breakpoint,
  find_bps_in_range,
}
use mizl_h_public.Breakpoint.Sorted
use mizl_h_public.Breakpoint.Sorted.{IsSorted, addr_at}
use mizl_h_public.Breakpoint.Lookup
use mizl_h_public.Breakpoint.Lookup.{IsDistinct}
use mizl_h_public.Breakpoint.Range

abbrev low : BreakpointEntry
low = new_entry 10 (0xcc ∷ []) (0x90 ∷ [])

abbrev high : BreakpointEntry
high = new_entry 20 (0xcc ∷ []) (0x91 ∷ [])

abbrev mid : BreakpointEntry
mid = new_entry 15 (0xcc ∷ []) (0x92 ∷ [])

abbrev two : BreakpointContainer
two = record { bps_sorted = low ∷ high ∷ []; bps_by_id = λ (k : ℕ). none; bp_id = 2 }

in_order : (add_breakpoint two mid).0.bps_sorted ≡ low ∷ mid ∷ high ∷ []
unfolding add_breakpoint binary_search_by
in_order = refl

two-IsDistinct : IsDistinct two.bps_sorted
two-IsDistinct zero zero h k = absurd (omega arith)
two-IsDistinct zero (suc zero) h k = omega arith
two-IsDistinct zero (suc (suc j)) h k = absurd (omega arith)
two-IsDistinct (suc i) zero h k = absurd (omega arith)
two-IsDistinct (suc i) (suc zero) h k = absurd (omega arith)
two-IsDistinct (suc i) (suc (suc j)) h k = absurd (omega arith)

two-IsSorted : IsSorted two.bps_sorted
two-IsSorted zero zero h k = omega arith
two-IsSorted zero (suc zero) h k = omega arith
two-IsSorted zero (suc (suc j)) h k = absurd (omega arith)
two-IsSorted (suc i) zero h k = absurd (omega arith)
two-IsSorted (suc zero) (suc zero) h k = omega arith
two-IsSorted (suc (suc i)) (suc zero) h k = absurd (omega arith)
two-IsSorted (suc i) (suc (suc j)) h k = absurd (omega arith)

add_breakpoint-IsSorted_example :
    IsSorted (add_breakpoint two mid).0.bps_sorted
    × (length (add_breakpoint two mid).0.bps_sorted ≡ 2 + 1)
    × ((add_breakpoint two mid).1 ≡ 2)
    × ((add_breakpoint two mid).0.bp_id ≡ (2 + 1) % 2 ^ 32)
add_breakpoint-IsSorted_example = Sorted.add_breakpoint-IsSorted two mid two-IsSorted (omega arith)

get_breakpoint-Answers_example : Lookup.Answers two.bps_sorted 20 (get_breakpoint two 20)
get_breakpoint-Answers_example = Lookup.get_breakpoint-Answers two 20 two-IsSorted

get_breakpoint-add_breakpoint_example :
    IsDistinct (add_breakpoint two mid).0.bps_sorted
    × ((a : ℕ)
        → get_breakpoint (add_breakpoint two mid).0 a
          ≡ (if a == 15 then some mid else get_breakpoint two a))
unfolding get_breakpoint binary_search_by
get_breakpoint-add_breakpoint_example =
    Lookup.get_breakpoint-add_breakpoint two mid two-IsDistinct refl

-- The id of the breakpoint at 15 leads to the one at 20.
add_breakpoint-wrong_index_example :
    (k : ℕ) × ((add_breakpoint two mid).0.bps_by_id 2 ≡ some k)
    × (15 < addr_at (add_breakpoint two mid).0.bps_sorted k)
add_breakpoint-wrong_index_example =
    Lookup.add_breakpoint-wrong_index two mid 1 two-IsSorted (omega arith) (omega arith)

two-EndsAscend : Range.EndsAscend two.bps_sorted
two-EndsAscend zero zero h k = absurd (omega arith)
two-EndsAscend zero (suc zero) h k = omega arith
two-EndsAscend zero (suc (suc j)) h k = absurd (omega arith)
two-EndsAscend (suc i) zero h k = absurd (omega arith)
two-EndsAscend (suc i) (suc zero) h k = absurd (omega arith)
two-EndsAscend (suc i) (suc (suc j)) h k = absurd (omega arith)

find_bps_in_range-inside_example :
    ((find_bps_in_range two 12 30).0 ≤ 1) × (1 < (find_bps_in_range two 12 30).1)
    ↔ (12 ≤ addr_at two.bps_sorted 1) × (Range.end_at two.bps_sorted 1 ≤ 30)
find_bps_in_range-inside_example =
    Range.find_bps_in_range-inside two 12 30 1 two-IsDistinct two-EndsAscend (omega arith)
