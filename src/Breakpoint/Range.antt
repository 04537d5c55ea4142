-- ===== src/Breakpoint/Range.antt =====
-- The range of breakpoints that `find_bps_in_range` selects: those that lie inside the bounds
-- whole.
use Prim.Native.Nat.{compare, Ordering}
use native.Mathlib.Decide.{dec_lt}
use mizl_h_public.Base.{
  sym, ◌∙◌, ltb, if◌then◌else◌, ℕ, zero, suc, ◌+◌, ◌-◌, ◌≤◌, ◌<◌, ◌≡◌, refl, ap, ◌↔◌, List, [], ◌∷◌,
  drop, length, length-drop, get_elem?-drop, arith, add64,
}
use mizl_h_public.Base.Search.{Position, found, missing, cmp_at, binary_search_by, index_of}
use mizl_h_public.Base.Search.Laws.{rank, IsMonotone, Locates, binary_search_by-Locates}
use mizl_h_public.Breakpoint.{
  BreakpointEntry, BreakpointContainer, by_addr, by_end, past, find_bps_in_range,
}
use mizl_h_public.Breakpoint.Sorted.{
  addr_at, IsSorted, by_addr-IsMonotone, found-addr, missing-addr,
}
use mizl_h_public.Breakpoint.Lookup.{IsDistinct}

abbrev pub end_at : List BreakpointEntry → ℕ → ℕ
end_at [] i = 0
end_at (e ∷ es) zero = add64 e.addr (length e.bp_bytes)
end_at (e ∷ es) (suc i) = end_at es i

-- The ends of the breakpoints ascend with their addresses.
abbrev pub EndsAscend : List BreakpointEntry → Type 0
EndsAscend es = (i j : ℕ) → i < j → j < length es → end_at es i < end_at es j

cmp_at-drop :
    (f : BreakpointEntry → Ordering) (es : List BreakpointEntry) (s i : ℕ)
    → cmp_at f (drop s es) i ≡ cmp_at f es (s + i)
unfolding cmp_at
cmp_at-drop f es s i = rw (get_elem?-drop es s i, cmp_at)

cmp_at-by_end :
    (a : ℕ) (es : List BreakpointEntry) (i : ℕ)
    → i < length es
    → cmp_at (by_end a) es i ≡ compare (end_at es i) a
unfolding cmp_at
cmp_at-by_end a [] i h = absurd (omega arith)
cmp_at-by_end a (e ∷ es) zero h = refl
cmp_at-by_end a (e ∷ es) (suc i) h = cmp_at-by_end a es i (omega arith)

compare_iff :
    (x y : ℕ)
    → (compare x y ≡ Ordering.lt → x < y)
      × (compare x y ≡ Ordering.eq → x ≡ y)
      × (compare x y ≡ Ordering.gt → y < x)
compare_iff x y = ground arith

rank-compare_mono : (a x y : ℕ) → x ≤ y → rank (compare x a) ≤ rank (compare y a)
rank-compare_mono a x y h = ground arith

le_of_lt :
    (f : ℕ → ℕ) (n : ℕ)
    → ((i j : ℕ) → i < j → j < n → f i < f j)
    → (i j : ℕ) → i ≤ j
    → j < n
    → f i ≤ f j
le_of_lt f n h i j p q = ground (arith, h i j)

IsDistinct→IsSorted : (es : List BreakpointEntry) → IsDistinct es → IsSorted es
IsDistinct→IsSorted es d = le_of_lt (addr_at es) (length es) d

-- The first search finds where the addresses from `start` on begin.
start_idx-first :
    (es : List BreakpointEntry) (start : ℕ)
    → IsDistinct es
    → (i : ℕ) → i < length es
    → (index_of (binary_search_by (by_addr start) es) ≤ i) ↔ (start ≤ addr_at es i)
start_idx-first es start d i h =
    first _ (binary_search_by-Locates (by_addr start) es (by_addr-IsMonotone start es sorted))
  where
    sorted : IsSorted es
    sorted = IsDistinct→IsSorted es d

    first :
        (p : Position) → Locates (by_addr start) es p → (index_of p ≤ i) ↔ (start ≤ addr_at es i)
    first (found m) q =
        let (k, e) = found-addr start es sorted m q in ground (arith, e, d i m, d m i)
    first (missing m) q =
        let (k, below, above) = missing-addr start es sorted m q in ground (arith, below i, above i)

module _ (es : List BreakpointEntry) (s a : ℕ) (ascend : EndsAscend es) where
  cmp_at-tail :
      (i : ℕ) → s + i < length es → cmp_at (by_end a) (drop s es) i ≡ compare (end_at es (s + i)) a
  cmp_at-tail i h = rw (cmp_at-drop (by_end a) es s i) (cmp_at-by_end a es (s + i) h)

  tail-IsMonotone : IsMonotone (by_end a) (drop s es)
  tail-IsMonotone i j p q =
      let n = length-drop s es in
      rw (cmp_at-tail i (omega arith), cmp_at-tail j (omega arith))
        (rank-compare_mono a _ _
          (le_of_lt (end_at es) (length es) ascend (s + i) (s + j) (omega arith) (omega arith)))

  -- An entry from `s` on lies before the found end exactly if its own end is not above `a`.
  tail-past :
      (p : Position)
      → Locates (by_end a) (drop s es) p
      → (i : ℕ) → s ≤ i
      → i < length es
      → (i < past p + s) ↔ (end_at es i ≤ a)
  tail-past (found m) (h, e) i q k =
      let n = length-drop s es in
      let at_m = (compare_iff (end_at es (s + m)) a).1 (rw (cmp_at-tail m (omega arith)) at e) in
      ground (arith, at_m, ascend i (s + m), ascend (s + m) i)
  tail-past (missing m) (h, below, above) i q k =
      let n = length-drop s es in
      let back : s + (i - s) ≡ i = omega arith in
      let at_i : cmp_at (by_end a) (drop s es) (i - s) ≡ compare (end_at es i) a =
        cmp_at-tail (i - s) (omega arith) ∙ ap (λ j. compare (end_at es j) a) back in
      let c = compare_iff (end_at es i) a in
      (
        λ p. omega (arith, c.0 (sym at_i ∙ below (i - s) (omega arith))),
        λ p. outside (i < m + s) (dec_lt i (m + s)) (λ r.
            absurd (omega (arith, c.2 (sym at_i ∙ above (i - s) (omega arith) (omega arith))))),
      )
    where
      outside : (P : Type 0) → Dec P → (¬ P → P) → P
      outside P (yes p) f = p
      outside P (no p) f = f p

-- The test that keeps the range from being inverted loses nothing.
abbrev kept : ℕ → ℕ → ℕ × ℕ
kept s e = if ltb s e then (s, e) else (0, 0)

range_iff :
    (s e i lo x y hi : ℕ)
    → (s ≤ i) ↔ (lo ≤ x)
    → (s ≤ i → (i < e) ↔ (y ≤ hi))
    → ((kept s e).0 ≤ i) × (i < (kept s e).1) ↔ (lo ≤ x) × (y ≤ hi)
range_iff s e i lo x y hi from upto = ground arith

-- In a container with distinct addresses whose ends ascend with them, an entry has its index in the
-- range found exactly if it starts at or behind `start` and ends at or before `end_addr`.
pub find_bps_in_range-inside :
    (c : BreakpointContainer) (start end_addr i : ℕ)
    → IsDistinct c.bps_sorted
    → EndsAscend c.bps_sorted
    → i < length c.bps_sorted
    → ((find_bps_in_range c start end_addr).0 ≤ i) × (i < (find_bps_in_range c start end_addr).1)
      ↔ (start ≤ addr_at c.bps_sorted i) × (end_at c.bps_sorted i ≤ end_addr)
unfolding find_bps_in_range
find_bps_in_range-inside c start end_addr i d ascend h =
    let es = c.bps_sorted in
    let start_idx = index_of (binary_search_by (by_addr start) es) in
    let from = start_idx-first es start d i h in
    let tail =
      binary_search_by-Locates (by_end end_addr) (drop start_idx es)
        (tail-IsMonotone es start_idx end_addr ascend) in
    let upto = λ (q : start_idx ≤ i). tail-past es start_idx end_addr ascend _ tail i q h in
    range_iff start_idx _ i start _ _ end_addr from upto
