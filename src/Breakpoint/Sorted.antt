-- ===== src/Breakpoint/Sorted.antt =====
-- The breakpoints stay sorted by address.
use Prim.Native.Nat.{compare, Ordering}
use mizl_h_public.Base.{
  ℕ, zero, suc, ◌+◌, ◌-◌, ◌%◌, ◌^◌, ◌≤◌, ◌<◌, ◌≡◌, refl, ap, List, [], ◌∷◌, length, insert_at,
  arith, ltb, ◌==◌, if◌then◌else◌,
}
use mizl_h_public.Base.Search.{Position, found, missing, cmp_at, binary_search_by, index_of}
use mizl_h_public.Base.Search.Laws.{rank, IsMonotone, Locates, binary_search_by-Locates}
use mizl_h_public.Breakpoint.{
  BreakpointEntry, BreakpointContainer, by_addr, insert_idx, add_breakpoint,
}

abbrev pub addr_at : List BreakpointEntry → ℕ → ℕ
addr_at [] i = 0
addr_at (e ∷ es) zero = e.addr
addr_at (e ∷ es) (suc i) = addr_at es i

abbrev pub IsSorted : List BreakpointEntry → Type 0
IsSorted es = (i j : ℕ) → i ≤ j → j < length es → addr_at es i ≤ addr_at es j

pub cmp_at-by_addr :
    (a : ℕ) (es : List BreakpointEntry) (i : ℕ)
    → i < length es
    → cmp_at (by_addr a) es i ≡ compare (addr_at es i) a
unfolding cmp_at
cmp_at-by_addr a [] i h = absurd (omega arith)
cmp_at-by_addr a (e ∷ es) zero h = refl
cmp_at-by_addr a (e ∷ es) (suc i) h = cmp_at-by_addr a es i (omega arith)

rank-compare_mono : (a x y : ℕ) → x ≤ y → rank (compare x a) ≤ rank (compare y a)
rank-compare_mono a x y h = ground arith

pub by_addr-IsMonotone :
    (a : ℕ) (es : List BreakpointEntry) → IsSorted es → IsMonotone (by_addr a) es
by_addr-IsMonotone a es sorted i j p q =
    rw (cmp_at-by_addr a es i (omega arith), cmp_at-by_addr a es j q)
      (rank-compare_mono a _ _ (sorted i j p q))

pub length-insert_at :
    (i : ℕ) (e : BreakpointEntry) (es : List BreakpointEntry)
    → i ≤ length es
    → length (insert_at i e es) ≡ suc (length es)
length-insert_at zero e es h = refl
length-insert_at (suc i) e [] h = absurd (omega arith)
length-insert_at (suc i) e (x ∷ es) h = ap suc (length-insert_at i e es (omega arith))

pub addr_at-insert_at :
    (p : ℕ) (e : BreakpointEntry) (es : List BreakpointEntry) (i : ℕ)
    → p ≤ length es
    → addr_at (insert_at p e es) i
      ≡ (if ltb i p then addr_at es i else if i == p then e.addr else addr_at es (i - 1))
addr_at-insert_at zero e es zero h = refl
addr_at-insert_at zero e es (suc i) h = ground arith
addr_at-insert_at (suc p) e [] i h = absurd (omega arith)
addr_at-insert_at (suc p) e (x ∷ es) zero h = ground arith
addr_at-insert_at (suc p) e (x ∷ es) (suc zero) h = ground (arith, addr_at-insert_at p e es 0)
addr_at-insert_at (suc p) e (x ∷ es) (suc (suc i)) h =
    ground (arith, addr_at-insert_at p e es (suc i))

-- The index splits the entries: no greater address before it, no smaller one behind it.
abbrev pub Splits : ℕ → List BreakpointEntry → ℕ → Type 0
Splits a es p =
    (p ≤ length es)
    × ((i : ℕ) → i < p → addr_at es i ≤ a)
    × ((i : ℕ) → p ≤ i → i < length es → a ≤ addr_at es i)

compare-eq : (x y : ℕ) → compare x y ≡ Ordering.eq → x ≡ y
compare-eq x y h = ground arith

compare-lt : (x y : ℕ) → compare x y ≡ Ordering.lt → x < y
compare-lt x y h = ground arith

compare-gt : (x y : ℕ) → compare x y ≡ Ordering.gt → y < x
compare-gt x y h = ground arith

module _ (a : ℕ) (es : List BreakpointEntry) (sorted : IsSorted es) where
  pub found-addr : (i : ℕ) → Locates (by_addr a) es (found i) → (i < length es) × (addr_at es i ≡ a)
  found-addr i (h, e) = (h, compare-eq _ _ (rw (cmp_at-by_addr a es i h) at e))

  pub missing-addr :
      (i : ℕ)
      → Locates (by_addr a) es (missing i)
      → (i ≤ length es)
        × ((j : ℕ) → j < i → addr_at es j < a)
        × ((j : ℕ) → i ≤ j → j < length es → a < addr_at es j)
  missing-addr i (h, below, above) = (
    h,
    λ j p. compare-lt _ _ (rw (cmp_at-by_addr a es j (omega arith)) at (below j p)),
    λ j p q. compare-gt _ _ (rw (cmp_at-by_addr a es j q) at (above j p q)),
  )

  Locates→Splits : (p : Position) → Locates (by_addr a) es p → Splits a es (index_of p)
  Locates→Splits (found i) h =
      let (p, e) = found-addr i h in
      (
        omega arith,
        λ j q. omega (arith, e, sorted j i (omega arith) p),
        λ j q k. omega (arith, e, sorted i j q k),
      )
  Locates→Splits (missing i) h =
      let (p, below, above) = missing-addr i h in
      (p, λ j q. omega (arith, below j q), λ j q k. omega (arith, above j q k))

  pub search-Splits : Splits a es (index_of (binary_search_by (by_addr a) es))
  search-Splits =
      Locates→Splits _ (binary_search_by-Locates (by_addr a) es (by_addr-IsMonotone a es sorted))

insert_at-IsSorted :
    (p : ℕ) (e : BreakpointEntry) (es : List BreakpointEntry)
    → IsSorted es
    → Splits e.addr es p
    → IsSorted (insert_at p e es)
insert_at-IsSorted p e es sorted s i j h k = ground (
  arith,
  length-insert_at p e es s.0,
  addr_at-insert_at p e es i s.0,
  addr_at-insert_at p e es j s.0,
  sorted i j,
  sorted i (j - 1),
  sorted (i - 1) (j - 1),
  s.1 i,
  s.2 (j - 1),
)

-- Adding a breakpoint keeps the breakpoints sorted by address, adds one entry, and returns the old
-- counter as its id, which the counter then leaves behind. (The counter is a `u32`.)
pub add_breakpoint-IsSorted :
    (c : BreakpointContainer) (e : BreakpointEntry)
    → IsSorted c.bps_sorted
    → c.bp_id < 2 ^ 32
    → IsSorted (add_breakpoint c e).0.bps_sorted
      × (length (add_breakpoint c e).0.bps_sorted ≡ length c.bps_sorted + 1)
      × ((add_breakpoint c e).1 ≡ c.bp_id)
      × ((add_breakpoint c e).0.bp_id ≡ (c.bp_id + 1) % 2 ^ 32)
unfolding add_breakpoint
add_breakpoint-IsSorted c e sorted h =
    let s = search-Splits e.addr c.bps_sorted sorted in
    (
      insert_at-IsSorted (insert_idx c e.addr) e c.bps_sorted sorted s,
      omega (arith, length-insert_at (insert_idx c e.addr) e c.bps_sorted s.0),
      omega arith,
      refl,
    )
