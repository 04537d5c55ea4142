-- ===== src/Breakpoint/Lookup.antt =====
-- Finding a breakpoint by its address, before and after one is added, and the index kept by id.
use mathlib.Core.List.{Perm, perm_middle}
use mizl_h_public.Base.{
  ℕ, zero, suc, ◌-◌, ◌≤◌, ◌<◌, ◌≡◌, ◌≢◌, refl, ap, sym, ◌∙◌, List, [], ◌∷◌, take, drop, Option,
  none, some, length, get_elem?, insert_at, arith, ◌==◌, if◌then◌else◌, take-append-drop,
}
use mizl_h_public.Base.Search.{Position, found, missing}
use mizl_h_public.Base.Search.Laws.{Locates, binary_search_by-Locates}
use mizl_h_public.Breakpoint.{
  BreakpointEntry, BreakpointContainer, by_addr, insert_idx, add_breakpoint, get_breakpoint,
  at_position,
}
use mizl_h_public.Breakpoint.Sorted.{
  addr_at, IsSorted, by_addr-IsMonotone, length-insert_at, addr_at-insert_at, found-addr,
  missing-addr, search-Splits, Splits,
}

get_elem?-addr :
    (es : List BreakpointEntry) (i : ℕ)
    → i < length es
    → (e : BreakpointEntry) × (get_elem? es i ≡ some e) × (e.addr ≡ addr_at es i)
get_elem?-addr [] i h = absurd (omega arith)
get_elem?-addr (x ∷ es) zero h = (x, refl, refl)
get_elem?-addr (x ∷ es) (suc i) h = get_elem?-addr es i (omega arith)

-- What a lookup of the address `a` may answer: an entry of the list at that address, or that the
-- list has none.
abbrev pub Answers : List BreakpointEntry → ℕ → Option BreakpointEntry → Type 0
Answers es a none = (i : ℕ) → i < length es → addr_at es i ≢ a
Answers es a (some e) = (e.addr ≡ a) × ((i : ℕ) × (get_elem? es i ≡ some e))

at_position-Answers :
    (a : ℕ) (es : List BreakpointEntry)
    → IsSorted es
    → (p : Position) → Locates (by_addr a) es p
    → Answers es a (at_position es p)
at_position-Answers a es sorted (found i) h =
    let (p, k) = found-addr a es sorted i h in
    let (e, g, q) = get_elem?-addr es i p in rw g (q ∙ k, (i, g))
at_position-Answers a es sorted (missing i) h = λ j p q.
    let (_, below, above) = missing-addr a es sorted i h in absurd (apart j p q below above)
  where
    apart :
        (j : ℕ)
        → j < length es
        → addr_at es j ≡ a
        → ((j : ℕ) → j < i → addr_at es j < a)
        → ((j : ℕ) → i ≤ j → j < length es → a < addr_at es j)
        → ⊥
    apart j p q below above = ground (arith, below j, above j)

-- In a sorted container `get_breakpoint` finds an entry at the address if there is one, and answers
-- `none` only if there is none.
pub get_breakpoint-Answers :
    (c : BreakpointContainer) (a : ℕ)
    → IsSorted c.bps_sorted
    → Answers c.bps_sorted a (get_breakpoint c a)
unfolding get_breakpoint
get_breakpoint-Answers c a sorted =
    at_position-Answers a c.bps_sorted sorted _
      (binary_search_by-Locates (by_addr a) c.bps_sorted (by_addr-IsMonotone a c.bps_sorted sorted))

-- The entries after a call are the entries before it and the new one, as a multiset.
pub add_breakpoint-perm :
    (c : BreakpointContainer) (e : BreakpointEntry)
    → Perm (add_breakpoint c e).0.bps_sorted (e ∷ c.bps_sorted)
unfolding add_breakpoint
add_breakpoint-perm c e =
    let i = insert_idx c e.addr in
    rw (take-append-drop i c.bps_sorted) at
      (perm_middle {a = e} (take i c.bps_sorted) (drop i c.bps_sorted))

-- No two entries at one address.
abbrev pub IsDistinct : List BreakpointEntry → Type 0
IsDistinct es = (i j : ℕ) → i < j → j < length es → addr_at es i < addr_at es j

-- The entry at an address, as a search from the left finds it.
pub lookup_addr : ℕ → List BreakpointEntry → Option BreakpointEntry
lookup_addr a [] = none
lookup_addr a (e ∷ es) = if e.addr == a then some e else lookup_addr a es

lookup_addr-at :
    (a : ℕ) (es : List BreakpointEntry) (i : ℕ)
    → i < length es
    → addr_at es i ≡ a
    → ((j : ℕ) → j < i → addr_at es j < a)
    → lookup_addr a es ≡ get_elem? es i
unfolding lookup_addr
lookup_addr-at a [] i h e below = absurd (omega arith)
lookup_addr-at a (x ∷ es) zero h e below = ground arith
lookup_addr-at a (x ∷ es) (suc i) h e below =
    ground
      (arith, below 0, lookup_addr-at a es i (omega arith) e (λ j p. below (suc j) (omega arith)))

lookup_addr-none :
    (a : ℕ) (es : List BreakpointEntry)
    → ((j : ℕ) → j < length es → addr_at es j ≢ a)
    → lookup_addr a es ≡ none
unfolding lookup_addr
lookup_addr-none a [] h = refl
lookup_addr-none a (x ∷ es) h =
    ground (arith, h 0, lookup_addr-none a es (λ j p. h (suc j) (omega arith)))

lookup_addr-insert_at :
    (a : ℕ) (e : BreakpointEntry) (es : List BreakpointEntry) (p : ℕ)
    → p ≤ length es
    → ((j : ℕ) → j < p → addr_at es j ≢ e.addr)
    → lookup_addr a (insert_at p e es) ≡ (if a == e.addr then some e else lookup_addr a es)
unfolding lookup_addr
lookup_addr-insert_at a e es zero h below = ground arith
lookup_addr-insert_at a e [] (suc p) h below = absurd (omega arith)
lookup_addr-insert_at a e (x ∷ es) (suc p) h below = ground (
  arith,
  below 0 (omega arith),
  lookup_addr-insert_at a e es p (omega arith) (λ j q. below (suc j) (omega arith)),
)

IsDistinct→IsSorted : (es : List BreakpointEntry) → IsDistinct es → IsSorted es
IsDistinct→IsSorted es d i j p q = ground (arith, d i j)

get_breakpoint-lookup_addr :
    (c : BreakpointContainer) (a : ℕ)
    → IsDistinct c.bps_sorted
    → get_breakpoint c a ≡ lookup_addr a c.bps_sorted
unfolding get_breakpoint
get_breakpoint-lookup_addr c a d = located _ (
    binary_search_by-Locates (by_addr a) c.bps_sorted
      (by_addr-IsMonotone a c.bps_sorted (IsDistinct→IsSorted c.bps_sorted d)))
  where
    located :
        (p : Position)
        → Locates (by_addr a) c.bps_sorted p
        → at_position c.bps_sorted p ≡ lookup_addr a c.bps_sorted
    located (found i) h =
        let (p, k) = found-addr a c.bps_sorted (IsDistinct→IsSorted c.bps_sorted d) i h in
        sym (lookup_addr-at a c.bps_sorted i p k (λ j q. omega (arith, k, d j i q p)))
    located (missing i) h =
        let (_, below, above) =
          missing-addr a c.bps_sorted (IsDistinct→IsSorted c.bps_sorted d) i h in
        sym (lookup_addr-none a c.bps_sorted (λ j p q. ground (arith, below j, above j)))

insert_at-IsDistinct :
    (p : ℕ) (e : BreakpointEntry) (es : List BreakpointEntry)
    → IsDistinct es
    → Splits e.addr es p
    → ((i : ℕ) → i < length es → addr_at es i ≢ e.addr)
    → IsDistinct (insert_at p e es)
insert_at-IsDistinct p e es d s free i j h k = ground (
  arith,
  length-insert_at p e es s.0,
  addr_at-insert_at p e es i s.0,
  addr_at-insert_at p e es j s.0,
  d i j,
  d i (j - 1),
  d (i - 1) (j - 1),
  s.1 i,
  s.2 (j - 1),
  free i,
  free (j - 1),
)

module _ (c : BreakpointContainer) (e : BreakpointEntry) (d : IsDistinct c.bps_sorted) where
  abbrev Free : Type 0
  Free = get_breakpoint c e.addr ≡ none

  sorted : IsSorted c.bps_sorted
  sorted = IsDistinct→IsSorted c.bps_sorted d

  splits : Splits e.addr c.bps_sorted (insert_idx c e.addr)
  splits = search-Splits e.addr c.bps_sorted sorted

  free-ne : Free → (i : ℕ) → i < length c.bps_sorted → addr_at c.bps_sorted i ≢ e.addr
  free-ne h = rw h at (get_breakpoint-Answers c e.addr sorted)

  add_breakpoint-IsDistinct : Free → IsDistinct (add_breakpoint c e).0.bps_sorted
  unfolding add_breakpoint
  add_breakpoint-IsDistinct h =
      insert_at-IsDistinct (insert_idx c e.addr) e c.bps_sorted d splits (free-ne h)

  -- Adding a breakpoint at a free address, to a container with distinct addresses, changes the
  -- lookup at that address only, and keeps the addresses distinct.
  pub get_breakpoint-add_breakpoint :
      get_breakpoint c e.addr ≡ none
      → IsDistinct (add_breakpoint c e).0.bps_sorted
        × ((a : ℕ)
            → get_breakpoint (add_breakpoint c e).0 a
              ≡ (if a == e.addr then some e else get_breakpoint c a))
  get_breakpoint-add_breakpoint h = (
    add_breakpoint-IsDistinct h,
    λ a.
        get_breakpoint-lookup_addr (add_breakpoint c e).0 a (add_breakpoint-IsDistinct h)
        ∙ looked_up a
        ∙ ap (λ o. if a == e.addr then some e else o) (sym (get_breakpoint-lookup_addr c a d)),
  )
    where
      looked_up :
          (a : ℕ)
          → lookup_addr a (add_breakpoint c e).0.bps_sorted
            ≡ (if a == e.addr then some e else lookup_addr a c.bps_sorted)
      looked_up a =
          unfold add_breakpoint in
          lookup_addr-insert_at a e c.bps_sorted (insert_idx c e.addr) splits.0
            (λ j q. free-ne h j (omega (arith, splits.0)))

-- Where a container that is sorted has an entry at a greater address, the index recorded for the id
-- of a new breakpoint is that of another entry, at a greater address.
pub add_breakpoint-wrong_index :
    (c : BreakpointContainer) (e : BreakpointEntry) (i : ℕ)
    → IsSorted c.bps_sorted
    → i < length c.bps_sorted
    → e.addr < addr_at c.bps_sorted i
    → (k : ℕ) × ((add_breakpoint c e).0.bps_by_id c.bp_id ≡ some k)
      × (e.addr < addr_at (add_breakpoint c e).0.bps_sorted k)
unfolding add_breakpoint
add_breakpoint-wrong_index c e i sorted h more =
    let n = length c.bps_sorted in
    let p = insert_idx c e.addr in
    let s = search-Splits e.addr c.bps_sorted sorted in
    (
      n,
      ground (arith, length-insert_at p e c.bps_sorted s.0),
      ground
          (arith, addr_at-insert_at p e c.bps_sorted n s.0, s.1 (n - 1), s.1 i, sorted i (n - 1)),
    )
