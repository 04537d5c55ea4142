-- ===== src/Base/Search/Laws.antt =====
-- Where the comparison is monotone along the slice, the search finds an equal element, or the one
-- place between the smaller and the greater elements.
use Prim.Native.Nat.{Ordering, ℕ, zero, suc, ◌+◌, ◌-◌, ◌/◌, ◌≤◌, ◌<◌}
use mathlib.Core.Path.{◌≡◌, refl, ap}
use mathlib.Core.Logic.{◌⊎◌, inl, inr}
use mathlib.Core.List.{List}
use native.Mathlib.Omega.{arith}
use mizl_h_public.Base.Tests.{◌==◌, ==_iff, Bool-cases, tests}
use mizl_h_public.Base.Lists.{length}
use mizl_h_public.Base.Search.{
  Position, found, missing, cmp_at, search_loop, binary_search_by, at_base,
}

abbrev pub rank : Ordering → ℕ
rank Ordering.lt = 0
rank Ordering.eq = 1
rank Ordering.gt = 2

is_lt : (o : Ordering) → rank o ≤ 0 → o ≡ Ordering.lt
is_lt o h = ground arith

is_gt : (o : Ordering) → rank o ≡ 2 → o ≡ Ordering.gt
is_gt o h = ground arith

module _ {ℓ} {A : Type ℓ} (f : A → Ordering) (xs : List A) where
  -- Smaller elements first, then equal ones, then greater ones.
  abbrev pub IsMonotone : Type 0
  IsMonotone = (i j : ℕ) → i ≤ j → j < length xs → rank (cmp_at f xs i) ≤ rank (cmp_at f xs j)

  abbrev pub Locates : Position → Type 0
  Locates (found i) = (i < length xs) × (cmp_at f xs i ≡ Ordering.eq)
  Locates (missing i) =
      (i ≤ length xs)
      × ((j : ℕ) → j < i → cmp_at f xs j ≡ Ordering.lt)
      × ((j : ℕ) → i ≤ j → j < length xs → cmp_at f xs j ≡ Ordering.gt)

  -- The greatest rank.
  rank-le : (o : Ordering) → rank o ≤ 2
  rank-le o = ground arith

  loop_bound :
      (fuel base size : ℕ)
      → 1 ≤ size
      → base + size ≤ length xs
      → (base ≡ 0) ⊎ (rank (cmp_at f xs base) ≤ 1)
      → (search_loop f fuel xs base size < length xs)
        × ((search_loop f fuel xs base size ≡ 0)
            ⊎ (rank (cmp_at f xs (search_loop f fuel xs base size)) ≤ 1))
  unfolding search_loop
  loop_bound zero base size p q r = (omega arith, r)
  loop_bound (suc fuel) base size p q r = ground (
    arith,
    loop_bound fuel base (size - size / 2),
    loop_bound fuel (base + size / 2) (size - size / 2),
  )

  module _ (mono : IsMonotone) where
    loop_above :
        (j fuel base size : ℕ)
        → 1 ≤ size
        → size ≤ suc fuel
        → base + size ≤ length xs
        → (base + size ≤ j → j < length xs → rank (cmp_at f xs j) ≡ 2)
        → search_loop f fuel xs base size < j
        → j < length xs
        → rank (cmp_at f xs j) ≡ 2
    unfolding search_loop
    loop_above j zero base size p s q above h k = above (omega arith) k
    loop_above j (suc fuel) base size p s q above h k = ground (
      arith,
      rank-le (cmp_at f xs j),
      mono (base + size / 2) j,
      loop_above j fuel base (size - size / 2),
      loop_above j fuel (base + size / 2) (size - size / 2),
    )

    base_Locates :
        (b : ℕ)
        → b < length xs
        → (b ≡ 0) ⊎ (rank (cmp_at f xs b) ≤ 1)
        → ((j : ℕ) → b < j → j < length xs → rank (cmp_at f xs j) ≡ 2)
        → (o : Ordering) → cmp_at f xs b ≡ o
        → Locates (at_base f o b)
    base_Locates b p r above Ordering.eq e = (p, e)
    base_Locates b p r above Ordering.lt e = (
      omega arith,
      λ j h. is_lt _ (omega (arith, ap rank e, mono j b (omega arith) p)),
      λ j h k. is_gt _ (above j (omega arith) k),
    )
    base_Locates b p r above Ordering.gt e = (
      omega arith,
      λ j h. absurd (omega (arith, ap rank e)),
      λ j h k. is_gt _ (omega (arith, ap rank e, mono b j h k, rank-le (cmp_at f xs j))),
    )

    -- Totality is part of it: the search ends at a position, in `xs.len()` rounds at most.
    pub binary_search_by-Locates : Locates (binary_search_by f xs)
    unfolding binary_search_by
    binary_search_by-Locates = elim (Bool-cases (length xs == 0)) [
      | inl e ↦ rw e (
        omega (tests, (==_iff (length xs) 0).0 e),
        λ j h. absurd (omega arith),
        λ j h k. absurd (omega (arith, (==_iff (length xs) 0).0 e)),
      )
      | inr n ↦ rw n (searched (ground arith))
    ]
      where
        searched :
            1 ≤ length xs
            → Locates (
                at_base f
                  (cmp_at f xs (search_loop f (length xs) xs 0 (length xs)))
                  (search_loop f (length xs) xs 0 (length xs)))
        searched h =
            let bound = loop_bound (length xs) 0 (length xs) h (omega arith) (inl refl) in
            base_Locates (search_loop f (length xs) xs 0 (length xs)) bound.0 bound.1
              (λ j.
                loop_above j (length xs) 0 (length xs) h (omega arith) (omega arith)
                  (λ p q. absurd (omega arith)))
              (cmp_at f xs (search_loop f (length xs) xs 0 (length xs))) refl
