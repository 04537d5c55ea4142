-- ===== src/Base/Search.antt =====
-- `binary_search_by` of the Rust slices: it halves the part left until one element remains, and
-- moves the base up unless the probed element is greater. Which of several equal elements it finds
-- is whatever this loop ends at.
pub mod Laws
use Prim.Native.Nat.{Ordering}
use mizl_h_public.Base.Tests.{◌==◌, ltb, if◌then◌else◌}
use mizl_h_public.Base.Lists.{length, get_elem?}
use Prim.Native.Nat.{ℕ, zero, suc, ◌+◌, ◌-◌, ◌/◌}
use mathlib.Core.List.{List}
use mathlib.Core.Option.{none, some}

-- `Result<usize, usize>`: where an element is, or where one could be inserted.
pub data Position : Type 0 where
  found missing : ℕ → Position

-- `Ok(i) => i, Err(i) => i`
abbrev pub index_of : Position → ℕ
index_of (found i) = i
index_of (missing i) = i

module _ {ℓ} {A : Type ℓ} (f : A → Ordering) where
  -- The comparison at an index; the loop never leaves the slice.
  unfoldable pub cmp_at : List A → ℕ → Ordering
  cmp_at xs i = elim (get_elem? xs i) [ none ↦ Ordering.gt | some x ↦ f x ]

  abbrev pub next_base : Ordering → ℕ → ℕ → ℕ
  next_base Ordering.gt base mid = base
  next_base Ordering.lt base mid = mid
  next_base Ordering.eq base mid = mid

  unfoldable pub search_loop : ℕ → List A → ℕ → ℕ → ℕ
  unfolding cmp_at
  search_loop zero xs base size = base
  search_loop (suc fuel) xs base size =
      let half = size / 2 in
      let rest =
        search_loop fuel xs (next_base (cmp_at xs (base + half)) base (base + half))
          (size - half) in
      if ltb 1 size then rest else base

  abbrev pub at_base : Ordering → ℕ → Position
  at_base Ordering.eq base = found base
  at_base Ordering.lt base = missing (base + 1)
  at_base Ordering.gt base = missing base

  -- The size falls in each round, so `xs.len()` rounds are enough.
  unfoldable pub binary_search_by : List A → Position
  unfolding search_loop
  binary_search_by xs =
      let base = search_loop (length xs) xs 0 (length xs) in
      if length xs == 0 then missing 0 else at_base (cmp_at xs base) base
