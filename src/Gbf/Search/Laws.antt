-- ===== src/Gbf/Search/Laws.antt =====
-- What the search answers on keys that ascend: the entry with the key, or the place between the
-- smaller and the greater keys. The entry 0 is never looked at.
use mizl_h_public.Base.{
  ℕ, zero, suc, ◌+◌, ◌-◌, ◌/◌, ◌^◌, ◌≤◌, ◌<◌, ◌≡◌, refl, ap, sym, ◌∙◌, Outcome, ok, err, panic,
  no_fuel, ◌==◌, true, false, leb, Bool-cases, inl, inr, tests, ltb→lt, leb→le, ==_iff, ne→==,
  add32, sub32, lt_i64, le_i32, div_i32, rank64, arith,
}
use mizl_h_public.Gbf.Search.{BinarySearchMatch, found, missing, find_loop, find_entry_index}

-- The keys of a node: each can be read, and their numbers ascend.
pub record HasKeys (get_key_at : ℕ → Outcome ℕ) (entry_count : ℕ) (keys : ℕ → ℕ) : Type 0 where
  pub reads : (i : ℕ) → i < entry_count → get_key_at i ≡ ok (keys i)
  pub words : (i : ℕ) → i < entry_count → keys i < 2 ^ 64
  pub ascends : (i j : ℕ) → i < j → j < entry_count → rank64 (keys i) < rank64 (keys j)

module _ (get_key_at : ℕ → Outcome ℕ) (absent : ℕ → ℕ) (key entry_count : ℕ) where
  module _ (keys : ℕ → ℕ) where
    -- Before `min` the keys from entry 1 on are smaller, from `max` on they are greater.
    abbrev pub Finds : BinarySearchMatch → Type 0
    Finds (found i) = (1 ≤ i) × (i < entry_count) × (keys i ≡ key)
    Finds (missing a) =
        (m : ℕ) × (a ≡ absent m)
        × (1 ≤ m)
        × (m ≤ entry_count)
        × ((j : ℕ) → 1 ≤ j → j < m → rank64 (keys j) < rank64 key)
        × ((j : ℕ) → m ≤ j → j < entry_count → rank64 key < rank64 (keys j))

    abbrev pub Returns : Outcome BinarySearchMatch → Type 0
    Returns (ok m) = Finds m
    Returns (err e) = ⊥
    Returns panic = ⊥
    Returns no_fuel = ⊥

    module _ (has : HasKeys get_key_at entry_count keys) (word : key < 2 ^ 64)
        (small : entry_count < 2 ^ 30) where
      -- The machine arithmetic of a round does not wrap.
      round_wraps :
          (min max : ℕ)
          → 1 ≤ min
          → min ≤ max
          → max < entry_count
          → (div_i32 (add32 min max) 2 ≡ (min + max) / 2)
            × (add32 ((min + max) / 2) 1 ≡ (min + max) / 2 + 1)
            × (sub32 ((min + max) / 2) 1 ≡ (min + max) / 2 - 1)
      round_wraps min max p q r = (ground arith, omega arith, omega arith)

      le_i32-eq : (min max : ℕ) → min ≤ max + 1 → max < entry_count → le_i32 min max ≡ leb min max
      le_i32-eq min max q r = ground arith

      -- A key that is not equal is smaller or greater.
      lt_i64-lt : (k : ℕ) → lt_i64 k key ≡ true → rank64 k < rank64 key
      lt_i64-lt k h = ltb→lt _ _ h

      lt_i64-gt :
          (k : ℕ) → k < 2 ^ 64 → (k == key) ≡ false → lt_i64 k key ≡ false → rank64 key < rank64 k
      lt_i64-gt k h e l = ground arith

      ascends_le : (i j : ℕ) → i ≤ j → j < entry_count → rank64 (keys i) ≤ rank64 (keys j)
      ascends_le i j h k = ground (arith, has.ascends i j)

      find_loop-Returns :
          (fuel min max : ℕ)
          → max + 1 < fuel + min
          → 1 ≤ min
          → min ≤ max + 1
          → max < entry_count
          → ((j : ℕ) → 1 ≤ j → j < min → rank64 (keys j) < rank64 key)
          → ((j : ℕ) → max < j → j < entry_count → rank64 key < rank64 (keys j))
          → Returns (find_loop get_key_at absent key fuel min max)
      unfolding find_loop
      find_loop-Returns zero min max f p q r below above = absurd (omega arith)
      find_loop-Returns (suc fuel) min max f p q r below above = elim (Bool-cases (leb min max)) [
        | inr e ↦
            rw (le_i32-eq min max q r, e)
              (min, refl, p, omega tests, below, λ j h. above j (omega tests))
        | inl e ↦
            let le = leb→le min max e in
            let mid = (min + max) / 2 in
            let (w1, w2, w3) = round_wraps min max p le r in
            let lt : mid < entry_count = omega arith in
            rw (le_i32-eq min max q r, e, w1, has.reads mid lt, w2, w3)
              (elim (Bool-cases (keys mid == key)) [
                | inl same ↦ rw same (omega arith, lt, (==_iff (keys mid) key).0 same)
                | inr other ↦ rw other (elim (Bool-cases (lt_i64 (keys mid) key)) [
                  | inl less ↦ rw less (
                      find_loop-Returns fuel (mid + 1) max (omega arith) (omega arith) (omega arith)
                        r
                        (λ j h k.
                          omega
                            (arith, ascends_le j mid (omega arith) lt, lt_i64-lt (keys mid) less))
                        above)
                  | inr more ↦ rw more (
                      find_loop-Returns fuel min (mid - 1) (omega arith) p (omega arith)
                        (omega arith) below
                        (λ j h k. omega (
                          arith,
                          ascends_le mid j (omega arith) k,
                          lt_i64-gt (keys mid) (has.words mid lt) other more,
                        )))
                ])
              ])
      ]

      -- Of a node with two entries or more, and fewer than 2 ^ 30, whose keys ascend, the search
      -- returns an answer that `Finds` describes.
      pub find_entry_index-Returns :
          2 ≤ entry_count → Returns (find_entry_index get_key_at absent key entry_count)
      unfolding find_entry_index
      find_entry_index-Returns h =
          rw (ne→== entry_count 0 (omega arith), ne→== entry_count 1 (omega arith), last)
            (find_loop-Returns entry_count 1 (entry_count - 1) (omega arith) (omega arith)
              (omega arith) (omega arith) (λ j p q. absurd (omega arith))
              (λ j p q. absurd (omega arith)))
        where
          last : sub32 entry_count 1 ≡ entry_count - 1
          last = omega arith

      abbrev search : Outcome BinarySearchMatch
      search = find_entry_index get_key_at absent key entry_count

      present :
          (i : ℕ)
          → 1 ≤ i
          → i < entry_count
          → keys i ≡ key
          → (r : Outcome BinarySearchMatch) → Returns r
          → r ≡ ok (found i)
      present i p q e (ok (found j)) (p', q', e') =
          ap (λ k. ok (found k)) (only (ap rank64 (e' ∙ sym e)))
        where
          only : rank64 (keys j) ≡ rank64 (keys i) → j ≡ i
          only s = ground (arith, has.ascends i j, has.ascends j i)
      present i p q e (ok (missing a)) (m, _, _, _, below, above) =
          absurd (ground (arith, ap rank64 e, below i, above i))
      present i p q e (err f) bad = absurd bad
      present i p q e panic bad = absurd bad
      present i p q e no_fuel bad = absurd bad

      -- A key of the node, but for the first one, is found at its index.
      pub find_entry_index-present :
          (i : ℕ) → 1 ≤ i → i < entry_count → keys i ≡ key → search ≡ ok (found i)
      find_entry_index-present i p q e =
          present i p q e search (find_entry_index-Returns (omega arith))

      missed :
          (m : ℕ)
          → 1 ≤ m
          → m ≤ entry_count
          → ((j : ℕ) → 1 ≤ j → j < m → rank64 (keys j) < rank64 key)
          → ((j : ℕ) → m ≤ j → j < entry_count → rank64 key < rank64 (keys j))
          → (r : Outcome BinarySearchMatch) → Returns r
          → r ≡ ok (missing (absent m))
      missed m p q below above (ok (found j)) (p', q', e) =
          absurd (ground (arith, ap rank64 e, below j, above j))
      missed m p q below above (ok (missing a)) (m', e, p', q', below', above') =
          ap (λ k. ok (missing k)) (e ∙ ap absent only)
        where
          only : m' ≡ m
          only = ground (arith, below m', above' m', below' m, above m)
      missed m p q below above (err f) bad = absurd bad
      missed m p q below above panic bad = absurd bad
      missed m p q below above no_fuel bad = absurd bad

      -- A key between the entries `m - 1` and `m`, the first entry aside, is missing at `m`.
      pub find_entry_index-missing :
          (m : ℕ)
          → 2 ≤ entry_count
          → 1 ≤ m
          → m ≤ entry_count
          → ((j : ℕ) → 1 ≤ j → j < m → rank64 (keys j) < rank64 key)
          → ((j : ℕ) → m ≤ j → j < entry_count → rank64 key < rank64 (keys j))
          → search ≡ ok (missing (absent m))
      find_entry_index-missing m h p q below above =
          missed m p q below above search (find_entry_index-Returns h)
