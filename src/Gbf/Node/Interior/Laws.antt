-- ===== src/Gbf/Node/Interior/Laws.antt =====
-- Which child of an inner node a lookup follows, on keys that ascend.
use mizl_h_public.Base.{
  ℕ, ◌-◌, ◌^◌, ◌≤◌, ◌<◌, ◌≡◌, refl, ap, Outcome, ok, err, panic, no_fuel, ◌>>=◌, ◌==◌, inl, inr,
  ==_iff, ne→==, sub32, rank64, arith, Bool-cases,
}
use mizl_h_public.Gbf.Search.{BinarySearchMatch, found, missing, find_entry_index}
use mizl_h_public.Gbf.Search.Laws.{HasKeys, Returns, find_entry_index-Returns}
use mizl_h_public.Gbf.Node.Interior.{
  GbfLongInteriorNode, get_key_at, get_value_at, find_entry_index_by_key, child_index, get_entry,
}

-- A node with an entry, and fewer than 2 ^ 30, and with keys that can be read and ascend.
pub record IsInner (n : GbfLongInteriorNode) (keys : ℕ → ℕ) : Type 0 where
  pub has_keys : HasKeys (get_key_at n) n.entry_count keys
  pub some_entry : 1 ≤ n.entry_count
  pub few : n.entry_count < 2 ^ 30

-- The entry `i` is the last whose key is at most `key`, or the first entry where there is none.
pub record Covers (keys : ℕ → ℕ) (entry_count key i : ℕ) : Type 0 where
  pub inside : i < entry_count
  pub starts : 1 ≤ i → rank64 (keys i) ≤ rank64 key
  pub ends : (j : ℕ) → i < j → j < entry_count → rank64 key < rank64 (keys j)

module _ (n : GbfLongInteriorNode) (keys : ℕ → ℕ) (is_inner : IsInner n keys) (key : ℕ)
    (word : key < 2 ^ 64) where
  Follows : Outcome BinarySearchMatch → Type 0
  Follows r =
      (i : ℕ) × (Covers keys n.entry_count key i)
      × ((r >>= λ m. get_value_at n (child_index n m)) ≡ get_value_at n i)

  follows :
      2 ≤ n.entry_count
      → (r : Outcome BinarySearchMatch)
      → Returns (get_key_at n) (λ (min : ℕ). min) key n.entry_count keys r
      → Follows r
  unfolding Follows
  follows many (ok (found i)) (p, q, e) = (i, covers, refl)
    where
      covers : Covers keys n.entry_count key i
      covers = record {
        inside = q;
        starts = λ _. omega (arith, ap rank64 e);
        ends = λ j h k. omega (arith, ap rank64 e, is_inner.has_keys.ascends i j h k);
      }
  follows many (ok (missing a)) (m, e, p, q, below, above) =
      (m - 1, covers, ap (get_value_at n) less)
    where
      small : n.entry_count < 2 ^ 30
      small = is_inner.few

      covers : Covers keys n.entry_count key (m - 1)
      covers = record {
        inside = omega arith;
        starts = λ h. omega (arith, below (m - 1) h (omega arith));
        ends = λ j h k. above j (omega arith) k;
      }

      less : sub32 a 1 ≡ m - 1
      less = omega (arith, e)
  follows many (err f) bad = absurd bad
  follows many panic bad = absurd bad
  follows many no_fuel bad = absurd bad

  -- In an inner node with an entry, and fewer than 2 ^ 30, whose keys ascend, a lookup reads the
  -- child of exactly one entry: the last one whose key is at most the key, or the first entry
  -- where there is none. (For the pattern of an `i64` as the key.)
  pub get_entry-Covers :
      (i : ℕ) × (Covers keys n.entry_count key i) × (get_entry n key ≡ get_value_at n i)
  unfolding get_entry find_entry_index_by_key Follows find_entry_index
  get_entry-Covers = elim (Bool-cases (n.entry_count == 1)) [
    | inl e ↦ (
      0,
      covers ((==_iff n.entry_count 1).0 e),
      rw (ne→== n.entry_count 0 (ground (arith, (==_iff n.entry_count 1).0 e)), e) refl,
    )
    | inr e ↦
        let many : 2 ≤ n.entry_count = ground (arith, is_inner.some_entry) in
        follows many (find_entry_index (get_key_at n) (λ (min : ℕ). min) key n.entry_count) (
          find_entry_index-Returns (get_key_at n) (λ (min : ℕ). min) key n.entry_count keys
            is_inner.has_keys word is_inner.few many)
  ]
    where
      covers : n.entry_count ≡ 1 → Covers keys n.entry_count key 0
      covers one = record {
        inside = is_inner.some_entry;
        starts = λ h. absurd (omega arith);
        ends = λ j h k. absurd (omega (arith, one));
      }
