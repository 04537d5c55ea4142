-- ===== src/Gbf/TableView/Start.antt =====
-- Where an iterator over a table starts in the leaf for its key.
use mizl_h_public.Base.{
  ℕ, ◌-◌, ◌^◌, ◌≤◌, ◌<◌, ◌≡◌, refl, ap, ◌∙◌, ok, sub32, lt_i32, true, false, arith, max, rank64,
}
use mizl_h_public.Gbf.Search.{missing}
use mizl_h_public.Gbf.Search.Laws.{find_entry_index-missing}
use mizl_h_public.Gbf.Leaf.Laws.{Between}
use mizl_h_public.Gbf.Node.Fixed
use mizl_h_public.Gbf.Node.Fixed.Laws as FixedLaws
use mizl_h_public.Gbf.Node.Var
use mizl_h_public.Gbf.Node.Var.Laws as VarLaws
use mizl_h_public.Gbf.TableView.{
  GbfTableView, iterate_var, iterate_fixed, long_var_iterator, long_fixed_iterator,
}

in_range : (m count : ℕ) → m ≤ count → count < 2 ^ 30 → lt_i32 m 0 ≡ false
in_range m count h k = ground arith

filled : (count : ℕ) → 2 ≤ count → count < 2 ^ 30 → lt_i32 0 count ≡ true
filled count h k = ground arith

-- The key is not in the leaf: `m` entries have smaller keys, and those behind them greater ones.
pub record StandsAt (keys : ℕ → ℕ) (entry_count key m : ℕ) : Type 0 where
  pub to_count : m ≤ entry_count
  pub below : (j : ℕ) → j < m → rank64 (keys j) < rank64 key
  pub above : (j : ℕ) → m ≤ j → j < entry_count → rank64 key < rank64 (keys j)

-- The search takes the first entry for smaller.
searched :
    (keys : ℕ → ℕ) (entry_count key m : ℕ)
    → 2 ≤ entry_count
    → StandsAt keys entry_count key m
    → Between keys entry_count key (max 1 m)
searched keys entry_count key m many s = record {
  from_one = omega arith;
  to_count = omega (arith, s.to_count, many);
  below = λ j p q. s.below j (omega (arith, p, q));
  above = λ j p q. s.above j (omega (arith, p)) q;
}

module _ (keys : ℕ → ℕ) (key : ℕ) (word : key < 2 ^ 64) where
  fixed_missing :
      (n : Fixed.GbfLongFixedNode) (m : ℕ)
      → FixedLaws.IsLeaf n keys
      → Between keys n.entry_count key m
      → Fixed.find_entry_index_by_key n key ≡ ok (missing m)
  unfolding Fixed.find_entry_index_by_key
  fixed_missing n m l b =
      find_entry_index-missing (Fixed.get_key_at n) (λ (min : ℕ). min) key n.entry_count keys
        l.has_keys word l.few m l.many b.from_one b.to_count b.below b.above

  var_missing :
      (n : Var.GbfLongVarNode) (m : ℕ)
      → VarLaws.IsLeaf n keys
      → Between keys n.entry_count key m
      → Var.find_entry_index_by_key n key ≡ ok (missing (m - 1))
  unfolding Var.find_entry_index_by_key
  var_missing n m l b =
      find_entry_index-missing (Var.get_key_at n) (λ (min : ℕ). sub32 min 1) key n.entry_count keys
        l.has_keys word l.few m l.many b.from_one b.to_count b.below b.above
      ∙ ap (λ k. ok (missing k)) (omega (arith, b.from_one, b.to_count, l.few))

  -- For a key that is not in its leaf and has `m` entries with smaller keys in front of it, an
  -- iterator starts at entry `m` in a leaf with records of one length, but at entry 1 where `m` is
  -- 0, so that the first entry is left out; and at entry `m - 1` in a leaf with records of varying
  -- length, whose key is smaller, but at entry 0 where `m` is 0. (The keys ascend, and the leaves
  -- have two entries or more, and fewer than 2 ^ 30. The key is the pattern of an `i64`.)
  pub iterate-starts :
      (fuel : ℕ) (tv : GbfTableView) (fixed : Fixed.GbfLongFixedNode) (var : Var.GbfLongVarNode)
      (m : ℕ)
      → FixedLaws.IsLeaf fixed keys
      → VarLaws.IsLeaf var keys
      → StandsAt keys fixed.entry_count key m
      → StandsAt keys var.entry_count key m
      → (iterate_fixed fuel tv key fixed
          ≡ ok (long_fixed_iterator (record { cur_node = fixed; cur_node_idx = max 1 m })))
        × (iterate_var fuel tv key var
            ≡ ok (long_var_iterator (record { cur_node = var; cur_node_idx = m - 1 })))
  unfolding iterate_fixed iterate_var
  iterate-starts fuel tv fixed var m l l' s s' =
      let b = searched keys fixed.entry_count key m l.many s in
      let b' = searched keys var.entry_count key m l'.many s' in
      let less : lt_i32 (max 1 m - 1) 0 ≡ false =
        in_range (max 1 m - 1) var.entry_count (omega (arith, b'.to_count)) l'.few in
      let behind : max 1 m - 1 ≡ m - 1 = omega arith in
      (
        rw
            (
              filled fixed.entry_count l.many l.few,
              fixed_missing fixed (max 1 m) l b,
              in_range (max 1 m) fixed.entry_count b.to_count l.few,
            )
            refl,
        rw (filled var.entry_count l'.many l'.few, var_missing var (max 1 m) l' b', less, behind)
            refl,
      )
