-- ===== src/Gbf/Leaf/Iterator/Laws.antt =====
-- What an iterator over the last leaf of a table meets, whichever the kind of the leaf.
use mizl_h_public.Base.{
  ℕ, zero, suc, ◌+◌, ◌^◌, ◌<◌, ◌≡◌, refl, some, List, [], ◌∷◌, ok, add32, lt_i32, minus_one32, true,
  false, arith,
}
use mizl_h_public.Gbf.Record.{GbfRecord}
use mizl_h_public.Gbf.Schema.{GbfTableSchema}
use mizl_h_public.Gbf.Leaf.{LeafNode, get_entry_by_index}
use mizl_h_public.Gbf.Leaf.Iterator.{next, next_node, collect, yield_entry}

-- `count` records from `first` on.
abbrev pub records_from : (ℕ → GbfRecord) → ℕ → ℕ → List GbfRecord
records_from entries first zero = []
records_from entries first (suc count) = entries first ∷ records_from entries (first + 1) count

module _ {N : Type 0} (ops : LeafNode N) (schema : GbfTableSchema) where
  -- A leaf with an entry, and fewer than 2 ^ 30, each of which can be read, and no leaf behind it.
  pub record IsLastLeaf (n : N) (entries : ℕ → GbfRecord) : Type 0 where
    pub keys : ℕ → ℕ
    pub reads_key : (i : ℕ) → i < ops.entry_count n → ops.get_key_at n i ≡ ok (keys i)
    pub reads_entry :
        (i : ℕ)
        → i < ops.entry_count n
        → get_entry_by_index ops schema n (keys i) i ≡ ok (some (entries i))
    pub few : ops.entry_count n < 2 ^ 30
    pub last : ops.next_leaf_nid n ≡ minus_one32

  module _ (n : N) (entries : ℕ → GbfRecord) (is_last : IsLastLeaf n entries) where
    step :
        (idx : ℕ)
        → idx < ops.entry_count n
        → next ops schema (record { cur_node = n; cur_node_idx = idx })
          ≡ yield_entry ops schema
              (record { cur_node = n; cur_node_idx = idx })
              (some (entries idx))
    unfolding next
    step idx h = rw (is_last.reads_key idx h, is_last.reads_entry idx h) refl

    inside :
        (idx : ℕ) → idx + 1 < ops.entry_count n → lt_i32 (add32 idx 1) (ops.entry_count n) ≡ true
    inside idx h = ground (arith, is_last.few)

    outside :
        (idx : ℕ) → idx + 1 ≡ ops.entry_count n → lt_i32 (add32 idx 1) (ops.entry_count n) ≡ false
    outside idx h = ground (arith, is_last.few)

    moves : (idx : ℕ) → idx + 1 < ops.entry_count n → add32 idx 1 ≡ idx + 1
    moves idx h = omega (arith, is_last.few)

    -- An iterator over the last leaf of a table, whose entries can be read, ends within as many
    -- rounds as there are entries left, and meets all of them in order but the last one. (The leaf
    -- has fewer than 2 ^ 30 entries.)
    pub collect-all_but_last :
        (count idx fuel : ℕ)
        → idx + count + 1 ≡ ops.entry_count n
        → count < fuel
        → collect ops schema fuel (record { cur_node = n; cur_node_idx = idx })
          ≡ ok (records_from entries idx count)
    unfolding collect next_node
    collect-all_but_last count idx zero h k = absurd (omega arith)
    collect-all_but_last zero idx (suc fuel) h k =
        rw (step idx (omega arith), outside idx (omega arith), is_last.last) refl
    collect-all_but_last (suc count) idx (suc fuel) h k =
        rw
          (
            step idx (omega arith),
            inside idx (omega arith),
            moves idx (omega arith),
            collect-all_but_last count (idx + 1) fuel (omega arith) (omega arith),
          )
          refl
