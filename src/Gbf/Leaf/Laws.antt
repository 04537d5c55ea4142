-- ===== src/Gbf/Leaf/Laws.antt =====
-- What a leaf answers, for both kinds: on keys that ascend the search decides each lookup.
use mizl_h_public.Base.{
  ℕ, ◌-◌, ◌^◌, ◌≤◌, ◌<◌, ◌≡◌, refl, ◌∙◌, none, ok, false, sub32, lt_i32, le_i32, rank64, arith,
  eq→==, ne→==,
}
use mizl_h_public.Gbf.Schema.{GbfTableSchema}
use mizl_h_public.Gbf.Search.{found, missing, find_entry_index}
use mizl_h_public.Gbf.Search.Laws.{HasKeys, find_entry_index-present, find_entry_index-missing}
use mizl_h_public.Gbf.Leaf.{
  LeafNode, get_entry_by_index, get_entry, get_entry_before, get_entry_at_before,
  get_entry_at_after, entry_left, entry_right,
}

-- The key lies between the entries `m - 1` and `m`, the entry 0 aside.
pub record Between (keys : ℕ → ℕ) (entry_count key m : ℕ) : Type 0 where
  pub from_one : 1 ≤ m
  pub to_count : m ≤ entry_count
  pub below : (j : ℕ) → 1 ≤ j → j < m → rank64 (keys j) < rank64 key
  pub above : (j : ℕ) → m ≤ j → j < entry_count → rank64 key < rank64 (keys j)

module _ {N : Type 0} (ops : LeafNode N) (schema : GbfTableSchema) (absent : ℕ → ℕ)
    (searches : (n : N) (key : ℕ)
      → ops.find_entry_index_by_key n key
        ≡ find_entry_index (ops.get_key_at n) absent key (ops.entry_count n)) where
  -- With one entry in the node the search finds it, whatever the key is.
  pub get_entry-single :
      (n : N) (key : ℕ)
      → ops.entry_count n ≡ 1
      → get_entry ops schema n key ≡ get_entry_by_index ops schema n key 0
  unfolding get_entry find_entry_index
  get_entry-single n key e =
      rw (searches n key, ne→== (ops.entry_count n) 0 (omega arith), eq→== (ops.entry_count n) 1 e)

  module _ (n : N) (keys : ℕ → ℕ) (has : HasKeys (ops.get_key_at n) (ops.entry_count n) keys)
      (many : 2 ≤ ops.entry_count n) (small : ops.entry_count n < 2 ^ 30) where
    find-present :
        (i : ℕ)
        → 1 ≤ i
        → i < ops.entry_count n
        → ops.find_entry_index_by_key n (keys i) ≡ ok (found i)
    find-present i p q =
        searches n (keys i)
        ∙ find_entry_index-present (ops.get_key_at n) absent (keys i) (ops.entry_count n) keys has
            (has.words i q) small i p q refl

    find-Between :
        (key m : ℕ)
        → key < 2 ^ 64
        → Between keys (ops.entry_count n) key m
        → ops.find_entry_index_by_key n key ≡ ok (missing (absent m))
    find-Between key m w b =
        searches n key
        ∙ find_entry_index-missing (ops.get_key_at n) absent key (ops.entry_count n) keys has w
            small m many b.from_one b.to_count b.below b.above

    pub get_entry-present :
        (i : ℕ)
        → 1 ≤ i
        → i < ops.entry_count n
        → get_entry ops schema n (keys i) ≡ get_entry_by_index ops schema n (keys i) i
    unfolding get_entry
    get_entry-present i p q = rw (find-present i p q)

    pub get_entry-Between :
        (key m : ℕ)
        → key < 2 ^ 64
        → Between keys (ops.entry_count n) key m
        → get_entry ops schema n key ≡ ok none
    unfolding get_entry
    get_entry-Between key m w b = rw (find-Between key m w b)

    -- The first key of a node is between its entries, for the search.
    pub first-Between : Between keys (ops.entry_count n) (keys 0) 1
    first-Between = record {
      from_one = omega arith;
      to_count = omega arith;
      below = λ j p q. absurd (omega arith);
      above = λ j p q. has.ascends 0 j (omega arith) q;
    }

    pub get_entry-first : get_entry ops schema n (keys 0) ≡ ok none
    get_entry-first = get_entry-Between (keys 0) 1 (has.words 0 (omega arith)) first-Between

    pub get_entry_before-present :
        (i : ℕ)
        → 1 ≤ i
        → i < ops.entry_count n
        → get_entry_before ops schema n (keys i) ≡ get_entry_by_index ops schema n (keys i) i
    unfolding get_entry_before
    get_entry_before-present i p q = rw (find-present i p q, not_negative)
      where
        not_negative : lt_i32 (sub32 i 1) 0 ≡ false
        not_negative = ground arith

    pub get_entry_at_after-Between :
        (key m : ℕ)
        → key < 2 ^ 64
        → Between keys (ops.entry_count n) key m
        → absent m < ops.entry_count n
        → get_entry_at_after ops schema n key
          ≡ get_entry_by_index ops schema n (keys (absent m)) (absent m)
    unfolding get_entry_at_after entry_right
    get_entry_at_after-Between key m w b q =
        rw (find-Between key m w b, has.reads (absent m) q, inside)
      where
        inside : le_i32 (ops.entry_count n) (absent m) ≡ false
        inside = ground arith

    pub get_entry_at_before-Between :
        (key m : ℕ)
        → key < 2 ^ 64
        → Between keys (ops.entry_count n) key m
        → 1 ≤ absent m
        → absent m ≤ ops.entry_count n
        → get_entry_at_before ops schema n key
          ≡ get_entry_by_index ops schema n (keys (absent m - 1)) (absent m - 1)
    unfolding get_entry_at_before entry_left
    get_entry_at_before-Between key m w b p q =
        rw (find-Between key m w b, left, has.reads (absent m - 1) (omega arith), not_negative)
      where
        left : sub32 (absent m) 1 ≡ absent m - 1
        left = omega arith

        not_negative : lt_i32 (absent m - 1) 0 ≡ false
        not_negative = ground arith
