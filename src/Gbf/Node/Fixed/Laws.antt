-- ===== src/Gbf/Node/Fixed/Laws.antt =====
-- The lookups of the fixed leaf nodes, on keys that ascend.
use mizl_h_public.Base.{ℕ, ◌-◌, ◌^◌, ◌≤◌, ◌<◌, ◌≡◌, refl, sym, ◌∙◌, none, ok}
use mizl_h_public.Gbf.Schema.{GbfTableSchema}
use mizl_h_public.Gbf.Search.{find_entry_index}
use mizl_h_public.Gbf.Search.Laws.{HasKeys}
use mizl_h_public.Gbf.Leaf.Laws
use mizl_h_public.Gbf.Leaf.Laws.{Between}
use mizl_h_public.Gbf.Node.Fixed.{
  GbfLongFixedNode, fixed_ops, get_key_at, find_entry_index_by_key, get_entry_by_index, get_entry,
  get_entry_before, get_entry_at_before, get_entry_at_after,
}

abbrev absent : ℕ → ℕ
absent = λ (min : ℕ). min

searches :
    (n : GbfLongFixedNode) (key : ℕ)
    → find_entry_index_by_key n key
      ≡ find_entry_index (get_key_at n) (λ (min : ℕ). min) key n.entry_count
unfolding find_entry_index_by_key
searches n key = refl

-- A node with two entries or more, and fewer than 2 ^ 30, and with keys that can be read and
-- ascend.
pub record IsLeaf (n : GbfLongFixedNode) (keys : ℕ → ℕ) : Type 0 where
  pub has_keys : HasKeys (get_key_at n) n.entry_count keys
  pub many : 2 ≤ n.entry_count
  pub few : n.entry_count < 2 ^ 30

-- A node with one entry answers a lookup of any key with that entry.
pub get_entry-fixed_single :
    (n : GbfLongFixedNode) (schema : GbfTableSchema) (key : ℕ)
    → n.entry_count ≡ 1
    → get_entry schema n key ≡ get_entry_by_index schema n key 0
unfolding get_entry get_entry_by_index
get_entry-fixed_single n schema key e =
    Laws.get_entry-single fixed_ops schema absent searches n key e

module _ (n : GbfLongFixedNode) (schema : GbfTableSchema) (keys : ℕ → ℕ)
    (is_leaf : IsLeaf n keys) where
  -- In a leaf with two entries or more, and fewer than 2 ^ 30, whose keys ascend, a lookup of the
  -- key of an entry behind the first one is answered with that entry, and a lookup of a key between
  -- those of two neighbours, or behind the last one, with `None`. The first key plays no part in
  -- it.
  pub get_entry-fixed_decided :
      (i key m : ℕ)
      → 1 ≤ i
      → i < n.entry_count
      → key < 2 ^ 64
      → Between keys n.entry_count key m
      → (get_entry schema n (keys i) ≡ get_entry_by_index schema n (keys i) i)
        × (get_entry schema n key ≡ ok none)
  unfolding get_entry get_entry_by_index
  get_entry-fixed_decided i key m p q w b = (
    Laws.get_entry-present fixed_ops schema absent searches n keys is_leaf.has_keys is_leaf.many
        is_leaf.few i p q,
    Laws.get_entry-Between fixed_ops schema absent searches n keys is_leaf.has_keys is_leaf.many
        is_leaf.few key m w b,
  )

  -- In a leaf with two entries or more, and fewer than 2 ^ 30, whose keys ascend, a lookup of the
  -- first key is answered with `None`, although the entry is there.
  pub get_entry-fixed_first : get_entry schema n (keys 0) ≡ ok none
  unfolding get_entry
  get_entry-fixed_first =
      Laws.get_entry-first fixed_ops schema absent searches n keys is_leaf.has_keys is_leaf.many
        is_leaf.few

  -- In a leaf with two entries or more, and fewer than 2 ^ 30, whose keys ascend,
  -- `get_entry_before` answers the key of an entry behind the first one with that entry itself, as
  -- `get_entry` does, and not with the one before it.
  pub get_entry_before-fixed_present :
      (i : ℕ)
      → 1 ≤ i
      → i < n.entry_count
      → get_entry_before schema n (keys i) ≡ get_entry schema n (keys i)
  unfolding get_entry get_entry_before
  get_entry_before-fixed_present i p q =
      Laws.get_entry_before-present fixed_ops schema absent searches n keys is_leaf.has_keys
        is_leaf.many is_leaf.few i p q
      ∙ sym (
          Laws.get_entry-present fixed_ops schema absent searches n keys is_leaf.has_keys
            is_leaf.many is_leaf.few i p q)

  -- In a leaf with two entries or more, and fewer than 2 ^ 30, whose keys ascend, a key that lies
  -- between the entries `m - 1` and `m` is answered with entry `m - 1` by `get_entry_at_before`,
  -- and with entry `m` by `get_entry_at_after`. The first key of the leaf is taken for smaller.
  pub get_entry_at-fixed_neighbours :
      (key m : ℕ)
      → key < 2 ^ 64
      → Between keys n.entry_count key m
      → m < n.entry_count
      → (get_entry_at_before schema n key ≡ get_entry_by_index schema n (keys (m - 1)) (m - 1))
        × (get_entry_at_after schema n key ≡ get_entry_by_index schema n (keys m) m)
  unfolding get_entry_at_before get_entry_at_after get_entry_by_index
  get_entry_at-fixed_neighbours key m w b lt = (
    Laws.get_entry_at_before-Between fixed_ops schema absent searches n keys is_leaf.has_keys
        is_leaf.many is_leaf.few key m w b b.from_one b.to_count,
    Laws.get_entry_at_after-Between fixed_ops schema absent searches n keys is_leaf.has_keys
        is_leaf.many is_leaf.few key m w b lt,
  )
