-- ===== src/Gbf/Node/Var/Laws.antt =====
-- The lookups of the variable leaf nodes, on keys that ascend.
use mizl_h_public.Base.{
  ℕ, ◌-◌, ◌^◌, ◌≤◌, ◌<◌, ◌≡◌, refl, ap, sym, ◌∙◌, none, ok, sub32, rank64, arith,
}
use mizl_h_public.Gbf.Schema.{GbfTableSchema}
use mizl_h_public.Gbf.Search.{find_entry_index}
use mizl_h_public.Gbf.Search.Laws.{HasKeys}
use mizl_h_public.Gbf.Leaf.Laws
use mizl_h_public.Gbf.Leaf.Laws.{Between}
use mizl_h_public.Gbf.Node.Var.{
  GbfLongVarNode, var_ops, get_key_at, find_entry_index_by_key, get_entry_by_index, get_entry,
  get_entry_before, get_entry_at_before, get_entry_at_after,
}

abbrev absent : ℕ → ℕ
absent = λ (min : ℕ). sub32 min 1

searches :
    (n : GbfLongVarNode) (key : ℕ)
    → find_entry_index_by_key n key
      ≡ find_entry_index (get_key_at n) (λ (min : ℕ). sub32 min 1) key n.entry_count
unfolding find_entry_index_by_key
searches n key = refl

-- A node with two entries or more, and fewer than 2 ^ 30, and with keys that can be read and
-- ascend.
pub record IsLeaf (n : GbfLongVarNode) (keys : ℕ → ℕ) : Type 0 where
  pub has_keys : HasKeys (get_key_at n) n.entry_count keys
  pub many : 2 ≤ n.entry_count
  pub few : n.entry_count < 2 ^ 30

-- A node with one entry answers a lookup of any key with that entry.
pub get_entry-var_single :
    (n : GbfLongVarNode) (schema : GbfTableSchema) (key : ℕ)
    → n.entry_count ≡ 1
    → get_entry schema n key ≡ get_entry_by_index schema n key 0
unfolding get_entry get_entry_by_index
get_entry-var_single n schema key e = Laws.get_entry-single var_ops schema absent searches n key e

module _ (n : GbfLongVarNode) (schema : GbfTableSchema) (keys : ℕ → ℕ)
    (is_leaf : IsLeaf n keys) where
  -- In a leaf with two entries or more, and fewer than 2 ^ 30, whose keys ascend, a lookup of the
  -- key of an entry behind the first one is answered with that entry, and a lookup of a key between
  -- those of two neighbours, or behind the last one, with `None`. The first key plays no part in
  -- it.
  pub get_entry-var_decided :
      (i key m : ℕ)
      → 1 ≤ i
      → i < n.entry_count
      → key < 2 ^ 64
      → Between keys n.entry_count key m
      → (get_entry schema n (keys i) ≡ get_entry_by_index schema n (keys i) i)
        × (get_entry schema n key ≡ ok none)
  unfolding get_entry get_entry_by_index
  get_entry-var_decided i key m p q w b = (
    Laws.get_entry-present var_ops schema absent searches n keys is_leaf.has_keys is_leaf.many
        is_leaf.few i p q,
    Laws.get_entry-Between var_ops schema absent searches n keys is_leaf.has_keys is_leaf.many
        is_leaf.few key m w b,
  )

  -- In a leaf with two entries or more, and fewer than 2 ^ 30, whose keys ascend, a lookup of the
  -- first key is answered with `None`, although the entry is there.
  pub get_entry-var_first : get_entry schema n (keys 0) ≡ ok none
  unfolding get_entry
  get_entry-var_first =
      Laws.get_entry-first var_ops schema absent searches n keys is_leaf.has_keys is_leaf.many
        is_leaf.few

  -- In a leaf with two entries or more, and fewer than 2 ^ 30, whose keys ascend,
  -- `get_entry_before` answers the key of an entry behind the first one with that entry itself, as
  -- `get_entry` does, and not with the one before it.
  pub get_entry_before-var_present :
      (i : ℕ)
      → 1 ≤ i
      → i < n.entry_count
      → get_entry_before schema n (keys i) ≡ get_entry schema n (keys i)
  unfolding get_entry get_entry_before
  get_entry_before-var_present i p q =
      Laws.get_entry_before-present var_ops schema absent searches n keys is_leaf.has_keys
        is_leaf.many is_leaf.few i p q
      ∙ sym (
          Laws.get_entry-present var_ops schema absent searches n keys is_leaf.has_keys is_leaf.many
            is_leaf.few i p q)

  -- In a leaf with two entries or more, and fewer than 2 ^ 30, whose keys ascend, a key that lies
  -- between the entries `m - 1` and `m`, for `m` from 2 on, is answered one entry too far to the
  -- left: by `get_entry_at_after` with entry `m - 1`, whose key is smaller, and by
  -- `get_entry_at_before` with entry `m - 2`.
  pub get_entry_at-var_one_left :
      (key m : ℕ)
      → key < 2 ^ 64
      → 2 ≤ m
      → Between keys n.entry_count key m
      → (get_entry_at_after schema n key ≡ get_entry_by_index schema n (keys (m - 1)) (m - 1))
        × (rank64 (keys (m - 1)) < rank64 key)
        × (get_entry_at_before schema n key ≡ get_entry_by_index schema n (keys (m - 2)) (m - 2))
  unfolding get_entry_at_before get_entry_at_after get_entry_by_index
  get_entry_at-var_one_left key m w two b =
      let left : sub32 m 1 ≡ m - 1 = omega (arith, b.to_count, is_leaf.few) in
      let left2 : m - 1 - 1 ≡ m - 2 = omega arith in
      (
        Laws.get_entry_at_after-Between var_ops schema absent searches n keys is_leaf.has_keys
              is_leaf.many is_leaf.few key m w b (omega (arith, b.to_count))
            ∙ ap (λ i. get_entry_by_index schema n (keys i) i) left,
        b.below (m - 1) (omega arith) (omega arith),
        Laws.get_entry_at_before-Between var_ops schema absent searches n keys is_leaf.has_keys
              is_leaf.many is_leaf.few key m w b (omega arith) (omega (arith, b.to_count))
            ∙ ap (λ i. get_entry_by_index schema n (keys (i - 1)) (i - 1)) left
            ∙ ap (λ i. get_entry_by_index schema n (keys i) i) left2,
      )
