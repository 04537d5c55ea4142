-- ===== src/Gbf/Leaf.antt =====
-- What the two kinds of leaf nodes share: gbf_long_fixed_node.rs and gbf_long_var_node.rs of
-- mizl_core/src/database have these functions in the same lines. A node's own functions are an
-- interface, which `Node.Fixed` and `Node.Var` fill.
pub mod Laws
pub mod Iterator
use mizl_h_public.Base.{
  ℕ, ◌+◌, Option, none, some, ltb, ◌==◌, if◌then◌else◌, add32, sub32, lt_i32, le_i32, minus_one32,
  Outcome, ok, ◌>>=◌,
}
use mizl_h_public.MemView.Trait.{MemReader}
use mizl_h_public.Gbf.Record.{GbfRecord, long_value}
use mizl_h_public.Gbf.Schema.{GbfTableSchema, read_record}
use mizl_h_public.Gbf.Search.{BinarySearchMatch, found, missing}

pub record LeafNode (N : Type 0) : Type 0 where
  pub mv : N → MemReader
  pub entry_count : N → ℕ
  pub prev_leaf_nid : N → ℕ
  pub next_leaf_nid : N → ℕ
  -- `new`, with the file and the value length of a node at hand
  pub open_node : N → ℕ → Outcome N
  pub get_key_at : N → ℕ → Outcome ℕ
  pub get_value_addr_at : N → ℕ → Outcome ℕ
  pub find_entry_index_by_key : N → ℕ → Outcome BinarySearchMatch

module _ {N : Type 0} (ops : LeafNode N) (schema : GbfTableSchema) where
  unfoldable pub get_entry_by_index : N → ℕ → ℕ → Outcome (Option GbfRecord)
  unfolding read_record
  get_entry_by_index n key index = do
    at ← ops.get_value_addr_at n index
    (_, r) ← read_record (ops.mv n) schema (long_value key) at
    ok (some r)

  unfoldable pub get_entry : N → ℕ → Outcome (Option GbfRecord)
  unfolding get_entry_by_index
  get_entry n key = do
    m ← ops.find_entry_index_by_key n key
    elim m [ found v ↦ get_entry_by_index n key v | missing v ↦ ok none ]

  unfoldable pub get_prev_node_last_entry : N → ℕ → Outcome (Option GbfRecord)
  unfolding get_entry_by_index
  get_prev_node_last_entry n key =
      let opened = ops.open_node n (ops.prev_leaf_nid n) >>= λ prev_node.
      if lt_i32 (ops.entry_count prev_node) 1
      then ok none
      else get_entry_by_index prev_node key (sub32 (ops.entry_count prev_node) 1) in
      if ops.prev_leaf_nid n == minus_one32 then ok none else opened

  unfoldable pub get_next_node_first_entry : N → ℕ → Outcome (Option GbfRecord)
  unfolding get_entry_by_index
  get_next_node_first_entry n key =
      let opened = ops.open_node n (ops.next_leaf_nid n) >>= λ next_node.
      if lt_i32 (ops.entry_count next_node) 1
      then ok none
      else get_entry_by_index next_node key 0 in
      if ops.next_leaf_nid n == minus_one32 then ok none else opened

  -- The entry left of a missing key: index `v - 1`, whose key is read before the index is tested.
  unfoldable pub entry_left : N → ℕ → Outcome (Option GbfRecord)
  unfolding get_entry_by_index get_prev_node_last_entry
  entry_left n v = do
    real_key ← ops.get_key_at n (sub32 v 1)
    if lt_i32 (sub32 v 1) 0
        then get_prev_node_last_entry n real_key
        else get_entry_by_index n real_key (sub32 v 1)

  -- The entry right of a missing key: index `v`, likewise.
  unfoldable pub entry_right : N → ℕ → Outcome (Option GbfRecord)
  unfolding get_entry_by_index get_next_node_first_entry
  entry_right n v = do
    real_key ← ops.get_key_at n v
    if le_i32 (ops.entry_count n) v
        then get_next_node_first_entry n real_key
        else get_entry_by_index n real_key v

  unfoldable pub get_entry_at_before : N → ℕ → Outcome (Option GbfRecord)
  unfolding get_entry_by_index entry_left
  get_entry_at_before n key = do
    m ← ops.find_entry_index_by_key n key
    elim m [ found v ↦ get_entry_by_index n key v | missing v ↦ entry_left n v ]

  -- An exact match in front of which there is an entry is answered with the match itself.
  unfoldable pub get_entry_before : N → ℕ → Outcome (Option GbfRecord)
  unfolding get_entry_by_index get_prev_node_last_entry entry_left
  get_entry_before n key = do
    m ← ops.find_entry_index_by_key n key
    elim m [
      | found v ↦
          if lt_i32 (sub32 v 1) 0
          then get_prev_node_last_entry n key
          else get_entry_by_index n key v
      | missing v ↦ entry_left n v
    ]

  unfoldable pub get_entry_at_after : N → ℕ → Outcome (Option GbfRecord)
  unfolding get_entry_by_index entry_right
  get_entry_at_after n key = do
    m ← ops.find_entry_index_by_key n key
    elim m [ found v ↦ get_entry_by_index n key v | missing v ↦ entry_right n v ]

  -- Behind an exact match the entry is given the key that was asked for.
  unfoldable pub get_entry_after : N → ℕ → Outcome (Option GbfRecord)
  unfolding get_entry_by_index get_next_node_first_entry entry_right
  get_entry_after n key = do
    m ← ops.find_entry_index_by_key n key
    elim m [
      | found v ↦
          if le_i32 (ops.entry_count n) (add32 v 1)
          then get_next_node_first_entry n key
          else get_entry_by_index n key (add32 v 1)
      | missing v ↦ entry_right n v
    ]
