-- ===== src/Gbf/Node/Fixed.antt =====
-- The leaf nodes with records of one length: mizl_core/src/database/gbf_long_fixed_node.rs.
pub mod Laws
use mizl_h_public.Base.{
  ℕ, List, [], ◌∷◌, Option, ◌==◌, if◌then◌else◌, add64, mul64, i32_as_u64, Outcome, ok, err,
  generic, ◌>>=◌,
}
use mizl_h_public.MemView.Codec.{big_endian}
use mizl_h_public.MemView.Trait.{read_u8, read_i32, read_i64}
use mizl_h_public.Gbf.File.{GbfFile, get_buffer_address}
use mizl_h_public.Gbf.File.NodeKind.{longkey_fixed_rec}
use mizl_h_public.Gbf.Record.{GbfRecord}
use mizl_h_public.Gbf.Schema.{GbfTableSchema}
use mizl_h_public.Gbf.Search.{BinarySearchMatch, find_entry_index}
use mizl_h_public.Gbf.Leaf
use mizl_h_public.Gbf.Leaf.{LeafNode}
use mizl_h_public.Gbf.Leaf.Iterator

pub record GbfLongFixedNode : Type 0 where
  pub gbf : GbfFile
  pub entry_count : ℕ
  pub prev_leaf_nid : ℕ
  pub next_leaf_nid : ℕ
  pub start_addr : ℕ
  pub value_len : ℕ

abbrev pub hdr_len : ℕ
hdr_len = 13

abbrev pub key_len : ℕ
key_len = 8

unfoldable pub new : GbfFile → ℕ → ℕ → Outcome GbfLongFixedNode
unfolding get_buffer_address read_u8 read_i32
new gbf nid value_len = do
  let start_addr = get_buffer_address gbf nid
  (at, node_kind) ← read_u8 gbf.mv start_addr
  (at1, key_count) ←
      (if node_kind == longkey_fixed_rec
        then read_i32 gbf.mv at big_endian
        else err
            (generic "unexpected block id {} while reading long key fixed node" (node_kind ∷ [])))
  (at2, prev_leaf_nid) ← read_i32 gbf.mv at1 big_endian
  (at3, next_leaf_nid) ← read_i32 gbf.mv at2 big_endian
  ok (record {
    gbf = gbf;
    entry_count = key_count;
    prev_leaf_nid = prev_leaf_nid;
    next_leaf_nid = next_leaf_nid;
    start_addr = start_addr;
    value_len = value_len;
  })

module _ (n : GbfLongFixedNode) where
  unfoldable pub get_entry_offset : ℕ → ℕ
  get_entry_offset index =
      add64 (add64 n.start_addr hdr_len)
        (mul64 (i32_as_u64 index) (add64 key_len (i32_as_u64 n.value_len)))

  unfoldable pub get_key_at : ℕ → Outcome ℕ
  unfolding get_entry_offset read_i64
  get_key_at index = do (_, key) ← read_i64 n.gbf.mv (get_entry_offset index) big_endian; ok key

  unfoldable pub get_value_addr_at : ℕ → Outcome ℕ
  unfolding get_entry_offset
  get_value_addr_at index = ok (add64 (get_entry_offset index) key_len)

  -- A missing key is answered with the index at which it could be inserted.
  unfoldable pub find_entry_index_by_key : ℕ → Outcome BinarySearchMatch
  unfolding get_key_at find_entry_index
  find_entry_index_by_key key = find_entry_index get_key_at (λ min. min) key n.entry_count

unfoldable pub fixed_ops : LeafNode GbfLongFixedNode
unfolding new get_key_at get_value_addr_at find_entry_index_by_key
fixed_ops = record {
  mv = λ n. n.gbf.mv;
  entry_count = λ n. n.entry_count;
  prev_leaf_nid = λ n. n.prev_leaf_nid;
  next_leaf_nid = λ n. n.next_leaf_nid;
  open_node = λ n nid. new n.gbf nid n.value_len;
  get_key_at = get_key_at;
  get_value_addr_at = get_value_addr_at;
  find_entry_index_by_key = find_entry_index_by_key;
}

-- The leaf's own entries, and its iterator.
module _ (schema : GbfTableSchema) where
  unfoldable pub get_entry_by_index : GbfLongFixedNode → ℕ → ℕ → Outcome (Option GbfRecord)
  unfolding Leaf.get_entry_by_index fixed_ops
  get_entry_by_index n key index = Leaf.get_entry_by_index fixed_ops schema n key index

  unfoldable pub get_entry : GbfLongFixedNode → ℕ → Outcome (Option GbfRecord)
  unfolding Leaf.get_entry fixed_ops
  get_entry n key = Leaf.get_entry fixed_ops schema n key

  unfoldable pub get_prev_node_last_entry : GbfLongFixedNode → ℕ → Outcome (Option GbfRecord)
  unfolding Leaf.get_prev_node_last_entry fixed_ops
  get_prev_node_last_entry n key = Leaf.get_prev_node_last_entry fixed_ops schema n key

  unfoldable pub get_next_node_first_entry : GbfLongFixedNode → ℕ → Outcome (Option GbfRecord)
  unfolding Leaf.get_next_node_first_entry fixed_ops
  get_next_node_first_entry n key = Leaf.get_next_node_first_entry fixed_ops schema n key

  unfoldable pub get_entry_at_before : GbfLongFixedNode → ℕ → Outcome (Option GbfRecord)
  unfolding Leaf.get_entry_at_before fixed_ops
  get_entry_at_before n key = Leaf.get_entry_at_before fixed_ops schema n key

  unfoldable pub get_entry_before : GbfLongFixedNode → ℕ → Outcome (Option GbfRecord)
  unfolding Leaf.get_entry_before fixed_ops
  get_entry_before n key = Leaf.get_entry_before fixed_ops schema n key

  unfoldable pub get_entry_at_after : GbfLongFixedNode → ℕ → Outcome (Option GbfRecord)
  unfolding Leaf.get_entry_at_after fixed_ops
  get_entry_at_after n key = Leaf.get_entry_at_after fixed_ops schema n key

  unfoldable pub get_entry_after : GbfLongFixedNode → ℕ → Outcome (Option GbfRecord)
  unfolding Leaf.get_entry_after fixed_ops
  get_entry_after n key = Leaf.get_entry_after fixed_ops schema n key

  unfoldable pub next :
      Iterator.LeafIterator GbfLongFixedNode
      → Outcome (Option (Iterator.LeafIterator GbfLongFixedNode × GbfRecord))
  unfolding Iterator.next fixed_ops
  next it = Iterator.next fixed_ops schema it
