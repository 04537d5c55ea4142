-- ===== src/Gbf/Node/Var.antt =====
-- The leaf nodes with records of varying length: mizl_core/src/database/gbf_long_var_node.rs.
pub mod Laws
use mizl_h_public.Base.{
  ℕ, List, [], ◌∷◌, Option, ◌==◌, if◌then◌else◌, add64, mul64, sub32, i32_as_u64, Outcome, ok, err,
  generic, ◌>>=◌,
}
use mizl_h_public.MemView.Codec.{big_endian}
use mizl_h_public.MemView.Trait.{read_u8, read_i32, read_i64}
use mizl_h_public.Gbf.File.{GbfFile, get_buffer_address}
use mizl_h_public.Gbf.File.NodeKind.{longkey_var_rec}
use mizl_h_public.Gbf.Record.{GbfRecord}
use mizl_h_public.Gbf.Schema.{GbfTableSchema}
use mizl_h_public.Gbf.Search.{BinarySearchMatch, find_entry_index}
use mizl_h_public.Gbf.Leaf
use mizl_h_public.Gbf.Leaf.{LeafNode}
use mizl_h_public.Gbf.Leaf.Iterator

pub record GbfLongVarNode : Type 0 where
  pub gbf : GbfFile
  pub entry_count : ℕ
  pub prev_leaf_nid : ℕ
  pub next_leaf_nid : ℕ
  pub start_addr : ℕ

abbrev pub hdr_len : ℕ
hdr_len = 13

abbrev pub key_len : ℕ
key_len = 8

abbrev pub entry_len : ℕ
entry_len = 13

unfoldable pub new : GbfFile → ℕ → Outcome GbfLongVarNode
unfolding get_buffer_address read_u8 read_i32
new gbf nid = do
  let start_addr = get_buffer_address gbf nid
  (at, node_kind) ← read_u8 gbf.mv start_addr
  (at1, key_count) ←
      (if node_kind == longkey_var_rec
        then read_i32 gbf.mv at big_endian
        else err
            (generic "unexpected block id {} while reading long key var node" (node_kind ∷ [])))
  (at2, prev_leaf_nid) ← read_i32 gbf.mv at1 big_endian
  (at3, next_leaf_nid) ← read_i32 gbf.mv at2 big_endian
  ok (record {
    gbf = gbf;
    entry_count = key_count;
    prev_leaf_nid = prev_leaf_nid;
    next_leaf_nid = next_leaf_nid;
    start_addr = start_addr;
  })

module _ (n : GbfLongVarNode) where
  unfoldable pub get_entry_offset : ℕ → ℕ
  get_entry_offset index = add64 (add64 n.start_addr hdr_len) (mul64 (i32_as_u64 index) entry_len)

  unfoldable pub get_key_at : ℕ → Outcome ℕ
  unfolding get_entry_offset read_i64
  get_key_at index = do (_, key) ← read_i64 n.gbf.mv (get_entry_offset index) big_endian; ok key

  unfoldable pub get_value_addr_at : ℕ → Outcome ℕ
  unfolding get_entry_offset read_i32
  get_value_addr_at index = do
    (_, value_off) ← read_i32 n.gbf.mv (add64 (get_entry_offset index) key_len) big_endian
    ok (add64 n.start_addr (i32_as_u64 value_off))

  -- A missing key is answered with the index before the one at which it could be inserted.
  unfoldable pub find_entry_index_by_key : ℕ → Outcome BinarySearchMatch
  unfolding get_key_at find_entry_index
  find_entry_index_by_key key = find_entry_index get_key_at (λ min. sub32 min 1) key n.entry_count

unfoldable pub var_ops : LeafNode GbfLongVarNode
unfolding new get_key_at get_value_addr_at find_entry_index_by_key
var_ops = record {
  mv = λ n. n.gbf.mv;
  entry_count = λ n. n.entry_count;
  prev_leaf_nid = λ n. n.prev_leaf_nid;
  next_leaf_nid = λ n. n.next_leaf_nid;
  open_node = λ n nid. new n.gbf nid;
  get_key_at = get_key_at;
  get_value_addr_at = get_value_addr_at;
  find_entry_index_by_key = find_entry_index_by_key;
}

-- The leaf's own entries, and its iterator.
module _ (schema : GbfTableSchema) where
  unfoldable pub get_entry_by_index : GbfLongVarNode → ℕ → ℕ → Outcome (Option GbfRecord)
  unfolding Leaf.get_entry_by_index var_ops
  get_entry_by_index n key index = Leaf.get_entry_by_index var_ops schema n key index

  unfoldable pub get_entry : GbfLongVarNode → ℕ → Outcome (Option GbfRecord)
  unfolding Leaf.get_entry var_ops
  get_entry n key = Leaf.get_entry var_ops schema n key

  unfoldable pub get_prev_node_last_entry : GbfLongVarNode → ℕ → Outcome (Option GbfRecord)
  unfolding Leaf.get_prev_node_last_entry var_ops
  get_prev_node_last_entry n key = Leaf.get_prev_node_last_entry var_ops schema n key

  unfoldable pub get_next_node_first_entry : GbfLongVarNode → ℕ → Outcome (Option GbfRecord)
  unfolding Leaf.get_next_node_first_entry var_ops
  get_next_node_first_entry n key = Leaf.get_next_node_first_entry var_ops schema n key

  unfoldable pub get_entry_at_before : GbfLongVarNode → ℕ → Outcome (Option GbfRecord)
  unfolding Leaf.get_entry_at_before var_ops
  get_entry_at_before n key = Leaf.get_entry_at_before var_ops schema n key

  unfoldable pub get_entry_before : GbfLongVarNode → ℕ → Outcome (Option GbfRecord)
  unfolding Leaf.get_entry_before var_ops
  get_entry_before n key = Leaf.get_entry_before var_ops schema n key

  unfoldable pub get_entry_at_after : GbfLongVarNode → ℕ → Outcome (Option GbfRecord)
  unfolding Leaf.get_entry_at_after var_ops
  get_entry_at_after n key = Leaf.get_entry_at_after var_ops schema n key

  unfoldable pub get_entry_after : GbfLongVarNode → ℕ → Outcome (Option GbfRecord)
  unfolding Leaf.get_entry_after var_ops
  get_entry_after n key = Leaf.get_entry_after var_ops schema n key

  unfoldable pub next :
      Iterator.LeafIterator GbfLongVarNode
      → Outcome (Option (Iterator.LeafIterator GbfLongVarNode × GbfRecord))
  unfolding Iterator.next var_ops
  next it = Iterator.next var_ops schema it
