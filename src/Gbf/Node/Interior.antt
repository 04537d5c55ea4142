-- ===== src/Gbf/Node/Interior.antt =====
-- The inner nodes of a table: mizl_core/src/database/gbf_long_interior_node.rs.
pub mod Laws
use mizl_h_public.Base.{
  ℕ, List, [], ◌∷◌, ◌==◌, if◌then◌else◌, add64, mul64, sub32, i32_as_u64, Outcome, ok, err, generic,
  ◌>>=◌,
}
use mizl_h_public.MemView.Codec.{big_endian}
use mizl_h_public.MemView.Trait.{read_u8, read_i32, read_i64}
use mizl_h_public.Gbf.File.{GbfFile, get_buffer_address}
use mizl_h_public.Gbf.File.NodeKind.{longkey_interior}
use mizl_h_public.Gbf.Search.{BinarySearchMatch, found, missing, find_entry_index}

pub record GbfLongInteriorNode : Type 0 where
  pub gbf : GbfFile
  pub entry_count : ℕ
  pub start_addr : ℕ

abbrev pub hdr_len : ℕ
hdr_len = 5

abbrev pub key_len : ℕ
key_len = 8

abbrev pub entry_len : ℕ
entry_len = 12

unfoldable pub new : GbfFile → ℕ → Outcome GbfLongInteriorNode
unfolding get_buffer_address read_u8 read_i32
new gbf nid = do
  let start_addr = get_buffer_address gbf nid
  (at, node_kind) ← read_u8 gbf.mv start_addr
  (at', key_count) ←
      (if node_kind == longkey_interior
        then read_i32 gbf.mv at big_endian
        else err (
            generic "unexpected block id {} while reading long key interior node" (node_kind ∷ [])))
  ok (record { gbf = gbf; entry_count = key_count; start_addr = start_addr })

module _ (n : GbfLongInteriorNode) where
  unfoldable pub get_entry_offset : ℕ → ℕ
  get_entry_offset index = add64 (add64 n.start_addr hdr_len) (mul64 (i32_as_u64 index) entry_len)

  unfoldable pub get_key_at : ℕ → Outcome ℕ
  unfolding get_entry_offset read_i64
  get_key_at index = do (_, key) ← read_i64 n.gbf.mv (get_entry_offset index) big_endian; ok key

  unfoldable pub get_value_at : ℕ → Outcome ℕ
  unfolding get_entry_offset read_i32
  get_value_at index = do
    (_, value) ← read_i32 n.gbf.mv (add64 (get_entry_offset index) key_len) big_endian
    ok value

  unfoldable pub find_entry_index_by_key : ℕ → Outcome BinarySearchMatch
  unfolding get_key_at find_entry_index
  find_entry_index_by_key key = find_entry_index get_key_at (λ min. min) key n.entry_count

  abbrev pub child_index : BinarySearchMatch → ℕ
  child_index (found v) = v
  child_index (missing v) = sub32 v 1

  unfoldable pub get_entry : ℕ → Outcome ℕ
  unfolding find_entry_index_by_key get_value_at
  get_entry key = do m ← find_entry_index_by_key key; get_value_at (child_index m)
