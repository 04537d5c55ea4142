-- ===== src/Examples/Database.antt =====
-- The walk, the lookups and the iterators of the small file.
use mizl_h_public.Base.{
  some, ℕ, zero, suc, ◌+◌, ◌*◌, ◌≤◌, ◌<◌, ◌≡◌, ◌↔◌, refl, [], ◌∷◌, ok, none, rank64, arith,
}
use mizl_h_public.MemView.Trait.{decode}
use mizl_h_public.MemView.Codec.{from_be_bytes}
use mizl_h_public.Gbf.Record.{GbfRecord}
use mizl_h_public.Gbf.Schema.{get_value_len}
use mizl_h_public.Gbf.File.{read_block_kind, get_block_address, get_buffer_address, get_buffer_size}
use mizl_h_public.Gbf.File.Blocks
use mizl_h_public.Gbf.Leaf.{get_entry_by_index}
use mizl_h_public.Gbf.Leaf.Iterator.{collect}
use mizl_h_public.Gbf.Leaf.Iterator.Laws as IteratorLaws
use mizl_h_public.Gbf.Node.Fixed.{fixed_ops}
use mizl_h_public.Gbf.TableView.{
  role, get_record_at_before_long, get_record_at_after_long, GbfTableView, leaf_node_from,
  get_record_at_long, iterate_fixed, iterate_var, long_fixed_iterator, long_var_iterator,
}
use mizl_h_public.Gbf.TableView.Descent
use mizl_h_public.Gbf.TableView.Start
use mizl_h_public.Gbf.TableView.Decided
use mizl_h_public.Gbf.Node.Interior.Laws as InteriorLaws
use mizl_h_public.Gbf.Node.Interior
use mizl_h_public.Gbf.Node.Fixed
use mizl_h_public.Gbf.Node.Var
use mizl_h_public.Examples.{be, file, schema, keys, inner_keys, inner_node, fixed_node, var_node}
use mizl_h_public.Examples.Nodes.{
  fixed_node-IsLeaf, var_node-IsLeaf, inner_node-IsInner, below_third, record_of,
}

abbrev view : GbfTableView
view = record { gbf = file; schema = schema; root_nid = 1 }

-- The record with the key 5, from the root on.
found_from_root : get_record_at_long 4 view 5 ≡ ok (some (record_of 5 105))
unfolding get_record_at_long file be decode from_be_bytes
found_from_root = refl

walked : leaf_node_from file 25 2 1 ≡ ok 3
unfolding leaf_node_from file be decode from_be_bytes
walked = refl

leaf_node_from-Route_example :
    (leaf_node_from file 25 2 1 ≡ ok 3)
    ↔ ((depth : ℕ) × (depth < 2) × (Descent.Route file 25 1 3 depth))
leaf_node_from-Route_example = Descent.leaf_node_from-Route file 25 2 1 3

opened_leaf : Fixed.new file 2 (get_value_len schema) ≡ ok fixed_node
unfolding Fixed.new get_value_len file be decode from_be_bytes
opened_leaf = refl

second_kind : read_block_kind file 2 ≡ ok 2
unfolding read_block_kind file be decode from_be_bytes
second_kind = refl

-- The entries of the inner node: the first covers the keys of the leaf in block 2.
first-Covers : (key : ℕ) → rank64 key < rank64 20 → InteriorLaws.Covers inner_keys 2 key 0
first-Covers key less = record {
  inside = omega arith;
  starts = λ h. absurd (omega arith);
  ends = ends;
}
  where
    ends : (j : ℕ) → 0 < j → j < 2 → rank64 key < rank64 (inner_keys j)
    ends zero h k = absurd (omega arith)
    ends (suc j) h k = less

root_kind : read_block_kind file 1 ≡ ok 0
unfolding read_block_kind file be decode from_be_bytes
root_kind = refl

opened_root : Interior.new file 1 ≡ ok inner_node
unfolding Interior.new file be decode from_be_bytes
opened_root = refl

first_child : Interior.get_value_at inner_node 0 ≡ ok 2
unfolding Interior.get_value_at file be decode from_be_bytes
first_child = refl

Leads-to_second : (key : ℕ) → rank64 key < rank64 20 → Decided.Leads file key 1 2 1
Leads-to_second key less =
    Decided.descends 1 2 2 0 0 inner_node inner_keys root_kind opened_root inner_node-IsInner
      (first-Covers key less) first_child (Decided.stands 2 second_kind)

get_record-decided_example :
    (get_record_at_long 4 view 5 ≡ Fixed.get_entry_by_index schema fixed_node 5 1)
    × (get_record_at_long 4 view 7 ≡ ok none)
    × (get_record_at_before_long 4 view 7 ≡ Fixed.get_entry_by_index schema fixed_node 5 1)
    × (get_record_at_after_long 4 view 7 ≡ Fixed.get_entry_by_index schema fixed_node 9 2)
get_record-decided_example =
    Decided.get_record-decided 4 view 2 fixed_node keys opened_leaf fixed_node-IsLeaf 1 1 7 2 1
      (omega arith) (omega arith) (Leads-to_second 5 (omega arith)) (omega arith) (omega arith)
      below_third (omega arith) (Leads-to_second 7 (omega arith)) (omega arith)

-- A table whose root is a leaf with records of varying length.
abbrev var_view : GbfTableView
var_view = record view { root_nid = 4 }

at_fourth : Descent.Route file 7 4 4 0
unfolding read_block_kind role file be decode from_be_bytes
at_fourth = Descent.arrived 4 1 refl refl

opened_var_leaf : Var.new file 4 ≡ ok var_node
unfolding Var.new file be decode from_be_bytes
opened_var_leaf = refl

fourth_kind : read_block_kind file 4 ≡ ok 1
unfolding read_block_kind file be decode from_be_bytes
fourth_kind = refl

-- Two entries have keys smaller than 7.
before_third : Start.StandsAt keys 3 7 2
before_third = record { to_count = omega arith; below = below; above = below_third.above }
  where
    below : (j : ℕ) → j < 2 → rank64 (keys j) < rank64 7
    below zero h = omega arith
    below (suc zero) h = omega arith
    below (suc (suc j)) h = absurd (omega arith)

iterate-starts_example :
    (iterate_fixed 4 view 7 fixed_node
      ≡ ok (long_fixed_iterator (record { cur_node = fixed_node; cur_node_idx = 2 })))
    × (iterate_var 4 view 7 var_node
        ≡ ok (long_var_iterator (record { cur_node = var_node; cur_node_idx = 1 })))
iterate-starts_example =
    Start.iterate-starts keys 7 (omega arith) 4 view fixed_node var_node 2 fixed_node-IsLeaf
      var_node-IsLeaf before_third before_third

-- No entry has a key smaller than 0.
before_first : Start.StandsAt keys 3 0 0
before_first = record { to_count = omega arith; below = λ j h. absurd (omega arith); above = above }
  where
    above : (j : ℕ) → 0 ≤ j → j < 3 → rank64 0 < rank64 (keys j)
    above zero h k = omega arith
    above (suc zero) h k = omega arith
    above (suc (suc j)) h k = omega arith

-- The leaf with records of one length leaves out its first entry there.
left_out :
    iterate_fixed 4 view 0 fixed_node
    ≡ ok (long_fixed_iterator (record { cur_node = fixed_node; cur_node_idx = 1 }))
left_out =
    (Start.iterate-starts keys 0 (omega arith) 4 view fixed_node var_node 0 fixed_node-IsLeaf
      var_node-IsLeaf before_first before_first).0

abbrev entries : ℕ → GbfRecord
entries zero = record_of 1 101
entries (suc zero) = record_of 5 105
entries (suc (suc i)) = record_of 9 109

fixed_node-IsLastLeaf : IteratorLaws.IsLastLeaf fixed_ops schema fixed_node entries
unfolding fixed_ops file be decode from_be_bytes get_entry_by_index
fixed_node-IsLastLeaf = record {
  keys = keys;
  reads_key = fixed_node-IsLeaf.has_keys.reads;
  reads_entry = reads_entry;
  few = omega arith;
  last = refl;
}
  where
    reads_entry :
        (i : ℕ)
        → i < 3
        → get_entry_by_index fixed_ops schema fixed_node (keys i) i ≡ ok (some (entries i))
    reads_entry zero h = refl
    reads_entry (suc zero) h = refl
    reads_entry (suc (suc zero)) h = refl
    reads_entry (suc (suc (suc i))) h = absurd (omega arith)

collect-all_but_last_example :
    collect fixed_ops schema 4 (record { cur_node = fixed_node; cur_node_idx = 0 })
    ≡ ok (record_of 1 101 ∷ record_of 5 105 ∷ [])
unfolding fixed_ops
collect-all_but_last_example =
    IteratorLaws.collect-all_but_last fixed_ops schema fixed_node entries fixed_node-IsLastLeaf 2 0
      4 (omega arith) (omega arith)

get_buffer_address-tiles_example :
    (get_block_address file 2 ≡ (2 + 1) * 64)
    × (get_buffer_address file 2 ≡ get_block_address file 2 + 5)
    × (get_buffer_address file 2 + get_buffer_size file ≡ get_block_address file 3)
unfolding file
get_buffer_address-tiles_example =
    Blocks.get_buffer_address-tiles file (omega arith) (omega arith) 2 (omega arith)
