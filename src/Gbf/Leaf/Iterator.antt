-- ===== src/Gbf/Leaf/Iterator.antt =====
-- The iterators of the two kinds of leaf nodes: `Iterator::next` of gbf_long_fixed_node.rs and
-- gbf_long_var_node.rs.
pub mod Laws
use mizl_h_public.Base.{
  ℕ, zero, suc, ◌+◌, Option, none, some, List, [], ◌∷◌, ltb, ◌==◌, if◌then◌else◌, add32, lt_i32,
  minus_one32, Outcome, ok, err, panic, no_fuel, ◌>>=◌,
}
use mizl_h_public.Gbf.Record.{GbfRecord}
use mizl_h_public.Gbf.Schema.{GbfTableSchema}
use mizl_h_public.Gbf.Leaf.{LeafNode, get_entry_by_index}

pub record LeafIterator (N : Type 0) : Type 0 where
  pub cur_node : N
  pub cur_node_idx : ℕ

module _ {N : Type 0} (ops : LeafNode N) (schema : GbfTableSchema) where
  -- The step to the next node, once the last entry of a node was read.
  unfoldable pub next_node :
      LeafIterator N → GbfRecord → Outcome (Option (LeafIterator N × GbfRecord))
  next_node it entry =
      let opened = ops.open_node it.cur_node (ops.next_leaf_nid it.cur_node) >>= λ node.
      if lt_i32 (ops.entry_count node) 1
      then ok none
      else ok (some (record { cur_node = node; cur_node_idx = 0 }, entry)) in
      if ops.next_leaf_nid it.cur_node == minus_one32 then ok none else opened

  abbrev pub yield_entry :
      LeafIterator N → Option GbfRecord → Outcome (Option (LeafIterator N × GbfRecord))
  unfolding next_node
  yield_entry it none = ok none
  yield_entry it (some entry) =
      if lt_i32 (add32 it.cur_node_idx 1) (ops.entry_count it.cur_node)
      then ok (some (record it { cur_node_idx = add32 it.cur_node_idx 1 }, entry))
      else next_node it entry

  -- `next`: `ok none` is `None`, `err e` is `Some(Err(e))`, after which the callers stop.
  unfoldable pub next : LeafIterator N → Outcome (Option (LeafIterator N × GbfRecord))
  unfolding get_entry_by_index yield_entry
  next it = do
    key ← ops.get_key_at it.cur_node it.cur_node_idx
    entry_maybe ← get_entry_by_index ops schema it.cur_node key it.cur_node_idx
    yield_entry it entry_maybe

  -- `for item in iterator { item?; .. }`, with a bound on the rounds: the records that it meets.
  unfoldable pub collect : ℕ → LeafIterator N → Outcome (List GbfRecord)
  unfolding next
  collect zero it = no_fuel
  collect (suc fuel) it = next it >>= λ r. elim r [
    | none ↦ ok []
    | some (it', entry) ↦ collect fuel it' >>= λ rest. ok (entry ∷ rest)
  ]
