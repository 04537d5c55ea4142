-- ===== src/Gbf/TableView.antt =====
-- A view of one table: mizl_core/src/database/gbf_table_view.rs. It walks from the root to the leaf
-- for a key, and asks the leaf.
pub mod Descent
pub mod Start
pub mod Lookup
pub mod Decided
use mizl_h_public.Base.{
  ℕ, zero, suc, List, [], ◌∷◌, Option, none, some, ltb, ◌==◌, if◌then◌else◌, lt_i32, Outcome, ok,
  err, panic, no_fuel, generic, ◌>>=◌,
}
use mizl_h_public.Gbf.File.{GbfFile, read_block_kind}
use mizl_h_public.Gbf.File.NodeKind.{longkey_interior, longkey_var_rec, longkey_fixed_rec}
use mizl_h_public.Gbf.Record.{GbfRecord}
use mizl_h_public.Gbf.Schema.{GbfTableSchema, get_value_len}
use mizl_h_public.Gbf.Search.{BinarySearchMatch, found, missing}
use mizl_h_public.Gbf.Leaf.{LeafNode}
use mizl_h_public.Gbf.Leaf.Iterator.{LeafIterator}
use mizl_h_public.Gbf.Node.Interior
use mizl_h_public.Gbf.Node.Fixed
use mizl_h_public.Gbf.Node.Var

pub record GbfTableView : Type 0 where
  pub gbf : GbfFile
  pub schema : GbfTableSchema
  pub root_nid : ℕ

-- The kinds that a walk tells apart.
pub data Role : Type 0 where
  inner leaf other : Role

unfoldable pub role : ℕ → Role
role kind =
    if kind == longkey_interior
    then inner
    else if kind == longkey_fixed_rec
    then leaf
    else if kind == longkey_var_rec
    then leaf
    else other

-- A round of the walk, at a node of kind `node_kind`; `rest` walks on from a child.
unfoldable pub walk_at : GbfFile → ℕ → (ℕ → Outcome ℕ) → ℕ → ℕ → Role → Outcome ℕ
unfolding Interior.new Interior.get_entry
walk_at gbf key rest cur_nid node_kind inner = do
  interior ← Interior.new gbf cur_nid
  child ← Interior.get_entry interior key
  rest child
walk_at gbf key rest cur_nid node_kind leaf = ok cur_nid
walk_at gbf key rest cur_nid node_kind other =
    err (generic "unexpected block id {} while finding long leaf node" (node_kind ∷ []))

-- The walk from node `cur_nid` to a leaf. The program walks without a bound, and for ever where the
-- nodes form a cycle.
unfoldable pub leaf_node_from : GbfFile → ℕ → ℕ → ℕ → Outcome ℕ
unfolding read_block_kind walk_at role
leaf_node_from gbf key zero cur_nid = no_fuel
leaf_node_from gbf key (suc fuel) cur_nid = do
  node_kind ← read_block_kind gbf cur_nid
  walk_at gbf key (leaf_node_from gbf key fuel) cur_nid node_kind (role node_kind)

-- The two kinds of leaf, or another kind.
pub data LeafKind : Type 0 where
  var_leaf fixed_leaf no_leaf : LeafKind

abbrev pub leaf_kind : ℕ → LeafKind
leaf_kind kind =
    if kind == longkey_var_rec
    then var_leaf
    else if kind == longkey_fixed_rec
    then fixed_leaf
    else no_leaf

pub data TableIterator : Type 0 where
  empty_iterator : TableIterator
  long_var_iterator : LeafIterator Var.GbfLongVarNode → TableIterator
  long_fixed_iterator : LeafIterator Fixed.GbfLongFixedNode → TableIterator

-- `Found(v) => v, Missing(v) => v`, and 0 for a negative index.
abbrev pub start_idx : BinarySearchMatch → ℕ
start_idx (found v) = if lt_i32 v 0 then 0 else v
start_idx (missing v) = if lt_i32 v 0 then 0 else v

module _ (fuel : ℕ) (tv : GbfTableView) where
  unfoldable pub get_leaf_node_long : ℕ → Outcome ℕ
  unfolding leaf_node_from
  get_leaf_node_long key = leaf_node_from tv.gbf key fuel tv.root_nid

  -- The leaf for a key, asked by one of two functions according to its kind.
  unfoldable pub at_leaf {ℓ} :
      {A : Type ℓ}
      → (Var.GbfLongVarNode → Outcome A)
      → (Fixed.GbfLongFixedNode → Outcome A)
      → (ℕ → Outcome A)
      → ℕ
      → Outcome A
  unfolding get_leaf_node_long read_block_kind Var.new Fixed.new get_value_len
  at_leaf of_var of_fixed of_other key = get_leaf_node_long key >>= λ leaf_nid.
      read_block_kind tv.gbf leaf_nid >>= λ node_kind. elim (leaf_kind node_kind) [
        | var_leaf ↦ Var.new tv.gbf leaf_nid >>= of_var
        | fixed_leaf ↦ Fixed.new tv.gbf leaf_nid (get_value_len tv.schema) >>= of_fixed
        | no_leaf ↦ of_other node_kind
      ]

  abbrev pub no_record : ℕ → Outcome (Option GbfRecord)
  no_record kind = err (generic "unexpected block id {} while finding record" (kind ∷ []))

  unfoldable pub get_record_at_long : ℕ → Outcome (Option GbfRecord)
  unfolding at_leaf Var.get_entry Fixed.get_entry
  get_record_at_long key =
      at_leaf (λ n. Var.get_entry tv.schema n key) (λ n. Fixed.get_entry tv.schema n key) no_record
        key

  unfoldable pub get_record_before_long : ℕ → Outcome (Option GbfRecord)
  unfolding at_leaf Var.get_entry_before Fixed.get_entry_before
  get_record_before_long key =
      at_leaf (λ n. Var.get_entry_before tv.schema n key)
        (λ n. Fixed.get_entry_before tv.schema n key) no_record key

  unfoldable pub get_record_at_before_long : ℕ → Outcome (Option GbfRecord)
  unfolding at_leaf Var.get_entry_at_before Fixed.get_entry_at_before
  get_record_at_before_long key =
      at_leaf (λ n. Var.get_entry_at_before tv.schema n key)
        (λ n. Fixed.get_entry_at_before tv.schema n key) no_record key

  unfoldable pub get_record_after_long : ℕ → Outcome (Option GbfRecord)
  unfolding at_leaf Var.get_entry_after Fixed.get_entry_after
  get_record_after_long key =
      at_leaf (λ n. Var.get_entry_after tv.schema n key)
        (λ n. Fixed.get_entry_after tv.schema n key) no_record key

  unfoldable pub get_record_at_after_long : ℕ → Outcome (Option GbfRecord)
  unfolding at_leaf Var.get_entry_at_after Fixed.get_entry_at_after
  get_record_at_after_long key =
      at_leaf (λ n. Var.get_entry_at_after tv.schema n key)
        (λ n. Fixed.get_entry_at_after tv.schema n key) no_record key

  abbrev pub iterate_var : ℕ → Var.GbfLongVarNode → Outcome TableIterator
  unfolding Var.find_entry_index_by_key
  iterate_var key n =
      let started = Var.find_entry_index_by_key n key >>= λ m.
      ok (long_var_iterator (record { cur_node = n; cur_node_idx = start_idx m })) in
      if lt_i32 0 n.entry_count then started else ok empty_iterator

  abbrev pub iterate_fixed : ℕ → Fixed.GbfLongFixedNode → Outcome TableIterator
  unfolding Fixed.find_entry_index_by_key
  iterate_fixed key n =
      let started = Fixed.find_entry_index_by_key n key >>= λ m.
      ok (long_fixed_iterator (record { cur_node = n; cur_node_idx = start_idx m })) in
      if lt_i32 0 n.entry_count then started else ok empty_iterator

  unfoldable pub new_iterator : ℕ → Outcome TableIterator
  unfolding at_leaf iterate_var iterate_fixed
  new_iterator key =
      at_leaf (iterate_var key) (iterate_fixed key)
        (λ kind. err (generic "unsupported block id {} while iterating records" (kind ∷ []))) key

  abbrev pub var_step :
      Option (LeafIterator Var.GbfLongVarNode × GbfRecord) → Option (TableIterator × GbfRecord)
  var_step none = none
  var_step (some (it, r)) = some (long_var_iterator it, r)

  abbrev pub fixed_step :
      Option (LeafIterator Fixed.GbfLongFixedNode × GbfRecord) → Option (TableIterator × GbfRecord)
  fixed_step none = none
  fixed_step (some (it, r)) = some (long_fixed_iterator it, r)

  unfoldable pub next : TableIterator → Outcome (Option (TableIterator × GbfRecord))
  unfolding Var.next Fixed.next
  next empty_iterator = ok none
  next (long_var_iterator it) = Var.next tv.schema it >>= λ r. ok (var_step r)
  next (long_fixed_iterator it) = Fixed.next tv.schema it >>= λ r. ok (fixed_step r)
