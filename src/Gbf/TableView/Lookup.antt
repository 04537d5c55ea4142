-- ===== src/Gbf/TableView/Lookup.antt =====
-- The lookups of a table view: each asks the leaf that the walk from the root leads to.
use mizl_h_public.Base.{ℕ, ◌<◌, ◌≡◌, refl, Outcome, ok}
use mizl_h_public.Gbf.Schema.{get_value_len}
use mizl_h_public.Gbf.File.{read_block_kind}
use mizl_h_public.Gbf.File.NodeKind.{longkey_fixed_rec, longkey_var_rec}
use mizl_h_public.Gbf.Node.Fixed
use mizl_h_public.Gbf.Node.Var
use mizl_h_public.Gbf.TableView.{
  GbfTableView, get_leaf_node_long, at_leaf, get_record_at_long, get_record_before_long,
  get_record_at_before_long, get_record_after_long, get_record_at_after_long,
}
use mizl_h_public.Gbf.TableView.Descent.{Route, leaf_node_from-Route}

module _ (fuel : ℕ) (tv : GbfTableView) (key leaf_nid depth : ℕ) (enough : depth < fuel)
    (route : Route tv.gbf key tv.root_nid leaf_nid depth) where
  arrives : get_leaf_node_long fuel tv key ≡ ok leaf_nid
  unfolding get_leaf_node_long
  arrives = (leaf_node_from-Route tv.gbf key fuel tv.root_nid leaf_nid).1 (depth, enough, route)

  module _ (n : Fixed.GbfLongFixedNode)
      (kind : read_block_kind tv.gbf leaf_nid ≡ ok longkey_fixed_rec)
      (opened : Fixed.new tv.gbf leaf_nid (get_value_len tv.schema) ≡ ok n) where
    asks_fixed {ℓ} :
        {A : Type ℓ} (of_var : Var.GbfLongVarNode → Outcome A)
        (of_fixed : Fixed.GbfLongFixedNode → Outcome A) (of_other : ℕ → Outcome A)
        → at_leaf fuel tv of_var of_fixed of_other key ≡ of_fixed n
    unfolding at_leaf
    asks_fixed of_var of_fixed of_other = rw (arrives, kind, opened) refl

    -- Where the children for a key lead from the root, through fewer inner nodes than the fuel, to
    -- a leaf with records of one length, each of the five lookups answers what the leaf answers.
    pub get_record-fixed_leaf :
        (get_record_at_long fuel tv key ≡ Fixed.get_entry tv.schema n key)
        × (get_record_before_long fuel tv key ≡ Fixed.get_entry_before tv.schema n key)
        × (get_record_at_before_long fuel tv key ≡ Fixed.get_entry_at_before tv.schema n key)
        × (get_record_after_long fuel tv key ≡ Fixed.get_entry_after tv.schema n key)
        × (get_record_at_after_long fuel tv key ≡ Fixed.get_entry_at_after tv.schema n key)
    unfolding get_record_at_long get_record_before_long get_record_at_before_long
        get_record_after_long get_record_at_after_long
    get_record-fixed_leaf =
        (asks_fixed _ _ _, asks_fixed _ _ _, asks_fixed _ _ _, asks_fixed _ _ _, asks_fixed _ _ _)

  module _ (n : Var.GbfLongVarNode) (kind : read_block_kind tv.gbf leaf_nid ≡ ok longkey_var_rec)
      (opened : Var.new tv.gbf leaf_nid ≡ ok n) where
    asks_var {ℓ} :
        {A : Type ℓ} (of_var : Var.GbfLongVarNode → Outcome A)
        (of_fixed : Fixed.GbfLongFixedNode → Outcome A) (of_other : ℕ → Outcome A)
        → at_leaf fuel tv of_var of_fixed of_other key ≡ of_var n
    unfolding at_leaf
    asks_var of_var of_fixed of_other = rw (arrives, kind, opened) refl

    -- Where the children for a key lead from the root, through fewer inner nodes than the fuel, to
    -- a leaf with records of varying length, each of the five lookups answers what the leaf
    -- answers.
    pub get_record-var_leaf :
        (get_record_at_long fuel tv key ≡ Var.get_entry tv.schema n key)
        × (get_record_before_long fuel tv key ≡ Var.get_entry_before tv.schema n key)
        × (get_record_at_before_long fuel tv key ≡ Var.get_entry_at_before tv.schema n key)
        × (get_record_after_long fuel tv key ≡ Var.get_entry_after tv.schema n key)
        × (get_record_at_after_long fuel tv key ≡ Var.get_entry_at_after tv.schema n key)
    unfolding get_record_at_long get_record_before_long get_record_at_before_long
        get_record_after_long get_record_at_after_long
    get_record-var_leaf =
        (asks_var _ _ _, asks_var _ _ _, asks_var _ _ _, asks_var _ _ _, asks_var _ _ _)
