-- ===== src/Gbf/TableView/Decided.antt =====
-- The lookups of a table view from its root on, decided by the keys of the nodes on the way.
use mizl_h_public.Base.{
  ℕ, suc, ◌-◌, ◌^◌, ◌≤◌, ◌<◌, ◌≡◌, refl, ap, ◌∙◌, ok, none, inl, inr, ltb, arith, Bool-cases,
}
use mizl_h_public.Gbf.Schema.{get_value_len}
use mizl_h_public.Gbf.File.{GbfFile, read_block_kind}
use mizl_h_public.Gbf.File.NodeKind.{longkey_interior, longkey_fixed_rec}
use mizl_h_public.Gbf.Leaf.Laws.{Between}
use mizl_h_public.Gbf.Node.Interior
use mizl_h_public.Gbf.Node.Interior.Laws.{IsInner, Covers, get_entry-Covers}
use mizl_h_public.Gbf.Node.Fixed
use mizl_h_public.Gbf.Node.Fixed.Laws.{
  IsLeaf, get_entry-fixed_decided, get_entry_at-fixed_neighbours,
}
use mizl_h_public.Gbf.TableView.{
  GbfTableView, role, get_record_at_long, get_record_at_before_long, get_record_at_after_long,
}
use mizl_h_public.Gbf.TableView.Descent.{Route, arrived, through}
use mizl_h_public.Gbf.TableView.Lookup.{get_record-fixed_leaf}

Covers-at_most :
    (keys : ℕ → ℕ) (entry_count key i j : ℕ)
    → Covers keys entry_count key i
    → Covers keys entry_count key j
    → i ≤ j
Covers-at_most keys entry_count key i j c d = elim (Bool-cases (ltb j i)) [
  | inl e ↦
      let less : j < i = ground (arith, e) in
      absurd (omega (arith, c.starts (omega (arith, less)), d.ends i less c.inside))
  | inr e ↦ ground (arith, e)
]

-- One entry of an inner node covers a key.
Covers-unique :
    (keys : ℕ → ℕ) (entry_count key i j : ℕ)
    → Covers keys entry_count key i
    → Covers keys entry_count key j
    → i ≡ j
Covers-unique keys entry_count key i j c d = omega (
  arith,
  Covers-at_most keys entry_count key i j c d,
  Covers-at_most keys entry_count key j i d c,
)

-- `Leads nid leaf_nid depth`: from node `nid` the entries that cover `key`, in inner nodes whose
-- keys ascend, lead through `depth` such nodes to `leaf_nid`, a leaf with records of one length.
module _ (gbf : GbfFile) (key : ℕ) where
  pub data Leads : ℕ → ℕ → ℕ → Type 0 where
    stands : (nid : ℕ) → read_block_kind gbf nid ≡ ok longkey_fixed_rec → Leads nid nid 0
    descends :
        (nid child leaf_nid depth i : ℕ) (node : Interior.GbfLongInteriorNode) (keys : ℕ → ℕ)
        → read_block_kind gbf nid ≡ ok longkey_interior
        → Interior.new gbf nid ≡ ok node
        → IsInner node keys
        → Covers keys node.entry_count key i
        → Interior.get_value_at node i ≡ ok child
        → Leads child leaf_nid depth
        → Leads nid leaf_nid (suc depth)

  Leads-Route :
      {nid leaf_nid depth : ℕ}
      → key < 2 ^ 64
      → Leads nid leaf_nid depth
      → Route gbf key nid leaf_nid depth
  unfolding role
  Leads-Route word (stands nid e) = arrived nid longkey_fixed_rec e refl
  Leads-Route word (descends nid child leaf_nid depth i node keys e f g c v l) =
      let (j, d, read) = get_entry-Covers node keys g key word in
      let same : j ≡ i = Covers-unique keys node.entry_count key j i d c in
      through nid longkey_interior child leaf_nid depth node e refl f
        (read ∙ ap (Interior.get_value_at node) same ∙ v) (Leads-Route word l)

  Leads-kind :
      {nid leaf_nid depth : ℕ}
      → Leads nid leaf_nid depth
      → read_block_kind gbf leaf_nid ≡ ok longkey_fixed_rec
  Leads-kind (stands nid e) = e
  Leads-kind (descends nid child leaf_nid depth i node keys e f g c v l) = Leads-kind l

module _ (fuel : ℕ) (tv : GbfTableView) (leaf_nid : ℕ) (n : Fixed.GbfLongFixedNode) (keys : ℕ → ℕ)
    (opened : Fixed.new tv.gbf leaf_nid (get_value_len tv.schema) ≡ ok n)
    (is_leaf : IsLeaf n keys) where
  -- Where the entries that cover a key lead from the root, through fewer inner nodes than the fuel,
  -- to a leaf with records of one length, the view finds entry `i` for the key of an entry `i`
  -- behind the first one of that leaf. And for a key greater than those of the entries from 1 to
  -- `m - 1`, and smaller than those from `m` on, which has `m` inside of the leaf and not the first
  -- entry, it finds no record at the key, entry `m - 1` at or before it, and entry `m` at or after
  -- it, whatever the first key of the leaf is. (The keys of every node on the way ascend; the leaf
  -- has two entries or more, an inner node one or more, and both fewer than 2 ^ 30. A key is the
  -- pattern of an `i64`.)
  pub get_record-decided :
      (i depth key m depth' : ℕ)
      → 1 ≤ i
      → i < n.entry_count
      → Leads tv.gbf (keys i) tv.root_nid leaf_nid depth
      → depth < fuel
      → key < 2 ^ 64
      → Between keys n.entry_count key m
      → m < n.entry_count
      → Leads tv.gbf key tv.root_nid leaf_nid depth'
      → depth' < fuel
      → (get_record_at_long fuel tv (keys i) ≡ Fixed.get_entry_by_index tv.schema n (keys i) i)
        × (get_record_at_long fuel tv key ≡ ok none)
        × (get_record_at_before_long fuel tv key
            ≡ Fixed.get_entry_by_index tv.schema n (keys (m - 1)) (m - 1))
        × (get_record_at_after_long fuel tv key ≡ Fixed.get_entry_by_index tv.schema n (keys m) m)
  get_record-decided i depth key m depth' p q leads enough word b r leads' enough' =
      let (present, absent) = get_entry-fixed_decided n tv.schema keys is_leaf i key m p q word b in
      let (before, after) = get_entry_at-fixed_neighbours n tv.schema keys is_leaf key m word b r in
      let kind = Leads-kind tv.gbf (keys i) leads in
      let route = Leads-Route tv.gbf (keys i) (is_leaf.has_keys.words i q) leads in
      let route' = Leads-Route tv.gbf key word leads' in
      let (at, _, _, _, _) =
        get_record-fixed_leaf fuel tv (keys i) leaf_nid depth enough route n kind opened in
      let (at', _, at_before, _, at_after) =
        get_record-fixed_leaf fuel tv key leaf_nid depth' enough' route' n kind opened in
      (at ∙ present, at' ∙ absent, at_before ∙ before, at_after ∙ after)
