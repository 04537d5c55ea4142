-- ===== src/Gbf/TableView/Descent.antt =====
-- The walk of a table view from its root to a leaf, as a relation between nodes.
use mathlib.Core.Path.{subst}
use mizl_h_public.Base.{◌↔◌, ℕ, zero, suc, ◌<◌, ◌≡◌, refl, ap, ◌∙◌, ok, ◌>>=◌, >>=-eq-ok, arith}
use mizl_h_public.Gbf.File.{GbfFile, read_block_kind}
use mizl_h_public.Gbf.Node.Interior
use mizl_h_public.Gbf.Node.Interior.{GbfLongInteriorNode}
use mizl_h_public.Gbf.TableView.{leaf_node_from, walk_at, Role, role, inner, leaf, other}

-- `Route nid leaf_nid depth`: from node `nid` the children for `key` lead to the leaf `leaf_nid`
-- through `depth` inner nodes.
module _ (gbf : GbfFile) (key : ℕ) where
  pub data Route : ℕ → ℕ → ℕ → Type 0 where
    arrived :
        (nid kind : ℕ) → read_block_kind gbf nid ≡ ok kind → role kind ≡ leaf → Route nid nid 0
    through :
        (nid kind child leaf_nid depth : ℕ) (node : GbfLongInteriorNode)
        → read_block_kind gbf nid ≡ ok kind
        → role kind ≡ inner
        → Interior.new gbf nid ≡ ok node
        → Interior.get_entry node key ≡ ok child
        → Route child leaf_nid depth
        → Route nid leaf_nid (suc depth)

  at_kind :
      (fuel nid kind : ℕ) (r : Role)
      → read_block_kind gbf nid ≡ ok kind
      → role kind ≡ r
      → leaf_node_from gbf key (suc fuel) nid
        ≡ walk_at gbf key (leaf_node_from gbf key fuel) nid kind r
  unfolding leaf_node_from
  at_kind fuel nid kind r e f =
      ap (λ m. m >>= λ k. walk_at gbf key (leaf_node_from gbf key fuel) nid k (role k)) e
      ∙ ap (walk_at gbf key (leaf_node_from gbf key fuel) nid kind) f

  complete :
      {nid leaf_nid depth : ℕ} (fuel : ℕ)
      → Route nid leaf_nid depth
      → depth < fuel
      → leaf_node_from gbf key fuel nid ≡ ok leaf_nid
  unfolding walk_at
  complete zero r h = absurd (omega arith)
  complete (suc fuel) (arrived nid kind e f) h = at_kind fuel nid kind leaf e f
  complete (suc fuel) (through nid kind child leaf_nid depth node e f g i r) h =
      at_kind fuel nid kind inner e f ∙ rw (g, i) (complete fuel r (omega arith))

  Arrives : ℕ → ℕ → ℕ → Type 0
  Arrives fuel nid leaf_nid = (depth : ℕ) × (depth < fuel) × (Route nid leaf_nid depth)

  sound_at :
      (fuel nid leaf_nid kind : ℕ) (r : Role)
      → ((child : ℕ)
          → leaf_node_from gbf key fuel child ≡ ok leaf_nid
          → Arrives fuel child leaf_nid)
      → read_block_kind gbf nid ≡ ok kind
      → role kind ≡ r
      → walk_at gbf key (leaf_node_from gbf key fuel) nid kind r ≡ ok leaf_nid
      → Arrives (suc fuel) nid leaf_nid
  unfolding walk_at Arrives
  sound_at fuel nid leaf_nid kind inner below e f g =
      let (node, g1, g2) = >>=-eq-ok (Interior.new gbf nid) _ g in
      let (child, g3, g4) = >>=-eq-ok (Interior.get_entry node key) _ g2 in
      let (depth, h, r) = below child g4 in
      (suc depth, omega arith, through nid kind child leaf_nid depth node e f g1 g3 r)
  sound_at fuel nid leaf_nid kind leaf below e f g =
      let same : nid ≡ leaf_nid = cc in
      (0, omega arith, subst (λ l. Route nid l 0) same (arrived nid kind e f))
  sound_at fuel nid leaf_nid kind other below e f g = cc

  sound :
      (fuel nid leaf_nid : ℕ)
      → leaf_node_from gbf key fuel nid ≡ ok leaf_nid
      → Arrives fuel nid leaf_nid
  unfolding leaf_node_from
  sound zero nid leaf_nid h = cc
  sound (suc fuel) nid leaf_nid h =
      let (kind, e, f) = >>=-eq-ok (read_block_kind gbf nid) _ h in
      sound_at fuel nid leaf_nid kind (role kind) (λ child. sound fuel child leaf_nid) e refl f

  -- With fuel, the walk answers a leaf exactly when the children for the key lead from the node to
  -- it through fewer inner nodes than the fuel. So a node that leads to a leaf is answered with
  -- enough fuel.
  pub leaf_node_from-Route :
      (fuel nid leaf_nid : ℕ)
      → (leaf_node_from gbf key fuel nid ≡ ok leaf_nid)
        ↔ ((depth : ℕ) × (depth < fuel) × (Route nid leaf_nid depth))
  unfolding Arrives
  leaf_node_from-Route fuel nid leaf_nid =
      (sound fuel nid leaf_nid, λ (depth, h, r). complete fuel r h)
