-- ===== src/Sleigh/Decision/Ends.antt =====
-- Reading a decision tree ends, in the buffer.
use mizl_h_public.Base.{
  ℕ, zero, suc, ◌+◌, ◌≤◌, ◌<◌, ◌≡◌, not, ◌||◌, List, [], ◌∷◌, length, ◌==◌, arith, i32_as_u64,
  Outcome, ok, ◌>>=◌, holds, panics, Ensures->>=, Ensures-if,
}
use mizl_h_public.Sleigh.Element
use mizl_h_public.Sleigh.Element.{ElementId}
use mizl_h_public.Sleigh.Attribute
use mizl_h_public.Sleigh.Reader.{SlaElement}
use mizl_h_public.Sleigh.Reader.Bounds.{Within, len}
use mizl_h_public.Sleigh.Reader.Ends.{
  seek_elem_children_start-Ensures, read_elem-Opens, read_elem_end-Within, children-Within, Steps,
}
use mizl_h_public.Sleigh.Expression.Ends.{EndsAt, EndsBehind}
use mizl_h_public.Sleigh.Decision.{
  Decision, DisjointPattern, DisjointPatternType, PatBlock, no_decisions, int32_or_minus_one,
  instruction_pattern, context_pattern, count, read_mask_word, new_pat_block, read_half,
  read_combined, read_single, new_disjoint_pattern, new_decision_pair, read_branch, decision_within,
  new_decision,
}

module _ (buffer : List ℕ) where
  read_mask_word-Steps : (from : ℕ) → Steps buffer from (read_mask_word buffer)
  unfolding read_mask_word
  read_mask_word-Steps from s c at u w e =
      Ensures-if (not (Element.same c.id Element.mask_word)) (λ t. panics)
        λ t. Ensures->>= (read_elem_end-Within buffer c.id at) λ r h. holds h

  -- An element that was read, with what is in it, where `elem` is its start.
  new_pat_block-Ends :
      (elem : SlaElement) (pos : ℕ)
      → elem.epos ≡ pos
      → EndsAt buffer (new_pat_block buffer) elem pos
  unfolding new_pat_block
  new_pat_block-Ends elem pos e =
      Ensures->>= (seek_elem_children_start-Ensures buffer elem pos e) λ p1 h1.
        Ensures->>=
          (children-Within buffer elem (read_mask_word buffer) [] pos p1 (read_mask_word-Steps pos)
            e h1.0)
          λ (s, p2) h2.
            Ensures->>= (read_elem_end-Within buffer elem.id p2)
              λ (x, p3) h3. holds (omega (arith, h2.0, h3.0), h3.1)

  read_half-Within : (pos : ℕ) → Within (len buffer) pos (read_half buffer pos)
  unfolding read_half
  read_half-Within pos = Ensures->>= (read_elem-Opens buffer pos) λ (half, p1) h1.
      Ensures->>= (seek_elem_children_start-Ensures buffer half p1 h1.2) λ p2 h2.
        Ensures->>= (read_elem-Opens buffer p2) λ (block, p3) h3.
          Ensures->>= (new_pat_block-Ends block p3 h3.2) λ (b, p4) h4.
            Ensures->>= (read_elem_end-Within buffer half.id p4)
              λ (x, p5) h5. holds (omega (arith, h1.0, h2.0, h3.0, h4.0, h5.0), h5.1)

  read_combined-Within : (pos : ℕ) → Within (len buffer) pos (read_combined buffer pos)
  unfolding read_combined
  read_combined-Within pos = Ensures->>= (read_half-Within pos) λ (b, p1) h1.
      Ensures->>= (read_half-Within p1) λ (c, p2) h2. holds (omega (arith, h1.0, h2.0), h2.1)

  read_single-Within :
      (kind : ElementId) (pos : ℕ) → Within (len buffer) pos (read_single buffer kind pos)
  unfolding read_single
  read_single-Within kind pos = Ensures->>= (read_elem-Opens buffer pos) λ (block, p1) h1.
      let read : (pat_type : DisjointPatternType)
          → Within {A = DisjointPattern} (len buffer) pos (
              new_pat_block buffer block p1 >>= λ (r : PatBlock × ℕ).
              ok (record { pat_type = pat_type; pat_blocks = r.0 ∷ [] }, r.1)) =
        λ pat_type.
          Ensures->>= (new_pat_block-Ends block p1 h1.2)
            λ (b, p2) h2. holds (omega (arith, h1.0, h2.0), h2.1) in
      Ensures-if (not (Element.same block.id Element.pat_block)) (λ t. panics)
        λ t.
          Ensures-if (Element.same kind Element.instruct_pat) (λ t. read instruction_pattern)
            λ t.
              Ensures-if (Element.same kind Element.context_pat) (λ t. read context_pattern)
                λ t. panics

  new_disjoint_pattern-Ends :
      (elem : SlaElement) (pos : ℕ)
      → elem.epos ≡ pos
      → EndsAt buffer (new_disjoint_pattern buffer) elem pos
  unfolding new_disjoint_pattern
  new_disjoint_pattern-Ends elem pos e =
      Ensures->>= (seek_elem_children_start-Ensures buffer elem pos e) λ p1 h1.
        Ensures->>=
          (Ensures-if (Element.same elem.id Element.combine_pat) (λ t. read_combined-Within p1)
            λ t. read_single-Within elem.id p1)
          λ (b, p2) h2.
            Ensures->>= (read_elem_end-Within buffer elem.id p2)
              λ (x, p3) h3. holds (omega (arith, h1.0, h2.0, h3.0), h3.1)

  new_decision_pair-Ends :
      (elem : SlaElement) (pos : ℕ)
      → elem.epos ≡ pos
      → EndsAt buffer (new_decision_pair buffer) elem pos
  unfolding new_decision_pair
  new_decision_pair-Ends elem pos e =
      Ensures->>= (seek_elem_children_start-Ensures buffer elem pos e) λ p1 h1.
        Ensures->>= (read_elem-Opens buffer p1) λ (c, p2) h2.
          Ensures->>= (new_disjoint_pattern-Ends c p2 h2.2) λ (b, p3) h3.
            Ensures->>= (read_elem_end-Within buffer elem.id p3)
              λ (x, p4) h4. holds (omega (arith, h1.0, h2.0, h3.0, h4.0), h4.1)

  read_branch-Steps :
      (new : SlaElement → ℕ → Outcome (Decision × ℕ)) (size from : ℕ)
      → EndsBehind buffer new from
      → Steps buffer from (read_branch buffer new size)
  unfolding read_branch
  read_branch-Steps new size from k (children, pairs) c at u w e =
      Ensures-if (Element.same c.id Element.decision)
        (λ t. Ensures-if (size == 0) (λ z. panics) λ z. Ensures->>= (k c at u w e) λ r h. holds h)
        λ t.
          Ensures-if (Element.same c.id Element.pair)
            (λ t.
              Ensures-if (size == 0)
                (λ z. Ensures->>= (new_decision_pair-Ends c at e) λ r h. holds h) λ z. panics)
            λ t. holds (omega arith, w)

  module _ (pow : ℕ → ℕ → ℕ) where
    decision_within-Ends :
        (fuel : ℕ) (elem : SlaElement) (pos : ℕ)
        → pos ≤ len buffer
        → len buffer < fuel + pos
        → elem.epos ≡ pos
        → EndsAt buffer (decision_within buffer pow fuel) elem pos
    unfolding decision_within
    decision_within-Ends zero elem pos h f e = absurd (omega arith)
    decision_within-Ends (suc fuel) elem pos h f e =
        let size = int32_or_minus_one elem Attribute.size in
        let body = read_branch buffer (decision_within buffer pow fuel) size in
        let body-Steps : Steps buffer pos body =
          read_branch-Steps (decision_within buffer pow fuel) size pos
            (λ c at u w d. decision_within-Ends fuel c at w (omega arith) d) in
        Ensures->>= (seek_elem_children_start-Ensures buffer elem pos e) λ p1 h1.
          Ensures->>= (children-Within buffer elem body (no_decisions, []) pos p1 body-Steps e h1.0)
            λ ((children, pairs), p2) h2.
              Ensures-if (size == 0 || pow 2 (i32_as_u64 size) == count children)
                (λ t.
                  Ensures->>= (read_elem_end-Within buffer elem.id p2)
                    λ (x, p3) h3. holds (omega (arith, h2.0, h3.0), h3.1))
                λ t. panics

    pub new_decision-Ends :
        (elem : SlaElement) (pos : ℕ)
        → pos ≤ len buffer
        → elem.epos ≡ pos
        → EndsAt buffer (new_decision buffer pow) elem pos
    unfolding new_decision
    new_decision-Ends elem pos h e =
        decision_within-Ends (suc (length buffer)) elem pos h (omega arith) e
