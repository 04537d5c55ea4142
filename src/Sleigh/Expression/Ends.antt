-- ===== src/Sleigh/Expression/Ends.antt =====
-- Reading an expression ends, in the buffer.
use mizl_h_public.Base.{
  ℕ, zero, suc, ◌+◌, ◌≤◌, ◌<◌, ◌≡◌, List, length, arith, Outcome, Ensures, holds, panics,
  Ensures->>=,
}
use mizl_h_public.Sleigh.Element
use mizl_h_public.Sleigh.Element.{ElementId}
use mizl_h_public.Sleigh.Reader.{SlaElement}
use mizl_h_public.Sleigh.Reader.Elements.{seek_elem_children_start}
use mizl_h_public.Sleigh.Reader.Bounds.{Within, len, seek-Ensures}
use mizl_h_public.Sleigh.Reader.Ends.{
  seek_elem_children_start-Ensures, read_elem_end-Within, expect_child-Opens, skip_children-Ensures,
}
use mizl_h_public.Sleigh.Expression.{
  Expression, new_token_field, new_context_field, new_operand_value, parse_constant_value,
  parse_empty, parse_single_exp, parse_tuple_exp, expression_of, new_within, new_expression,
}

module _ (buffer : List ℕ) where
  -- A reader of an element ends in the buffer.
  abbrev pub EndsAt {ℓ} :
      {A : Type ℓ} → (SlaElement → ℕ → Outcome (A × ℕ)) → SlaElement → ℕ → Type ℓ
  EndsAt new elem pos = Within (len buffer) pos (new elem pos)

  -- It does for each element that was read behind `from`.
  abbrev pub EndsBehind {ℓ} : {A : Type ℓ} → (SlaElement → ℕ → Outcome (A × ℕ)) → ℕ → Type ℓ
  EndsBehind new from =
      (elem : SlaElement) (pos : ℕ)
      → suc from ≤ pos
      → pos ≤ len buffer
      → elem.epos ≡ pos
      → EndsAt new elem pos

  module _ (elem : SlaElement) (pos : ℕ) (e : elem.epos ≡ pos) where
    new_token_field-Ends : EndsAt (new_token_field buffer) elem pos
    unfolding new_token_field
    new_token_field-Ends = Ensures->>= (skip_children-Ensures buffer elem pos e) λ at h. holds h

    new_context_field-Ends : EndsAt (new_context_field buffer) elem pos
    unfolding new_context_field
    new_context_field-Ends = Ensures->>= (skip_children-Ensures buffer elem pos e) λ at h. holds h

    new_operand_value-Ends : EndsAt (new_operand_value buffer) elem pos
    unfolding new_operand_value
    new_operand_value-Ends = Ensures->>= (skip_children-Ensures buffer elem pos e) λ at h. holds h

    parse_constant_value-Ends : EndsAt (parse_constant_value buffer) elem pos
    unfolding parse_constant_value
    parse_constant_value-Ends =
        Ensures->>= (skip_children-Ensures buffer elem pos e) λ at h. holds h

    parse_empty-Ends : (x : Expression) → EndsAt (parse_empty buffer x) elem pos
    unfolding parse_empty
    parse_empty-Ends x = Ensures->>= (skip_children-Ensures buffer elem pos e) λ at h. holds h

    -- To the first child of an element.
    children_start :
        Ensures (λ at. (at ≡ pos) × (pos < len buffer)) (seek_elem_children_start buffer elem pos)
    children_start = seek_elem_children_start-Ensures buffer elem pos e

    module _ (new : SlaElement → ℕ → Outcome (Expression × ℕ)) (k : EndsBehind new pos) where
      parse_single_exp-Ends :
          (make : Expression → Expression) → EndsAt (parse_single_exp buffer new make) elem pos
      unfolding parse_single_exp
      parse_single_exp-Ends make = Ensures->>= children_start λ p1 h1.
          Ensures->>= (seek-Ensures buffer p1 elem.epos) λ p2 h2.
            Ensures->>= (expect_child-Opens buffer p2) λ (c, p3) h3.
              Ensures->>= (k c p3 (omega (arith, h2.0, h3.0, e)) h3.1 h3.2) λ (x, p4) h4.
                Ensures->>= (read_elem_end-Within buffer elem.id p4)
                  λ (y, p5) h5. holds (omega (arith, h2.0, h3.0, h4.0, h5.0, e), h5.1)

      parse_tuple_exp-Ends :
          (make : Expression → Expression → Expression)
          → EndsAt (parse_tuple_exp buffer new make) elem pos
      unfolding parse_tuple_exp
      parse_tuple_exp-Ends make = Ensures->>= children_start λ p1 h1.
          Ensures->>= (seek-Ensures buffer p1 elem.epos) λ p2 h2.
            Ensures->>= (expect_child-Opens buffer p2) λ (c, p3) h3.
              Ensures->>= (k c p3 (omega (arith, h2.0, h3.0, e)) h3.1 h3.2) λ (x, p4) h4.
                Ensures->>= (expect_child-Opens buffer p4) λ (d, p5) h5.
                  Ensures->>= (k d p5 (omega (arith, h2.0, h3.0, h4.0, h5.0, e)) h5.1 h5.2)
                    λ (y, p6) h6. Ensures->>= (read_elem_end-Within buffer elem.id p6) λ (z, p7) h7.
                      holds (omega (arith, h2.0, h3.0, h4.0, h5.0, h6.0, h7.0, e), h7.1)

      expression_of-Ends : (kind : ElementId) → EndsAt (expression_of buffer new kind) elem pos
      unfolding expression_of
      expression_of-Ends Element.tokenfield = Ensures->>= new_token_field-Ends λ r h. holds h
      expression_of-Ends Element.contextfield = Ensures->>= new_context_field-Ends λ r h. holds h
      expression_of-Ends Element.intb = Ensures->>= parse_constant_value-Ends λ r h. holds h
      expression_of-Ends Element.operand_exp = Ensures->>= new_operand_value-Ends λ r h. holds h
      expression_of-Ends Element.start_exp = parse_empty-Ends _
      expression_of-Ends Element.end_exp = parse_empty-Ends _
      expression_of-Ends Element.next2_exp = parse_empty-Ends _
      expression_of-Ends Element.plus_exp = parse_tuple_exp-Ends _
      expression_of-Ends Element.sub_exp = parse_tuple_exp-Ends _
      expression_of-Ends Element.mult_exp = parse_tuple_exp-Ends _
      expression_of-Ends Element.div_exp = parse_tuple_exp-Ends _
      expression_of-Ends Element.lshift_exp = parse_tuple_exp-Ends _
      expression_of-Ends Element.rshift_exp = parse_tuple_exp-Ends _
      expression_of-Ends Element.and_exp = parse_tuple_exp-Ends _
      expression_of-Ends Element.or_exp = parse_tuple_exp-Ends _
      expression_of-Ends Element.xor_exp = parse_tuple_exp-Ends _
      expression_of-Ends Element.minus_exp = parse_single_exp-Ends _
      expression_of-Ends Element.not_exp = parse_single_exp-Ends _
      expression_of-Ends _ = panics

  new_within-Ends :
      (fuel : ℕ) (elem : SlaElement) (pos : ℕ)
      → pos ≤ len buffer
      → len buffer < fuel + pos
      → elem.epos ≡ pos
      → EndsAt (new_within buffer fuel) elem pos
  unfolding new_within
  new_within-Ends zero elem pos h f e = absurd (omega arith)
  new_within-Ends (suc fuel) elem pos h f e =
      expression_of-Ends elem pos e (new_within buffer fuel)
        (λ c at u w d. new_within-Ends fuel c at w (omega arith) d) elem.id

  pub new_expression-Ends :
      (elem : SlaElement) (pos : ℕ)
      → pos ≤ len buffer
      → elem.epos ≡ pos
      → EndsAt (new_expression buffer) elem pos
  unfolding new_expression
  new_expression-Ends elem pos h e =
      new_within-Ends (suc (length buffer)) elem pos h (omega arith) e
