-- ===== src/Sleigh/Symbol/Ends.antt =====
-- Reading a symbol without a list of children ends, in the buffer.
use mizl_h_public.Base.{
  ℕ, ◌≤◌, ◌<◌, ◌≡◌, List, ◌==◌, arith, Ensures, holds, Ensures->>=, Ensures-if, Ensures-weaken,
  u32_mod, ◌%◌,
}
use mizl_h_public.Sleigh.Attribute
use mizl_h_public.Sleigh.Reader.{SlaElement}
use mizl_h_public.Sleigh.Reader.Elements.{as_uint_or}
use mizl_h_public.Sleigh.Reader.Bounds.{Within, Within-weaken, len, seek-Ensures}
use mizl_h_public.Sleigh.Reader.Ends.{
  seek_elem_children_start-Ensures, read_elem_end-Within, expect_child-Opens, skip_children-Ensures,
}
use mizl_h_public.Sleigh.Expression.Ends.{EndsAt, new_expression-Ends}
use mizl_h_public.Sleigh.Symbol.{
  SymbolInner, u32_max, to_children, next_expression, childless, new_start_sym, new_end_sym,
  new_next2_sym, new_userop_sym, new_varnode_sym, new_value_sym, new_context_sym, read_def_exp,
  new_operand_sym,
}

module _ (buffer : List ℕ) where
  next_expression-Within : (pos : ℕ) → Within (len buffer) pos (next_expression buffer pos)
  unfolding next_expression
  next_expression-Within pos =
      Ensures->>= (expect_child-Opens buffer pos) λ (c, p1) h1.
        Within-weaken (omega (arith, h1.0)) (new_expression-Ends buffer c p1 h1.1 h1.2)

  read_def_exp-Within :
      (subsym pos : ℕ) → pos ≤ len buffer → Within (len buffer) pos (read_def_exp buffer subsym pos)
  unfolding read_def_exp
  read_def_exp-Within subsym pos h =
      Ensures-if (subsym == u32_max) (λ t. Ensures->>= (next_expression-Within pos) λ r k. holds k)
        λ t. holds (omega arith, h)

  module _ (elem : SlaElement) (pos : ℕ) (e : elem.epos ≡ pos) where
    to_children-Ensures :
        Ensures (λ at. (at ≡ pos) × (pos < len buffer)) (to_children buffer elem pos)
    unfolding to_children
    to_children-Ensures =
        Ensures->>= (seek_elem_children_start-Ensures buffer elem pos e)
          λ p1 h1. Ensures-weaken (seek-Ensures buffer p1 elem.epos) λ p2 h2. (cc, h1.1)

    childless-Ends : (inner : SymbolInner) → EndsAt buffer (childless buffer inner) elem pos
    unfolding childless
    childless-Ends inner = Ensures->>= (skip_children-Ensures buffer elem pos e) λ at h. holds h

    pub new_start_sym-Ends : EndsAt buffer (new_start_sym buffer) elem pos
    unfolding new_start_sym
    new_start_sym-Ends = childless-Ends _

    pub new_end_sym-Ends : EndsAt buffer (new_end_sym buffer) elem pos
    unfolding new_end_sym
    new_end_sym-Ends = childless-Ends _

    pub new_next2_sym-Ends : EndsAt buffer (new_next2_sym buffer) elem pos
    unfolding new_next2_sym
    new_next2_sym-Ends = childless-Ends _

    pub new_userop_sym-Ends : EndsAt buffer (new_userop_sym buffer) elem pos
    unfolding new_userop_sym
    new_userop_sym-Ends = childless-Ends _

    pub new_varnode_sym-Ends : EndsAt buffer (new_varnode_sym buffer) elem pos
    unfolding new_varnode_sym
    new_varnode_sym-Ends = childless-Ends _

    pub new_value_sym-Ends : EndsAt buffer (new_value_sym buffer) elem pos
    unfolding new_value_sym
    new_value_sym-Ends = Ensures->>= to_children-Ensures λ p1 h1.
        Ensures->>= (next_expression-Within p1) λ (x, p2) h2.
          Ensures->>= (read_elem_end-Within buffer elem.id p2)
            λ (y, p3) h3. holds (omega (arith, h1.0, h2.0, h3.0), h3.1)

    pub new_context_sym-Ends : EndsAt buffer (new_context_sym buffer) elem pos
    unfolding new_context_sym
    new_context_sym-Ends = Ensures->>= to_children-Ensures λ p1 h1.
        Ensures->>= (next_expression-Within p1) λ (x, p2) h2.
          Ensures->>= (read_elem_end-Within buffer elem.id p2)
            λ (y, p3) h3. holds (omega (arith, h1.0, h2.0, h3.0), h3.1)

    pub new_operand_sym-Ends : EndsAt buffer (new_operand_sym buffer) elem pos
    unfolding new_operand_sym
    new_operand_sym-Ends = Ensures->>= to_children-Ensures λ p1 h1.
        Ensures->>= (next_expression-Within p1) λ (x, p2) h2.
          Ensures->>=
            (read_def_exp-Within (as_uint_or elem Attribute.subsym u32_max % u32_mod) p2 h2.1)
            λ (d, p3) h3.
              Ensures->>= (read_elem_end-Within buffer elem.id p3)
                λ (y, p4) h4. holds (omega (arith, h1.0, h2.0, h3.0, h4.0), h4.1)
