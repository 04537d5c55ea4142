-- ===== src/Sleigh/Constructor/Ends.antt =====
-- Reading a constructor ends, in the buffer.
use mizl_h_public.Base.{ℕ, ◌≡◌, List, arith, holds, panics, Ensures->>=}
use mizl_h_public.Sleigh.Element
use mizl_h_public.Sleigh.Element.{ElementId}
use mizl_h_public.Sleigh.Reader.{SlaElement}
use mizl_h_public.Sleigh.Reader.Bounds.{seek-Ensures}
use mizl_h_public.Sleigh.Reader.Ends.{
  Steps, seek_elem_children_start-Ensures, read_elem_end-Within, expect_child-Opens,
  children-Within,
}
use mizl_h_public.Sleigh.Expression.Ends.{EndsAt, new_expression-Ends}
use mizl_h_public.Sleigh.Constructor.Template.Ends.{new_constructor_tpl-Ends}
use mizl_h_public.Sleigh.Constructor.{
  Parts, no_parts, read_context_op, closing, read_template, push_context_op, read_part_of,
  read_part, new_constructor,
}

module _ (buffer : List ℕ) where
  module _ (s : Parts) (c : SlaElement) (at : ℕ) (e : c.epos ≡ at) where
    read_context_op-Ends : EndsAt buffer (read_context_op buffer) c at
    unfolding read_context_op
    read_context_op-Ends = Ensures->>= (seek_elem_children_start-Ensures buffer c at e) λ p1 h1.
        Ensures->>= (seek-Ensures buffer p1 c.epos) λ p2 h2.
          Ensures->>= (expect_child-Opens buffer p2) λ (x, p3) h3.
            Ensures->>= (new_expression-Ends buffer x p3 h3.1 h3.2) λ (y, p4) h4.
              Ensures->>= (read_elem_end-Within buffer c.id p4)
                λ (z, p5) h5. holds (omega (arith, e, h2.0, h3.0, h4.0, h5.0), h5.1)

    closing-Ends : (s' : Parts) → EndsAt buffer (closing buffer s') c at
    unfolding closing
    closing-Ends s' = Ensures->>= (read_elem_end-Within buffer c.id at) λ r h. holds h

    read_part_of-Ends : (kind : ElementId) → EndsAt buffer (read_part_of buffer kind s) c at
    unfolding read_part_of read_template push_context_op
    read_part_of-Ends Element.oper = closing-Ends _
    read_part_of-Ends Element.print = closing-Ends _
    read_part_of-Ends Element.opprint = closing-Ends _
    read_part_of-Ends Element.construct_tpl =
        Ensures->>= (new_constructor_tpl-Ends buffer c at e) λ r h. holds h
    read_part_of-Ends Element.context_op = Ensures->>= read_context_op-Ends λ r h. holds h
    read_part_of-Ends _ = panics

  read_part-Steps : (from : ℕ) → Steps buffer from (read_part buffer)
  unfolding read_part
  read_part-Steps from s c at u w e = read_part_of-Ends s c at e c.id

  pub new_constructor-Ends :
      (elem : SlaElement) (pos : ℕ)
      → elem.epos ≡ pos
      → EndsAt buffer (new_constructor buffer) elem pos
  unfolding new_constructor
  new_constructor-Ends elem pos e =
      Ensures->>= (seek_elem_children_start-Ensures buffer elem pos e) λ p1 h1.
        Ensures->>=
          (children-Within buffer elem (read_part buffer) no_parts pos p1 (read_part-Steps pos) e
            h1.0)
          λ (s, p2) h2.
            Ensures->>= (read_elem_end-Within buffer elem.id p2)
              λ (x, p3) h3. holds (omega (arith, h2.0, h3.0), h3.1)
