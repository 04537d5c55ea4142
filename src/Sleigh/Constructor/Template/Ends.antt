-- ===== src/Sleigh/Constructor/Template/Ends.antt =====
-- Reading the template of a constructor ends, in the buffer.
use mizl_h_public.Base.{
  ℕ, ◌≤◌, ◌≡◌, List, [], Option, none, some, ◌==◌, arith, Outcome, ok, panic, Ensures, holds,
  panics, Ensures->>=, Ensures-if,
}
use mizl_h_public.Sleigh.Element
use mizl_h_public.Sleigh.Element.{ElementId}
use mizl_h_public.Sleigh.Reader.{SlaElement}
use mizl_h_public.Sleigh.Reader.Bounds.{Within, Within-weaken, len, seek-Ensures}
use mizl_h_public.Sleigh.Reader.Ends.{
  IsChild, Steps, seek_elem_children_start-Ensures, read_elem_end-Within, next_child-IsChild,
  expect_child-Opens, children-Within,
}
use mizl_h_public.Sleigh.Expression.Ends.{EndsAt, EndsBehind}
use mizl_h_public.Sleigh.Constructor.Template.{
  ConstTplType, const_type_of, const_tpl_at, new_const_tpl, next_const_tpl, expect_no_child,
  new_var_node_tpl, read_first, read_next, read_listed, new_op_tpl, new_handle_tpl,
  new_constructor_tpl,
}

module _ (buffer : List ℕ) where
  const_tpl_at-Ends :
      (t : Option ConstTplType) (elem : SlaElement) (pos : ℕ)
      → EndsAt buffer (const_tpl_at buffer t) elem pos
  unfolding const_tpl_at
  const_tpl_at-Ends none elem pos = panics
  const_tpl_at-Ends (some t) elem pos =
      Ensures->>= (read_elem_end-Within buffer elem.id pos) λ r h. holds h

  next_const_tpl-Within : (pos : ℕ) → Within (len buffer) pos (next_const_tpl buffer pos)
  unfolding next_const_tpl new_const_tpl
  next_const_tpl-Within pos = Ensures->>= (expect_child-Opens buffer pos) λ (elem, p1) h1.
      Ensures->>= (seek_elem_children_start-Ensures buffer elem p1 h1.2) λ p2 h2.
        Within-weaken (omega (arith, h1.0, h2.0))
          (const_tpl_at-Ends (const_type_of elem.id) elem p2)

  expect_no_child-Ensures :
      (pos : ℕ) → Ensures (λ at. (at ≡ pos) × (pos ≤ len buffer)) (expect_no_child buffer pos)
  unfolding expect_no_child
  expect_no_child-Ensures pos = Ensures->>= (next_child-IsChild buffer pos) λ r. given r.0 r.1
    where
      given :
          (c : Option SlaElement) (at : ℕ)
          → IsChild buffer pos (c, at)
          → Ensures
              (λ p. (p ≡ pos) × (pos ≤ len buffer))
              (elim c [ none ↦ ok at | some elem ↦ panic ])
      given none at h = holds h
      given (some elem) at h = panics

  module _ (elem : SlaElement) (pos : ℕ) (e : elem.epos ≡ pos) where
    new_var_node_tpl-Ends : EndsAt buffer (new_var_node_tpl buffer) elem pos
    unfolding new_var_node_tpl
    new_var_node_tpl-Ends =
        Ensures->>= (seek_elem_children_start-Ensures buffer elem pos e) λ p1 h1.
          Ensures->>= (seek-Ensures buffer p1 elem.epos) λ p2 h2.
            Ensures->>= (next_const_tpl-Within p2) λ (a, p3) h3.
              Ensures->>= (next_const_tpl-Within p3) λ (b, p4) h4.
                Ensures->>= (next_const_tpl-Within p4) λ (c, p5) h5.
                  Ensures->>= (expect_no_child-Ensures p5) λ p6 h6.
                    Ensures->>= (read_elem_end-Within buffer elem.id p6) λ (x, p7) h7.
                      holds (omega (arith, e, h2.0, h3.0, h4.0, h5.0, h6.0, h7.0), h7.1)

    new_handle_tpl-Ends : EndsAt buffer (new_handle_tpl buffer) elem pos
    unfolding new_handle_tpl
    new_handle_tpl-Ends = Ensures->>= (seek_elem_children_start-Ensures buffer elem pos e) λ p1 h1.
        Ensures->>= (seek-Ensures buffer p1 elem.epos) λ p2 h2.
          Ensures->>= (next_const_tpl-Within p2) λ (a, p3) h3.
            Ensures->>= (next_const_tpl-Within p3) λ (b, p4) h4.
              Ensures->>= (next_const_tpl-Within p4) λ (c, p5) h5.
                Ensures->>= (next_const_tpl-Within p5) λ (d, p6) h6.
                  Ensures->>= (next_const_tpl-Within p6) λ (f, p7) h7.
                    Ensures->>= (next_const_tpl-Within p7) λ (g, p8) h8.
                      Ensures->>= (next_const_tpl-Within p8) λ (k, p9) h9.
                        Ensures->>= (read_elem_end-Within buffer elem.id p9) λ (x, p10) h10. holds (
                          omega (arith, e, h2.0, h3.0, h4.0, h5.0, h6.0, h7.0, h8.0, h9.0, h10.0),
                          h10.1,
                        )

  module _ {ℓ κ} {A : Type ℓ} {B : Type κ} (first_kind : ElementId)
      (new_first : SlaElement → ℕ → Outcome (A × ℕ)) (next_kind : ElementId)
      (new_next : SlaElement → ℕ → Outcome (B × ℕ)) (from : ℕ)
      (k : EndsBehind buffer new_first from) (l : EndsBehind buffer new_next from) where
    read_listed-Steps :
        Steps buffer from (read_listed buffer first_kind new_first next_kind new_next)
    unfolding read_listed read_first read_next
    read_listed-Steps (i, result, list) c at u w e =
        Ensures-if (i == 0)
          (λ t.
            Ensures->>=
              (Ensures-if (Element.same c.id Element.null)
                (λ n. Ensures->>= (read_elem_end-Within buffer c.id at) λ r h. holds h)
                λ n.
                  Ensures-if (Element.same c.id first_kind)
                    (λ m. Ensures->>= (k c at u w e) λ r h. holds h) λ m. panics)
              λ r h. holds h)
          λ t.
            Ensures->>=
              (Ensures-if (Element.same c.id next_kind)
                (λ m. Ensures->>= (l c at u w e) λ r h. holds h) λ m. panics)
              λ r h. holds h

  module _ (elem : SlaElement) (pos : ℕ) (e : elem.epos ≡ pos) where
    new_op_tpl-Ends : EndsAt buffer (new_op_tpl buffer) elem pos
    unfolding new_op_tpl
    new_op_tpl-Ends =
        let new = new_var_node_tpl buffer in
        let kind = Element.varnode_tpl in
        let k : EndsBehind buffer new pos = λ c at u w d. new_var_node_tpl-Ends c at d in
        Ensures->>= (seek_elem_children_start-Ensures buffer elem pos e) λ p1 h1.
          Ensures->>=
            (children-Within buffer elem (read_listed buffer kind new kind new) (0, none, []) pos p1
              (read_listed-Steps kind new kind new pos k k) e h1.0)
            λ (s, p2) h2.
              Ensures->>= (read_elem_end-Within buffer elem.id p2)
                λ (x, p3) h3. holds (omega (arith, h2.0, h3.0), h3.1)

  module _ (elem : SlaElement) (pos : ℕ) (e : elem.epos ≡ pos) where
    pub new_constructor_tpl-Ends : EndsAt buffer (new_constructor_tpl buffer) elem pos
    unfolding new_constructor_tpl
    new_constructor_tpl-Ends =
        let body =
          read_listed buffer Element.handle_tpl (new_handle_tpl buffer) Element.op_tpl
            (new_op_tpl buffer) in
        let body-Steps : Steps buffer pos body =
          read_listed-Steps Element.handle_tpl (new_handle_tpl buffer) Element.op_tpl
            (new_op_tpl buffer) pos (λ c at u w d. new_handle_tpl-Ends c at d)
            (λ c at u w d. new_op_tpl-Ends c at d) in
        Ensures->>= (seek_elem_children_start-Ensures buffer elem pos e) λ p1 h1.
          Ensures->>= (children-Within buffer elem body (0, none, []) pos p1 body-Steps e h1.0)
            λ (s, p2) h2.
              Ensures->>= (read_elem_end-Within buffer elem.id p2)
                λ (x, p3) h3. holds (omega (arith, h2.0, h3.0), h3.1)
