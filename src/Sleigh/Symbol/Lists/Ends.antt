-- ===== src/Sleigh/Symbol/Lists/Ends.antt =====
-- Reading a symbol with a list of children ends, in the buffer.
use mizl_h_public.Base.{
  ℕ, ◌≤◌, ◌≡◌, not, List, [], Option, none, some, arith, lt_i32, holds, panics, Ensures->>=,
  Ensures-if,
}
use mizl_h_public.Sleigh.Element
use mizl_h_public.Sleigh.Reader.{SlaElement}
use mizl_h_public.Sleigh.Reader.Bounds.{Within, Within-weaken, len}
use mizl_h_public.Sleigh.Reader.Ends.{
  Steps, seek_elem_children_start-Ensures, read_elem_end-Within, children-Within,
}
use mizl_h_public.Sleigh.Expression.{Expression}
use mizl_h_public.Sleigh.Expression.Ends.{EndsAt, new_expression-Ends}
use mizl_h_public.Sleigh.Decision.{Decision}
use mizl_h_public.Sleigh.Decision.Ends.{new_decision-Ends}
use mizl_h_public.Sleigh.Constructor.{Constructor}
use mizl_h_public.Sleigh.Constructor.Ends.{new_constructor-Ends}
use mizl_h_public.Sleigh.Symbol.{SymbolInner}
use mizl_h_public.Sleigh.Symbol.Lists.{
  Table, first_expression, push_value, read_valuetab, read_var, close_table, new_valuemap_sym,
  new_varlist_sym, read_ctor, read_decision, read_subtable_part, close_subtable, new_subtable_sym,
}

module _ (buffer : List ℕ) where
  module _ (c : SlaElement) (at : ℕ) where
    first_expression-Ends :
        (list : List ℕ)
        → at ≤ len buffer
        → c.epos ≡ at
        → EndsAt buffer (first_expression buffer list) c at
    unfolding first_expression
    first_expression-Ends list h e =
        Ensures->>= (new_expression-Ends buffer c at h e) λ r k. holds k

    push_value-Ends :
        (patexp : Option Expression) (list : List ℕ)
        → EndsAt buffer (push_value buffer patexp list) c at
    unfolding push_value
    push_value-Ends patexp list = Ensures->>= (read_elem_end-Within buffer c.id at) λ r k. holds k

  read_valuetab-Steps : (from : ℕ) → Steps buffer from (read_valuetab buffer)
  unfolding read_valuetab
  read_valuetab-Steps from (none, values) c at u w e = first_expression-Ends c at values w e
  read_valuetab-Steps from (some x, values) c at u w e =
      Ensures-if (Element.same c.id Element.valuetab) (λ t. push_value-Ends c at (some x) _)
        λ t. holds (omega arith, w)

  read_var-Steps : (from : ℕ) → Steps buffer from (read_var buffer)
  unfolding read_var
  read_var-Steps from (none, var_ids) c at u w e = first_expression-Ends c at var_ids w e
  read_var-Steps from (some x, var_ids) c at u w e =
      Ensures-if (Element.same c.id Element.var) (λ t. push_value-Ends c at (some x) _)
        λ t.
          Ensures-if (Element.same c.id Element.null) (λ t. push_value-Ends c at (some x) _)
            λ t. holds (omega arith, w)

  close_table-Within :
      (make : Expression → List ℕ → SymbolInner) (elem : SlaElement) (table : Table buffer)
      (pos : ℕ)
      → Within (len buffer) pos (close_table buffer make elem table pos)
  unfolding close_table
  close_table-Within make elem (none, list) pos = panics
  close_table-Within make elem (some x, list) pos =
      Ensures->>= (read_elem_end-Within buffer elem.id pos) λ r k. holds k

  module _ (elem : SlaElement) (pos : ℕ) (e : elem.epos ≡ pos) where
    pub new_valuemap_sym-Ends : EndsAt buffer (new_valuemap_sym buffer) elem pos
    unfolding new_valuemap_sym
    new_valuemap_sym-Ends =
        Ensures->>= (seek_elem_children_start-Ensures buffer elem pos e) λ p1 h1.
          Ensures->>=
            (children-Within buffer elem (read_valuetab buffer) (none, []) pos p1
              (read_valuetab-Steps pos) e h1.0)
            λ (table, p2) h2. Within-weaken h2.0 (close_table-Within _ elem table p2)

    pub new_varlist_sym-Ends : EndsAt buffer (new_varlist_sym buffer) elem pos
    unfolding new_varlist_sym
    new_varlist_sym-Ends = Ensures->>= (seek_elem_children_start-Ensures buffer elem pos e) λ p1 h1.
        Ensures->>=
          (children-Within buffer elem (read_var buffer) (none, []) pos p1 (read_var-Steps pos) e
            h1.0)
          λ (table, p2) h2. Within-weaken h2.0 (close_table-Within _ elem table p2)

  module _ (pow : ℕ → ℕ → ℕ) where
    read_subtable_part-Steps : (from : ℕ) → Steps buffer from (read_subtable_part buffer pow)
    unfolding read_subtable_part read_ctor read_decision
    read_subtable_part-Steps from s c at u w e =
        Ensures-if (lt_i32 0 s.ctors_left)
          (λ t.
            Ensures-if (not (Element.same c.id Element.constructor)) (λ n. panics)
              λ n. Ensures->>= (new_constructor-Ends buffer c at e) λ r k. holds k)
          λ t.
            Ensures-if (lt_i32 0 s.decisions_left)
              (λ t.
                Ensures-if (not (Element.same c.id Element.decision)) (λ n. panics)
                  λ n. Ensures->>= (new_decision-Ends buffer pow c at w e) λ r k. holds k)
              λ t. panics

    close_subtable-Within :
        (elem : SlaElement) (ctors : List Constructor) (d : Option Decision) (pos : ℕ)
        → Within (len buffer) pos (close_subtable buffer pow elem ctors d pos)
    unfolding close_subtable
    close_subtable-Within elem ctors none pos = panics
    close_subtable-Within elem ctors (some d) pos =
        Ensures->>= (read_elem_end-Within buffer elem.id pos) λ r k. holds k

    pub new_subtable_sym-Ends :
        (elem : SlaElement) (pos : ℕ)
        → elem.epos ≡ pos
        → EndsAt buffer (new_subtable_sym buffer pow) elem pos
    unfolding new_subtable_sym
    new_subtable_sym-Ends elem pos e =
        Ensures->>= (seek_elem_children_start-Ensures buffer elem pos e) λ p1 h1.
          Ensures->>=
            (children-Within buffer elem (read_subtable_part buffer pow) _ pos p1
              (read_subtable_part-Steps pos) e h1.0)
            λ (s, p2) h2. Within-weaken h2.0 (close_subtable-Within elem s.ctors s.decision p2)
