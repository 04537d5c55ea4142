-- ===== src/Sleigh/Constructor.antt =====
-- Constructors, what they print and how they change the context: the second half of
-- mizl_core/src/sleigh/constructor.rs.
pub mod Template
pub mod Ends
use mizl_h_public.Base.{
  ℕ, ◌%◌, Bool, not, List, [], ◌∷◌, ◌++◌, Option, none, some, if◌then◌else◌, Outcome, ok, panic,
  ◌>>=◌,
}
use mizl_h_public.Sleigh.Element
use mizl_h_public.Sleigh.Element.{ElementId}
use mizl_h_public.Sleigh.Attribute
use mizl_h_public.Sleigh.Reader.{SlaElement, seek}
use mizl_h_public.Sleigh.Reader.Elements.{
  as_str_or, seek_elem_children_start, read_elem_end, expect_child, for_children,
}
use mizl_h_public.Sleigh.Expression.{Expression, new_expression, int32, uint32}
use mizl_h_public.Sleigh.Decision.{int32_or_minus_one}
use mizl_h_public.Sleigh.Constructor.Template.{ConstructorTpl, new_constructor_tpl}

pub data ConstructorPrintElement : Type 0 where
  operand : ℕ → ConstructorPrintElement
  literal : List ℕ → ConstructorPrintElement

pub record ContextOpTpl : Type 0 where
  pub word_start : ℕ
  pub bit_shift : ℕ
  pub mask : ℕ
  pub expression : Expression

pub record Constructor : Type 0 where
  pub parent : ℕ
  pub first : ℕ
  pub min_length : ℕ
  pub source : ℕ
  pub line : ℕ
  pub operand_ids : List ℕ
  pub print_elements : List ConstructorPrintElement
  pub context_ops : List ContextOpTpl
  pub template : Option ConstructorTpl

-- The lists and the template that the loop over the children fills.
pub record Parts : Type 0 where
  pub operand_ids : List ℕ
  pub print_elements : List ConstructorPrintElement
  pub context_ops : List ContextOpTpl
  pub template : Option ConstructorTpl

abbrev pub no_parts : Parts
no_parts = record { operand_ids = []; print_elements = []; context_ops = []; template = none }

module _ (buffer : List ℕ) where
  unfoldable pub read_context_op : SlaElement → ℕ → Outcome (ContextOpTpl × ℕ)
  unfolding seek_elem_children_start seek expect_child new_expression read_elem_end
  read_context_op child pos = do
    p1 ← seek_elem_children_start buffer child pos
    p2 ← seek buffer p1 child.epos
    (local_exp_ele, p3) ← expect_child buffer p2
    (local_exp, p4) ← new_expression buffer local_exp_ele p3
    (_, p5) ← read_elem_end buffer child.id p4
    ok (
      record {
        word_start = int32 child Attribute.i;
        bit_shift = int32 child Attribute.shift;
        mask = uint32 child Attribute.mask;
        expression = local_exp;
      },
      p5,
    )

  -- A child that has no children itself: `s` is what the loop goes on with.
  unfoldable pub closing : Parts → SlaElement → ℕ → Outcome (Parts × ℕ)
  unfolding read_elem_end
  closing s child pos = do (_, pos') ← read_elem_end buffer child.id pos; ok (s, pos')

  unfoldable pub read_template : Parts → SlaElement → ℕ → Outcome (Parts × ℕ)
  unfolding new_constructor_tpl
  read_template s child pos = do
    (template, pos') ← new_constructor_tpl buffer child pos
    ok (record s { template = some template }, pos')

  unfoldable pub push_context_op : Parts → SlaElement → ℕ → Outcome (Parts × ℕ)
  unfolding read_context_op
  push_context_op s child pos = do
    (op, pos') ← read_context_op child pos
    ok (record s { context_ops = s.context_ops ++ (op ∷ []) }, pos')

  -- The body of the loop, by the id of the child.
  unfoldable pub read_part_of : ElementId → Parts → SlaElement → ℕ → Outcome (Parts × ℕ)
  unfolding as_str_or closing read_template push_context_op
  read_part_of Element.oper s child pos =
      let operand_id = uint32 child Attribute.id in
      closing (record s { operand_ids = s.operand_ids ++ (operand_id ∷ []) }) child pos
  read_part_of Element.print s child pos =
      let text = as_str_or child Attribute.piece [] in
      closing (record s { print_elements = s.print_elements ++ (literal text ∷ []) }) child pos
  read_part_of Element.opprint s child pos =
      let oper_index = int32_or_minus_one child Attribute.id in
      closing (record s { print_elements = s.print_elements ++ (operand oper_index ∷ []) }) child
        pos
  read_part_of Element.construct_tpl s child pos = read_template s child pos
  read_part_of Element.context_op s child pos = push_context_op s child pos
  read_part_of _ s child pos = panic

  unfoldable pub read_part : Parts → SlaElement → ℕ → Outcome (Parts × ℕ)
  unfolding read_part_of
  read_part s child pos = read_part_of child.id s child pos

  unfoldable pub new_constructor : SlaElement → ℕ → Outcome (Constructor × ℕ)
  unfolding seek_elem_children_start for_children read_part read_elem_end
  new_constructor elem pos = do
    p1 ← seek_elem_children_start buffer elem pos
    (parts, p2) ← for_children buffer elem read_part no_parts p1
    (_, p3) ← read_elem_end buffer elem.id p2
    ok (
      record {
        parent = uint32 elem Attribute.parent;
        first = int32 elem Attribute.first;
        min_length = int32 elem Attribute.length;
        source = int32 elem Attribute.source;
        line = int32 elem Attribute.line;
        operand_ids = parts.operand_ids;
        print_elements = parts.print_elements;
        context_ops = parts.context_ops;
        template = parts.template;
      },
      p3,
    )
