-- ===== src/Sleigh/Expression.antt =====
-- Pattern expressions and how they are read: mizl_core/src/sleigh/expression.rs. An `i32` or `i64`
-- is its bit pattern. The nesting that is read is bounded by fuel: a round for each byte of the
-- buffer and one more is enough, since an element takes a byte at least.
pub mod Ends
pub mod Evaluate
use mizl_h_public.Base.{
  ℕ, zero, suc, ◌%◌, Bool, false, List, length, u32_mod, Outcome, ok, panic, no_fuel, ◌>>=◌,
}
use mizl_h_public.Sleigh.Element
use mizl_h_public.Sleigh.Element.{ElementId}
use mizl_h_public.Sleigh.Attribute
use mizl_h_public.Sleigh.Reader.{SlaElement, seek}
use mizl_h_public.Sleigh.Reader.Elements.{
  as_bool_or, as_int_or, as_uint_or, seek_elem_children_start, read_elem_end, expect_child,
  skip_children,
}

pub record TokenField : Type 0 where
  pub big_endian : Bool
  pub sign_bit : Bool
  pub bit_start : ℕ
  pub bit_end : ℕ
  pub byte_start : ℕ
  pub byte_end : ℕ
  pub shift : ℕ

pub record ContextField : Type 0 where
  pub sign_bit : Bool
  pub bit_start : ℕ
  pub bit_end : ℕ
  pub byte_start : ℕ
  pub byte_end : ℕ
  pub shift : ℕ

pub record OperandValue : Type 0 where
  pub index : ℕ
  pub sym_id : ℕ
  pub ctor_idx : ℕ

pub data Expression : Type 0 where
  token_field : TokenField → Expression
  context_field : ContextField → Expression
  constant_value : ℕ → Expression
  operand_value : OperandValue → Expression
  start_instruction_value end_instruction_value next2_instruction_value : Expression
  add_expression sub_expression mult_expression : Expression → Expression → Expression
  div_expression left_shift_expression : Expression → Expression → Expression
  right_shift_expression and_expression : Expression → Expression → Expression
  or_expression xor_expression : Expression → Expression → Expression
  neg_expression not_expression : Expression → Expression

-- `elem.as_int_or(attr, 0) as i32`
abbrev pub int32 : SlaElement → Attribute.AttributeId → ℕ
unfolding as_int_or
int32 elem attr = as_int_or elem attr 0 % u32_mod

-- `elem.as_uint_or(attr, 0) as u32`
abbrev pub uint32 : SlaElement → Attribute.AttributeId → ℕ
unfolding as_uint_or
uint32 elem attr = as_uint_or elem attr 0 % u32_mod

module _ (buffer : List ℕ) where
  unfoldable pub new_token_field : SlaElement → ℕ → Outcome (TokenField × ℕ)
  unfolding as_bool_or skip_children
  new_token_field elem pos = do
    pos' ← skip_children buffer elem pos
    ok (
      record {
        big_endian = as_bool_or elem Attribute.bigendian false;
        sign_bit = as_bool_or elem Attribute.signbit false;
        bit_start = int32 elem Attribute.startbit;
        bit_end = int32 elem Attribute.endbit;
        byte_start = int32 elem Attribute.startbyte;
        byte_end = int32 elem Attribute.endbyte;
        shift = int32 elem Attribute.shift;
      },
      pos',
    )

  unfoldable pub new_context_field : SlaElement → ℕ → Outcome (ContextField × ℕ)
  unfolding as_bool_or skip_children
  new_context_field elem pos = do
    pos' ← skip_children buffer elem pos
    ok (
      record {
        sign_bit = as_bool_or elem Attribute.signbit false;
        bit_start = int32 elem Attribute.startbit;
        bit_end = int32 elem Attribute.endbit;
        byte_start = int32 elem Attribute.startbyte;
        byte_end = int32 elem Attribute.endbyte;
        shift = int32 elem Attribute.shift;
      },
      pos',
    )

  unfoldable pub new_operand_value : SlaElement → ℕ → Outcome (OperandValue × ℕ)
  unfolding skip_children
  new_operand_value elem pos = do
    pos' ← skip_children buffer elem pos
    ok (
      record {
        index = int32 elem Attribute.index;
        sym_id = uint32 elem Attribute.table;
        ctor_idx = uint32 elem Attribute.ct;
      },
      pos',
    )

  unfoldable pub parse_constant_value : SlaElement → ℕ → Outcome (ℕ × ℕ)
  unfolding as_int_or skip_children
  parse_constant_value elem pos = do
    pos' ← skip_children buffer elem pos
    ok (as_int_or elem Attribute.val 0, pos')

  -- An expression without parts.
  unfoldable pub parse_empty : Expression → SlaElement → ℕ → Outcome (Expression × ℕ)
  unfolding skip_children
  parse_empty e elem pos = do pos' ← skip_children buffer elem pos; ok (e, pos')

  -- `new` reads a part.
  module _ (new : SlaElement → ℕ → Outcome (Expression × ℕ)) where
    unfoldable pub parse_single_exp :
        (Expression → Expression) → SlaElement → ℕ → Outcome (Expression × ℕ)
    unfolding seek_elem_children_start seek expect_child read_elem_end
    parse_single_exp make elem pos = do
      p1 ← seek_elem_children_start buffer elem pos
      p2 ← seek buffer p1 elem.epos
      (exp_ele, p3) ← expect_child buffer p2
      (ele, p4) ← new exp_ele p3
      (_, p5) ← read_elem_end buffer elem.id p4
      ok (make ele, p5)

    unfoldable pub parse_tuple_exp :
        (Expression → Expression → Expression) → SlaElement → ℕ → Outcome (Expression × ℕ)
    unfolding seek_elem_children_start seek expect_child read_elem_end
    parse_tuple_exp make elem pos = do
      p1 ← seek_elem_children_start buffer elem pos
      p2 ← seek buffer p1 elem.epos
      (left_ele, p3) ← expect_child buffer p2
      (left, p4) ← new left_ele p3
      (right_ele, p5) ← expect_child buffer p4
      (right, p6) ← new right_ele p5
      (_, p7) ← read_elem_end buffer elem.id p6
      ok (make left right, p7)

    -- `match elem.id`
    unfoldable pub expression_of : ElementId → SlaElement → ℕ → Outcome (Expression × ℕ)
    unfolding parse_single_exp parse_tuple_exp parse_empty parse_constant_value new_token_field
        new_context_field new_operand_value
    expression_of Element.tokenfield elem pos = do
      (f, pos') ← new_token_field elem pos
      ok (token_field f, pos')
    expression_of Element.contextfield elem pos = do
      (f, pos') ← new_context_field elem pos
      ok (context_field f, pos')
    expression_of Element.intb elem pos = do
      (v, pos') ← parse_constant_value elem pos
      ok (constant_value v, pos')
    expression_of Element.operand_exp elem pos = do
      (v, pos') ← new_operand_value elem pos
      ok (operand_value v, pos')
    expression_of Element.start_exp elem pos = parse_empty start_instruction_value elem pos
    expression_of Element.end_exp elem pos = parse_empty end_instruction_value elem pos
    expression_of Element.next2_exp elem pos = parse_empty next2_instruction_value elem pos
    expression_of Element.plus_exp elem pos = parse_tuple_exp add_expression elem pos
    expression_of Element.sub_exp elem pos = parse_tuple_exp sub_expression elem pos
    expression_of Element.mult_exp elem pos = parse_tuple_exp mult_expression elem pos
    expression_of Element.div_exp elem pos = parse_tuple_exp div_expression elem pos
    expression_of Element.lshift_exp elem pos = parse_tuple_exp left_shift_expression elem pos
    expression_of Element.rshift_exp elem pos = parse_tuple_exp right_shift_expression elem pos
    expression_of Element.and_exp elem pos = parse_tuple_exp and_expression elem pos
    expression_of Element.or_exp elem pos = parse_tuple_exp or_expression elem pos
    expression_of Element.xor_exp elem pos = parse_tuple_exp xor_expression elem pos
    expression_of Element.minus_exp elem pos = parse_single_exp neg_expression elem pos
    expression_of Element.not_exp elem pos = parse_single_exp not_expression elem pos
    expression_of _ elem pos = panic

  unfoldable pub new_within : ℕ → SlaElement → ℕ → Outcome (Expression × ℕ)
  unfolding expression_of
  new_within zero elem pos = no_fuel
  new_within (suc fuel) elem pos = expression_of (new_within fuel) elem.id elem pos

  -- `Expression::new`
  unfoldable pub new_expression : SlaElement → ℕ → Outcome (Expression × ℕ)
  unfolding new_within
  new_expression elem pos = new_within (suc (length buffer)) elem pos
