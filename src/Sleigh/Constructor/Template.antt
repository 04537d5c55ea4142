-- ===== src/Sleigh/Constructor/Template.antt =====
-- Templates of constructors: the first half of mizl_core/src/sleigh/constructor.rs.
pub mod Ends
use mizl_h_public.Base.{
  ℕ, ◌+◌, ◌%◌, ◌^◌, Bool, not, ◌||◌, List, [], ◌∷◌, ◌++◌, Option, none, some, ◌==◌, if◌then◌else◌,
  u64_mod, Outcome, ok, panic, ◌>>=◌,
}
use mizl_h_public.Sleigh.Element
use mizl_h_public.Sleigh.Element.{ElementId}
use mizl_h_public.Sleigh.Attribute
use mizl_h_public.Sleigh.Reader.{SlaElement, SpaceInfo, seek}
use mizl_h_public.Sleigh.Reader.Elements.{
  as_int_or, as_uint_or, as_space, seek_elem_children_start, read_elem_end, next_child,
  expect_child, for_children,
}
use mizl_h_public.Sleigh.Expression.{int32}
use mizl_h_public.Sleigh.Decision.{int32_or_minus_one}

pub data ConstTplType : Type 0 where
  real handle j_start j_next j_next2 j_curspace j_curspace_size : ConstTplType
  spaceid j_relative flowref j_flowref_size j_flowdest j_flowdest_size : ConstTplType

pub record ConstTpl : Type 0 where
  pub const_type : ConstTplType
  pub value_spaceid : Option SpaceInfo
  pub value_real : ℕ

pub record VarNodeTpl : Type 0 where
  pub space : ConstTpl
  pub offset : ConstTpl
  pub size : ConstTpl

pub record OpTpl : Type 0 where
  pub code : ℕ
  pub result : Option VarNodeTpl
  pub input : List VarNodeTpl

pub record HandleTpl : Type 0 where
  pub space : ConstTpl
  pub size : ConstTpl
  pub ptrspace : ConstTpl
  pub ptroffset : ConstTpl
  pub ptrsize : ConstTpl
  pub temp_space : ConstTpl
  pub temp_offset : ConstTpl

pub record ConstructorTpl : Type 0 where
  pub labels : ℕ
  pub section : ℕ
  pub result : Option HandleTpl
  pub op_tpls : List OpTpl

abbrev pub const_type_of : ElementId → Option ConstTplType
const_type_of Element.const_real = some real
const_type_of Element.const_handle = some handle
const_type_of Element.const_start = some j_start
const_type_of Element.const_next = some j_next
const_type_of Element.const_next2 = some j_next2
const_type_of Element.const_curspace = some j_curspace
const_type_of Element.const_curspace_size = some j_curspace_size
const_type_of Element.const_spaceid = some spaceid
const_type_of Element.const_relative = some j_relative
const_type_of Element.const_flowref = some flowref
const_type_of Element.const_flowref_size = some j_flowref_size
const_type_of Element.const_flowdest = some j_flowdest
const_type_of Element.const_flowdest_size = some j_flowdest_size
const_type_of _ = none

-- `ConstTplHandleType::OffsetPlus as i16`
abbrev pub offset_plus : ℕ
offset_plus = 3

abbrev pub with_real : ConstTplType → ℕ → ConstTpl
with_real const_type value = record {
  const_type = const_type;
  value_spaceid = none;
  value_real = value;
}

-- The values of a constant template, by its type.
unfoldable pub const_tpl : ConstTplType → SlaElement → ConstTpl
unfolding as_int_or as_uint_or as_space
const_tpl real elem = with_real real (as_uint_or elem Attribute.val 0)
const_tpl j_relative elem = with_real j_relative (as_uint_or elem Attribute.val 0)
const_tpl handle elem =
    let select = as_int_or elem Attribute.s 0 % 2 ^ 16 in
    with_real handle (if select == offset_plus then as_uint_or elem Attribute.plus 0 else 0)
const_tpl spaceid elem = record {
  const_type = spaceid;
  value_spaceid = some (as_space elem Attribute.space);
  value_real = 0;
}
const_tpl const_type elem = with_real const_type 0

module _ (buffer : List ℕ) where
  unfoldable pub const_tpl_at : Option ConstTplType → SlaElement → ℕ → Outcome (ConstTpl × ℕ)
  unfolding const_tpl read_elem_end
  const_tpl_at none elem pos = panic
  const_tpl_at (some const_type) elem pos = do
    (_, pos') ← read_elem_end buffer elem.id pos
    ok (const_tpl const_type elem, pos')

  unfoldable pub new_const_tpl : SlaElement → ℕ → Outcome (ConstTpl × ℕ)
  unfolding seek_elem_children_start const_tpl_at
  new_const_tpl elem pos = do
    p1 ← seek_elem_children_start buffer elem pos
    const_tpl_at (const_type_of elem.id) elem p1

  -- `child_iter.next().expect(..)`, and the constant template that is there.
  unfoldable pub next_const_tpl : ℕ → Outcome (ConstTpl × ℕ)
  unfolding expect_child new_const_tpl
  next_const_tpl pos = do (elem, p1) ← expect_child buffer pos; new_const_tpl elem p1

  -- `assert!(child_iter.next().is_none())`
  unfoldable pub expect_no_child : ℕ → Outcome ℕ
  unfolding next_child
  expect_no_child pos = do
    (child, p1) ← next_child buffer pos
    elim child [ none ↦ ok p1 | some elem ↦ panic ]

  unfoldable pub new_var_node_tpl : SlaElement → ℕ → Outcome (VarNodeTpl × ℕ)
  unfolding seek_elem_children_start seek next_const_tpl expect_no_child read_elem_end
  new_var_node_tpl elem pos = do
    p1 ← seek_elem_children_start buffer elem pos
    p2 ← seek buffer p1 elem.epos
    (space, p3) ← next_const_tpl p2
    (offset, p4) ← next_const_tpl p3
    (size, p5) ← next_const_tpl p4
    p6 ← expect_no_child p5
    (_, p7) ← read_elem_end buffer elem.id p6
    ok (record { space = space; offset = offset; size = size }, p7)

  -- The first child of a list: nothing, or a template.
  unfoldable pub read_first {ℓ} :
      {A : Type ℓ}
      → ElementId
      → (SlaElement → ℕ → Outcome (A × ℕ))
      → SlaElement
      → ℕ
      → Outcome (Option A × ℕ)
  unfolding read_elem_end
  read_first {A} kind new child pos = do
    let empty : Outcome (Option A × ℕ) = do
      (_, pos') ← read_elem_end buffer child.id pos
      ok (none, pos')
    let full : Outcome (Option A × ℕ) = do (v, pos') ← new child pos; ok (some v, pos')
    if Element.same child.id Element.null
        then empty
        else if Element.same child.id kind
        then full
        else panic

  -- The children behind the first one.
  unfoldable pub read_next {ℓ} :
      {A : Type ℓ}
      → ElementId
      → (SlaElement → ℕ → Outcome (A × ℕ))
      → List A
      → SlaElement
      → ℕ
      → Outcome (List A × ℕ)
  read_next {A} kind new vs child pos = do
    let more : Outcome (List A × ℕ) = do (v, pos') ← new child pos; ok (vs ++ (v ∷ []), pos')
    if Element.same child.id kind then more else panic

  -- The body of `for (i, child) in reader.read_elem_children(..).enumerate()`: the index, then the
  -- result and the list.
  abbrev pub Listing {ℓ κ} : Type ℓ → Type κ → Type (ℓ ⊔ κ)
  Listing A B = ℕ × Option A × List B

  module _ {ℓ κ} {A : Type ℓ} {B : Type κ} (first_kind : ElementId)
      (new_first : SlaElement → ℕ → Outcome (A × ℕ)) (next_kind : ElementId)
      (new_next : SlaElement → ℕ → Outcome (B × ℕ)) where
    unfoldable pub read_listed : Listing A B → SlaElement → ℕ → Outcome (Listing A B × ℕ)
    unfolding read_first read_next
    read_listed (i, result, list) child pos = do
      let first : Outcome (Listing A B × ℕ) = do
        (result', pos') ← read_first first_kind new_first child pos
        ok ((1, result', list), pos')
      let further : Outcome (Listing A B × ℕ) = do
        (list', pos') ← read_next next_kind new_next list child pos
        ok ((i + 1, result, list'), pos')
      if i == 0 then first else further

  unfoldable pub new_op_tpl : SlaElement → ℕ → Outcome (OpTpl × ℕ)
  unfolding seek_elem_children_start for_children read_listed new_var_node_tpl read_elem_end
  new_op_tpl elem pos = do
    p1 ← seek_elem_children_start buffer elem pos
    ((_, result, input), p2) ←
        for_children buffer elem
          (read_listed Element.varnode_tpl new_var_node_tpl Element.varnode_tpl new_var_node_tpl)
          (0, none, []) p1
    (_, p3) ← read_elem_end buffer elem.id p2
    ok (
      record { code = int32_or_minus_one elem Attribute.code; result = result; input = input },
      p3,
    )

  unfoldable pub new_handle_tpl : SlaElement → ℕ → Outcome (HandleTpl × ℕ)
  unfolding seek_elem_children_start seek next_const_tpl read_elem_end
  new_handle_tpl elem pos = do
    p1 ← seek_elem_children_start buffer elem pos
    p2 ← seek buffer p1 elem.epos
    (space, p3) ← next_const_tpl p2
    (size, p4) ← next_const_tpl p3
    (ptrspace, p5) ← next_const_tpl p4
    (ptroffset, p6) ← next_const_tpl p5
    (ptrsize, p7) ← next_const_tpl p6
    (temp_space, p8) ← next_const_tpl p7
    (temp_offset, p9) ← next_const_tpl p8
    (_, p10) ← read_elem_end buffer elem.id p9
    ok (
      record {
        space = space;
        size = size;
        ptrspace = ptrspace;
        ptroffset = ptroffset;
        ptrsize = ptrsize;
        temp_space = temp_space;
        temp_offset = temp_offset;
      },
      p10,
    )

  unfoldable pub new_constructor_tpl : SlaElement → ℕ → Outcome (ConstructorTpl × ℕ)
  unfolding seek_elem_children_start for_children read_listed new_handle_tpl new_op_tpl
      read_elem_end
  new_constructor_tpl elem pos = do
    p1 ← seek_elem_children_start buffer elem pos
    ((_, result, op_tpls), p2) ←
        for_children buffer elem
          (read_listed Element.handle_tpl new_handle_tpl Element.op_tpl new_op_tpl) (0, none, []) p1
    (_, p3) ← read_elem_end buffer elem.id p2
    ok (
      record {
        labels = int32 elem Attribute.labels;
        section = int32_or_minus_one elem Attribute.section;
        result = result;
        op_tpls = op_tpls;
      },
      p3,
    )
