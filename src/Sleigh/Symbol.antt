-- ===== src/Sleigh/Symbol.antt =====
-- Symbols and how they are read: the files mizl_core/src/sleigh/sym_*.rs, and `Symbol` and
-- `SymbolInner` of sla_file.rs.
pub mod Lists
pub mod Ends
use mizl_h_public.Base.{
  ℕ, ◌-◌, ◌%◌, Bool, true, false, not, List, [], ◌∷◌, ◌++◌, Option, none, some, ◌==◌, if◌then◌else◌,
  u32_mod, sub32, lt_i32, Outcome, ok, panic, ◌>>=◌,
}
use mizl_h_public.Sleigh.Element
use mizl_h_public.Sleigh.Element.{ElementId}
use mizl_h_public.Sleigh.Attribute
use mizl_h_public.Sleigh.Reader.{SlaElement, SpaceInfo, seek}
use mizl_h_public.Sleigh.Reader.Elements.{
  as_bool_or, as_int_or, as_uint_or, as_str_or, as_space, seek_elem_children_start, read_elem_end,
  expect_child, for_children, skip_children,
}
use mizl_h_public.Sleigh.Expression.{Expression, new_expression, int32, uint32}
use mizl_h_public.Sleigh.Decision.{Decision, new_decision}
use mizl_h_public.Sleigh.Constructor.{Constructor, new_constructor}

pub record OperandSym : Type 0 where
  pub hand : ℕ
  pub rel_offset : ℕ
  pub offset_base : ℕ
  pub min_length : ℕ
  pub subsym : ℕ
  pub code : Bool
  pub local_exp : Expression
  pub def_exp : Option Expression

pub record VarnodeSym : Type 0 where
  pub space : SpaceInfo
  pub offset : ℕ
  pub size : ℕ

pub record UseropSym : Type 0 where
  pub index : ℕ

pub record ValueSym : Type 0 where
  pub patexp : Expression

pub record ContextSym : Type 0 where
  pub varnode : ℕ
  pub low : ℕ
  pub high : ℕ
  pub flow : Bool
  pub patexp : Expression

pub record SubtableSym : Type 0 where
  pub ctors : List Constructor
  pub decision : Decision

pub record ValuemapSym : Type 0 where
  pub patexp : Expression
  pub values : List ℕ

pub record VarlistSym : Type 0 where
  pub patexp : Expression
  pub var_ids : List ℕ

pub data SymbolInner : Type 0 where
  operand_sym : OperandSym → SymbolInner
  varnode_sym : VarnodeSym → SymbolInner
  userop : UseropSym → SymbolInner
  value_sym : ValueSym → SymbolInner
  context_sym : ContextSym → SymbolInner
  end_sym epsilon_sym name_sym next2_sym start_sym : SymbolInner
  subtable_sym : SubtableSym → SymbolInner
  valuemap_sym : ValuemapSym → SymbolInner
  varlist_sym : VarlistSym → SymbolInner

pub record Symbol : Type 0 where
  pub name : List ℕ
  pub id : ℕ
  pub scope : ℕ
  pub inner : SymbolInner

-- `u32::MAX`
abbrev pub u32_max : ℕ
u32_max = u32_mod - 1

-- The name, id and scope of a symbol's element.
unfoldable pub symbol_of : SlaElement → SymbolInner → Symbol
unfolding as_str_or
symbol_of elem inner = record {
  name = as_str_or elem Attribute.name [];
  id = uint32 elem Attribute.id;
  scope = uint32 elem Attribute.scope;
  inner = inner;
}

module _ (buffer : List ℕ) where
  -- The start of the iterator over the children of an element.
  unfoldable pub to_children : SlaElement → ℕ → Outcome ℕ
  unfolding seek_elem_children_start seek
  to_children elem pos = do p1 ← seek_elem_children_start buffer elem pos; seek buffer p1 elem.epos

  -- The next child, as an expression.
  unfoldable pub next_expression : ℕ → Outcome (Expression × ℕ)
  unfolding expect_child new_expression
  next_expression pos = do (elem, p1) ← expect_child buffer pos; new_expression buffer elem p1

  -- A symbol without children.
  unfoldable pub childless : SymbolInner → SlaElement → ℕ → Outcome (Symbol × ℕ)
  unfolding skip_children symbol_of
  childless inner elem pos = do
    pos' ← skip_children buffer elem pos
    ok (symbol_of elem inner, pos')

  unfoldable pub new_start_sym : SlaElement → ℕ → Outcome (Symbol × ℕ)
  unfolding childless
  new_start_sym = childless start_sym

  unfoldable pub new_end_sym : SlaElement → ℕ → Outcome (Symbol × ℕ)
  unfolding childless
  new_end_sym = childless end_sym

  unfoldable pub new_next2_sym : SlaElement → ℕ → Outcome (Symbol × ℕ)
  unfolding childless
  new_next2_sym = childless next2_sym

  unfoldable pub new_userop_sym : SlaElement → ℕ → Outcome (Symbol × ℕ)
  unfolding childless
  new_userop_sym elem = childless (userop (record { index = int32 elem Attribute.index })) elem

  unfoldable pub new_varnode_sym : SlaElement → ℕ → Outcome (Symbol × ℕ)
  unfolding as_space childless
  new_varnode_sym elem =
      childless
        (varnode_sym (record {
          space = as_space elem Attribute.space;
          offset = uint32 elem Attribute.off;
          size = int32 elem Attribute.size;
        }))
        elem

  unfoldable pub new_value_sym : SlaElement → ℕ → Outcome (Symbol × ℕ)
  unfolding to_children next_expression read_elem_end symbol_of
  new_value_sym elem pos = do
    p1 ← to_children elem pos
    (patexp, p2) ← next_expression p1
    (_, p3) ← read_elem_end buffer elem.id p2
    ok (symbol_of elem (value_sym (record { patexp = patexp })), p3)

  -- `flow` is read from the attribute of the varnode.
  unfoldable pub new_context_sym : SlaElement → ℕ → Outcome (Symbol × ℕ)
  unfolding as_bool_or to_children next_expression read_elem_end symbol_of
  new_context_sym elem pos = do
    p1 ← to_children elem pos
    (patexp, p2) ← next_expression p1
    (_, p3) ← read_elem_end buffer elem.id p2
    ok (
      symbol_of elem (
          context_sym (record {
            varnode = uint32 elem Attribute.varnode;
            low = int32 elem Attribute.low;
            high = int32 elem Attribute.high;
            flow = as_bool_or elem Attribute.varnode false;
            patexp = patexp;
          })),
      p3,
    )

  -- The defining expression, where there is no symbol for the operand.
  unfoldable pub read_def_exp : ℕ → ℕ → Outcome (Option Expression × ℕ)
  unfolding next_expression
  read_def_exp subsym pos = do
    let read : Outcome (Option Expression × ℕ) = do
      (def_exp, pos') ← next_expression pos
      ok (some def_exp, pos')
    if subsym == u32_max then read else ok (none, pos)

  unfoldable pub new_operand_sym : SlaElement → ℕ → Outcome (Symbol × ℕ)
  unfolding as_bool_or as_uint_or to_children next_expression read_def_exp read_elem_end symbol_of
  new_operand_sym elem pos = do
    let subsym = as_uint_or elem Attribute.subsym u32_max % u32_mod
    p1 ← to_children elem pos
    (local_exp, p2) ← next_expression p1
    (def_exp, p3) ← read_def_exp subsym p2
    (_, p4) ← read_elem_end buffer elem.id p3
    ok (
      symbol_of elem (
          operand_sym (record {
            hand = int32 elem Attribute.index;
            rel_offset = int32 elem Attribute.off;
            offset_base = int32 elem Attribute.base;
            min_length = int32 elem Attribute.minlen;
            subsym = subsym;
            code = as_bool_or elem Attribute.code false;
            local_exp = local_exp;
            def_exp = def_exp;
          })),
      p4,
    )
