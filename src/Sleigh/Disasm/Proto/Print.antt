-- ===== src/Sleigh/Disasm/Proto/Print.antt =====
-- What a print element of a constructor comes to in `disasm_proto`, and the change of the context.
use Prim.Native.Nat.{bit_and, bit_or}
use mizl_h_public.Base.{
  ℕ, ◌%◌, List, [], ◌∷◌, Option, none, some, length, get_elem?, set, replicate, ltb, ◌==◌, not,
  if◌then◌else◌, add64, sub64, mul32, i32_as_u64, shl32, not32, u32_mod, minus_one32, Outcome, ok,
  err, panic, no_fuel, generic, ◌>>=◌,
}
use mizl_h_public.Sleigh.State.{
  DisasmState, read_ctx_u32_at, state_write_ctx_u32_bits_at, get_context,
}
use mizl_h_public.Sleigh.Expression.{Expression}
use mizl_h_public.Sleigh.Constructor
use mizl_h_public.Sleigh.Constructor.{Constructor, ConstructorPrintElement, ContextOpTpl}
use mizl_h_public.Sleigh.Symbol.{
  Symbol, SymbolInner, OperandSym, SubtableSym, operand_sym, value_sym, varlist_sym, valuemap_sym,
  varnode_sym, subtable_sym, u32_max,
}
use mizl_h_public.Sleigh.Disasm.{
  Disasm, DisasmStackItem, DisasmOperandStackItem, from_stack_item, DisasmProtoPart, literal,
  symbol_info, expression_info, symbols_of,
}
use mizl_h_public.Sleigh.Disasm.Operand.{evaluate}
use mizl_h_public.Sleigh.Disasm.Resolve.{resolve_ctor}

-- `Err(_) => return Err(())`
abbrev pub or_unit {ℓ} : {A : Type ℓ} → Outcome A → Outcome A
or_unit (ok v) = ok v
or_unit (err e) = err (generic "" [])
or_unit panic = panic
or_unit no_fuel = no_fuel

-- An access that panics out of range.
abbrev pub indexed {ℓ} : {A : Type ℓ} → Option A → Outcome A
indexed (some v) = ok v
indexed none = panic

-- `list[i] = v`
abbrev pub set_at : List ℕ → ℕ → ℕ → Outcome (List ℕ)
set_at list i v = if ltb i (length list) then ok (set list i v) else panic

-- The item for a constructor of a table.
unfoldable pub new_item : SubtableSym → ℕ → ℕ → ℕ → Outcome DisasmStackItem
new_item table subsym_id ctor_idx read_position = do
  ctor ← indexed (get_elem? table.ctors (i32_as_u64 ctor_idx))
  ok (record {
    ctor = ctor;
    print_elem_idx = 0;
    last_operand_idx = minus_one32;
    op_offsets = replicate (length ctor.operand_ids) u32_max;
    read_position = read_position;
    subsym_id = subsym_id;
    ctor_idx = ctor_idx;
  })

-- What a print element comes to: the state, the part that is pushed, the item that is pushed, and
-- the end so far.
pub record Printed : Type 0 where
  pub state : DisasmState
  pub part : List DisasmProtoPart
  pub elem_to_add : List DisasmStackItem
  pub end_pos : ℕ

abbrev pub later : ℕ → ℕ → ℕ
later a b = if ltb b a then a else b

abbrev pub info_of : DisasmState → DisasmStackItem → Symbol → ℕ → ℕ → Printed
info_of state top sym operand_off end_pos = record {
  state = state;
  part =
      symbol_info (record {
        saved_ctx = get_context state;
        saved_stack = from_stack_item top;
        symbol = sym;
        offset = operand_off;
      })
      ∷ [];
  elem_to_add = [];
  end_pos = end_pos;
}

abbrev pub print_expression :
    DisasmState → DisasmStackItem → Option Expression → ℕ → ℕ → Outcome Printed
print_expression state top none operand_off end_pos = panic
print_expression state top (some e) operand_off end_pos = ok (record {
  state = state;
  part =
      expression_info (record {
        saved_ctx = get_context state;
        saved_stack = from_stack_item top;
        expression = e;
        offset = operand_off;
      })
      ∷ [];
  elem_to_add = [];
  end_pos = end_pos;
})

-- The last operand, unless the index is -1.
abbrev pub with_operand : DisasmStackItem → ℕ → DisasmStackItem
with_operand top oper_idx =
    if oper_idx == minus_one32 then top else record top { last_operand_idx = oper_idx }

module _ (disasm : Disasm) (depth : ℕ) where
  unfoldable pub apply_context_op :
      DisasmState → ContextOpTpl → DisasmOperandStackItem → ℕ → Outcome DisasmState
  unfolding evaluate read_ctx_u32_at state_write_ctx_u32_bits_at
  apply_context_op state op top_stack at = do
    value ← evaluate disasm state top_stack depth op.expression at
    let exp_value = value % u32_mod
    old_ctx_val ← read_ctx_u32_at state (i32_as_u64 (mul32 op.word_start 32))
    let new_ctx_val = bit_or (bit_and old_ctx_val (not32 op.mask)) (shl32 exp_value op.bit_shift)
    state_write_ctx_u32_bits_at state (mul32 op.word_start 32) 32 new_ctx_val

  unfoldable pub set_context :
      DisasmState → List ContextOpTpl → DisasmOperandStackItem → ℕ → Outcome DisasmState
  unfolding apply_context_op
  set_context state [] top_stack at = ok state
  set_context state (op ∷ context_ops) top_stack at = do
    state' ← apply_context_op state op top_stack at
    set_context state' context_ops top_stack at

  abbrev pub operand_of : Option Symbol → Outcome OperandSym
  operand_of none = panic
  operand_of (some s) = elim s.inner [ operand_sym v ↦ ok v | _ ↦ panic ]

  -- The operand that a print element names.
  unfoldable pub find_operand : DisasmStackItem → ℕ → Outcome OperandSym
  find_operand top oper_idx = do
    symbol_idx ← indexed (get_elem? top.ctor.operand_ids (i32_as_u64 oper_idx))
    operand_of (get_elem? (symbols_of disasm) symbol_idx)

  -- Where the operand lies: behind the constructor's start, or behind another operand's end.
  unfoldable pub operand_offset : DisasmStackItem → OperandSym → ℕ → Outcome ℕ
  operand_offset top operand at =
      let based = indexed (get_elem? top.op_offsets (i32_as_u64 operand.offset_base)) >>= λ o.
      ok (add64 at o) in
      if operand.offset_base == minus_one32
      then ok (add64 top.read_position (i32_as_u64 operand.rel_offset))
      else based

  -- A table: its constructor is resolved, changes the context, and goes on the stack.
  unfoldable pub enter_table : DisasmState → Symbol → SubtableSym → ℕ → ℕ → Outcome Printed
  unfolding resolve_ctor new_item set_context
  enter_table state sym table operand_off end_pos = do
    sub_ctor_idx ← or_unit (resolve_ctor state table.decision operand_off)
    item ← new_item table sym.id sub_ctor_idx operand_off
    state' ← set_context state item.ctor.context_ops (from_stack_item item) operand_off
    ok (record {
      state = state';
      part = [];
      elem_to_add = item ∷ [];
      end_pos = later (add64 operand_off (i32_as_u64 item.ctor.min_length)) end_pos;
    })

  -- `match &operand_subsym_box.inner`
  unfoldable pub print_inner :
      DisasmState → DisasmStackItem → Symbol → SymbolInner → ℕ → ℕ → Outcome Printed
  unfolding enter_table
  print_inner state top sym (value_sym _) operand_off end_pos =
      ok (info_of state top sym operand_off end_pos)
  print_inner state top sym (varlist_sym _) operand_off end_pos =
      ok (info_of state top sym operand_off end_pos)
  print_inner state top sym (valuemap_sym _) operand_off end_pos =
      ok (info_of state top sym operand_off end_pos)
  print_inner state top sym (varnode_sym _) operand_off end_pos =
      ok (info_of state top sym operand_off end_pos)
  print_inner state top sym (subtable_sym table) operand_off end_pos =
      enter_table state sym table operand_off end_pos
  print_inner state top sym _ operand_off end_pos = panic

  -- An operand: what it comes to, and the item with the operand's end.
  unfoldable pub print_operand :
      DisasmState → DisasmStackItem → ℕ → ℕ → ℕ → Outcome (Printed × DisasmStackItem)
  unfolding find_operand operand_offset print_inner
  print_operand state top oper_idx at end_pos = do
    operand ← find_operand top oper_idx
    operand_off ← operand_offset top operand at
    let operand_end_pos = add64 operand_off (i32_as_u64 operand.min_length)
    let end' = later operand_end_pos end_pos
    let dynamic : Outcome Printed =
        indexed (get_elem? (symbols_of disasm) operand.subsym) >>= λ sym.
        print_inner state top sym sym.inner operand_off end'
    printed ←
        (if not (operand.subsym == u32_max)
          then dynamic
          else print_expression state top operand.def_exp operand_off end')
    op_offsets ← set_at top.op_offsets (i32_as_u64 oper_idx) (sub64 operand_end_pos at % u32_mod)
    ok (printed, record top { op_offsets = op_offsets })

  unfoldable pub print_element :
      DisasmState
      → DisasmStackItem
      → ConstructorPrintElement
      → ℕ
      → ℕ
      → Outcome (Printed × DisasmStackItem)
  unfolding print_operand
  print_element state top (Constructor.literal s) at end_pos =
      ok (record { state = state; part = literal s ∷ []; elem_to_add = []; end_pos = end_pos }, top)
  print_element state top (Constructor.operand oper_idx) at end_pos = do
    (printed, top') ← print_operand state top oper_idx at end_pos
    ok (printed, with_operand top' oper_idx)
