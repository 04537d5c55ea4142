-- ===== src/Sleigh/Disasm/Proto/Offsets.antt =====
-- The offsets of the operands that a print element leaves in an item of the stack.
use mizl_h_public.Base.{
  ℕ, ◌≤◌, ◌<◌, ◌≡◌, ◌⊎◌, inl, inr, refl, not, List, [], ◌∷◌, Option, none, some, length, length-set,
  get_elem?, ltb, ltb→lt, sym, ◌==◌, Bool-cases, arith, add64, i32_as_u64, minus_one32, IfOk, value,
  panicked, IfOk->>=, IfOk-if, IfOk-any,
}
use mizl_h_public.Sleigh.State.{DisasmState}
use mizl_h_public.Sleigh.Constructor
use mizl_h_public.Sleigh.Constructor.{ConstructorPrintElement}
use mizl_h_public.Sleigh.Expression.{Expression}
use mizl_h_public.Sleigh.Symbol.{
  Symbol, SymbolInner, SubtableSym, u32_max, value_sym, varlist_sym, valuemap_sym, varnode_sym,
  subtable_sym,
}
use mizl_h_public.Sleigh.Disasm.{Disasm, DisasmStackItem, from_stack_item, symbols_of}
use mizl_h_public.Sleigh.Disasm.Resolve.{resolve_ctor}
use mizl_h_public.Sleigh.Disasm.Proto.Print.{
  Printed, or_unit, indexed, set_at, new_item, set_context, later, find_operand, operand_offset,
  enter_table, print_inner, print_expression, print_operand, with_operand, print_element,
}

-- The last operand of an item, where it has one, has an offset.
abbrev pub HasOffset : DisasmStackItem → Type 0
HasOffset item =
    (item.last_operand_idx ≡ minus_one32)
    ⊎ (i32_as_u64 item.last_operand_idx < length item.op_offsets)

pub data HaveOffsets : List DisasmStackItem → Type 0 where
  none_left : HaveOffsets []
  one_more :
      {item : DisasmStackItem} {below : List DisasmStackItem}
      → HasOffset item
      → HaveOffsets below
      → HaveOffsets (item ∷ below)

set_at-length :
    (list : List ℕ) (i v : ℕ)
    → IfOk (λ r. (i < length list) × (length r ≡ length list)) (set_at list i v)
set_at-length list i v =
    IfOk-if (ltb i (length list)) (λ h. value (ltb→lt i (length list) h, length-set list i v))
      λ h. panicked

later-le : (a b : ℕ) → b ≤ later a b
later-le a b = ground arith

pub written-HasOffset :
    (item : DisasmStackItem) (offsets : List ℕ)
    → length offsets ≡ length item.op_offsets
    → HasOffset item
    → HasOffset (record item { op_offsets = offsets })
written-HasOffset item offsets e (inl h) = inl h
written-HasOffset item offsets e (inr h) = inr (rw e h)

-- An item for a constructor has no last operand.
new_item-HasOffset :
    (table : SubtableSym) (id ctor_idx pos : ℕ) → IfOk HasOffset (new_item table id ctor_idx pos)
unfolding new_item
new_item-HasOffset table id ctor_idx pos =
    IfOk->>= (IfOk-any (indexed (get_elem? table.ctors (i32_as_u64 ctor_idx))))
      λ c t. value (inl refl)

-- What a print element comes to does not move the end back, and pushes items that have offsets.
abbrev pub Goes : ℕ → Printed → Type 0
Goes end_pos r = (end_pos ≤ r.end_pos) × HaveOffsets r.elem_to_add

with_operand-HasOffset :
    (item : DisasmStackItem) (oper_idx : ℕ)
    → HasOffset item
    → i32_as_u64 oper_idx < length item.op_offsets
    → HasOffset (with_operand item oper_idx)
with_operand-HasOffset item oper_idx h l = elim (Bool-cases (oper_idx == minus_one32)) [
  | inl e ↦ rw e h
  | inr n ↦ rw n (inr l)
]

module _ (disasm : Disasm) (depth : ℕ) where
  enter_table-Goes :
      (state : DisasmState) (sym : Symbol) (table : SubtableSym) (off end_pos : ℕ)
      → IfOk (Goes end_pos) (enter_table disasm depth state sym table off end_pos)
  unfolding enter_table
  enter_table-Goes state sym table off end_pos =
      IfOk->>= (IfOk-any (or_unit (resolve_ctor state table.decision off))) λ i t.
        IfOk->>= (new_item-HasOffset table sym.id i off) λ item h.
          IfOk->>=
            (IfOk-any
              (set_context disasm depth state item.ctor.context_ops (from_stack_item item) off))
            λ s u. value (later-le _ end_pos, one_more h none_left)

  print_inner-Goes :
      (state : DisasmState) (top : DisasmStackItem) (sym : Symbol) (inner : SymbolInner)
      → (off end_pos : ℕ)
      → IfOk (Goes end_pos) (print_inner disasm depth state top sym inner off end_pos)
  unfolding print_inner
  print_inner-Goes state top sym (value_sym _) off end_pos = value (omega arith, none_left)
  print_inner-Goes state top sym (varlist_sym _) off end_pos = value (omega arith, none_left)
  print_inner-Goes state top sym (valuemap_sym _) off end_pos = value (omega arith, none_left)
  print_inner-Goes state top sym (varnode_sym _) off end_pos = value (omega arith, none_left)
  print_inner-Goes state top sym (subtable_sym table) off end_pos =
      enter_table-Goes state sym table off end_pos
  print_inner-Goes state top sym _ off end_pos = panicked

  print_expression-Goes :
      (state : DisasmState) (top : DisasmStackItem) (e : Option Expression) (off end_pos : ℕ)
      → IfOk (Goes end_pos) (print_expression state top e off end_pos)
  print_expression-Goes state top none off end_pos = panicked
  print_expression-Goes state top (some e) off end_pos = value (omega arith, none_left)

  -- An operand: the item gets its end, and the end so far is not moved back.
  print_operand-Goes :
      (state : DisasmState) (top : DisasmStackItem) (oper_idx at end_pos : ℕ)
      → HasOffset top
      → IfOk
          (λ (r : Printed × DisasmStackItem).
            Goes end_pos r.0 × HasOffset r.1 × (i32_as_u64 oper_idx < length r.1.op_offsets))
          (print_operand disasm depth state top oper_idx at end_pos)
  unfolding print_operand
  print_operand-Goes state top oper_idx at end_pos h =
      IfOk->>= (IfOk-any (find_operand disasm depth top oper_idx)) λ operand t.
        IfOk->>= (IfOk-any (operand_offset disasm depth top operand at)) λ off u.
          let end' = later (add64 off (i32_as_u64 operand.min_length)) end_pos in
          let far : end_pos ≤ end' = later-le _ end_pos in
          IfOk->>= {P = Goes end'}
            (IfOk-if (not (operand.subsym == u32_max))
              (λ b.
                IfOk->>= (IfOk-any (indexed (get_elem? (symbols_of disasm) operand.subsym)))
                  λ sym v. print_inner-Goes state top sym sym.inner off end')
              λ b. print_expression-Goes state top operand.def_exp off end')
            λ r g. IfOk->>= (set_at-length top.op_offsets (i32_as_u64 oper_idx) _) λ offsets l.
              value
                ((omega (arith, far, g.0), g.1), written-HasOffset top offsets l.1 h, rw l.1 l.0)

  pub print_element-Goes :
      (state : DisasmState) (top : DisasmStackItem) (element : ConstructorPrintElement)
      (at end_pos : ℕ)
      → HasOffset top
      → IfOk
          (λ (r : Printed × DisasmStackItem). Goes end_pos r.0 × HasOffset r.1)
          (print_element disasm depth state top element at end_pos)
  unfolding print_element
  print_element-Goes state top (Constructor.literal t) at end_pos h =
      value ((omega arith, none_left), h)
  print_element-Goes state top (Constructor.operand oper_idx) at end_pos h =
      IfOk->>= (print_operand-Goes state top oper_idx at end_pos h)
        λ (r, top') (g, k, l). value (g, with_operand-HasOffset top' oper_idx k l)
