-- ===== src/Sleigh/Disasm/Operand.antt =====
-- Operands in expressions: `OperandValue::evaluate` of mizl_core/src/sleigh/expression.rs, and with
-- it `Expression::evaluate`. An operand leads to the expression of another symbol; the program has
-- no bound on that, so the fuel, one unit for an operand, is an argument.
use mizl_h_public.Base.{
  ℕ, zero, suc, not, ◌||◌, none, some, get_elem?, ◌==◌, if◌then◌else◌, add64, i32_as_u64, Outcome,
  panic, no_fuel,
}
use mizl_h_public.Sleigh.State.{DisasmState}
use mizl_h_public.Sleigh.Expression.{Expression, OperandValue}
use mizl_h_public.Sleigh.Expression.Evaluate.{eval}
use mizl_h_public.Sleigh.Symbol.{
  SymbolInner, OperandSym, operand_sym, value_sym, varlist_sym, valuemap_sym, u32_max,
}
use mizl_h_public.Sleigh.Disasm.{Disasm, DisasmOperandStackItem, symbols_of}

module _ (disasm : Disasm) (state : DisasmState) (top_stack : DisasmOperandStackItem) where
  -- The symbol that an index stands for: out of range, the program panics.
  abbrev pub at_symbol {ℓ} : {A : Type ℓ} → ℕ → (SymbolInner → Outcome A) → Outcome A
  at_symbol i next = elim (get_elem? (symbols_of disasm) i) [ some s ↦ next s.inner | none ↦ panic ]

  -- What `at` does with the expression of the operand's symbol.
  unfoldable pub operand_expression : (Expression → ℕ → Outcome ℕ) → OperandSym → Outcome ℕ
  operand_expression at operand =
      let operand_off = add64 top_stack.read_position (i32_as_u64 operand.rel_offset) in
      let dynamic : Outcome ℕ = at_symbol operand.subsym λ inner. elim inner [
        | value_sym v ↦ at v.patexp operand_off
        | varlist_sym v ↦ at v.patexp operand_off
        | valuemap_sym v ↦ at v.patexp operand_off
        | _ ↦ panic
      ] in
      let static : Outcome ℕ = elim operand.def_exp [ some e ↦ at e operand_off | none ↦ panic ] in
      if not (operand.subsym == u32_max) then dynamic else static

  unfoldable pub evaluate_operand : ℕ → OperandValue → Outcome ℕ
  unfolding operand_expression eval
  evaluate_operand zero v = no_fuel
  evaluate_operand (suc fuel) v =
      let found : Outcome ℕ = elim (get_elem? top_stack.operand_ids (i32_as_u64 v.index)) [
        | none ↦ panic
        | some operand_id ↦ at_symbol operand_id λ inner. elim inner [
          | operand_sym operand ↦
              operand_expression (λ e off. eval (evaluate_operand fuel) state e off) operand
          | _ ↦ panic
        ]
      ] in
      if not (v.sym_id == top_stack.subsym_id) || not (v.ctor_idx == top_stack.ctor_idx)
      then panic
      else found

  -- `Expression::evaluate`
  unfoldable pub evaluate : ℕ → Expression → ℕ → Outcome ℕ
  unfolding eval evaluate_operand
  evaluate fuel e at = eval (evaluate_operand fuel) state e at
