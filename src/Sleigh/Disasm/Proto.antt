-- ===== src/Sleigh/Disasm/Proto.antt =====
-- The prototype of an instruction: `disasm_proto` and `set_context` of
-- mizl_core/src/sleigh/disasm.rs. The program has no bound on the rounds, nor on the operands that
-- an expression leads through; both are fuel.
pub mod Print
pub mod Offsets
pub mod Step
pub mod Reached
use Prim.Native.Nat.{bit_and, bit_or}
use mizl_h_public.Base.{
  ℕ, zero, suc, ◌%◌, Bool, List, [], ◌∷◌, Option, none, some, length, get_elem?, set, replicate,
  leb, ◌==◌, not, if◌then◌else◌, add64, sub64, mul32, i32_as_u64, shl32, not32, u32_mod,
  minus_one32, Outcome, ok, err, panic, no_fuel, generic, ◌>>=◌,
}
use mizl_h_public.MemView.Trait.{MemReader}
use mizl_h_public.Sleigh.State.{
  DisasmState, new_state, read_ctx_u32_at, state_write_ctx_u32_bits_at,
}
use mizl_h_public.Sleigh.Constructor.{Constructor, ContextOpTpl}
use mizl_h_public.Sleigh.Symbol.{Symbol, SymbolInner, SubtableSym, subtable_sym, u32_max}
use mizl_h_public.Sleigh.Scope.{Scope, find_symbol}
use mizl_h_public.Sleigh.Disasm.{
  Disasm, DisasmStackItem, DisasmOperandStackItem, from_stack_item, DisasmProtoPart,
  DisasmPrototype, symbols_of,
}
use mizl_h_public.Sleigh.Disasm.Operand.{evaluate}
use mizl_h_public.Sleigh.Disasm.Resolve.{resolve_ctor}
use mizl_h_public.Sleigh.Disasm.Proto.Print.{set_context, new_item, or_unit}
use mizl_h_public.Sleigh.Disasm.Proto.Step.{Progress, round}

-- "instruction"
abbrev pub instruction_name : List ℕ
instruction_name = 105 ∷ 110 ∷ 115 ∷ 116 ∷ 114 ∷ 117 ∷ 99 ∷ 116 ∷ 105 ∷ 111 ∷ 110 ∷ []

module _ (disasm : Disasm) (depth : ℕ) where
  -- The table that decoding starts with.
  abbrev pub table_of : Option Symbol → Outcome (Symbol × SubtableSym)
  table_of none = panic
  table_of (some s) = elim s.inner [ subtable_sym v ↦ ok (s, v) | _ ↦ panic ]

  abbrev pub named_table : Option ℕ → Outcome (Symbol × SubtableSym)
  named_table none = panic
  named_table (some i) = table_of (get_elem? (symbols_of disasm) i)

  unfoldable pub instruction_table : Outcome (Symbol × SubtableSym)
  unfolding find_symbol
  instruction_table = elim disasm.sleigh.symbol_table.scopes [
    | [] ↦ panic
    | root_scope ∷ _ ↦ named_table (find_symbol root_scope.lookup instruction_name)
  ]

  -- `while !stack.is_empty()`
  unfoldable pub proto_loop : ℕ → ℕ → Progress → Outcome Progress
  unfolding round
  proto_loop zero at p = no_fuel
  proto_loop (suc fuel) at p =
      let further = round disasm depth at p >>= proto_loop fuel at in
      elim p.stack [ [] ↦ ok p | _ ∷ _ ↦ further ]

  unfoldable pub disasm_proto : ℕ → MemReader → ℕ → Outcome DisasmPrototype
  unfolding instruction_table resolve_ctor set_context new_item proto_loop
  disasm_proto fuel mem at = do
    let state = new_state mem disasm.initial_ctx at
    (table_sym, table) ← instruction_table
    base_ctor_idx ← or_unit (resolve_ctor state table.decision at)
    item ← new_item table table_sym.id base_ctor_idx at
    state' ← set_context disasm depth state item.ctor.context_ops (from_stack_item item) at
    let start : Progress = record {
      state = state';
      stack = item ∷ [];
      proto_parts = [];
      end_pos = add64 at (i32_as_u64 item.ctor.min_length);
    }
    p ← proto_loop fuel at start
    ok (record { parts = p.proto_parts; length = sub64 p.end_pos at })
