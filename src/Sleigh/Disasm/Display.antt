-- ===== src/Sleigh/Disasm/Display.antt =====
-- The text of an instruction: `get_proto_display` and `disasm_display` of
-- mizl_core/src/sleigh/disasm.rs.
pub mod Runs
use mizl_h_public.Base.{
  ℕ, ◌%◌, Bool, true, false, ◌||◌, not, List, [], ◌∷◌, ◌++◌, Option, none, some, length, get_elem?,
  replicate, ◌==◌, if◌then◌else◌, add64, u32_mod, Outcome, ok, err, panic, generic, ◌>>=◌,
}
use mizl_h_public.MemView.Trait.{MemReader}
use mizl_h_public.Shared.HexText.{i64_to_str_fast}
use mizl_h_public.Sleigh.State.{DisasmState, new_state, set_end_ins}
use mizl_h_public.Sleigh.Expression.{Expression}
use mizl_h_public.Sleigh.Symbol.{
  Symbol, ValueSym, VarlistSym, ValuemapSym, value_sym, varlist_sym, valuemap_sym, varnode_sym,
  u32_max,
}
use mizl_h_public.Sleigh.Disasm
use mizl_h_public.Sleigh.Disasm.{
  DisasmOperandStackItem, DisasmProtoPart, literal, symbol_info, expression_info, DisasmPrototype,
  DisasmDispInstructionRunType, mnemonic, register, number, DisasmDispInstructionRun,
  DisasmDispInstruction, symbols_of,
}
use mizl_h_public.Sleigh.Disasm.Operand.{evaluate}
use mizl_h_public.Sleigh.Disasm.Proto.{disasm_proto}
use mizl_h_public.Sleigh.Disasm.Proto.Print.{indexed}

-- `v.contains(" ")`
abbrev pub has_space : List ℕ → Bool
has_space [] = false
has_space (c ∷ text) = c == 32 || has_space text

-- The text and the runs so far, and whether the mnemonic still goes on.
pub record Shown : Type 0 where
  pub final_str : List ℕ
  pub runs : List DisasmDispInstructionRun
  pub is_mnemonic : Bool

unfoldable pub add_run : Shown → List ℕ → DisasmDispInstructionRunType → Shown
add_run s add_str run_type = record s {
  final_str = s.final_str ++ add_str;
  runs = s.runs ++ (record { length = length add_str % u32_mod; run_type = run_type } ∷ []);
}

-- A literal part. A space ends the mnemonic.
unfoldable pub show_literal : Shown → List ℕ → Shown
unfolding add_run
show_literal s v =
    let goes_on = if has_space v then false else s.is_mnemonic in
    let run_type = if goes_on then mnemonic else Disasm.normal in
    add_run (record s { is_mnemonic = goes_on }) v run_type

module _ (disasm : Disasm.Disasm) (depth : ℕ) (state : DisasmState)
    (top_stack : DisasmOperandStackItem) (at : ℕ) where
  unfoldable pub get_exp_string : Expression → Outcome (List ℕ)
  unfolding evaluate i64_to_str_fast
  get_exp_string e = evaluate disasm state top_stack depth e at >>= i64_to_str_fast

  unfoldable pub get_value_sym_string : ValueSym → Outcome (List ℕ)
  unfolding evaluate i64_to_str_fast
  get_value_sym_string sym = evaluate disasm state top_stack depth sym.patexp at >>= i64_to_str_fast

  unfoldable pub get_varlist_sym_string : VarlistSym → Outcome (List ℕ)
  unfolding evaluate
  get_varlist_sym_string sym = do
    value ← evaluate disasm state top_stack depth sym.patexp at
    var_idx ← indexed (get_elem? sym.var_ids value)
    let named : Outcome (List ℕ) =
        indexed (get_elem? (symbols_of disasm) var_idx) >>= λ s. ok s.name
    if var_idx == u32_max then err (generic "" []) else named

  unfoldable pub get_valuemap_sym_string : ValuemapSym → Outcome (List ℕ)
  unfolding evaluate i64_to_str_fast
  get_valuemap_sym_string sym = do
    value ← evaluate disasm state top_stack depth sym.patexp at
    var_value ← indexed (get_elem? sym.values value)
    i64_to_str_fast var_value

  -- The text and the kind of a symbol.
  unfoldable pub symbol_text : Symbol → Outcome (List ℕ × DisasmDispInstructionRunType)
  unfolding get_value_sym_string get_varlist_sym_string get_valuemap_sym_string
  symbol_text s = elim s.inner [
    | value_sym v ↦ get_value_sym_string v >>= λ t. ok (t, number)
    | varlist_sym v ↦ get_varlist_sym_string v >>= λ t. ok (t, register)
    | valuemap_sym v ↦ get_valuemap_sym_string v >>= λ t. ok (t, number)
    | varnode_sym _ ↦ ok (s.name, register)
    | _ ↦ panic
  ]

module _ (disasm : Disasm.Disasm) (depth : ℕ) where
  -- One part; the context is the one that was saved.
  unfoldable pub show_part : DisasmState → Shown → DisasmProtoPart → Outcome Shown
  unfolding show_literal add_run get_exp_string symbol_text
  show_part state s (literal v) = ok (show_literal s v)
  show_part state s (expression_info info) = do
    let state' : DisasmState = record state { ctx = info.saved_ctx }
    v ← get_exp_string disasm depth state' info.saved_stack info.offset info.expression
    ok (add_run s v number)
  show_part state s (symbol_info info) = do
    let state' : DisasmState = record state { ctx = info.saved_ctx }
    (v, run_type) ← symbol_text disasm depth state' info.saved_stack info.offset info.symbol
    ok (add_run s v run_type)

  unfoldable pub show_parts : DisasmState → Shown → List DisasmProtoPart → Outcome Shown
  unfolding show_part
  show_parts state s [] = ok s
  show_parts state s (part ∷ parts) = do s' ← show_part state s part; show_parts state s' parts

  unfoldable pub get_proto_display : MemReader → ℕ → ℕ → DisasmPrototype → Outcome Shown
  unfolding show_parts
  get_proto_display mem at end_pos prototype =
      let state =
        set_end_ins (new_state mem (replicate (length disasm.initial_ctx) 0) at) end_pos in
      show_parts state (record { final_str = []; runs = []; is_mnemonic = true }) prototype.parts

  unfoldable pub disasm_display : ℕ → MemReader → ℕ → Outcome DisasmDispInstruction
  unfolding disasm_proto get_proto_display
  disasm_display fuel mem at = do
    prototype ← disasm_proto disasm depth fuel mem at
    shown ← get_proto_display mem at (add64 at prototype.length) prototype
    ok (record { addr = at; len = prototype.length; text = shown.final_str; runs = shown.runs })
