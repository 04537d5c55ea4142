-- ===== src/Sleigh/Disasm/Display/Runs.antt =====
-- The runs of the text of an instruction.
use mathlib.Core.Path.{subst}
use mizl_h_public.Base.{
  ℕ, ◌+◌, ◌%◌, ◌≡◌, refl, true, false, if◌then◌else◌, List, [], ◌∷◌, ◌++◌, length, length-append,
  replicate, arith, u32_mod, add64, ok, IfOk, value, IfOk->>=, IfOk-ok, IfOk-any,
}
use mizl_h_public.MemView.Trait.{MemReader}
use mizl_h_public.Sleigh.State.{DisasmState, new_state, set_end_ins}
use mizl_h_public.Sleigh.Disasm
use mizl_h_public.Sleigh.Disasm.{
  DisasmProtoPart, literal, symbol_info, expression_info, DisasmPrototype,
  DisasmDispInstructionRunType, number, DisasmDispInstructionRun, DisasmDispInstruction,
}
use mizl_h_public.Sleigh.Disasm.Proto.{disasm_proto}
use mizl_h_public.Sleigh.Disasm.Display.{
  Shown, has_space, add_run, show_literal, get_exp_string, symbol_text, show_part, show_parts,
  get_proto_display, disasm_display,
}

-- The lengths of the runs, added up.
abbrev pub total : List DisasmDispInstructionRun → ℕ
total [] = 0
total (run ∷ runs) = run.length + total runs

total-append :
    (runs more : List DisasmDispInstructionRun) → total (runs ++ more) ≡ total runs + total more
total-append [] more = omega arith
total-append (run ∷ runs) more = omega (arith, total-append runs more)

-- The runs cover the text; the code counts in a `u32`.
abbrev pub Covers : List DisasmDispInstructionRun → List ℕ → Type 0
Covers runs text = total runs % u32_mod ≡ length text % u32_mod

covered :
    (a b n : ℕ) → a % u32_mod ≡ b % u32_mod → (a + (n % u32_mod + 0)) % u32_mod ≡ (b + n) % u32_mod
covered a b n h = omega (arith, h)

add_run-Covers :
    (s : Shown) (text : List ℕ) (run_type : DisasmDispInstructionRunType)
    → Covers s.runs s.final_str
    → Covers (add_run s text run_type).runs (add_run s text run_type).final_str
unfolding add_run
add_run-Covers s text run_type h =
    rw
      (
        total-append s.runs (record { length = length text % u32_mod; run_type = run_type } ∷ []),
        length-append s.final_str text,
      )
      (covered (total s.runs) (length s.final_str) (length text) h)

abbrev IsCovered : Shown → Type 0
IsCovered s = Covers s.runs s.final_str

module _ (disasm : Disasm.Disasm) (depth : ℕ) where
  show_part-IsCovered :
      (state : DisasmState) (s : Shown) (part : DisasmProtoPart)
      → IsCovered s
      → IfOk IsCovered (show_part disasm depth state s part)
  unfolding show_part show_literal
  show_part-IsCovered state s (literal v) h = value (
      add_run-Covers (record s { is_mnemonic = if has_space v then false else s.is_mnemonic }) v _
        h)
  show_part-IsCovered state s (expression_info info) h =
      IfOk->>=
        (IfOk-any (
          get_exp_string disasm depth (record state { ctx = info.saved_ctx }) info.saved_stack
            info.offset info.expression))
        λ v t. value (add_run-Covers s v number h)
  show_part-IsCovered state s (symbol_info info) h =
      IfOk->>=
        (IfOk-any (
          symbol_text disasm depth (record state { ctx = info.saved_ctx }) info.saved_stack
            info.offset info.symbol))
        λ (v, k) t. value (add_run-Covers s v k h)

  show_parts-IsCovered :
      (state : DisasmState) (s : Shown) (parts : List DisasmProtoPart)
      → IsCovered s
      → IfOk IsCovered (show_parts disasm depth state s parts)
  unfolding show_parts
  show_parts-IsCovered state s [] h = value h
  show_parts-IsCovered state s (part ∷ parts) h =
      IfOk->>= (show_part-IsCovered state s part h) λ s' k. show_parts-IsCovered state s' parts k

  abbrev nothing_shown : Shown
  nothing_shown = record { final_str = []; runs = []; is_mnemonic = true }

  get_proto_display-IsCovered :
      (mem : MemReader) (start end : ℕ) (proto : DisasmPrototype)
      → IfOk IsCovered (get_proto_display disasm depth mem start end proto)
  unfolding get_proto_display
  get_proto_display-IsCovered mem start end proto =
      show_parts-IsCovered
        (set_end_ins (new_state mem (replicate (length disasm.initial_ctx) 0) start) end)
        nothing_shown proto.parts refl

  -- The runs of an instruction that is displayed cover its text: their lengths add up to the
  -- length of the text, as `u32` numbers.
  pub disasm_display-Covers :
      (fuel : ℕ) (mem : MemReader) (at : ℕ) (ins : DisasmDispInstruction)
      → disasm_display disasm depth fuel mem at ≡ ok ins
      → Covers ins.runs ins.text
  unfolding disasm_display
  disasm_display-Covers fuel mem at ins e = IfOk-ok (
      subst (IfOk (λ (i : DisasmDispInstruction). Covers i.runs i.text)) e (
        IfOk->>= (IfOk-any (disasm_proto disasm depth fuel mem at)) λ p t.
          IfOk->>=
            {next = λ s. ok record { addr = at; len = p.length; text = s.final_str; runs = s.runs }}
            (get_proto_display-IsCovered mem at (add64 at p.length) p) λ s h. value h))
