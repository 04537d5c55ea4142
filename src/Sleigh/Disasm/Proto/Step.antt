-- ===== src/Sleigh/Disasm/Proto/Step.antt =====
-- One round of the loop of `disasm_proto`: a print element of the constructor on top of the stack,
-- or its removal.
use mizl_h_public.Base.{
  ℕ, suc, ◌%◌, List, [], ◌∷◌, ◌++◌, Option, none, some, get_elem?, ◌==◌, if◌then◌else◌, sub64,
  i32_as_u64, u32_mod, minus_one32, Outcome, ok, ◌>>=◌,
}
use mizl_h_public.Sleigh.State.{DisasmState}
use mizl_h_public.Sleigh.Constructor.{ConstructorPrintElement}
use mizl_h_public.Sleigh.Disasm.{Disasm, DisasmStackItem, DisasmProtoPart}
use mizl_h_public.Sleigh.Disasm.Proto.Print.{Printed, print_element, set_at}

-- The variables of the loop; the top of the stack is in front.
pub record Progress : Type 0 where
  pub state : DisasmState
  pub stack : List DisasmStackItem
  pub proto_parts : List DisasmProtoPart
  pub end_pos : ℕ

-- A constructor that is done: the item below learns where the operand ended.
unfoldable pub pop_item : ℕ → ℕ → List DisasmStackItem → Outcome (List DisasmStackItem)
pop_item at end_pos [] = ok []
pop_item at end_pos (prev ∷ below) =
    let offset = sub64 end_pos at % u32_mod in
    let updated : Outcome (List DisasmStackItem) =
      set_at prev.op_offsets (i32_as_u64 prev.last_operand_idx) offset >>= λ op_offsets.
      ok (record prev { op_offsets = op_offsets } ∷ below) in
    if prev.last_operand_idx == minus_one32 then ok (prev ∷ below) else updated

abbrev pub advance : Progress → List DisasmStackItem → Printed × DisasmStackItem → Progress
advance p below (printed, top) = record {
  state = printed.state;
  stack = printed.elem_to_add ++ (record top { print_elem_idx = suc top.print_elem_idx } ∷ below);
  proto_parts = p.proto_parts ++ printed.part;
  end_pos = printed.end_pos;
}

module _ (disasm : Disasm) (depth : ℕ) where
  -- A round for the item on top, by its print element.
  unfoldable pub round_at :
      ℕ
      → Progress
      → DisasmStackItem
      → List DisasmStackItem
      → Option ConstructorPrintElement
      → Outcome Progress
  unfolding pop_item print_element
  round_at at p top below none =
      pop_item at p.end_pos below >>= λ stack. ok (record p { stack = stack })
  round_at at p top below (some element) =
      print_element disasm depth p.state top element at p.end_pos >>= λ r. ok (advance p below r)

  unfoldable pub round_of : ℕ → Progress → List DisasmStackItem → Outcome Progress
  unfolding round_at
  round_of at p [] = ok p
  round_of at p (top ∷ below) =
      round_at at p top below (get_elem? top.ctor.print_elements top.print_elem_idx)

  unfoldable pub round : ℕ → Progress → Outcome Progress
  unfolding round_of
  round at p = round_of at p p.stack
