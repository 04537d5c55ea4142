-- ===== src/Examples/Decoder.antt =====
-- A decoder with one instruction.
use mizl_h_public.Base.{◌≡◌, ◌≢◌, ◌≤◌, refl, false, List, [], ◌∷◌, none, arith, minus_one32, ok}
use mizl_h_public.MemView.Static.{StaticMemView, static_reader}
use mizl_h_public.Sleigh.Decision.{
  Decision, decision, no_decisions, onto, DecisionPair, instruction_pattern,
}
use mizl_h_public.Sleigh.Constructor.{Constructor, literal}
use mizl_h_public.Sleigh.Symbol.{Symbol, subtable_sym}
use mizl_h_public.Sleigh.File.{Sleigh}
use mizl_h_public.Sleigh.State.{DisasmState, new_state}
use mizl_h_public.Sleigh.Disasm
use mizl_h_public.Sleigh.Disasm.{DisasmDispInstruction, DisasmStackItem, mnemonic}
use mizl_h_public.Sleigh.Disasm.Resolve.{walk, out_of_bounds, resolve_ctor}
use mizl_h_public.Sleigh.Disasm.Resolve.Safety
use mizl_h_public.Sleigh.Disasm.Resolve.Safety.{at_leaf, at_node, no_more, and_more}
use mizl_h_public.Sleigh.Disasm.Resolve.Straddle
use mizl_h_public.Sleigh.Disasm.Resolve.First
use mizl_h_public.Sleigh.Disasm.Resolve.First.{Resolved}
use mizl_h_public.Sleigh.Disasm.Proto.{instruction_name}
use mizl_h_public.Sleigh.Disasm.Proto.Step.{Progress, pop_item, round}
use mizl_h_public.Sleigh.Disasm.Proto.Reached
use mizl_h_public.Sleigh.Disasm.Proto.Reached.{at_first, by_round}
use mizl_h_public.Sleigh.Disasm.Display.{disasm_display}
use mizl_h_public.Sleigh.Disasm.Display.Runs
use mizl_h_public.Sleigh.Disasm.Display.Runs.{Covers}

-- A tree that looks at the first bit.
abbrev tree_leaf : Decision
tree_leaf = decision false 0 0 no_decisions []

abbrev tree : Decision
tree = decision false 0 1 (onto tree_leaf (onto tree_leaf no_decisions)) []

abbrev memory : StaticMemView
memory = record { bytes = 144 ∷ 0 ∷ 0 ∷ 0 ∷ 0 ∷ 0 ∷ 0 ∷ 0 ∷ [] }

abbrev state : DisasmState
unfolding static_reader
state = new_state (static_reader memory) (0 ∷ []) 0

walk-in_bounds_example : walk state tree (0 ∷ []) ≢ ok out_of_bounds
walk-in_bounds_example = Safety.walk-in_bounds state tree 0 (
    at_node (omega arith, omega arith, omega arith) refl
      (and_more at_leaf (and_more at_leaf no_more)))

walk-straddling_example :
    walk state (decision false 28 8 no_decisions []) (0 ∷ []) ≡ ok out_of_bounds
walk-straddling_example =
    Straddle.walk-straddling 28 8 (omega arith) (omega arith) (omega arith) state no_decisions [] 0

-- A decoder with one instruction of one byte, `nop`.
abbrev nop : Constructor
nop = record {
  parent = 0;
  first = 0;
  min_length = 1;
  source = 0;
  line = 0;
  operand_ids = [];
  print_elements = literal (110 ∷ 111 ∷ 112 ∷ []) ∷ [];
  context_ops = [];
  template = none;
}

abbrev any_pair : DecisionPair
any_pair = record {
  ctor_id = 0;
  pattern = record {
    pat_type = instruction_pattern;
    pat_blocks = (record { offset = 0; non_zero = 0; mask_value_pairs = [] }) ∷ [];
  };
}

abbrev pub instruction : Symbol
instruction = record {
  name = instruction_name;
  id = 0;
  scope = 0;
  inner =
      subtable_sym
        (record { ctors = nop ∷ []; decision = decision false 0 0 no_decisions (any_pair ∷ []) });
}

abbrev pub nop_sleigh : Sleigh
nop_sleigh = record {
  version = 4;
  big_endian = false;
  align = 1;
  uniq_base = 0;
  max_delay = 0;
  uniq_mask = 0;
  num_sections = 0;
  source_files = [];
  default_space = [];
  spaces = [];
  symbol_table = record {
    scopes = (record { id = 0; parent = 0; lookup = (instruction_name, 0) ∷ [] }) ∷ [];
    symbols = instruction ∷ [];
  };
}

abbrev decoder : Disasm.Disasm
decoder = record { sleigh = nop_sleigh; initial_ctx = 0 ∷ [] }

abbrev displayed : DisasmDispInstruction
displayed = record {
  addr = 0;
  len = 1;
  text = 110 ∷ 111 ∷ 112 ∷ [];
  runs = (record { length = 3; run_type = mnemonic }) ∷ [];
}

nop_displayed : disasm_display decoder 1 5 (static_reader memory) 0 ≡ ok displayed
unfolding disasm_display static_reader
nop_displayed = refl

disasm_display-Covers_example : Covers displayed.runs displayed.text
disasm_display-Covers_example =
    Runs.disasm_display-Covers decoder 1 5 (static_reader memory) 0 displayed nop_displayed

nop_resolved : resolve_ctor state (decision false 0 0 no_decisions (any_pair ∷ [])) 0 ≡ ok 0
unfolding resolve_ctor static_reader
nop_resolved = refl

resolve_ctor-first_example : Resolved state 0 (decision false 0 0 no_decisions (any_pair ∷ [])) 0
resolve_ctor-first_example =
    First.resolve_ctor-first state 0 (decision false 0 0 no_decisions (any_pair ∷ [])) 0
      nop_resolved

-- The loop of the decoder, with an item for `nop`, and behind its first round.
abbrev nop_item : DisasmStackItem
nop_item = record {
  ctor = nop;
  print_elem_idx = 0;
  last_operand_idx = minus_one32;
  op_offsets = [];
  read_position = 0;
  subsym_id = 0;
  ctor_idx = 0;
}

abbrev nop_printed : DisasmStackItem
nop_printed = record nop_item { print_elem_idx = 1 }

abbrev nop_start : Progress
nop_start = record { state = state; stack = nop_item ∷ []; proto_parts = []; end_pos = 1 }

abbrev nop_next : Progress
nop_next = record nop_start {
  stack = nop_printed ∷ [];
  proto_parts = Disasm.literal (110 ∷ 111 ∷ 112 ∷ []) ∷ [];
}

nop_round : round decoder 1 0 nop_start ≡ ok nop_next
unfolding round
nop_round = refl

Reached-pop_item_example : (1 ≤ 1) × (below : List DisasmStackItem) × (pop_item 0 1 [] ≡ ok below)
Reached-pop_item_example =
    Reached.Reached-pop_item decoder 1 0 nop_start nop_next nop_item nop_printed [] refl refl
      (by_round at_first nop_round) refl
