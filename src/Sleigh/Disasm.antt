-- ===== src/Sleigh/Disasm.antt =====
-- The decoder: mizl_core/src/sleigh/disasm.rs. The data that its parts share.
pub mod Operand
pub mod Resolve
pub mod Proto
pub mod Display
use mizl_h_public.Base.{ℕ, List}
use mizl_h_public.Sleigh.Constructor.{Constructor}
use mizl_h_public.Sleigh.Expression.{Expression}
use mizl_h_public.Sleigh.Symbol.{Symbol}
use mizl_h_public.Sleigh.File.{Sleigh}

pub record Disasm : Type 0 where
  pub sleigh : Sleigh
  pub initial_ctx : List ℕ

pub record DisasmStackItem : Type 0 where
  pub ctor : Constructor
  pub print_elem_idx : ℕ
  pub last_operand_idx : ℕ
  pub op_offsets : List ℕ
  pub read_position : ℕ
  pub subsym_id : ℕ
  pub ctor_idx : ℕ

pub record DisasmOperandStackItem : Type 0 where
  pub read_position : ℕ
  pub subsym_id : ℕ
  pub ctor_idx : ℕ
  pub operand_ids : List ℕ

abbrev pub from_stack_item : DisasmStackItem → DisasmOperandStackItem
from_stack_item stack_item = record {
  read_position = stack_item.read_position;
  subsym_id = stack_item.subsym_id;
  ctor_idx = stack_item.ctor_idx;
  operand_ids = stack_item.ctor.operand_ids;
}

pub record DisasmProtoExpression : Type 0 where
  pub saved_ctx : List ℕ
  pub saved_stack : DisasmOperandStackItem
  pub expression : Expression
  pub offset : ℕ

pub record DisasmProtoSubsym : Type 0 where
  pub saved_ctx : List ℕ
  pub saved_stack : DisasmOperandStackItem
  pub symbol : Symbol
  pub offset : ℕ

pub data DisasmProtoPart : Type 0 where
  literal : List ℕ → DisasmProtoPart
  symbol_info : DisasmProtoSubsym → DisasmProtoPart
  expression_info : DisasmProtoExpression → DisasmProtoPart

pub record DisasmPrototype : Type 0 where
  pub parts : List DisasmProtoPart
  pub length : ℕ

pub data DisasmDispInstructionRunType : Type 0 where
  normal mnemonic register number : DisasmDispInstructionRunType

pub record DisasmDispInstructionRun : Type 0 where
  pub length : ℕ
  pub run_type : DisasmDispInstructionRunType

pub record DisasmDispInstruction : Type 0 where
  pub addr : ℕ
  pub len : ℕ
  pub text : List ℕ
  pub runs : List DisasmDispInstructionRun

abbrev pub symbols_of : Disasm → List Symbol
symbols_of disasm = disasm.sleigh.symbol_table.symbols
