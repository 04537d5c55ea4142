-- ===== src/Examples.antt =====
-- A small database file, and the nodes, schemas and views in it, for the tests of the other
-- components.
pub mod Memory
pub mod Breakpoints
pub mod Nodes
pub mod Database
pub mod Tables
pub mod Packets
pub mod Packed
pub mod Decoder
pub mod Context
pub mod Fields
use mizl_h_public.Base.{
  ℕ, zero, suc, ◌+◌, ◌-◌, List, [], ◌∷◌, ◌++◌, Option, none, some, length, replicate, false,
}
use mizl_h_public.MemView.Codec.{to_be_bytes}
use mizl_h_public.MemView.Trait.{MemReader}
use mizl_h_public.MemView.Static.{StaticMemView, static_reader}
use mizl_h_public.Gbf.Record.{GbfFieldKind, byte, long, GbfRecord, byte_value, long_value}
use mizl_h_public.Gbf.Schema.{GbfTableSchema}
use mizl_h_public.Gbf.File.{GbfFile}
use mizl_h_public.Gbf.Node.Interior.{GbfLongInteriorNode}
use mizl_h_public.Gbf.Node.Fixed.{GbfLongFixedNode}
use mizl_h_public.Gbf.Node.Var.{GbfLongVarNode}

abbrev pub be : ℕ → ℕ → List ℕ
unfolding to_be_bytes
be n v = to_be_bytes n v

-- A block of 64 bytes: its prefix, its contents, and zeros.
abbrev pub block : List ℕ → List ℕ
block xs = replicate 5 0 ++ (xs ++ replicate (59 - length xs) 0)

-- Block 0 holds a buffer of bytes.
abbrev pub buffer_block : List ℕ
buffer_block = block (9 ∷ be 4 8 ++ (10 ∷ 11 ∷ 12 ∷ 13 ∷ 14 ∷ 15 ∷ 16 ∷ 17 ∷ []))

-- Block 1 is an inner node: the keys 1 and 20 lead to the blocks 2 and 3.
abbrev pub inner_block : List ℕ
inner_block = block (0 ∷ be 4 2 ++ be 8 1 ++ be 4 2 ++ be 8 20 ++ be 4 3)

-- The blocks 2 and 3 are leaves with three and one records of one byte.
abbrev pub leaf_block : List ℕ
leaf_block = block (
    2 ∷ be 4 3
    ++ be 4 0xffff_ffff
    ++ be 4 0xffff_ffff
    ++ (be 8 1 ++ (101 ∷ []))
    ++ (be 8 5 ++ (105 ∷ []))
    ++ (be 8 9 ++ (109 ∷ [])))

abbrev pub single_block : List ℕ
single_block = block (2 ∷ be 4 1 ++ be 4 2 ++ be 4 0xffff_ffff ++ (be 8 20 ++ (120 ∷ [])))

-- Block 4 is a leaf with three records of varying length, block 5 one with a single record.
abbrev pub var_block : List ℕ
var_block = block (
    1 ∷ be 4 3
    ++ be 4 0xffff_ffff
    ++ be 4 0xffff_ffff
    ++ (be 8 1 ++ be 4 58 ++ (0 ∷ []))
    ++ (be 8 5 ++ be 4 57 ++ (0 ∷ []))
    ++ (be 8 9 ++ be 4 56 ++ (0 ∷ [])))

abbrev pub single_var_block : List ℕ
single_var_block =
    block (1 ∷ be 4 1 ++ be 4 0xffff_ffff ++ be 4 0xffff_ffff ++ (be 8 7 ++ be 4 58 ++ (0 ∷ [])))

abbrev pub file_view : StaticMemView
file_view = record {
  bytes =
      replicate 64 0
      ++ buffer_block
      ++ inner_block
      ++ leaf_block
      ++ single_block
      ++ var_block
      ++ single_var_block;
}

abbrev pub file : GbfFile
unfolding static_reader
file = record {
  magic = 0;
  file_id = 0;
  format_version = 1;
  block_size = 64;
  block_count = 6;
  first_free_buffer_idx = 0xffff_ffff;
  db_parms = record { node_code = 9; data_len = 13; version = 1; values = 1 ∷ 0 ∷ 0 ∷ [] };
  tables = [];
  mv = static_reader file_view;
}

abbrev pub schema : GbfTableSchema
schema = record {
  name = 84 ∷ [];
  key_name = 75 ∷ [];
  key_kind = long;
  sparse_columns = none;
  kinds = byte ∷ [];
  names = (66 ∷ []) ∷ [];
}

-- The keys of the leaves with three records.
abbrev pub keys : ℕ → ℕ
keys zero = 1
keys (suc zero) = 5
keys (suc (suc i)) = 9

abbrev pub inner_keys : ℕ → ℕ
inner_keys zero = 1
inner_keys (suc i) = 20

abbrev pub inner_node : GbfLongInteriorNode
inner_node = record { gbf = file; entry_count = 2; start_addr = 133 }

abbrev pub fixed_node : GbfLongFixedNode
fixed_node = record {
  gbf = file;
  entry_count = 3;
  prev_leaf_nid = 0xffff_ffff;
  next_leaf_nid = 0xffff_ffff;
  start_addr = 197;
  value_len = 1;
}

abbrev pub single_fixed_node : GbfLongFixedNode
single_fixed_node = record fixed_node { entry_count = 1; prev_leaf_nid = 2; start_addr = 261 }

abbrev pub var_node : GbfLongVarNode
var_node = record {
  gbf = file;
  entry_count = 3;
  prev_leaf_nid = 0xffff_ffff;
  next_leaf_nid = 0xffff_ffff;
  start_addr = 325;
}

abbrev pub single_var_node : GbfLongVarNode
single_var_node = record var_node { entry_count = 1; start_addr = 389 }
