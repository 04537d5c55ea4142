-- ===== src/Gbf/File.antt =====
-- The database file: its blocks and buffers, from mizl_core/src/database/gbf.rs, its parameters,
-- from gbf_db_parms.rs, and the definitions of its tables, from gbf_tables.rs.
pub mod NodeKind
pub mod Blocks
use mizl_h_public.Base.{
  ℕ, zero, suc, ◌+◌, ◌-◌, List, [], ◌∷◌, ltb, ◌==◌, if◌then◌else◌, add64, sub64, mul64, add32,
  sub32, lt_i32, div_i32, i32_as_u64, Outcome, ok, err, ◌>>=◌, generic,
}
use mizl_h_public.MemView.Codec.{big_endian}
use mizl_h_public.MemView.Trait.{MemReader, read_u8, read_i32}
use mizl_h_public.Gbf.Schema.{GbfTableSchema}

-- A table's definition has those of its index tables in it.
mutual
  pub data GbfTableDef : Type 0 where
    table_def : GbfTableSchema → ℕ → GbfTableDefs → GbfTableDef

  pub data GbfTableDefs : Type 0 where
    no_defs : GbfTableDefs
    and_def : GbfTableDef → GbfTableDefs → GbfTableDefs

pub record GbfDbParms : Type 0 where
  pub node_code : ℕ
  pub data_len : ℕ
  pub version : ℕ
  pub values : List ℕ

pub record GbfFile : Type 0 where
  pub magic : ℕ
  pub file_id : ℕ
  pub format_version : ℕ
  pub block_size : ℕ
  pub block_count : ℕ
  pub first_free_buffer_idx : ℕ
  pub db_parms : GbfDbParms
  pub tables : List (List ℕ × GbfTableDef)
  pub mv : MemReader

abbrev pub block_prefix_size : ℕ
block_prefix_size = 5

unfoldable pub get_block_address_static : ℕ → ℕ → ℕ
get_block_address_static block_id block_size =
    mul64 (i32_as_u64 (add32 block_id 1)) (i32_as_u64 block_size)

unfoldable pub get_buffer_address_static : ℕ → ℕ → ℕ
unfolding get_block_address_static
get_buffer_address_static block_id block_size =
    add64 (get_block_address_static block_id block_size) block_prefix_size

unfoldable pub get_block_address : GbfFile → ℕ → ℕ
unfolding get_block_address_static
get_block_address gbf block_id = get_block_address_static block_id gbf.block_size

unfoldable pub get_buffer_address : GbfFile → ℕ → ℕ
unfolding get_buffer_address_static
get_buffer_address gbf block_id = get_buffer_address_static block_id gbf.block_size

unfoldable pub get_buffer_size : GbfFile → ℕ
get_buffer_size gbf = sub64 (i32_as_u64 gbf.block_size) block_prefix_size

unfoldable pub read_block_kind_static : MemReader → ℕ → ℕ → Outcome ℕ
unfolding get_buffer_address_static read_u8
read_block_kind_static mv block_id block_size = do
  (at, kind) ← read_u8 mv (get_buffer_address_static block_id block_size)
  ok kind

unfoldable pub read_block_kind : GbfFile → ℕ → Outcome ℕ
unfolding read_block_kind_static
read_block_kind gbf block_id = read_block_kind_static gbf.mv block_id gbf.block_size

unfoldable pub read_block_kind_and_addr : GbfFile → ℕ → Outcome (ℕ × ℕ)
unfolding get_buffer_address read_u8
read_block_kind_and_addr gbf block_id = do
  (at, kind) ← read_u8 gbf.mv (get_buffer_address gbf block_id)
  ok (kind, at)

module _ (mv : MemReader) where
  -- `values_count` reads of an `i32`.
  unfoldable pub read_i32s : ℕ → ℕ → Outcome (ℕ × List ℕ)
  unfolding read_i32
  read_i32s zero at = ok (at, [])
  read_i32s (suc n) at = do
    (at', v) ← read_i32 mv at big_endian
    (at'', vs) ← read_i32s n at'
    ok (at'', v ∷ vs)

  unfoldable pub read_db_parms : ℕ → Outcome (ℕ × GbfDbParms)
  unfolding read_u8 read_i32 read_i32s
  read_db_parms at = do
    (at1, node_code) ← read_u8 mv at
    (at2, data_len) ← read_i32 mv at1 big_endian
    (at3, version) ← read_u8 mv at2
    let values_count = div_i32 (sub32 data_len 1) 4
    (at4, values) ←
        (if lt_i32 values_count 3
          then err (generic "expected at least 3 db parms" [])
          else read_i32s values_count at3)
    ok (
      at4,
      record { node_code = node_code; data_len = data_len; version = version; values = values },
    )
