-- ===== src/Gbf/Open.antt =====
-- The opening of a database file: `GbfFile::new` of mizl_core/src/database/gbf.rs.
use mizl_h_public.Base.{
  ℕ, ◌-◌, ◌/◌, ◌%◌, [], ◌∷◌, none, some, get_elem?, ◌==◌, if◌then◌else◌, not, ◌&&◌, i32_as_u64,
  u32_mod, u64_mod, sub64, Outcome, ok, err, panic, generic, ◌>>=◌,
}
use mizl_h_public.MemView.Codec.{big_endian}
use mizl_h_public.MemView.Trait.{MemReader, read_u64, read_i64, read_i32}
use mizl_h_public.Gbf.File.{
  GbfFile, get_buffer_address_static, read_block_kind_static, read_db_parms,
}
use mizl_h_public.Gbf.File.NodeKind.{chained_buffer_data}
use mizl_h_public.Gbf.Tables.{new_tables}

-- A `%` or `/` by a block size of 0 panics.
abbrev pub block_count_of : ℕ → ℕ → Outcome ℕ
block_count_of mv_size block_size =
    let size = i32_as_u64 block_size in
    if not (mv_size == u64_mod - 1) && size == 0
    then panic
    else if not (mv_size == u64_mod - 1) && not (mv_size % size == 0)
    then err (
        generic "invalid padding for size {} (expected {} bytes of alignment)"
          (mv_size ∷ block_size ∷ []))
    else if size == 0
    then panic
    else ok (sub64 (mv_size / size) 1 % u32_mod)

-- The address behind the file's header is returned with the file.
unfoldable pub open_file : ℕ → MemReader → ℕ → Outcome (ℕ × GbfFile)
unfolding read_u64 read_i64 read_i32 read_block_kind_static get_buffer_address_static read_db_parms
    new_tables
open_file fuel mv at = do
  (at1, magic) ← read_u64 mv at big_endian
  (at2, file_id) ← read_i64 mv at1 big_endian
  (at3, format_version) ← read_i32 mv at2 big_endian
  (at4, block_size) ← read_i32 mv at3 big_endian
  (at5, first_free_buffer_idx) ← read_i32 mv at4 big_endian
  db_parms_kind ← read_block_kind_static mv 0 block_size
  (at_db, db_parms) ←
      (if db_parms_kind == chained_buffer_data
        then read_db_parms mv (get_buffer_address_static 0 block_size)
        else err
            (generic "expected block id {}, found {}" (chained_buffer_data ∷ db_parms_kind ∷ [])))
  mv_size ← mv.max_address
  block_count ← block_count_of mv_size block_size
  let gbf_file : GbfFile = record {
    magic = magic;
    file_id = file_id;
    format_version = format_version;
    block_size = block_size;
    block_count = block_count;
    first_free_buffer_idx = first_free_buffer_idx;
    db_parms = db_parms;
    tables = [];
    mv = mv;
  }
  root_nid ← elim (get_elem? db_parms.values 0) [ none ↦ panic | some v ↦ ok v ]
  tables ← new_tables fuel gbf_file root_nid
  ok (at5, record gbf_file { tables = tables })
