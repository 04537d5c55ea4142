-- ===== src/Examples/Tables.antt =====
-- The records, schemas and table list, and the buffer of the small file.
use mizl_h_public.Base.{
  some, if◌then◌else◌, ℕ, ◌+◌, ◌-◌, ◌<◌, ◌≡◌, refl, List, [], ◌∷◌, some, ok, ◌>>=◌, true, false,
  overwrite, add64, leb, arith, length, Bool-cases, inl, inr, i32_as_u64, ◌&&◌, ◌==◌,
}
use mizl_h_public.MemView.Trait.{decode}
use mizl_h_public.MemView.Codec.{from_be_bytes}
use mizl_h_public.MemView.Static.{static_reader, static_read, StaticMemView}
use mizl_h_public.Gbf.Record.{long_value, byte, int, string, boolean, to_u8, byte_value}
use mizl_h_public.Gbf.Tables.Defined
use mizl_h_public.Gbf.Schema.Columns
use mizl_h_public.Gbf.Schema.{GbfTableSchema, bytes_eq, read_record, get_value_len, contains}
use mizl_h_public.Gbf.Schema.Laws as SchemaLaws
use mizl_h_public.Gbf.File.{GbfTableDef, table_def, no_defs, get_buffer_address}
use mizl_h_public.Gbf.Tables.{
  Tables, find_table, define_table, push_index, read_kinds, parse_sparse_field_list, field_names_of,
  split_key,
}
use mizl_h_public.Gbf.Tables.Laws as TablesLaws
use mizl_h_public.Gbf.Chained.{
  GbfChainedBufMemView, chained_read, new, get_chain_data_prefix_len, get_chain_data_len,
}
use mizl_h_public.Gbf.Chained.Laws as ChainedLaws
use mizl_h_public.Examples.{be, file, file_view, schema}

static_reader-Moves : (s : StaticMemView) → SchemaLaws.Moves (static_reader s)
unfolding SchemaLaws.Moves static_reader static_read
static_reader-Moves s addr count out_data r small h =
    let fits = Bool-cases (leb (length s.bytes) (add64 addr (i32_as_u64 count))) in
    let goes = Bool-cases (
      leb addr (add64 addr (i32_as_u64 count))
      && (length out_data == add64 addr (i32_as_u64 count) - addr)) in
    elim fits [
      | inl e ↦ let f = rw e at h in absurd (cc)
      | inr e ↦ elim goes [
        | inr g ↦ let f = rw (e, g) at h in absurd (cc)
        | inl g ↦
            let f = rw (e, g) at h in
            let same : add64 addr (i32_as_u64 count) ≡ r.0 = cc in ground (arith, same)
      ]
    ]

read_record-get_value_len_example :
    (219 ≡ 218 + get_value_len schema)
    × (length (byte_value 101 ∷ []) ≡ 1)
    × (long_value 1 ≡ long_value 1)
unfolding get_value_len read_record static_reader be
read_record-get_value_len_example =
    SchemaLaws.read_record-get_value_len (static_reader file_view) (static_reader-Moves file_view)
      schema (long_value 1) 218 219 (record { key = long_value 1; values = byte_value 101 ∷ [] })
      refl (omega arith) (omega arith) refl

read_kinds-to_u8_example :
    read_kinds (2 ∷ 4 ∷ 6 ∷ 0xff ∷ 1 ∷ 2 ∷ []) ≡ ok (int ∷ string ∷ boolean ∷ [], 1 ∷ 2 ∷ [])
unfolding to_u8
read_kinds-to_u8_example = TablesLaws.read_kinds-to_u8 (int ∷ string ∷ boolean ∷ []) (1 ∷ 2 ∷ [])

parse_sparse_field_list-Parses_example :
    TablesLaws.Parses 300 (1 ∷ 2 ∷ 0xff ∷ 3 ∷ []) [] (ok (2 ∷ 1 ∷ [], 0xff ∷ 3 ∷ []))
unfolding parse_sparse_field_list contains
parse_sparse_field_list-Parses_example =
    TablesLaws.parse_sparse_field_list-Parses 300 [] (1 ∷ 2 ∷ 0xff ∷ 3 ∷ []) (omega arith) bytes
  where
    bytes : (j : ℕ) → contains j (1 ∷ 2 ∷ 0xff ∷ 3 ∷ []) ≡ true → j < 256
    bytes j h = ground arith

-- `Key;A;B;` is the name of a key and of two columns.
names_split :
    (split_key (75 ∷ 59 ∷ 65 ∷ 59 ∷ 66 ∷ 59 ∷ []) ≡ (75 ∷ [], 65 ∷ 59 ∷ 66 ∷ []))
    × (field_names_of (65 ∷ 59 ∷ 66 ∷ []) ≡ (65 ∷ []) ∷ (66 ∷ []) ∷ [])
unfolding split_key field_names_of
names_split = (refl, refl)

abbrev buffer : GbfChainedBufMemView
buffer = record {
  gbf = file;
  buffer_size = 8;
  obfuscated = false;
  index_map = [];
  buffer_map = 0 ∷ [];
}

opened_buffer : new 1 file 0 ≡ ok buffer
unfolding new file be decode from_be_bytes
opened_buffer = refl

buffer-InOneBuffer : ChainedLaws.InOneBuffer buffer 0 3 2
unfolding file get_chain_data_len
buffer-InOneBuffer = record {
  buffer = refl;
  initialised = omega arith;
  some_byte = omega arith;
  in_view = omega arith;
  in_buffer = omega arith;
  size = omega arith;
  block = omega arith;
}

chained_read-first_bytes_example : chained_read buffer 3 (0 ∷ 0 ∷ []) 2 ≡ (
    file.mv.read_bytes
      (add64 (get_buffer_address file 0) (get_chain_data_prefix_len false))
      (0 ∷ 0 ∷ [])
      2
    >>= λ (r : ℕ × List ℕ). ok (5, overwrite (0 ∷ 0 ∷ []) 0 r.1))
chained_read-first_bytes_example =
    ChainedLaws.chained_read-first_bytes buffer 0 3 2 buffer-InOneBuffer (0 ∷ 0 ∷ []) refl

-- Two tables, and an index table for the first.
abbrev base_def : GbfTableDef
base_def = table_def schema 2 no_defs

abbrev index_def : GbfTableDef
index_def = table_def schema 3 no_defs

abbrev tables : Tables
tables = (66 ∷ [], base_def) ∷ (65 ∷ [], base_def) ∷ []

find_table-define_table_example :
    find_table (65 ∷ []) ((66 ∷ [], base_def) ∷ (65 ∷ [], push_index index_def base_def) ∷ []) ≡ (
      if bytes_eq (65 ∷ []) (65 ∷ [])
      then some (Defined.added index_def (find_table (65 ∷ []) tables))
      else find_table (65 ∷ []) tables)
unfolding define_table bytes_eq
find_table-define_table_example =
    Defined.find_table-define_table tables
      ((66 ∷ [], base_def) ∷ (65 ∷ [], push_index index_def base_def) ∷ []) (65 ∷ []) (65 ∷ []) 4
      index_def refl

-- A table with a sparse column: its first column is at address 0, then the count of the fields
-- that are there, and the index and value of each.
abbrev sparse_schema : GbfTableSchema
sparse_schema = record schema {
  sparse_columns = some (1 ∷ []);
  kinds = byte ∷ byte ∷ [];
  names = (66 ∷ []) ∷ (67 ∷ []) ∷ [];
}

abbrev sparse_bytes : StaticMemView
sparse_bytes = record { bytes = 7 ∷ 1 ∷ 1 ∷ 9 ∷ 0 ∷ [] }

length-read_record_example :
    (length (byte_value 7 ∷ byte_value 9 ∷ []) ≡ 2) × (long_value 3 ≡ long_value 3)
unfolding read_record static_reader
length-read_record_example =
    Columns.length-read_record (static_reader sparse_bytes) sparse_schema (long_value 3) 0 4
      (record { key = long_value 3; values = byte_value 7 ∷ byte_value 9 ∷ [] }) refl
