-- ===== src/Gbf/Tables.antt =====
-- The list of tables: mizl_core/src/database/gbf_tables.rs. The text in a column is bytes, and a
-- semicolon is one byte of them. The hash map is an association list.
pub mod Laws
pub mod Defined
use mizl_h_public.Base.{
  ℕ, zero, suc, ◌+◌, ◌%◌, Bool, true, false, List, [], ◌∷◌, ◌++◌, Option, none, some, length, take,
  drop, le_i32, ◌==◌, if◌then◌else◌, minus_one32, u32_mod, Outcome, ok, err, no_fuel, generic,
  ◌>>=◌, not,
}
use mizl_h_public.Gbf.Record.{
  GbfFieldKind, byte, int, long, string, bytes, from_u8, GbfExtensionKind, sparse_field_list,
  extension_from_u8, GbfRecord, get_string, get_int, get_byte, get_bytes,
}
use mizl_h_public.Gbf.Schema.{GbfTableSchema, new_schema, add_column, bytes_eq, contains}
use mizl_h_public.Gbf.File.{GbfTableDef, table_def, GbfTableDefs, no_defs, and_def, GbfFile}
use mizl_h_public.Gbf.TableView.{GbfTableView, TableIterator, new_iterator, next}

abbrev pub table_name_idx : ℕ
table_name_idx = 0

abbrev pub root_buffer_id_idx : ℕ
root_buffer_id_idx = 2

abbrev pub key_type_idx : ℕ
key_type_idx = 3

abbrev pub field_types_idx : ℕ
field_types_idx = 4

abbrev pub field_names_idx : ℕ
field_names_idx = 5

abbrev pub index_column_idx : ℕ
index_column_idx = 6

abbrev pub field_extension_indicator : ℕ
field_extension_indicator = 0xff

abbrev pub semicolon : ℕ
semicolon = 59

-- The names are those of the source, in ASCII.
unfoldable pub make_schema : GbfTableSchema
unfolding new_schema add_column
make_schema =
    let s0 =
      new_schema (77 ∷ 97 ∷ 115 ∷ 116 ∷ 101 ∷ 114 ∷ 32 ∷ 116 ∷ 97 ∷ 98 ∷ 108 ∷ 101 ∷ [])
        (84 ∷ 97 ∷ 98 ∷ 108 ∷ 101 ∷ 78 ∷ 117 ∷ 109 ∷ []) long none in
    let s1 = add_column s0 string (84 ∷ 97 ∷ 98 ∷ 108 ∷ 101 ∷ 78 ∷ 97 ∷ 109 ∷ 101 ∷ []) in
    let s2 =
      add_column s1 int
        (83 ∷ 99 ∷ 104 ∷ 101 ∷ 109 ∷ 97 ∷ 86 ∷ 101 ∷ 114 ∷ 115 ∷ 105 ∷ 111 ∷ 110 ∷ []) in
    let s3 =
      add_column s2 int (82 ∷ 111 ∷ 111 ∷ 116 ∷ 66 ∷ 117 ∷ 102 ∷ 102 ∷ 101 ∷ 114 ∷ 73 ∷ 100 ∷ []) in
    let s4 = add_column s3 byte (75 ∷ 101 ∷ 121 ∷ 84 ∷ 121 ∷ 112 ∷ 101 ∷ []) in
    let s5 = add_column s4 bytes (70 ∷ 105 ∷ 101 ∷ 108 ∷ 100 ∷ 84 ∷ 121 ∷ 112 ∷ 101 ∷ 115 ∷ []) in
    let s6 = add_column s5 string (70 ∷ 105 ∷ 101 ∷ 108 ∷ 100 ∷ 78 ∷ 97 ∷ 109 ∷ 101 ∷ 115 ∷ []) in
    let s7 =
      add_column s6 int (73 ∷ 110 ∷ 100 ∷ 101 ∷ 120 ∷ 67 ∷ 111 ∷ 108 ∷ 117 ∷ 109 ∷ 110 ∷ []) in
    let s8 = add_column s7 long (77 ∷ 97 ∷ 120 ∷ 75 ∷ 101 ∷ 121 ∷ []) in
    add_column s8 int (82 ∷ 101 ∷ 99 ∷ 111 ∷ 114 ∷ 100 ∷ 67 ∷ 111 ∷ 117 ∷ 110 ∷ 116 ∷ [])

-- `find(';')`
unfoldable pub find_semicolon : List ℕ → Option ℕ
find_semicolon [] = none
find_semicolon (b ∷ bs) =
    if b == semicolon
    then some 0
    else elim (find_semicolon bs) [ none ↦ none | some i ↦ some (suc i) ]

-- `strip_suffix(';')`, or the text itself
unfoldable pub strip_semicolon : List ℕ → List ℕ
strip_semicolon [] = []
strip_semicolon (b ∷ []) = if b == semicolon then [] else b ∷ []
strip_semicolon (b ∷ c ∷ bs) = b ∷ strip_semicolon (c ∷ bs)

-- The name of the key, and the names of the other columns in one text.
unfoldable pub split_key : List ℕ → List ℕ × List ℕ
unfolding find_semicolon strip_semicolon
split_key names = elim (find_semicolon names) [
  | some pos ↦ (take pos names, strip_semicolon (drop (pos + 1) names))
  | none ↦ (75 ∷ 101 ∷ 121 ∷ [], [])
]

abbrev pub onto_first : ℕ → List (List ℕ) → List (List ℕ)
onto_first b [] = (b ∷ []) ∷ []
onto_first b (w ∷ ws) = (b ∷ w) ∷ ws

-- `split(';')`
unfoldable pub split_names : List ℕ → List (List ℕ)
split_names [] = [] ∷ []
split_names (b ∷ bs) = if b == semicolon then [] ∷ split_names bs else onto_first b (split_names bs)

-- No text has no names, where `split` would answer one.
unfoldable pub field_names_of : List ℕ → List (List ℕ)
unfolding split_names
field_names_of [] = []
field_names_of (b ∷ bs) = split_names (b ∷ bs)

-- `field_index` into the buffer is what is left of the buffer. The kinds end behind an extension
-- indicator, or with the buffer.
unfoldable pub read_kinds : List ℕ → Outcome (List GbfFieldKind × List ℕ)
unfolding from_u8
read_kinds [] = ok ([], [])
read_kinds (field_type ∷ buf) =
    let rest = (do
      kind ← elim (from_u8 field_type) [
        | none ↦ err (generic "read invalid field kind" [])
        | some k ↦ ok k
      ]
      (kinds, left) ← read_kinds buf
      ok (kind ∷ kinds, left)) in
    if field_type == field_extension_indicator then ok ([], buf) else rest

-- A set is the list of its members.
abbrev pub insert_column : ℕ → List ℕ → List ℕ
unfolding contains
insert_column i columns = if contains i columns then columns else i ∷ columns

-- The list ends before an extension indicator, or with the buffer.
unfoldable pub parse_sparse_field_list : ℕ → List ℕ → List ℕ → Outcome (List ℕ × List ℕ)
unfolding insert_column
parse_sparse_field_list field_count columns [] = ok (columns, [])
parse_sparse_field_list field_count columns (column_idx ∷ buf) =
    let rest = parse_sparse_field_list field_count (insert_column column_idx columns) buf in
    if column_idx == field_extension_indicator
    then ok (columns, column_idx ∷ buf)
    else if le_i32 (field_count % u32_mod) column_idx
    then err (generic "sparse field `column_idx` was larger than field count" [])
    else rest

-- `while field_index < field_types_buf.len() { .. }`: each round takes a byte at least.
unfoldable pub read_extensions : ℕ → ℕ → Option (List ℕ) → List ℕ → Outcome (Option (List ℕ))
unfolding extension_from_u8 parse_sparse_field_list
read_extensions zero field_count sparse buf = no_fuel
read_extensions (suc fuel) field_count sparse [] = ok sparse
read_extensions (suc fuel) field_count sparse (extension_type ∷ buf) =
    elim (extension_from_u8 extension_type) [
      | none ↦ err (generic "read invalid extension kind" [])
      | some sparse_field_list ↦
          parse_sparse_field_list field_count [] buf >>= λ (r : List ℕ × List ℕ).
          read_extensions fuel field_count (some r.0) r.1
    ]

-- The columns of `zip`.
unfoldable pub add_columns : GbfTableSchema → List GbfFieldKind → List (List ℕ) → GbfTableSchema
unfolding add_column
add_columns schema [] names = schema
add_columns schema (kind ∷ kinds) [] = schema
add_columns schema (kind ∷ kinds) (name ∷ names) =
    add_columns (add_column schema kind name) kinds names

-- The schema that a row of the master table describes.
unfoldable pub read_schema : GbfRecord → List ℕ → ℕ → List ℕ → List ℕ → Outcome GbfTableSchema
unfolding from_u8 split_key read_kinds read_extensions field_names_of add_columns new_schema
read_schema item name key_type field_types_buf field_names_str = do
  let (key_name, names_str) = split_key field_names_str
  key_kind ← elim (from_u8 key_type) [
    | none ↦ err (generic "read invalid key kind" [])
    | some k ↦ ok k
  ]
  (field_kinds, buf) ← read_kinds field_types_buf
  sparse_columns ← read_extensions (length buf + 1) (length field_kinds) none buf
  let field_names = field_names_of names_str
  if length field_kinds == length field_names
      then ok
          (add_columns (new_schema name key_name key_kind sparse_columns) field_kinds field_names)
      else err (
          generic "field kinds and field names length mismatch ({} != {})"
            (length field_kinds ∷ length field_names ∷ []))

-- `index_table_defs.push(..)`
unfoldable pub push_def : GbfTableDef → GbfTableDefs → GbfTableDefs
push_def d no_defs = and_def d no_defs
push_def d (and_def e es) = and_def e (push_def d es)

abbrev pub push_index : GbfTableDef → GbfTableDef → GbfTableDef
unfolding push_def
push_index d (table_def schema root_nid defs) = table_def schema root_nid (push_def d defs)

abbrev pub Tables : Type 0
Tables = List (List ℕ × GbfTableDef)

unfoldable pub find_table : List ℕ → Tables → Option GbfTableDef
unfolding bytes_eq
find_table name [] = none
find_table name ((n, d) ∷ tables) = if bytes_eq n name then some d else find_table name tables

-- `table_defs.get_mut(..)` and the push.
unfoldable pub push_at : List ℕ → GbfTableDef → Tables → Tables
unfolding bytes_eq push_index
push_at name d [] = []
push_at name d ((n, e) ∷ tables) =
    if bytes_eq n name then (n, push_index d e) ∷ tables else (n, e) ∷ push_at name d tables

-- An index table comes behind its base table, under the same name.
unfoldable pub define_found :
    Tables → List ℕ → ℕ → GbfTableDef → Option GbfTableDef → Outcome Tables
unfolding push_at
define_found tables name indexing_column d (some base) =
    if indexing_column == minus_one32
    then err (generic "base table was not first" [])
    else ok (push_at name d tables)
define_found tables name indexing_column d none =
    if indexing_column == minus_one32
    then ok ((name, d) ∷ tables)
    else err (generic "base table was not first" [])

unfoldable pub define_table : Tables → List ℕ → ℕ → GbfTableDef → Outcome Tables
unfolding find_table define_found
define_table tables name indexing_column d =
    define_found tables name indexing_column d (find_table name tables)

-- `for item in tv_iter { .. }`: what a row adds.
unfoldable pub add_table : Tables → GbfRecord → Outcome Tables
unfolding get_string get_int get_byte get_bytes read_schema define_table
add_table tables item = do
  name ← get_string item table_name_idx
  root_buffer_id ← get_int item root_buffer_id_idx
  indexing_column ← get_int item index_column_idx
  key_type ← get_byte item key_type_idx
  field_types_buf ← get_bytes item field_types_idx
  field_names_str ← get_string item field_names_idx
  schema ← read_schema item name key_type field_types_buf field_names_str
  define_table tables name indexing_column (table_def schema root_buffer_id no_defs)

unfoldable pub add_tables : ℕ → GbfTableView → Tables → TableIterator → Outcome Tables
unfolding next add_table
add_tables zero tv tables it = no_fuel
add_tables (suc rounds) tv tables it = next (suc rounds) tv it >>= λ r. elim r [
  | none ↦ ok tables
  | some (it', item) ↦ add_table tables item >>= λ tables'. add_tables rounds tv tables' it'
]

-- The least `i64` is the key to start from. The fuel bounds the walk and the rows.
unfoldable pub new_tables : ℕ → GbfFile → ℕ → Outcome Tables
unfolding make_schema new_iterator add_tables
new_tables fuel gbf root_nid = do
  let tv : GbfTableView = record { gbf = gbf; schema = make_schema; root_nid = root_nid }
  it ← new_iterator fuel tv 0x8000_0000_0000_0000
  add_tables fuel tv [] it
