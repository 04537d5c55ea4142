-- ===== src/Gbf/Schema.antt =====
-- The schema of a table and the reading of a record: mizl_core/src/database/gbf_table_schema.rs.
-- The set of sparse columns is the list of its members.
pub mod Laws
pub mod Columns
use mizl_h_public.Base.{
  ℕ, zero, suc, ◌+◌, ◌-◌, Bool, true, false, not, ◌||◌, ◌&&◌, List, [], ◌∷◌, ◌++◌, Option, none,
  some, length, get_elem?, set, take, drop, ltb, leb, ◌==◌, if◌then◌else◌, add32, lt_i32,
  minus_one32, Outcome, ok, err, panic, ◌>>=◌,
}
use mizl_h_public.MemView.Codec.{big_endian}
use mizl_h_public.MemView.Trait.{MemReader, read_u8, read_i8, read_i16, read_i32, read_i64}
use mizl_h_public.Gbf.Record.{
  GbfFieldKind, byte, short, int, long, string, bytes, boolean, GbfFieldValue, boolean_value,
  byte_value, short_value, int_value, long_value, string_value, bytes_value, GbfRecord, get_len,
}
use mizl_h_public.Gbf.Text.{read_string, read_bytestring}

pub record GbfTableSchema : Type 0 where
  pub name : List ℕ
  pub key_name : List ℕ
  pub key_kind : GbfFieldKind
  pub sparse_columns : Option (List ℕ)
  pub kinds : List GbfFieldKind
  pub names : List (List ℕ)

unfoldable pub new_schema : List ℕ → List ℕ → GbfFieldKind → Option (List ℕ) → GbfTableSchema
new_schema name key_name key_kind sparse_columns = record {
  name = name;
  key_name = key_name;
  key_kind = key_kind;
  sparse_columns = sparse_columns;
  kinds = [];
  names = [];
}

unfoldable pub add_column : GbfTableSchema → GbfFieldKind → List ℕ → GbfTableSchema
add_column s kind name = record s { kinds = s.kinds ++ (kind ∷ []); names = s.names ++ (name ∷ []) }

abbrev pub remove_at {ℓ} : {A : Type ℓ} → ℕ → List A → List A
remove_at i xs = take i xs ++ drop (suc i) xs

-- `Vec::remove` panics out of range.
unfoldable pub remove_column : GbfTableSchema → ℕ → Outcome GbfTableSchema
remove_column s index =
    if ltb index (length s.kinds) && ltb index (length s.names)
    then ok (record s { kinds = remove_at index s.kinds; names = remove_at index s.names })
    else panic

-- The loop of `get_value_len`, which leaves with -1 at a kind of variable length.
unfoldable pub value_len_from : ℕ → List GbfFieldKind → ℕ
unfolding get_len
value_len_from len [] = len
value_len_from len (kind ∷ kinds) =
    if lt_i32 (get_len kind) 0 then minus_one32 else value_len_from (add32 len (get_len kind)) kinds

unfoldable pub get_value_len : GbfTableSchema → ℕ
unfolding value_len_from
get_value_len s = value_len_from 0 s.kinds

unfoldable pub bytes_eq : List ℕ → List ℕ → Bool
bytes_eq [] [] = true
bytes_eq [] (y ∷ ys) = false
bytes_eq (x ∷ xs) [] = false
bytes_eq (x ∷ xs) (y ∷ ys) = x == y && bytes_eq xs ys

unfoldable pub position_from : ℕ → List ℕ → List (List ℕ) → Option ℕ
unfolding bytes_eq
position_from i name [] = none
position_from i name (e ∷ es) = if bytes_eq e name then some i else position_from (suc i) name es

unfoldable pub get_column_idx : GbfTableSchema → List ℕ → Option ℕ
unfolding position_from
get_column_idx s name = position_from 0 name s.names

unfoldable pub default_value : GbfFieldKind → GbfFieldValue
default_value boolean = boolean_value false
default_value byte = byte_value 0
default_value short = short_value 0
default_value int = int_value 0
default_value long = long_value 0
default_value string = string_value []
default_value bytes = bytes_value []

-- A missing string reads as the empty one.
abbrev pub or_empty : Option (List ℕ) → List ℕ
or_empty none = []
or_empty (some v) = v

unfoldable pub contains : ℕ → List ℕ → Bool
contains i [] = false
contains i (x ∷ xs) = x == i || contains i xs

module _ (mv : MemReader) where
  unfoldable pub read_value : GbfFieldKind → ℕ → Outcome (ℕ × GbfFieldValue)
  unfolding read_u8 read_i8 read_i16 read_i32 read_i64 read_string read_bytestring
  read_value boolean at = do (at', v) ← read_u8 mv at; ok (at', boolean_value (not (v == 0)))
  read_value byte at = do (at', v) ← read_i8 mv at; ok (at', byte_value v)
  read_value short at = do (at', v) ← read_i16 mv at big_endian; ok (at', short_value v)
  read_value int at = do (at', v) ← read_i32 mv at big_endian; ok (at', int_value v)
  read_value long at = do (at', v) ← read_i64 mv at big_endian; ok (at', long_value v)
  read_value string at = do (at', v) ← read_string mv at; ok (at', string_value (or_empty v))
  read_value bytes at = do (at', v) ← read_bytestring mv at; ok (at', bytes_value (or_empty v))

  -- The values of a table with no sparse columns.
  unfoldable pub read_values : List GbfFieldKind → ℕ → Outcome (ℕ × List GbfFieldValue)
  unfolding read_value
  read_values [] at = ok (at, [])
  read_values (kind ∷ kinds) at = do
    (at', v) ← read_value kind at
    (at'', vs) ← read_values kinds at'
    ok (at'', v ∷ vs)

  -- The required fields from column `i` on; a sparse column has its default value for now.
  unfoldable pub read_required :
      List ℕ → ℕ → List GbfFieldKind → ℕ → Outcome (ℕ × List GbfFieldValue)
  unfolding read_value default_value contains
  read_required sparse i [] at = ok (at, [])
  read_required sparse i (kind ∷ kinds) at = do
    (at', v) ← (if contains i sparse then ok (at, default_value kind) else read_value kind at)
    (at'', vs) ← read_required sparse (suc i) kinds at'
    ok (at'', v ∷ vs)

  -- A value of the kind at an index, which panics where there is none.
  unfoldable pub read_kind : Option GbfFieldKind → ℕ → Outcome (ℕ × GbfFieldValue)
  unfolding read_value
  read_kind none at = panic
  read_kind (some kind) at = read_value kind at

  -- The optional fields, each behind the index of its column. `kinds[..]` panics out of range, and
  -- there are as many values as kinds.
  unfoldable pub read_optional :
      ℕ → List GbfFieldKind → List GbfFieldValue → ℕ → Outcome (ℕ × List GbfFieldValue)
  unfolding read_u8 read_kind
  read_optional zero kinds values at = ok (at, values)
  read_optional (suc n) kinds values at = do
    (at', idx) ← read_u8 mv at
    (at'', v) ← read_kind (get_elem? kinds idx) at'
    read_optional n kinds (set values idx v) at''

  -- `if let Some(sparse_columns) = &self.sparse_columns { .. } else { .. }`
  unfoldable pub read_columns :
      Option (List ℕ) → List GbfFieldKind → ℕ → Outcome (ℕ × List GbfFieldValue)
  unfolding read_u8 read_values read_required read_optional
  read_columns (some sparse) kinds at = do
    (at1, values) ← read_required sparse 0 kinds at
    (at2, n) ← read_u8 mv at1
    read_optional n kinds values at2
  read_columns none kinds at = read_values kinds at

  unfoldable pub read_record : GbfTableSchema → GbfFieldValue → ℕ → Outcome (ℕ × GbfRecord)
  unfolding read_columns
  read_record s key at = do
    (at', values) ← read_columns s.sparse_columns s.kinds at
    ok (at', record { key = key; values = values })
