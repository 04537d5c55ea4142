-- ===== src/Gbf/Record.antt =====
-- The values and kinds of a record's fields: mizl_core/src/database/gbf_record.rs. A signed field
-- is its bit pattern, a string its UTF-8 bytes.
use Prim.Native.Nat.{bit_and}
use mizl_h_public.Base.{
  ℕ, ◌*◌, ◌%◌, ◌^◌, Bool, not, List, [], Option, none, some, get_elem?, ◌==◌, if◌then◌else◌,
  sign_extend, Outcome, ok, err, generic, ◌>>=◌, minus_one32,
}

pub data GbfFieldKind : Type 0 where
  byte short int long string bytes boolean : GbfFieldKind

abbrev pub of_tag : ℕ → Option GbfFieldKind
of_tag v =
    if v == 6
    then some boolean
    else if v == 0
    then some byte
    else if v == 1
    then some short
    else if v == 2
    then some int
    else if v == 3
    then some long
    else if v == 4
    then some string
    else if v == 5
    then some bytes
    else none

-- `match value & 0xf`
unfoldable pub from_u8 : ℕ → Option GbfFieldKind
from_u8 value = of_tag (bit_and value 0xf)

abbrev pub tag_of : GbfFieldKind → ℕ
tag_of boolean = 6
tag_of byte = 0
tag_of short = 1
tag_of int = 2
tag_of long = 3
tag_of string = 4
tag_of bytes = 5

-- `v << 4` of a `u8`
unfoldable pub to_u8 : GbfFieldKind → Bool → ℕ
to_u8 kind shifted = if not shifted then tag_of kind else (tag_of kind * 16) % 256

-- -1 for the kinds of variable length
unfoldable pub get_len : GbfFieldKind → ℕ
get_len boolean = 1
get_len byte = 1
get_len short = 2
get_len int = 4
get_len long = 8
get_len string = minus_one32
get_len bytes = minus_one32

pub data GbfExtensionKind : Type 0 where
  sparse_field_list : GbfExtensionKind

unfoldable pub extension_from_u8 : ℕ → Option GbfExtensionKind
extension_from_u8 value = if bit_and value 0xf == 1 then some sparse_field_list else none

unfoldable pub extension_to_u8 : GbfExtensionKind → ℕ
extension_to_u8 sparse_field_list = 1

pub data GbfFieldValue : Type 0 where
  boolean_value : Bool → GbfFieldValue
  byte_value : ℕ → GbfFieldValue
  short_value : ℕ → GbfFieldValue
  int_value : ℕ → GbfFieldValue
  long_value : ℕ → GbfFieldValue
  string_value : List ℕ → GbfFieldValue
  bytes_value : List ℕ → GbfFieldValue

pub record GbfRecord : Type 0 where
  pub key : GbfFieldValue
  pub values : List GbfFieldValue

unfoldable pub get_value_or_err : GbfRecord → ℕ → Outcome GbfFieldValue
get_value_or_err r index = elim (get_elem? r.values index) [
  | some v ↦ ok v
  | none ↦ err (generic "out of bounds record access" [])
]

abbrev pub unexpected {ℓ} : {A : Type ℓ} → Outcome A
unexpected = err (generic "unexpected field type" [])

abbrev pub as_boolean : GbfFieldValue → Outcome Bool
as_boolean (boolean_value v) = ok v
as_boolean (byte_value v) = ok (not (v == 0))
as_boolean (short_value v) = ok (not (v == 0))
as_boolean (int_value v) = ok (not (v == 0))
as_boolean (long_value v) = ok (not (v == 0))
as_boolean (string_value v) = unexpected
as_boolean (bytes_value v) = unexpected

-- `as i8`
abbrev pub as_byte : GbfFieldValue → Outcome ℕ
as_byte (byte_value v) = ok v
as_byte (short_value v) = ok (v % 2 ^ 8)
as_byte (int_value v) = ok (v % 2 ^ 8)
as_byte (long_value v) = ok (v % 2 ^ 8)
as_byte (boolean_value v) = unexpected
as_byte (string_value v) = unexpected
as_byte (bytes_value v) = unexpected

-- `as i16`
abbrev pub as_short : GbfFieldValue → Outcome ℕ
as_short (short_value v) = ok v
as_short (byte_value v) = ok (sign_extend 8 16 v)
as_short (int_value v) = ok (v % 2 ^ 16)
as_short (long_value v) = ok (v % 2 ^ 16)
as_short (boolean_value v) = unexpected
as_short (string_value v) = unexpected
as_short (bytes_value v) = unexpected

-- `as i32`
abbrev pub as_int : GbfFieldValue → Outcome ℕ
as_int (int_value v) = ok v
as_int (byte_value v) = ok (sign_extend 8 32 v)
as_int (short_value v) = ok (sign_extend 16 32 v)
as_int (long_value v) = ok (v % 2 ^ 32)
as_int (boolean_value v) = unexpected
as_int (string_value v) = unexpected
as_int (bytes_value v) = unexpected

-- `as i64`
abbrev pub as_long : GbfFieldValue → Outcome ℕ
as_long (long_value v) = ok v
as_long (byte_value v) = ok (sign_extend 8 64 v)
as_long (short_value v) = ok (sign_extend 16 64 v)
as_long (int_value v) = ok (sign_extend 32 64 v)
as_long (boolean_value v) = unexpected
as_long (string_value v) = unexpected
as_long (bytes_value v) = unexpected

abbrev pub as_string : GbfFieldValue → Outcome (List ℕ)
as_string (string_value v) = ok v
as_string (boolean_value v) = unexpected
as_string (byte_value v) = unexpected
as_string (short_value v) = unexpected
as_string (int_value v) = unexpected
as_string (long_value v) = unexpected
as_string (bytes_value v) = unexpected

abbrev pub as_bytes : GbfFieldValue → Outcome (List ℕ)
as_bytes (bytes_value v) = ok v
as_bytes (boolean_value v) = unexpected
as_bytes (byte_value v) = unexpected
as_bytes (short_value v) = unexpected
as_bytes (int_value v) = unexpected
as_bytes (long_value v) = unexpected
as_bytes (string_value v) = unexpected

module _ (r : GbfRecord) (index : ℕ) where
  unfoldable pub get_boolean : Outcome Bool
  unfolding get_value_or_err
  get_boolean = get_value_or_err r index >>= as_boolean

  unfoldable pub get_byte : Outcome ℕ
  unfolding get_value_or_err
  get_byte = get_value_or_err r index >>= as_byte

  unfoldable pub get_short : Outcome ℕ
  unfolding get_value_or_err
  get_short = get_value_or_err r index >>= as_short

  unfoldable pub get_int : Outcome ℕ
  unfolding get_value_or_err
  get_int = get_value_or_err r index >>= as_int

  unfoldable pub get_long : Outcome ℕ
  unfolding get_value_or_err
  get_long = get_value_or_err r index >>= as_long

  unfoldable pub get_string : Outcome (List ℕ)
  unfolding get_value_or_err
  get_string = get_value_or_err r index >>= as_string

  unfoldable pub get_bytes : Outcome (List ℕ)
  unfolding get_value_or_err
  get_bytes = get_value_or_err r index >>= as_bytes
