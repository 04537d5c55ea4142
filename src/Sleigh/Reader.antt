-- ===== src/Sleigh/Reader.antt =====
-- The reader of the packed format: mizl_core/src/sleigh/sla_reader.rs. The buffer of a
-- `SlaBinReader` does not change and is a parameter; its position is passed and returned. A mask
-- of the lowest bits is a remainder, and `|` of two words with no bit in common a sum.
pub mod Elements
pub mod Bounds
pub mod Ends
pub mod Skip
use Prim.Native.Nat.{bit_or}
use mizl_h_public.Base.{
  ℕ, zero, suc, ◌+◌, ◌*◌, ◌/◌, ◌%◌, Bool, true, false, not, ◌&&◌, ◌||◌, List, [], ◌∷◌, Option, none,
  some, length, get_elem?, get_or, slice, ltb, leb, ◌==◌, if◌then◌else◌, add64, sub64, u32_mod,
  u64_mod, minus_one32, Outcome, ok, panic, no_fuel, ◌>>=◌,
}
use mizl_h_public.Gbf.Text.{from_utf8}
use mizl_h_public.Sleigh.Element
use mizl_h_public.Sleigh.Element.{ElementId}
use mizl_h_public.Sleigh.Attribute
use mizl_h_public.Sleigh.Attribute.{AttributeId}

pub data AttributeKind : Type 0 where
  no_kind boolean positive_signed_integer negative_signed_integer : AttributeKind
  unsigned_integer basic_address_space special_address_space string : AttributeKind

pub data SpaceType : Type 0 where
  no_space address_space stack_space join_space f_spec_space iop_space space_base : SpaceType

pub record SpaceInfo : Type 0 where
  pub space_type : SpaceType
  pub index : ℕ

pub data SlaAttributeValue : Type 0 where
  null_value : SlaAttributeValue
  bool_value : Bool → SlaAttributeValue
  int_value : ℕ → SlaAttributeValue
  uint_value : ℕ → SlaAttributeValue
  string_value : List ℕ → SlaAttributeValue
  space_value : SpaceInfo → SlaAttributeValue

pub record SlaAttribute : Type 0 where
  pub id : AttributeId
  pub kind : AttributeKind
  pub spos : ℕ
  pub value : SlaAttributeValue

-- The map of the attributes is a list, the attribute that was inserted last in front.
pub record SlaElement : Type 0 where
  pub start : Bool
  pub id : ElementId
  pub spos : ℕ
  pub apos : ℕ
  pub epos : ℕ
  pub attrs : List SlaAttribute

-- `(byte1 >> 6) & 3` and so on.
abbrev pub get_element_type : ℕ → ℕ
get_element_type byte1 = (byte1 / 64) % 4

abbrev pub is_extended_elem : ℕ → Bool
is_extended_elem byte1 = not ((byte1 / 32) % 2 == 0)

abbrev pub get_element_id : ℕ → ℕ
get_element_id byte1 = byte1 % 32

abbrev pub get_element_id_ext : ℕ → ℕ → ℕ
get_element_id_ext byte1 byte1e = bit_or (byte1 % 32) (byte1e % 128)

abbrev pub get_attribute_type : ℕ → ℕ
get_attribute_type byte2 = (byte2 / 16) % 16

abbrev pub get_attribute_size : ℕ → ℕ
get_attribute_size byte2 = byte2 % 16

-- The code of a kind, and `FromPrimitive::from_u8(..).unwrap_or(AttributeKind::None)`.
abbrev pub kind_code : AttributeKind → ℕ
kind_code no_kind = 0
kind_code boolean = 1
kind_code positive_signed_integer = 2
kind_code negative_signed_integer = 3
kind_code unsigned_integer = 4
kind_code basic_address_space = 5
kind_code special_address_space = 6
kind_code string = 7

abbrev pub kind_of : ℕ → AttributeKind
kind_of n =
    get_or
      (no_kind ∷ boolean ∷ positive_signed_integer ∷ negative_signed_integer ∷ unsigned_integer
        ∷ basic_address_space ∷ special_address_space ∷ string ∷ [])
      n no_kind

-- `FromPrimitive::from_u16(..).unwrap_or(..::None)`
abbrev pub element_of : ℕ → ElementId
element_of n = elim (Element.from_u16 n) [ some e ↦ e | none ↦ Element.none ]

abbrev pub attribute_of : ℕ → AttributeId
attribute_of n = elim (Attribute.from_u16 n) [ some a ↦ a | none ↦ Attribute.none ]

module _ (buffer : List ℕ) where
  abbrev pub byte_at : ℕ → Option ℕ → Outcome (ℕ × ℕ)
  byte_at pos (some val) = ok (val, suc pos)
  byte_at pos none = panic

  unfoldable pub read_u8 : ℕ → Outcome (ℕ × ℕ)
  read_u8 pos = byte_at pos (get_elem? buffer pos)

  abbrev pub byte_here : Option ℕ → Outcome ℕ
  byte_here (some val) = ok val
  byte_here none = panic

  unfoldable pub peek_u8 : ℕ → Outcome ℕ
  peek_u8 pos = byte_here (get_elem? buffer pos)

  -- It is the old position that is tested.
  unfoldable pub seek : ℕ → ℕ → Outcome ℕ
  seek pos to = if ltb pos (length buffer) then ok to else panic

  -- The loop of `read_sized_int`: `res <<= 7; res |= next_byte & 127`.
  unfoldable pub sized_int_from : ℕ → ℕ → ℕ → Outcome (ℕ × ℕ)
  unfolding read_u8
  sized_int_from zero res pos = ok (res, pos)
  sized_int_from (suc size) res pos = do
    (next_byte, pos') ← read_u8 pos
    sized_int_from size ((res * 128) % u64_mod + next_byte % 128) pos'

  unfoldable pub read_sized_int : ℕ → ℕ → Outcome (ℕ × ℕ)
  unfolding sized_int_from
  read_sized_int size pos = sized_int_from size 0 pos

  unfoldable pub read_attr_bool : ℕ → Outcome Bool
  read_attr_bool byte2 =
      if get_attribute_type byte2 == kind_code boolean
      then ok (not (get_attribute_size byte2 == 0))
      else panic

  unfoldable pub read_attr_int : ℕ → ℕ → Outcome (ℕ × ℕ)
  unfolding read_sized_int
  read_attr_int byte2 pos =
      let attr_type = get_attribute_type byte2 in
      let size = get_attribute_size byte2 in
      if attr_type == kind_code positive_signed_integer
      then read_sized_int size pos
      else if attr_type == kind_code negative_signed_integer
      then (read_sized_int size pos >>= λ (r : ℕ × ℕ). ok (sub64 0 r.0, r.1))
      else panic

  unfoldable pub read_attr_uint : ℕ → ℕ → Outcome (ℕ × ℕ)
  unfolding read_sized_int
  read_attr_uint byte2 pos =
      if get_attribute_type byte2 == kind_code unsigned_integer
      then read_sized_int (get_attribute_size byte2) pos
      else panic

  abbrev pub text_of : Option (List ℕ) → Outcome (List ℕ)
  text_of (some v) = ok v
  text_of none = panic

  -- A slice whose end is in front of its start, or behind the buffer, panics.
  unfoldable pub read_attr_str : ℕ → ℕ → Outcome (List ℕ × ℕ)
  unfolding read_sized_int seek
  read_attr_str byte2 pos = do
    let text : Outcome (List ℕ × ℕ) = do
      (size, at) ← read_sized_int (get_attribute_size byte2) pos
      let to = add64 at size
      let taken : Outcome (List ℕ × ℕ) = do
        end_pos ← seek at to
        v ← text_of (from_utf8 (slice buffer at to))
        ok (v, end_pos)
      if leb at to && leb to (length buffer) then taken else panic
    if get_attribute_type byte2 == kind_code string then text else panic

  abbrev special_space : ℕ → SpaceType
  special_space code =
      get_or (stack_space ∷ join_space ∷ f_spec_space ∷ iop_space ∷ space_base ∷ []) code no_space

  unfoldable pub read_attr_space : ℕ → ℕ → Outcome (SpaceInfo × ℕ)
  unfolding read_sized_int
  read_attr_space byte2 pos = do
    let attr_type = get_attribute_type byte2
    let basic : Outcome (SpaceInfo × ℕ) = do
      (v, pos') ← read_sized_int (get_attribute_size byte2) pos
      ok (record { space_type = address_space; index = v % u32_mod }, pos')
    let special : Outcome (SpaceInfo × ℕ) = do
      (code, pos') ← read_sized_int (get_attribute_size byte2) pos
      ok (record { space_type = special_space (code % u32_mod); index = 0 }, pos')
    if attr_type == kind_code basic_address_space
        then basic
        else if attr_type == kind_code special_address_space
        then special
        else panic

  -- The value, by the kind; a kind that is not listed has none, and no byte is read.
  unfoldable pub read_value : AttributeKind → ℕ → ℕ → Outcome (SlaAttributeValue × ℕ)
  unfolding read_attr_bool read_attr_int read_attr_uint read_attr_str read_attr_space
  read_value boolean byte2 pos = do v ← read_attr_bool byte2; ok (bool_value v, pos)
  read_value positive_signed_integer byte2 pos = do
    (v, pos') ← read_attr_int byte2 pos
    ok (int_value v, pos')
  read_value negative_signed_integer byte2 pos = do
    (v, pos') ← read_attr_int byte2 pos
    ok (int_value v, pos')
  read_value unsigned_integer byte2 pos = do
    (v, pos') ← read_attr_uint byte2 pos
    ok (uint_value v, pos')
  read_value string byte2 pos = do (v, pos') ← read_attr_str byte2 pos; ok (string_value v, pos')
  read_value basic_address_space byte2 pos = do
    (v, pos') ← read_attr_space byte2 pos
    ok (space_value v, pos')
  read_value special_address_space byte2 pos = ok (null_value, pos)
  read_value no_kind byte2 pos = ok (null_value, pos)

  -- The number of an id: in the first byte, or with a second one.
  unfoldable pub read_id : ℕ → ℕ → Outcome (ℕ × ℕ)
  unfolding read_u8
  read_id byte1 pos =
      let extended = read_u8 pos >>= λ (r : ℕ × ℕ). ok (get_element_id_ext byte1 r.0, r.1) in
      if is_extended_elem byte1 then extended else ok (get_element_id byte1, pos)

  unfoldable pub read_attr : ℕ → Outcome (SlaAttribute × ℕ)
  unfolding read_u8 read_id read_value
  read_attr start_pos = do
    (byte1, p1) ← read_u8 start_pos
    let rest : Outcome (SlaAttribute × ℕ) = do
      (n, p2) ← read_id byte1 p1
      (byte2, p3) ← read_u8 p2
      let attr_kind = kind_of (get_attribute_type byte2)
      (v, p4) ← read_value attr_kind byte2 p3
      ok (record { id = attribute_of n; kind = attr_kind; spos = start_pos; value = v }, p4)
    if not (get_element_type byte1 == 3) then panic else rest
