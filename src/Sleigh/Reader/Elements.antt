-- ===== src/Sleigh/Reader/Elements.antt =====
-- Elements with their attributes and children: the rest of mizl_core/src/sleigh/sla_reader.rs. The
-- loops over attributes and over children get one round more than the buffer has bytes, which is
-- enough, since each round but the last reads a byte at least.
use mizl_h_public.Base.{
  ℕ, zero, suc, Bool, true, false, not, ◌&&◌, List, [], ◌∷◌, Option, none, some, length, ◌==◌,
  if◌then◌else◌, Outcome, ok, panic, no_fuel, ◌>>=◌, minus_one32,
}
use mizl_h_public.Sleigh.Element
use mizl_h_public.Sleigh.Element.{ElementId}
use mizl_h_public.Sleigh.Attribute
use mizl_h_public.Sleigh.Attribute.{AttributeId}
use mizl_h_public.Sleigh.Reader.{
  SpaceInfo, no_space, SlaAttribute, SlaAttributeValue, null_value, bool_value, int_value,
  uint_value, string_value, space_value, SlaElement, get_element_type, element_of, read_u8, peek_u8,
  seek, read_id, read_attr,
}

-- The attribute that `attrs.get` answers.
abbrev pub find_attr : List SlaAttribute → AttributeId → Option SlaAttributeValue
find_attr [] wanted = none
find_attr (a ∷ attrs) wanted =
    if Attribute.same a.id wanted then some a.value else find_attr attrs wanted

abbrev value_is_null : Option SlaAttributeValue → Bool
value_is_null none = true
value_is_null (some null_value) = true
value_is_null (some _) = false

unfoldable pub is_null : SlaElement → AttributeId → Bool
is_null elem attr = value_is_null (find_attr elem.attrs attr)

abbrev bool_or : Option SlaAttributeValue → Bool → Bool
bool_or (some (bool_value v)) default = v
bool_or _ default = default

abbrev int_or : Option SlaAttributeValue → ℕ → ℕ
int_or (some (int_value v)) default = v
int_or _ default = default

abbrev uint_or : Option SlaAttributeValue → ℕ → ℕ
uint_or (some (uint_value v)) default = v
uint_or _ default = default

abbrev str_or : Option SlaAttributeValue → List ℕ → List ℕ
str_or (some (string_value v)) default = v
str_or _ default = default

abbrev space_or : Option SlaAttributeValue → SpaceInfo → SpaceInfo
space_or (some (space_value v)) default = v
space_or _ default = default

unfoldable pub as_bool_or : SlaElement → AttributeId → Bool → Bool
as_bool_or elem attr default = bool_or (find_attr elem.attrs attr) default

unfoldable pub as_int_or : SlaElement → AttributeId → ℕ → ℕ
as_int_or elem attr default = int_or (find_attr elem.attrs attr) default

unfoldable pub as_uint_or : SlaElement → AttributeId → ℕ → ℕ
as_uint_or elem attr default = uint_or (find_attr elem.attrs attr) default

unfoldable pub as_str_or : SlaElement → AttributeId → List ℕ → List ℕ
as_str_or elem attr default = str_or (find_attr elem.attrs attr) default

unfoldable pub as_space : SlaElement → AttributeId → SpaceInfo
as_space elem attr =
    space_or (find_attr elem.attrs attr) (record { space_type = no_space; index = minus_one32 })

module _ (buffer : List ℕ) where
  -- The rest of the attributes, in front of those that were read before.
  unfoldable pub attrs_from : ℕ → List SlaAttribute → ℕ → Outcome (List SlaAttribute × ℕ)
  unfolding peek_u8 read_attr
  attrs_from zero attrs pos = no_fuel
  attrs_from (suc fuel) attrs pos = do
    byte1 ← peek_u8 buffer pos
    let more : Outcome (List SlaAttribute × ℕ) = do
      (attr, pos') ← read_attr buffer pos
      attrs_from fuel (attr ∷ attrs) pos'
    if not (get_element_type byte1 == 3) then ok (attrs, pos) else more

  -- `read_elem_attrs(attr_pos)`, collected into the map.
  unfoldable pub read_elem_attrs : ℕ → ℕ → Outcome (List SlaAttribute × ℕ)
  unfolding seek attrs_from
  read_elem_attrs pos apos = do at ← seek buffer pos apos; attrs_from (suc (length buffer)) [] at

  unfoldable pub read_elem : ℕ → Outcome (SlaElement × ℕ)
  unfolding read_u8 read_id read_elem_attrs
  read_elem start_pos = do
    (byte1, p1) ← read_u8 buffer start_pos
    let elem_type = get_element_type byte1
    let opened : ElementId → ℕ → Outcome (SlaElement × ℕ) = λ elem_id attr_pos.
        read_elem_attrs attr_pos attr_pos >>= λ (r : List SlaAttribute × ℕ). ok (
          record {
            start = true;
            id = elem_id;
            spos = start_pos;
            apos = attr_pos;
            epos = r.1;
            attrs = r.0;
          },
          r.1,
        )
    let closed : ElementId → ℕ → Outcome (SlaElement × ℕ) = λ elem_id end_pos. ok (
      record {
        start = false;
        id = elem_id;
        spos = start_pos;
        apos = end_pos;
        epos = end_pos;
        attrs = [];
      },
      end_pos,
    )
    let rest : Outcome (SlaElement × ℕ) = do
      (n, p2) ← read_id buffer byte1 p1
      if elem_type == 1 then opened (element_of n) p2 else closed (element_of n) p2
    if not (elem_type == 1) && not (elem_type == 2) then panic else rest

  -- `assert_eq!(elem.id, check_id)` and `assert!(elem.start)`.
  unfoldable pub read_elem_start : ElementId → ℕ → Outcome (SlaElement × ℕ)
  unfolding read_elem
  read_elem_start check_id pos = do
    (elem, pos') ← read_elem pos
    if Element.same elem.id check_id && elem.start then ok (elem, pos') else panic

  unfoldable pub read_elem_end : ElementId → ℕ → Outcome (SlaElement × ℕ)
  unfolding read_elem
  read_elem_end check_id pos = do
    (elem, pos') ← read_elem pos
    if Element.same elem.id check_id && not elem.start then ok (elem, pos') else panic

  -- One call of the iterator that `read_elem_children` answers.
  unfoldable pub next_child : ℕ → Outcome (Option SlaElement × ℕ)
  unfolding peek_u8 read_elem
  next_child pos = do
    byte1 ← peek_u8 buffer pos
    let elem_type = get_element_type byte1
    let child : Outcome (Option SlaElement × ℕ) = do
      (elem, pos') ← read_elem pos
      ok (some elem, pos')
    if elem_type == 1 then child else if elem_type == 2 then ok (none, pos) else panic

  -- The iterator's next child, where the code expects one.
  unfoldable pub expect_child : ℕ → Outcome (SlaElement × ℕ)
  unfolding next_child
  expect_child pos = do
    (child, pos') ← next_child pos
    elim child [ some elem ↦ ok (elem, pos') | none ↦ panic ]

  unfoldable pub seek_elem_children_start : SlaElement → ℕ → Outcome ℕ
  unfolding seek
  seek_elem_children_start elem pos = seek buffer pos elem.epos

  -- `for child in reader.read_elem_children(..)`, from the position that the iterator's seek left,
  -- with a body that works on the state `s`.
  unfoldable pub each_child {ℓ} :
      {S : Type ℓ} → (S → SlaElement → ℕ → Outcome (S × ℕ)) → ℕ → S → ℕ → Outcome (S × ℕ)
  unfolding next_child
  each_child body zero s pos = no_fuel
  each_child body (suc fuel) s pos = do
    (child, pos') ← next_child pos
    elim child [
      | none ↦ ok (s, pos')
      | some elem ↦ do (s', pos'') ← body s elem pos'; each_child body fuel s' pos''
    ]

  unfoldable pub for_children {ℓ} :
      {S : Type ℓ} → SlaElement → (S → SlaElement → ℕ → Outcome (S × ℕ)) → S → ℕ → Outcome (S × ℕ)
  unfolding seek each_child
  for_children elem body s pos = do
    at ← seek buffer pos elem.epos
    each_child body (suc (length buffer)) s at

  -- An element without children: to its start, and past its end.
  unfoldable pub skip_children : SlaElement → ℕ → Outcome ℕ
  unfolding seek_elem_children_start read_elem_end
  skip_children elem pos = do
    at ← seek_elem_children_start elem pos
    (_, end) ← read_elem_end elem.id at
    ok end
