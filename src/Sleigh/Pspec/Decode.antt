-- ===== src/Sleigh/Pspec/Decode.antt =====
-- `Pspec::decode` and `Pspec::new` of mizl_core/src/sleigh/pspec_file.rs.
use mizl_h_public.Base.{
  ℕ, Bool, true, false, not, List, [], ◌∷◌, ◌++◌, Option, none, some, length, ◌==◌, if◌then◌else◌,
}
use mizl_h_public.Gbf.Schema.{bytes_eq}
use mizl_h_public.Sleigh.Pspec.{
  Pspec, PspecConstSetEntry, PspecConstSet, PspecRegister, invalid_xml, invalid_format, Parsed,
  parsed, refused, ◌>>=◌, ok_or, Xml,
}
use mizl_h_public.Sleigh.Pspec.Names.{
  processor_spec_tag, properties_tag, property_tag, key_attr, value_attr, programcounter_tag,
  register_tag, context_data_tag, context_set_tag, tracked_set_tag, space_attr, name_attr, val_attr,
  register_data_tag, rename_attr, alias_attr, group_attr, hidden_attr, vector_lane_sizes_attr,
  false_text, true_text, zero_text,
}
use mizl_h_public.Sleigh.Pspec.Numbers.{parse_u64, parse_i32, split_from}

abbrev pub attribute_or : Option (List ℕ) → List ℕ → List ℕ
attribute_or (some v) default = v
attribute_or none default = default

-- `.map(parse).collect()`
unfoldable pub parse_sizes : List (List ℕ) → Parsed (List ℕ)
unfolding parse_i32
parse_sizes [] = parsed []
parse_sizes (piece ∷ pieces) = do
  size ← ok_or (parse_i32 piece) invalid_format
  sizes ← parse_sizes pieces
  parsed (size ∷ sizes)

unfoldable pub lane_sizes : List ℕ → Parsed (List ℕ)
unfolding parse_sizes split_from
lane_sizes text = if not (length text == 0) then parse_sizes (split_from [] text) else parsed []

-- `match ctx_name { .. }`
abbrev pub tracked_of : List ℕ → Parsed Bool
unfolding bytes_eq
tracked_of name =
    if bytes_eq name context_set_tag
    then parsed false
    else if bytes_eq name tracked_set_tag
    then parsed true
    else refused invalid_format

abbrev pub empty_pspec : Pspec
empty_pspec = record {
  properties = [];
  program_counter = [];
  context_settings = [];
  registers = [];
}

module _ {N : Type 0} (xml : Xml N) where
  -- A loop over children that skips what is no element.
  unfoldable pub each_element {ℓ} : {A : Type ℓ} → (A → N → Parsed A) → A → List N → Parsed A
  each_element body acc [] = parsed acc
  each_element body acc (n ∷ ns) =
      let next = if xml.is_element n then body acc n else parsed acc in
      next >>= λ acc'. each_element body acc' ns

  abbrev pub required : N → List ℕ → Parsed (List ℕ)
  required n name = ok_or (xml.attribute n name) invalid_format

  unfoldable pub read_property : Pspec → N → Parsed Pspec
  unfolding bytes_eq
  read_property p n =
      let read : Parsed Pspec = (do
        key ← required n key_attr
        value ← required n value_attr
        parsed (record p { properties = (key, value) ∷ p.properties })) in
      if not (bytes_eq (xml.tag_name n) property_tag) then refused invalid_format else read

  unfoldable pub read_entry : List PspecConstSetEntry → N → Parsed (List PspecConstSetEntry)
  unfolding parse_u64
  read_entry entries n = do
    name ← required n name_attr
    text ← required n val_attr
    val ← ok_or (parse_u64 text) invalid_format
    parsed (entries ++ (record { name = name; val = val } ∷ []))

  unfoldable pub read_context : Pspec → N → Parsed Pspec
  unfolding tracked_of each_element read_entry
  read_context p n = do
    tracked ← tracked_of (xml.tag_name n)
    space ← required n space_attr
    entries ← each_element read_entry [] (xml.children n)
    let const_set : PspecConstSet = record { tracked = tracked; space = space; entries = entries }
    parsed (record p { context_settings = p.context_settings ++ (const_set ∷ []) })

  unfoldable pub read_register : Pspec → N → Parsed Pspec
  unfolding bytes_eq lane_sizes
  read_register p n =
      let optional : List ℕ → List ℕ → List ℕ =
        λ name default. attribute_or (xml.attribute n name) default in
      let read : Parsed Pspec = (do
        name ← required n name_attr
        sizes ← lane_sizes (optional vector_lane_sizes_attr zero_text)
        let register : PspecRegister = record {
          name = name;
          rename = optional rename_attr [];
          alias = optional alias_attr [];
          group = optional group_attr [];
          hidden = bytes_eq (optional hidden_attr false_text) true_text;
          vector_lane_sizes = sizes;
        }
        parsed (record p { registers = p.registers ++ (register ∷ []) })) in
      if not (bytes_eq (xml.tag_name n) register_tag) then refused invalid_format else read

  -- The body of the loop over the children of the root.
  unfoldable pub read_main : Pspec → N → Parsed Pspec
  unfolding bytes_eq each_element read_property read_context read_register
  read_main p n =
      let name = xml.tag_name n in
      let counter : Parsed Pspec = (do
        pc ← required n register_tag
        parsed (record p { program_counter = pc })) in
      if bytes_eq name properties_tag
      then each_element read_property p (xml.children n)
      else if bytes_eq name programcounter_tag
      then counter
      else if bytes_eq name context_data_tag
      then each_element read_context p (xml.children n)
      else if bytes_eq name register_data_tag
      then each_element read_register p (xml.children n)
      else parsed p

  -- `Pspec::decode`, from the root element.
  unfoldable pub decode : N → Parsed Pspec
  unfolding bytes_eq each_element read_main
  decode root =
      let read = each_element read_main empty_pspec (xml.children root) in
      if not (bytes_eq (xml.tag_name root) processor_spec_tag) then refused invalid_format else read

  -- `Pspec::new`; `parse` answers the root element of the document.
  unfoldable pub new_pspec : (List ℕ → Option N) → List ℕ → Parsed Pspec
  unfolding decode
  new_pspec parse contents = ok_or (parse contents) invalid_xml >>= decode
