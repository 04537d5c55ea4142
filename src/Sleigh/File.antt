-- ===== src/Sleigh/File.antt =====
-- A sleigh file: mizl_core/src/sleigh/sla_file.rs. The zlib decoder is a parameter, which answers
-- the bytes or, for input it cannot decode, none.
pub mod Symbols
pub mod Ends
pub mod Varnodes
use mizl_h_public.Base.{
  ℕ, suc, ◌-◌, ◌%◌, Bool, true, false, not, ◌&&◌, ◌||◌, List, [], ◌∷◌, ◌++◌, Option, none, some,
  length, get_elem?, get_or, drop, ltb, leb, ◌==◌, if◌then◌else◌, u32_mod, Outcome, ok, panic,
  ◌>>=◌,
}
use mizl_h_public.Sleigh.Element
use mizl_h_public.Sleigh.Element.{ElementId}
use mizl_h_public.Sleigh.Attribute
use mizl_h_public.Sleigh.Reader.{SlaElement, seek}
use mizl_h_public.Sleigh.Reader.Elements.{
  as_bool_or, as_int_or, as_str_or, seek_elem_children_start, read_elem_start, read_elem_end,
  for_children,
}
use mizl_h_public.Sleigh.Expression.{int32}
use mizl_h_public.Sleigh.Symbol.{Symbol, SymbolInner, VarnodeSym, context_sym, varnode_sym}
use mizl_h_public.Sleigh.Scope.{Scope}
use mizl_h_public.Sleigh.File.Symbols.{SymbolTable, new_symbol_table}

pub record SourceFile : Type 0 where
  pub name : List ℕ
  pub index : ℕ

pub data AddrSpaceType : Type 0 where
  normal unique other : AddrSpaceType

pub record Space : Type 0 where
  pub space_type : AddrSpaceType
  pub name : List ℕ
  pub index : ℕ
  pub big_endian : Bool
  pub delay : ℕ
  pub size : ℕ
  pub physical : Bool

pub record Sleigh : Type 0 where
  pub version : ℕ
  pub big_endian : Bool
  pub align : ℕ
  pub uniq_base : ℕ
  pub max_delay : ℕ
  pub uniq_mask : ℕ
  pub num_sections : ℕ
  pub source_files : List SourceFile
  pub default_space : List ℕ
  pub spaces : List Space
  pub symbol_table : SymbolTable

abbrev pub space_type_of : ElementId → Option AddrSpaceType
space_type_of Element.space = some normal
space_type_of Element.space_unique = some unique
space_type_of Element.space_other = some other
space_type_of _ = none

module _ (buffer : List ℕ) where
  unfoldable pub new_source_file : SlaElement → ℕ → Outcome (SourceFile × ℕ)
  unfolding as_str_or read_elem_end
  new_source_file elem pos = do
    (_, pos') ← read_elem_end buffer elem.id pos
    ok (
      record { name = as_str_or elem Attribute.name []; index = int32 elem Attribute.index },
      pos',
    )

  unfoldable pub space_of : Option AddrSpaceType → SlaElement → ℕ → Outcome (Space × ℕ)
  unfolding as_str_or as_bool_or read_elem_end
  space_of none elem pos = panic
  space_of (some space_type) elem pos = do
    (_, pos') ← read_elem_end buffer elem.id pos
    ok (
      record {
        space_type = space_type;
        name = as_str_or elem Attribute.name [];
        index = int32 elem Attribute.index;
        big_endian = as_bool_or elem Attribute.bigendian false;
        delay = int32 elem Attribute.delay;
        size = int32 elem Attribute.size;
        physical = as_bool_or elem Attribute.physical false;
      },
      pos',
    )

  unfoldable pub new_space : SlaElement → ℕ → Outcome (Space × ℕ)
  unfolding space_of
  new_space elem pos = space_of (space_type_of elem.id) elem pos

  -- The body of a loop that pushes what `new` reads.
  abbrev pub pushing {ℓ} :
      {A : Type ℓ}
      → (SlaElement → ℕ → Outcome (A × ℕ))
      → List A
      → SlaElement
      → ℕ
      → Outcome (List A × ℕ)
  pushing new list child pos = do (v, pos') ← new child pos; ok (list ++ (v ∷ []), pos')

  -- An element, and the list of what `new` reads of its children.
  unfoldable pub read_list {ℓ} :
      {A : Type ℓ}
      → ElementId
      → (SlaElement → ℕ → Outcome (A × ℕ))
      → ℕ
      → Outcome ((SlaElement × List A) × ℕ)
  unfolding read_elem_start for_children read_elem_end
  read_list kind new pos = do
    (elem, p1) ← read_elem_start buffer kind pos
    (list, p2) ← for_children buffer elem (pushing new) [] p1
    (_, p3) ← read_elem_end buffer elem.id p2
    ok ((elem, list), p3)

  module _ (pow : ℕ → ℕ → ℕ) where
    -- `Sleigh::decode`
    unfoldable pub decode : ℕ → Outcome (Sleigh × ℕ)
    unfolding as_bool_or as_int_or as_str_or read_elem_start seek_elem_children_start read_list
        new_source_file new_space new_symbol_table
    decode pos = do
      (sleigh_elem, p1) ← read_elem_start buffer Element.sleigh pos
      p2 ← seek_elem_children_start buffer sleigh_elem p1
      ((_, source_files), p3) ← read_list Element.sourcefiles new_source_file p2
      ((spaces_elem, spaces), p4) ← read_list Element.spaces new_space p3
      (symbol_table_elem, p5) ← read_elem_start buffer Element.symbol_table p4
      (symbol_table, p6) ← new_symbol_table buffer pow symbol_table_elem p5
      ok (
        record {
          version = int32 sleigh_elem Attribute.version;
          big_endian = as_bool_or sleigh_elem Attribute.bigendian false;
          align = as_int_or sleigh_elem Attribute.align 1 % u32_mod;
          uniq_base = as_int_or sleigh_elem Attribute.uniqbase 0;
          max_delay = int32 sleigh_elem Attribute.maxdelay;
          uniq_mask = int32 sleigh_elem Attribute.uniqmask;
          num_sections = int32 sleigh_elem Attribute.numsections;
          source_files = source_files;
          default_space = as_str_or spaces_elem Attribute.defaultspace [];
          spaces = spaces;
          symbol_table = symbol_table;
        },
        p6,
      )

-- `Sleigh::new`: the three letters `sla` and the version in front of the compressed bytes.
module _ (zlib : List ℕ → Option (List ℕ)) (pow : ℕ → ℕ → ℕ) where
  unfoldable pub decode_buffer : Option (List ℕ) → Outcome Sleigh
  unfolding decode
  decode_buffer none = panic
  decode_buffer (some buf) = do (sleigh, _) ← decode buf pow 0; ok sleigh

  abbrev pub is_sleigh : List ℕ → Bool
  is_sleigh data_bytes =
      ltb 4 (length data_bytes)
      && (get_or data_bytes 0 0 == 0x73 && get_or data_bytes 1 0 == 0x6c)
      && (get_or data_bytes 2 0 == 0x61 && leb 4 (get_or data_bytes 3 0))

  unfoldable pub new_sleigh : List ℕ → Outcome Sleigh
  unfolding decode_buffer
  new_sleigh data_bytes =
      let decoded = decode_buffer (zlib (drop 4 data_bytes)) in
      if not (is_sleigh data_bytes)
      then panic
      else if not (get_or data_bytes 3 0 == 4)
      then panic
      else decoded

-- The size of the register that a context symbol lies in.
abbrev pub register_size : Option Symbol → Outcome ℕ
register_size none = panic
register_size (some sym) = elim sym.inner [ varnode_sym v ↦ ok v.size | _ ↦ panic ]

-- The loop of `get_context_size` over the symbols that are left, of all the symbols.
unfoldable pub context_size_in : List Symbol → List Symbol → Outcome ℕ
context_size_in symbols [] = ok 0
context_size_in symbols (sym ∷ rest) = elim sym.inner [
  | context_sym c ↦ register_size (get_elem? symbols c.varnode)
  | _ ↦ context_size_in symbols rest
]

unfoldable pub get_context_size : Sleigh → Outcome ℕ
unfolding context_size_in
get_context_size sleigh = context_size_in sleigh.symbol_table.symbols sleigh.symbol_table.symbols

-- `map.entry(offset).or_insert(vec![]).push(id)`
abbrev pub push_id : List (ℕ × List ℕ) → ℕ → ℕ → List (ℕ × List ℕ)
push_id [] offset id = (offset, id ∷ []) ∷ []
push_id ((o, ids) ∷ entries) offset id =
    if o == offset then (o, ids ++ (id ∷ [])) ∷ entries else (o, ids) ∷ push_id entries offset id

abbrev pub push_varnode : SymbolInner → ℕ → List (ℕ × List ℕ) → List (ℕ × List ℕ)
push_varnode (varnode_sym v) id entries = push_id entries v.offset id
push_varnode _ id entries = entries

abbrev pub varnodes_in : List (ℕ × List ℕ) → List Symbol → List (ℕ × List ℕ)
varnodes_in entries [] = entries
varnodes_in entries (sym ∷ rest) = varnodes_in (push_varnode sym.inner sym.id entries) rest

unfoldable pub get_varnodes_by_offset : Sleigh → List (ℕ × List ℕ)
get_varnodes_by_offset sleigh = varnodes_in [] sleigh.symbol_table.symbols
