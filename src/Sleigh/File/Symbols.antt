-- ===== src/Sleigh/File/Symbols.antt =====
-- The table of the symbols: `SymbolTable` of mizl_core/src/sleigh/sla_file.rs.
pub mod Lookup
use mizl_h_public.Base.{
  ℕ, ◌-◌, ◌^◌, Bool, true, not, ◌||◌, List, [], ◌∷◌, ◌++◌, Option, none, some, length, get_elem?,
  set, leb, if◌then◌else◌, sub32, lt_i32, Outcome, ok, panic, ◌>>=◌,
}
use mizl_h_public.Sleigh.Element
use mizl_h_public.Sleigh.Element.{ElementId}
use mizl_h_public.Sleigh.Attribute
use mizl_h_public.Sleigh.Reader.{SlaElement}
use mizl_h_public.Sleigh.Reader.Elements.{
  as_str_or, seek_elem_children_start, read_elem_end, for_children, skip_children,
}
use mizl_h_public.Sleigh.Expression.{int32, uint32}
use mizl_h_public.Sleigh.Symbol.{
  Symbol, new_operand_sym, new_varnode_sym, new_userop_sym, new_value_sym, new_context_sym,
  new_end_sym, new_next2_sym, new_start_sym,
}
use mizl_h_public.Sleigh.Symbol.Lists.{new_subtable_sym, new_valuemap_sym, new_varlist_sym}
use mizl_h_public.Sleigh.Scope.{Scope, new_scope, add_symbol}

pub record SymbolTable : Type 0 where
  pub scopes : List Scope
  pub symbols : List Symbol

-- What the loop over the children of the table keeps.
pub record TableParts : Type 0 where
  pub scopes_left : ℕ
  pub symbol_heads_left : ℕ
  pub symbols_left : ℕ
  pub scopes : List Scope
  pub symbols : List Symbol
  pub symbol_head_infos : List (List ℕ × ℕ)

abbrev pub start_parts : ℕ → ℕ → TableParts
start_parts scope_size symbol_size = record {
  scopes_left = scope_size;
  symbol_heads_left = symbol_size;
  symbols_left = symbol_size;
  scopes = [];
  symbols = [];
  symbol_head_infos = [];
}

module _ (buffer : List ℕ) where
  unfoldable pub read_scope : TableParts → SlaElement → ℕ → Outcome (TableParts × ℕ)
  unfolding new_scope
  read_scope s child pos = do
    let read : Outcome (TableParts × ℕ) = do
      (scope, pos') ← new_scope buffer child pos
      ok (record s { scopes_left = sub32 s.scopes_left 1; scopes = s.scopes ++ (scope ∷ []) }, pos')
    if not (Element.same child.id Element.scope) then panic else read

  unfoldable pub read_head : TableParts → SlaElement → ℕ → Outcome (TableParts × ℕ)
  unfolding as_str_or skip_children
  read_head s child pos = do
    let info : List ℕ × ℕ = (as_str_or child Attribute.name [], uint32 child Attribute.scope)
    pos' ← skip_children buffer child pos
    ok (
      record s {
        symbol_heads_left = sub32 s.symbol_heads_left 1;
        symbol_head_infos = s.symbol_head_infos ++ (info ∷ []);
      },
      pos',
    )

  -- The name and scope of the head go to the symbol, which is entered in the scope.
  unfoldable pub enter_in :
      TableParts → Symbol → List ℕ → ℕ → List (List ℕ × ℕ) → Option Scope → Outcome TableParts
  unfolding add_symbol
  enter_in s sym name scope infos none = panic
  enter_in s sym name scope infos (some at) = ok (record s {
    symbols_left = sub32 s.symbols_left 1;
    scopes = set s.scopes scope (add_symbol at name (length s.symbols));
    symbols = s.symbols ++ (record sym { name = name; scope = scope } ∷ []);
    symbol_head_infos = infos;
  })

  unfoldable pub enter_symbol : TableParts → Symbol → List (List ℕ × ℕ) → Outcome TableParts
  unfolding enter_in
  enter_symbol s sym [] = panic
  enter_symbol s sym ((name, scope) ∷ infos) =
      enter_in s sym name scope infos (get_elem? s.scopes scope)

  module _ (pow : ℕ → ℕ → ℕ) where
    -- `match child.id`
    unfoldable pub new_symbol : ElementId → SlaElement → ℕ → Outcome (Symbol × ℕ)
    unfolding new_operand_sym new_varnode_sym new_userop_sym new_value_sym new_context_sym
        new_end_sym new_next2_sym new_start_sym new_subtable_sym new_valuemap_sym new_varlist_sym
    new_symbol Element.operand_sym elem pos = new_operand_sym buffer elem pos
    new_symbol Element.varnode_sym elem pos = new_varnode_sym buffer elem pos
    new_symbol Element.userop elem pos = new_userop_sym buffer elem pos
    new_symbol Element.value_sym elem pos = new_value_sym buffer elem pos
    new_symbol Element.context_sym elem pos = new_context_sym buffer elem pos
    new_symbol Element.end_sym elem pos = new_end_sym buffer elem pos
    new_symbol Element.next2_sym elem pos = new_next2_sym buffer elem pos
    new_symbol Element.start_sym elem pos = new_start_sym buffer elem pos
    new_symbol Element.subtable_sym elem pos = new_subtable_sym buffer pow elem pos
    new_symbol Element.valuemap_sym elem pos = new_valuemap_sym buffer elem pos
    new_symbol Element.varlist_sym elem pos = new_varlist_sym buffer elem pos
    new_symbol _ elem pos = panic

    unfoldable pub read_symbol : TableParts → SlaElement → ℕ → Outcome (TableParts × ℕ)
    unfolding new_symbol enter_symbol
    read_symbol s child pos = do
      (sym, pos') ← new_symbol child.id child pos
      s' ← enter_symbol s sym s.symbol_head_infos
      ok (s', pos')

    -- The body of the loop over the children.
    unfoldable pub read_table_part : TableParts → SlaElement → ℕ → Outcome (TableParts × ℕ)
    unfolding read_scope read_head read_symbol
    read_table_part s child pos =
        let scope = read_scope s child pos in
        let head = read_head s child pos in
        let symbol = read_symbol s child pos in
        if lt_i32 0 s.scopes_left
        then scope
        else if lt_i32 0 s.symbol_heads_left
        then head
        else if lt_i32 0 s.symbols_left
        then symbol
        else panic

    -- `Vec::with_capacity` panics for a negative size, which is a huge `usize`.
    unfoldable pub new_symbol_table : SlaElement → ℕ → Outcome (SymbolTable × ℕ)
    unfolding seek_elem_children_start for_children read_table_part read_elem_end
    new_symbol_table elem pos = do
      let scope_size = int32 elem Attribute.scopesize
      let symbol_size = int32 elem Attribute.symbolsize
      p1 ← seek_elem_children_start buffer elem pos
      let filled : Outcome (SymbolTable × ℕ) = do
        (s, p2) ← for_children buffer elem read_table_part (start_parts scope_size symbol_size) p1
        (_, p3) ← read_elem_end buffer elem.id p2
        ok (record { scopes = s.scopes; symbols = s.symbols }, p3)
      if leb (2 ^ 31) scope_size || leb (2 ^ 31) symbol_size then panic else filled
