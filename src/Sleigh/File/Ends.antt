-- ===== src/Sleigh/File/Ends.antt =====
-- Reading a sleigh file ends.
use mizl_h_public.Base.{
  ℕ, ◌^◌, refl, ◌∷◌, ◌≡◌, ◌≢◌, not, ◌||◌, List, [], Option, none, some, drop, get_or, ◌==◌, leb,
  arith, lt_i32, Outcome, no_fuel, Ensures, holds, panics, Ensures->>=, Ensures-if, Ensures-no_fuel,
}
use mizl_h_public.Sleigh.Element
use mizl_h_public.Sleigh.Element.{ElementId}
use mizl_h_public.Sleigh.Attribute
use mizl_h_public.Sleigh.Reader.{SlaElement}
use mizl_h_public.Sleigh.Reader.Bounds.{Within, len}
use mizl_h_public.Sleigh.Reader.Ends.{
  Steps, seek_elem_children_start-Ensures, read_elem_start-Opens, read_elem_end-Within,
  children-Within, skip_children-Ensures,
}
use mizl_h_public.Sleigh.Expression.{int32}
use mizl_h_public.Sleigh.Expression.Ends.{EndsAt, EndsBehind}
use mizl_h_public.Sleigh.Symbol.{Symbol}
use mizl_h_public.Sleigh.Symbol.Ends.{
  new_operand_sym-Ends, new_varnode_sym-Ends, new_userop_sym-Ends, new_value_sym-Ends,
  new_context_sym-Ends, new_end_sym-Ends, new_next2_sym-Ends, new_start_sym-Ends,
}
use mizl_h_public.Sleigh.Symbol.Lists.Ends.{
  new_subtable_sym-Ends, new_valuemap_sym-Ends, new_varlist_sym-Ends,
}
use mizl_h_public.Sleigh.Scope.{Scope, new_scope}
use mizl_h_public.Sleigh.File.Symbols.{
  TableParts, read_scope, read_head, enter_in, enter_symbol, new_symbol, read_symbol,
  read_table_part, new_symbol_table,
}
use mizl_h_public.Sleigh.File.{
  AddrSpaceType, space_of, space_type_of, new_source_file, new_space, pushing, read_list, decode,
  decode_buffer, new_sleigh, is_sleigh,
}

module _ (buffer : List ℕ) where
  enter_in-Ensures :
      (s : TableParts) (sym : Symbol) (name : List ℕ) (scope : ℕ) (infos : List (List ℕ × ℕ))
      (at : Option Scope)
      → Ensures (λ _. Unit) (enter_in buffer s sym name scope infos at)
  unfolding enter_in
  enter_in-Ensures s sym name scope infos none = panics
  enter_in-Ensures s sym name scope infos (some at) = holds tt

  enter_symbol-Ensures :
      (s : TableParts) (sym : Symbol) (infos : List (List ℕ × ℕ))
      → Ensures (λ _. Unit) (enter_symbol buffer s sym infos)
  unfolding enter_symbol
  enter_symbol-Ensures s sym [] = panics
  enter_symbol-Ensures s sym ((name, scope) ∷ infos) = enter_in-Ensures s sym name scope infos _

  module _ (pow : ℕ → ℕ → ℕ) where
    new_symbol-Ends :
        (kind : ElementId) (c : SlaElement) (at : ℕ)
        → c.epos ≡ at
        → EndsAt buffer (new_symbol buffer pow kind) c at
    unfolding new_symbol
    new_symbol-Ends Element.operand_sym c at e = new_operand_sym-Ends buffer c at e
    new_symbol-Ends Element.varnode_sym c at e = new_varnode_sym-Ends buffer c at e
    new_symbol-Ends Element.userop c at e = new_userop_sym-Ends buffer c at e
    new_symbol-Ends Element.value_sym c at e = new_value_sym-Ends buffer c at e
    new_symbol-Ends Element.context_sym c at e = new_context_sym-Ends buffer c at e
    new_symbol-Ends Element.end_sym c at e = new_end_sym-Ends buffer c at e
    new_symbol-Ends Element.next2_sym c at e = new_next2_sym-Ends buffer c at e
    new_symbol-Ends Element.start_sym c at e = new_start_sym-Ends buffer c at e
    new_symbol-Ends Element.subtable_sym c at e = new_subtable_sym-Ends buffer pow c at e
    new_symbol-Ends Element.valuemap_sym c at e = new_valuemap_sym-Ends buffer c at e
    new_symbol-Ends Element.varlist_sym c at e = new_varlist_sym-Ends buffer c at e
    new_symbol-Ends _ c at e = panics

    read_table_part-Steps : (from : ℕ) → Steps buffer from (read_table_part buffer pow)
    unfolding read_table_part read_scope new_scope read_head read_symbol
    read_table_part-Steps from s c at u w e =
        Ensures-if (lt_i32 0 s.scopes_left)
          (λ t.
            Ensures-if (not (Element.same c.id Element.scope)) (λ n. panics)
              λ n.
                Ensures->>= (Ensures->>= (read_elem_end-Within buffer c.id at) λ r k. holds k)
                  λ r k. holds k)
          λ t.
            Ensures-if (lt_i32 0 s.symbol_heads_left)
              (λ t. Ensures->>= (skip_children-Ensures buffer c at e) λ p k. holds k)
              λ t.
                Ensures-if (lt_i32 0 s.symbols_left)
                  (λ t. Ensures->>= (new_symbol-Ends c.id c at e) λ (sym, p) k.
                    Ensures->>= (enter_symbol-Ensures s sym s.symbol_head_infos) λ s' n. holds k)
                  λ t. panics

    new_symbol_table-Ends :
        (elem : SlaElement) (pos : ℕ)
        → elem.epos ≡ pos
        → EndsAt buffer (new_symbol_table buffer pow) elem pos
    unfolding new_symbol_table
    new_symbol_table-Ends elem pos e =
        let scope_size = int32 elem Attribute.scopesize in
        let symbol_size = int32 elem Attribute.symbolsize in
        Ensures->>= (seek_elem_children_start-Ensures buffer elem pos e) λ p1 h1.
          Ensures-if (leb (2 ^ 31) scope_size || leb (2 ^ 31) symbol_size) (λ t. panics)
            λ t.
              Ensures->>=
                (children-Within buffer elem (read_table_part buffer pow) _ pos p1
                  (read_table_part-Steps pos) e h1.0)
                λ (s, p2) h2.
                  Ensures->>= (read_elem_end-Within buffer elem.id p2)
                    λ (x, p3) h3. holds (omega (arith, h2.0, h3.0), h3.1)

  read_list-Within {ℓ} :
      {A : Type ℓ} (kind : ElementId) (new : SlaElement → ℕ → Outcome (A × ℕ)) (pos : ℕ)
      → ((from : ℕ) → EndsBehind buffer new from)
      → Within (len buffer) pos (read_list buffer kind new pos)
  unfolding read_list
  read_list-Within kind new pos k =
      Ensures->>= (read_elem_start-Opens buffer kind pos) λ (elem, p1) h1.
        Ensures->>=
          (children-Within buffer elem (pushing buffer new) [] p1 p1
            (λ s c at u w d. Ensures->>= (k p1 c at u w d) λ r l. holds l) h1.2 refl)
          λ (s, p2) h2.
            Ensures->>= (read_elem_end-Within buffer elem.id p2)
              λ (x, p3) h3. holds (omega (arith, h1.0, h2.0, h3.0), h3.1)

  new_source_file-Ends : (c : SlaElement) (at : ℕ) → EndsAt buffer (new_source_file buffer) c at
  unfolding new_source_file
  new_source_file-Ends c at = Ensures->>= (read_elem_end-Within buffer c.id at) λ r k. holds k

  space_of-Ends :
      (t : Option AddrSpaceType) (c : SlaElement) (at : ℕ) → EndsAt buffer (space_of buffer t) c at
  unfolding space_of
  space_of-Ends none c at = panics
  space_of-Ends (some t) c at = Ensures->>= (read_elem_end-Within buffer c.id at) λ r k. holds k

  new_space-Ends : (c : SlaElement) (at : ℕ) → EndsAt buffer (new_space buffer) c at
  unfolding new_space
  new_space-Ends c at = space_of-Ends (space_type_of c.id) c at

  decode-Within : (pow : ℕ → ℕ → ℕ) (pos : ℕ) → Within (len buffer) pos (decode buffer pow pos)
  unfolding decode
  decode-Within pow pos =
      Ensures->>= (read_elem_start-Opens buffer Element.sleigh pos) λ (sleigh, p1) h1.
        Ensures->>= (seek_elem_children_start-Ensures buffer sleigh p1 h1.2) λ p2 h2.
          Ensures->>=
            (read_list-Within Element.sourcefiles (new_source_file buffer) p2
              (λ from c at u w d. new_source_file-Ends c at))
            λ (files, p3) h3.
              Ensures->>=
                (read_list-Within Element.spaces (new_space buffer) p3
                  (λ from c at u w d. new_space-Ends c at))
                λ (spaces, p4) h4.
                  Ensures->>= (read_elem_start-Opens buffer Element.symbol_table p4)
                    λ (table, p5) h5.
                      Ensures->>= (new_symbol_table-Ends pow table p5 h5.2) λ (symbols, p6) h6.
                        holds (omega (arith, h1.0, h2.0, h3.0, h4.0, h5.0, h6.0), h6.1)

decode_buffer-Ensures :
    (zlib : List ℕ → Option (List ℕ)) (pow : ℕ → ℕ → ℕ) (buf : Option (List ℕ))
    → Ensures (λ _. Unit) (decode_buffer zlib pow buf)
unfolding decode_buffer
decode_buffer-Ensures zlib pow none = panics
decode_buffer-Ensures zlib pow (some buf) =
    Ensures->>= (decode-Within buf pow 0) λ (sleigh, at) h. holds tt

-- Reading a sleigh file ends, whatever its bytes are, whatever the decoder of zlib and the power
-- answer: no loop and no nesting of the readers for elements, expressions, decision trees,
-- constructors, symbols and tables runs out of the rounds that the length of the buffer gives it.
pub new_sleigh-ends :
    (zlib : List ℕ → Option (List ℕ)) (pow : ℕ → ℕ → ℕ) (data_bytes : List ℕ)
    → new_sleigh zlib pow data_bytes ≢ no_fuel
unfolding new_sleigh
new_sleigh-ends zlib pow data_bytes = Ensures-no_fuel {P = λ _. Unit} (
    Ensures-if (not (is_sleigh zlib pow data_bytes)) (λ t. panics)
      λ t.
        Ensures-if (not (get_or data_bytes 3 0 == 4)) (λ n. panics)
          λ n. decode_buffer-Ensures zlib pow (zlib (drop 4 data_bytes)))
