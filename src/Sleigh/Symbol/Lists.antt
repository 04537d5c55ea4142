-- ===== src/Sleigh/Symbol/Lists.antt =====
-- Symbols with a list of children: sym_valuemap.rs, sym_varlist.rs and sym_subtable.rs of
-- mizl_core/src/sleigh.
pub mod Ends
use mizl_h_public.Base.{
  ℕ, ◌-◌, ◌%◌, Bool, not, List, [], ◌∷◌, ◌++◌, Option, none, some, ◌==◌, if◌then◌else◌, u32_mod,
  sub32, lt_i32, Outcome, ok, panic, ◌>>=◌,
}
use mizl_h_public.Sleigh.Element
use mizl_h_public.Sleigh.Element.{ElementId}
use mizl_h_public.Sleigh.Attribute
use mizl_h_public.Sleigh.Reader.{SlaElement}
use mizl_h_public.Sleigh.Reader.Elements.{
  as_int_or, as_uint_or, seek_elem_children_start, read_elem_end, for_children,
}
use mizl_h_public.Sleigh.Expression.{Expression, new_expression, int32}
use mizl_h_public.Sleigh.Decision.{Decision, new_decision}
use mizl_h_public.Sleigh.Constructor.{Constructor, new_constructor}
use mizl_h_public.Sleigh.Symbol.{
  Symbol, SymbolInner, valuemap_sym, varlist_sym, subtable_sym, symbol_of, u32_max,
}

module _ (buffer : List ℕ) where
  -- The expression and the list that a loop over the children fills.
  abbrev pub Table : Type 0
  Table = Option Expression × List ℕ

  -- The first child is the expression.
  unfoldable pub first_expression : List ℕ → SlaElement → ℕ → Outcome (Table × ℕ)
  unfolding new_expression
  first_expression list child pos = do
    (e, pos') ← new_expression buffer child pos
    ok ((some e, list), pos')

  unfoldable pub push_value : Option Expression → List ℕ → SlaElement → ℕ → Outcome (Table × ℕ)
  unfolding read_elem_end
  push_value patexp list child pos = do
    (_, pos') ← read_elem_end buffer child.id pos
    ok ((patexp, list), pos')

  -- A child that is no entry of the table is left as it is.
  unfoldable pub read_valuetab : Table → SlaElement → ℕ → Outcome (Table × ℕ)
  unfolding as_int_or first_expression push_value
  read_valuetab (none, values) child pos = first_expression values child pos
  read_valuetab (some e, values) child pos =
      let val = as_int_or child Attribute.val 0xbadbeef in
      let pushed = push_value (some e) (values ++ (val ∷ [])) child pos in
      if Element.same child.id Element.valuetab then pushed else ok ((some e, values), pos)

  unfoldable pub read_var : Table → SlaElement → ℕ → Outcome (Table × ℕ)
  unfolding as_uint_or first_expression push_value
  read_var (none, var_ids) child pos = first_expression var_ids child pos
  read_var (some e, var_ids) child pos =
      let var_id = as_uint_or child Attribute.id u32_max % u32_mod in
      let var = push_value (some e) (var_ids ++ (var_id ∷ [])) child pos in
      let null = push_value (some e) (var_ids ++ (u32_max ∷ [])) child pos in
      if Element.same child.id Element.var
      then var
      else if Element.same child.id Element.null
      then null
      else ok ((some e, var_ids), pos)

  -- The symbol of a table: without an expression the program panics.
  unfoldable pub close_table :
      (Expression → List ℕ → SymbolInner) → SlaElement → Table → ℕ → Outcome (Symbol × ℕ)
  unfolding read_elem_end symbol_of
  close_table make elem (none, list) pos = panic
  close_table make elem (some e, list) pos = do
    (_, pos') ← read_elem_end buffer elem.id pos
    ok (symbol_of elem (make e list), pos')

  unfoldable pub new_valuemap_sym : SlaElement → ℕ → Outcome (Symbol × ℕ)
  unfolding seek_elem_children_start for_children read_valuetab close_table
  new_valuemap_sym elem pos = do
    p1 ← seek_elem_children_start buffer elem pos
    (table, p2) ← for_children buffer elem read_valuetab (none, []) p1
    close_table (λ e list. valuemap_sym (record { patexp = e; values = list })) elem table p2

  unfoldable pub new_varlist_sym : SlaElement → ℕ → Outcome (Symbol × ℕ)
  unfolding seek_elem_children_start for_children read_var close_table
  new_varlist_sym elem pos = do
    p1 ← seek_elem_children_start buffer elem pos
    (table, p2) ← for_children buffer elem read_var (none, []) p1
    close_table (λ e list. varlist_sym (record { patexp = e; var_ids = list })) elem table p2

  -- `ctors_left`, `decisions_left`, the constructors and the decision.
  pub record Subtable : Type 0 where
    pub ctors_left : ℕ
    pub decisions_left : ℕ
    pub ctors : List Constructor
    pub decision : Option Decision

  module _ (pow : ℕ → ℕ → ℕ) where
    unfoldable pub read_ctor : Subtable → SlaElement → ℕ → Outcome (Subtable × ℕ)
    unfolding new_constructor
    read_ctor s child pos = do
      let read : Outcome (Subtable × ℕ) = do
        (c, pos') ← new_constructor buffer child pos
        ok (record s { ctors_left = sub32 s.ctors_left 1; ctors = s.ctors ++ (c ∷ []) }, pos')
      if not (Element.same child.id Element.constructor) then panic else read

    unfoldable pub read_decision : Subtable → SlaElement → ℕ → Outcome (Subtable × ℕ)
    unfolding new_decision
    read_decision s child pos = do
      let read : Outcome (Subtable × ℕ) = do
        (d, pos') ← new_decision buffer pow child pos
        ok (record s { decisions_left = s.decisions_left - 1; decision = some d }, pos')
      if not (Element.same child.id Element.decision) then panic else read

    unfoldable pub read_subtable_part : Subtable → SlaElement → ℕ → Outcome (Subtable × ℕ)
    unfolding read_ctor read_decision
    read_subtable_part s child pos =
        let ctor = read_ctor s child pos in
        let decision = read_decision s child pos in
        if lt_i32 0 s.ctors_left
        then ctor
        else if lt_i32 0 s.decisions_left
        then decision
        else panic

    unfoldable pub close_subtable :
        SlaElement → List Constructor → Option Decision → ℕ → Outcome (Symbol × ℕ)
    unfolding read_elem_end symbol_of
    close_subtable elem ctors none pos = panic
    close_subtable elem ctors (some d) pos = do
      (_, pos') ← read_elem_end buffer elem.id pos
      ok (symbol_of elem (subtable_sym (record { ctors = ctors; decision = d })), pos')

    unfoldable pub new_subtable_sym : SlaElement → ℕ → Outcome (Symbol × ℕ)
    unfolding seek_elem_children_start for_children read_subtable_part close_subtable
    new_subtable_sym elem pos = do
      let start : Subtable = record {
        ctors_left = int32 elem Attribute.numct;
        decisions_left = 1;
        ctors = [];
        decision = none;
      }
      p1 ← seek_elem_children_start buffer elem pos
      (s, p2) ← for_children buffer elem read_subtable_part start p1
      close_subtable elem s.ctors s.decision p2
