-- ===== src/Examples/Packed.antt =====
-- A small sleigh file with one symbol, and numbers as text.
use mizl_h_public.Base.{
  ℕ, ◌%◌, ◌^◌, ◌≡◌, ◌≢◌, ◌-◌, refl, inr, true, List, [], ◌∷◌, ◌++◌, some, get_elem?, arith, u64_mod,
  ok, panic, no_fuel,
}
use mizl_h_public.Shared.HexText.{i64_to_str_fast}
use mizl_h_public.Shared.HexText.Laws
use mizl_h_public.Shared.HexText.Laws.{sign_text, hex_value}
use mizl_h_public.Gbf.Text.{from_utf8}
use mizl_h_public.Sleigh.Element
use mizl_h_public.Sleigh.Attribute
use mizl_h_public.Sleigh.Reader.{SlaElement, positive_signed_integer, int_value}
use mizl_h_public.Sleigh.Symbol.{Symbol, userop}
use mizl_h_public.Sleigh.Scope.{Scope, find_symbol}
use mizl_h_public.Sleigh.File.{new_sleigh}
use mizl_h_public.Sleigh.File.Ends
use mizl_h_public.Sleigh.File.Symbols.{SymbolTable, new_symbol_table}
use mizl_h_public.Sleigh.File.Symbols.Lookup
use mizl_h_public.Sleigh.File.Symbols.Lookup.{Entered}

-- A table with a scope, the head of a user operation `A`, and the operation.
abbrev table_start : List ℕ
table_start = 96 ∷ 38 ∷ 224 ∷ 45 ∷ 33 ∷ 1 ∷ 224 ∷ 46 ∷ 33 ∷ 1 ∷ []

abbrev table_children : List ℕ
table_children = 86 ∷ 150 ∷ 90 ∷ 204 ∷ 113 ∷ 1 ∷ 65 ∷ 154 ∷ 89 ∷ 153 ∷ []

abbrev table_bytes : List ℕ
table_bytes = table_start ++ table_children ++ (160 ∷ 38 ∷ [])

abbrev sla_bytes : List ℕ
sla_bytes =
    (0x73 ∷ 0x6c ∷ 0x61 ∷ 4 ∷ [])
    ++ (96 ∷ 33 ∷ 96 ∷ 35 ∷ 160 ∷ 35 ∷ 96 ∷ 34 ∷ 160 ∷ 34 ∷ [])
    ++ table_bytes

abbrev wrapping_pow : ℕ → ℕ → ℕ
wrapping_pow b n = (b ^ n) % u64_mod

abbrev table_elem : SlaElement
table_elem = record {
  start = true;
  id = Element.symbol_table;
  spos = 0;
  apos = 2;
  epos = 10;
  attrs =
      (record {
        id = Attribute.scopesize;
        kind = positive_signed_integer;
        spos = 2;
        value = int_value 1;
      })
      ∷ (record {
        id = Attribute.symbolsize;
        kind = positive_signed_integer;
        spos = 6;
        value = int_value 1;
      })
      ∷ [];
}

abbrev table : SymbolTable
table = record {
  scopes = (record { id = 0; parent = 0; lookup = (65 ∷ [], 0) ∷ [] }) ∷ [];
  symbols =
      (record { name = 65 ∷ []; id = 0; scope = 0; inner = userop (record { index = 0 }) }) ∷ [];
}

table_read : new_symbol_table table_bytes wrapping_pow table_elem 10 ≡ ok (table, 22)
unfolding new_symbol_table from_utf8
table_read = refl

table_scope_finds : find_symbol ((65 ∷ [], 0) ∷ []) (65 ∷ []) ≡ some 0
unfolding find_symbol
table_scope_finds = refl

new_sleigh-ends_example : new_sleigh some wrapping_pow sla_bytes ≢ no_fuel
new_sleigh-ends_example = Ends.new_sleigh-ends some wrapping_pow sla_bytes

abbrev table_scope : Scope
table_scope = record { id = 0; parent = 0; lookup = (65 ∷ [], 0) ∷ [] }

new_symbol_table-Entered_example :
    (s : Symbol) × (get_elem? table.symbols 0 ≡ some s) × (s.name ≡ 65 ∷ []) × (s.scope ≡ 0)
new_symbol_table-Entered_example =
    Lookup.new_symbol_table-Entered table_bytes wrapping_pow table_elem 10 22 table 0 table_scope
      (65 ∷ []) 0 table_read refl table_scope_finds

-- Numbers as text.
i64_to_str_fast-digits_example :
    (digits : List ℕ) × (i64_to_str_fast (u64_mod - 255)
      ≡ ok (sign_text (u64_mod - 255) ++ (48 ∷ 120 ∷ digits)))
    × (hex_value 0 digits ≡ 255)
i64_to_str_fast-digits_example =
    Laws.i64_to_str_fast-digits (u64_mod - 255) (inr (omega arith, omega arith))

i64_to_str_fast-panics_example : i64_to_str_fast (2 ^ 63) ≡ panic
i64_to_str_fast-panics_example = Laws.i64_to_str_fast-panics (2 ^ 63) (omega arith) (omega arith)
