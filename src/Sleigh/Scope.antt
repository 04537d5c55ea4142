-- ===== src/Sleigh/Scope.antt =====
-- Scopes: the map from a name to the index of a symbol, of mizl_core/src/sleigh/sla_file.rs. The
-- map is a list of names with their indices, the entry that was inserted last in front.
use mizl_h_public.Base.{ℕ, List, [], ◌∷◌, Option, none, some, if◌then◌else◌, Outcome, ok, ◌>>=◌}
use mizl_h_public.Gbf.Schema.{bytes_eq}
use mizl_h_public.Sleigh.Attribute
use mizl_h_public.Sleigh.Reader.{SlaElement}
use mizl_h_public.Sleigh.Reader.Elements.{read_elem_end}
use mizl_h_public.Sleigh.Expression.{uint32}

pub record Scope : Type 0 where
  pub id : ℕ
  pub parent : ℕ
  pub lookup : List (List ℕ × ℕ)

-- `lookup.get(name)`
unfoldable pub find_symbol : List (List ℕ × ℕ) → List ℕ → Option ℕ
unfolding bytes_eq
find_symbol [] name = none
find_symbol ((n, i) ∷ entries) name = if bytes_eq n name then some i else find_symbol entries name

unfoldable pub add_symbol : Scope → List ℕ → ℕ → Scope
add_symbol scope name index = record scope { lookup = (name, index) ∷ scope.lookup }

-- The parent is read from the attribute of the name.
unfoldable pub new_scope : List ℕ → SlaElement → ℕ → Outcome (Scope × ℕ)
unfolding read_elem_end
new_scope buffer elem pos = do
  (_, pos') ← read_elem_end buffer elem.id pos
  ok (
    record { id = uint32 elem Attribute.id; parent = uint32 elem Attribute.name; lookup = [] },
    pos',
  )
