-- ===== src/Sleigh/File/Symbols/Lookup.antt =====
-- What the maps of a symbol table lead to.
use mizl_h_public.Base.{
  ℕ, zero, suc, ◌^◌, ◌≡◌, inl, inr, refl, ap, sym, ◌∙◌, not, ◌||◌, Bool-cases, List, [], ◌∷◌, ◌++◌,
  Option, none, some, length, get_elem?, get_elem?-lt, get_elem?-append_lt, get_elem?-append_end,
  get_elem?-append_one, get_elem?-set, set, leb, lt_i32, Outcome, ok, ◌>>=◌, IfOk, value, panicked,
  unfinished, IfOk->>=, IfOk-if, IfOk-ok, IfOk-any,
}
use mathlib.Core.Path.{subst}
use mizl_h_public.Gbf.Schema.{bytes_eq}
use mizl_h_public.Gbf.Tables.Defined.{bytes_eq-eq}
use mizl_h_public.Sleigh.Element
use mizl_h_public.Sleigh.Reader.{SlaElement, seek}
use mizl_h_public.Sleigh.Reader.Elements.{
  next_child, each_child, for_children, seek_elem_children_start, read_elem_end, skip_children,
}
use mizl_h_public.Sleigh.Expression.{int32}
use mizl_h_public.Sleigh.Attribute
use mizl_h_public.Sleigh.Symbol.{Symbol}
use mizl_h_public.Sleigh.Scope.{Scope, find_symbol, add_symbol, new_scope}
use mizl_h_public.Sleigh.File.Symbols.{
  SymbolTable, TableParts, start_parts, read_scope, read_head, enter_in, enter_symbol, read_symbol,
  new_symbol, read_table_part, new_symbol_table,
}

-- A name that a scope knows leads to a symbol of the table that has the name and lies in the scope.
abbrev pub Entered : List Scope → List Symbol → Type 0
Entered scopes symbols =
    (i : ℕ) (sc : Scope) (name : List ℕ) (k : ℕ)
    → get_elem? scopes i ≡ some sc
    → find_symbol sc.lookup name ≡ some k
    → (s : Symbol) × (get_elem? symbols k ≡ some s) × (s.name ≡ name) × (s.scope ≡ i)

-- A symbol behind the others changes nothing for them.
Entered-append :
    (scopes : List Scope) (symbols : List Symbol) (x : Symbol)
    → Entered scopes symbols
    → Entered scopes (symbols ++ (x ∷ []))
Entered-append scopes symbols x h i sc name k e f =
    let (s, p, q, r) = h i sc name k e f in
    (s, get_elem?-append_lt symbols (x ∷ []) k (get_elem?-lt symbols k s p) ∙ p, q, r)

-- A new scope knows no name.
Entered-scope :
    (scopes : List Scope) (symbols : List Symbol) (x : Scope)
    → x.lookup ≡ []
    → Entered scopes symbols
    → Entered (scopes ++ (x ∷ [])) symbols
unfolding find_symbol
Entered-scope scopes symbols x empty h i sc name k e f = elim (get_elem?-append_one scopes x i e) [
  | inl p ↦ h i sc name k p f
  | inr p ↦ absurd (none_there (ap (λ c. c.lookup) p ∙ empty) f)
]
  where
    none_there : sc.lookup ≡ [] → find_symbol sc.lookup name ≡ some k → ⊥
    none_there p g = cc (ap (λ l. find_symbol l name) p)

-- A symbol that is entered under its name in its scope.
Entered-enter :
    (scopes : List Scope) (symbols : List Symbol) (x : Symbol) (at : Scope)
    → get_elem? scopes x.scope ≡ some at
    → Entered scopes symbols
    → Entered (set scopes x.scope (add_symbol at x.name (length symbols))) (symbols ++ (x ∷ []))
unfolding find_symbol add_symbol
Entered-enter scopes symbols x at there h i sc name k e f =
    elim (get_elem?-set scopes x.scope (add_symbol at x.name (length symbols)) i e) [
      | inl p ↦ Entered-append scopes symbols x h i sc name k p f
      | inr (p, q) ↦ entry p (subst (λ c. find_symbol c.lookup name ≡ some k) q f)
    ]
  where
    entry :
        i ≡ x.scope
        → find_symbol (add_symbol at x.name (length symbols)).lookup name ≡ some k
        → (s : Symbol) × (get_elem? (symbols ++ (x ∷ [])) k ≡ some s)
          × (s.name ≡ name)
          × (s.scope ≡ i)
    entry p g = elim (Bool-cases (bytes_eq x.name name)) [
      | inl b ↦
          let k' : length symbols ≡ k = cc (rw b at g) in
          (
            x,
            subst (λ n. get_elem? (symbols ++ (x ∷ [])) n ≡ some x) k'
                (get_elem?-append_end symbols x),
            bytes_eq-eq x.name name b,
            sym p,
          )
      | inr b ↦
          Entered-append scopes symbols x h i at name k
            (subst (λ n. get_elem? scopes n ≡ some at) (sym p) there) (rw b at g)
    ]

abbrev IsEntered : TableParts → Type 0
IsEntered s = Entered s.scopes s.symbols

module _ (buffer : List ℕ) where
  -- A loop over children keeps what its body keeps.
  each_child-IfOk {ℓ} :
      {S : Type ℓ} (P : S → Type 0) (body : S → SlaElement → ℕ → Outcome (S × ℕ))
      → ((s : S) (c : SlaElement) (at : ℕ) → P s → IfOk (λ r. P r.0) (body s c at))
      → (fuel : ℕ) (s : S) (pos : ℕ) → P s
      → IfOk (λ r. P r.0) (each_child buffer body fuel s pos)
  unfolding each_child
  each_child-IfOk P body keeps zero s pos h = unfinished
  each_child-IfOk {S = S} P body keeps (suc fuel) s pos h =
      IfOk->>= (IfOk-any (next_child buffer pos))
        λ (c, at) t. after c at (λ s' p q. each_child-IfOk P body keeps fuel s' p q)
    where
      after :
          (c : Option SlaElement) (at : ℕ)
          → ((s' : S) (p : ℕ)
              → P s'
              → IfOk (λ (r : S × ℕ). P r.0) (each_child buffer body fuel s' p))
          → IfOk
              (λ (r : S × ℕ). P r.0)
              (elim c [
                | none ↦ ok (s, at)
                | some elem ↦ (body s elem at >>= λ (s', p). each_child buffer body fuel s' p)
              ])
      after none at again = value h
      after (some elem) at again = IfOk->>= (keeps s elem at h) λ (s', p) q. again s' p q

  enter_symbol-IsEntered :
      (s : TableParts) (x : Symbol) (infos : List (List ℕ × ℕ))
      → IsEntered s
      → IfOk IsEntered (enter_symbol buffer s x infos)
  unfolding enter_symbol enter_in
  enter_symbol-IsEntered s x [] h = panicked
  enter_symbol-IsEntered s x ((name, scope) ∷ infos) h = found (get_elem? s.scopes scope) refl
    where
      found :
          (o : Option Scope)
          → get_elem? s.scopes scope ≡ o
          → IfOk IsEntered (enter_in buffer s x name scope infos o)
      found none e = panicked
      found (some at) e =
          value (Entered-enter s.scopes s.symbols (record x { name = name; scope = scope }) at e h)

  module _ (pow : ℕ → ℕ → ℕ) where
    read_table_part-IsEntered :
        (s : TableParts) (c : SlaElement) (at : ℕ)
        → IsEntered s
        → IfOk (λ r. IsEntered r.0) (read_table_part buffer pow s c at)
    unfolding read_table_part read_scope read_head read_symbol new_scope
    read_table_part-IsEntered s c at h =
        IfOk-if (lt_i32 0 s.scopes_left)
          (λ t.
            IfOk-if (not (Element.same c.id Element.scope)) (λ n. panicked)
              λ n.
                IfOk->>=
                  (IfOk->>= {Q = λ r. r.0.lookup ≡ []} (IfOk-any (read_elem_end buffer c.id at))
                    λ r k. value refl)
                  λ (scope, p) k. value (Entered-scope s.scopes s.symbols scope k h))
          λ t.
            IfOk-if (lt_i32 0 s.symbol_heads_left)
              (λ t. IfOk->>= (IfOk-any (skip_children buffer c at)) λ p k. value h)
              λ t.
                IfOk-if (lt_i32 0 s.symbols_left)
                  (λ t. IfOk->>= (IfOk-any (new_symbol buffer pow c.id c at)) λ (x, p) k.
                    IfOk->>= (enter_symbol-IsEntered s x s.symbol_head_infos h) λ s' n. value n)
                  λ t. panicked

    table_Entered :
        (elem : SlaElement) (pos end : ℕ) (table : SymbolTable)
        → new_symbol_table buffer pow elem pos ≡ ok (table, end)
        → Entered table.scopes table.symbols
    unfolding new_symbol_table for_children
    table_Entered elem pos end table e = IfOk-ok (
        subst (IfOk (λ (r : SymbolTable × ℕ). Entered r.0.scopes r.0.symbols)) e (
          IfOk->>= (IfOk-any (seek_elem_children_start buffer elem pos)) λ p1 t.
            IfOk-if
              (leb (2 ^ 31) (int32 elem Attribute.scopesize)
                || leb (2 ^ 31) (int32 elem Attribute.symbolsize))
              (λ b. panicked)
              λ b.
                IfOk->>=
                  (IfOk->>= (IfOk-any (seek buffer p1 elem.epos)) λ at t.
                    each_child-IfOk IsEntered (read_table_part buffer pow) read_table_part-IsEntered
                      (suc (length buffer))
                      (start_parts (int32 elem Attribute.scopesize)
                        (int32 elem Attribute.symbolsize))
                      at (λ i sc name k p q. cc))
                  λ (s, p2) h.
                    IfOk->>= (IfOk-any (read_elem_end buffer elem.id p2)) λ r t. value h))

    -- In a table of symbols that is read, a name that a scope knows leads to a symbol of the
    -- table, and that symbol has the name and lies in the scope.
    pub new_symbol_table-Entered :
        (elem : SlaElement) (pos end : ℕ) (table : SymbolTable) (i : ℕ) (scope : Scope)
        (name : List ℕ) (k : ℕ)
        → new_symbol_table buffer pow elem pos ≡ ok (table, end)
        → get_elem? table.scopes i ≡ some scope
        → find_symbol scope.lookup name ≡ some k
        → (s : Symbol) × (get_elem? table.symbols k ≡ some s) × (s.name ≡ name) × (s.scope ≡ i)
    new_symbol_table-Entered elem pos end table i scope name k e =
        table_Entered elem pos end table e i scope name k
