-- ===== src/Sleigh/File/Varnodes.antt =====
-- The varnodes by their offset.
use mathlib.Core.List.{append-nil, append_assoc}
use mizl_h_public.Base.{
  ℕ, sym, arith, inl, inr, Bool-cases, ==_iff, ◌≡◌, refl, ap, ◌∙◌, Bool, true, false, List, [], ◌∷◌,
  ◌++◌, ◌==◌, if◌then◌else◌,
}
use mizl_h_public.Sleigh.Symbol.{Symbol, SymbolInner, varnode_sym}
use mizl_h_public.Sleigh.File.{Sleigh, push_id, push_varnode, varnodes_in, get_varnodes_by_offset}

-- The ids that the map has for an offset, none where it has no entry.
abbrev pub ids_at : List (ℕ × List ℕ) → ℕ → List ℕ
ids_at [] offset = []
ids_at ((o, ids) ∷ entries) offset = if o == offset then ids else ids_at entries offset

-- The ids of the varnodes at an offset, in the order of the symbols.
abbrev pub own_id : SymbolInner → ℕ → ℕ → List ℕ
own_id (varnode_sym v) id offset = if v.offset == offset then id ∷ [] else []
own_id _ id offset = []

abbrev pub varnode_ids : List Symbol → ℕ → List ℕ
varnode_ids [] offset = []
varnode_ids (sym ∷ symbols) offset = own_id sym.inner sym.id offset ++ varnode_ids symbols offset

same_key :
    (b : Bool) (ids rest : List ℕ) (id : ℕ)
    → (if b then ids ++ (id ∷ []) else rest)
      ≡ (if b then ids else rest) ++ (if b then id ∷ [] else [])
same_key true ids rest id = refl
same_key false ids rest id = sym (append-nil rest)

other_key :
    (b c : Bool) (ids rest more : List ℕ)
    → (b ≡ true → c ≡ false)
    → (if b then ids else rest ++ (if c then more else []))
      ≡ (if b then ids else rest) ++ (if c then more else [])
other_key true c ids rest more h = rw (h refl) (sym (append-nil ids))
other_key false c ids rest more h = refl

apart :
    (o offset wanted : ℕ)
    → (o == offset) ≡ false
    → (o == wanted) ≡ true
    → (offset == wanted) ≡ false
apart o offset wanted n h = ground (arith, n, h)

ids_at-push_id :
    (entries : List (ℕ × List ℕ)) (offset id wanted : ℕ)
    → ids_at (push_id entries offset id) wanted
      ≡ ids_at entries wanted ++ (if offset == wanted then id ∷ [] else [])
ids_at-push_id [] offset id wanted = refl
ids_at-push_id ((o, ids) ∷ entries) offset id wanted = elim (Bool-cases (o == offset)) [
  | inl e ↦
      rw (e, sym ((==_iff o offset).0 e)) (same_key (o == wanted) ids (ids_at entries wanted) id)
  | inr n ↦
      rw (n, ids_at-push_id entries offset id wanted)
        (other_key (o == wanted) (offset == wanted) ids (ids_at entries wanted) (id ∷ [])
          (apart o offset wanted n))
]

ids_at-push_varnode :
    (inner : SymbolInner) (entries : List (ℕ × List ℕ)) (id wanted : ℕ)
    → ids_at (push_varnode inner id entries) wanted
      ≡ ids_at entries wanted ++ own_id inner id wanted
ids_at-push_varnode (varnode_sym v) entries id wanted = ids_at-push_id entries v.offset id wanted
ids_at-push_varnode _ entries id wanted = sym (append-nil (ids_at entries wanted))

ids_at-varnodes_in :
    (symbols : List Symbol) (entries : List (ℕ × List ℕ)) (wanted : ℕ)
    → ids_at (varnodes_in entries symbols) wanted
      ≡ ids_at entries wanted ++ varnode_ids symbols wanted
ids_at-varnodes_in [] entries wanted = sym (append-nil (ids_at entries wanted))
ids_at-varnodes_in (s ∷ symbols) entries wanted =
    ids_at-varnodes_in symbols (push_varnode s.inner s.id entries) wanted
    ∙ ap (λ ids. ids ++ varnode_ids symbols wanted)
        (ids_at-push_varnode s.inner entries s.id wanted)
    ∙ append_assoc (ids_at entries wanted) (own_id s.inner s.id wanted) (varnode_ids symbols wanted)

-- For every offset, the map has the ids of the varnodes at it, in the order of the symbols, and no
-- other ids.
pub get_varnodes_by_offset-ids :
    (sleigh : Sleigh) (offset : ℕ)
    → ids_at (get_varnodes_by_offset sleigh) offset ≡ varnode_ids sleigh.symbol_table.symbols offset
unfolding get_varnodes_by_offset
get_varnodes_by_offset-ids sleigh offset = ids_at-varnodes_in sleigh.symbol_table.symbols [] offset
