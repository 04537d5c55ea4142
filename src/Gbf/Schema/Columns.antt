-- ===== src/Gbf/Schema/Columns.antt =====
-- How many values a record has, with sparse columns or without.
use mizl_h_public.Base.{
  ℕ, zero, suc, ◌≡◌, ap, sym, ◌∙◌, List, [], ◌∷◌, Option, none, some, length, get_elem?, length-set,
  set, ok, >>=-eq-ok, if◌then◌else◌,
}
use mizl_h_public.MemView.Trait.{MemReader, read_u8}
use mizl_h_public.Gbf.Record.{GbfFieldKind, GbfFieldValue, GbfRecord}
use mizl_h_public.Gbf.Schema.{
  GbfTableSchema, read_value, read_kind, read_values, read_required, read_optional, read_columns,
  read_record, contains, default_value,
}

module _ (mv : MemReader) where
  length-read_values :
      (kinds : List GbfFieldKind) (at at' : ℕ) (vs : List GbfFieldValue)
      → read_values mv kinds at ≡ ok (at', vs)
      → length vs ≡ length kinds
  unfolding read_values
  length-read_values [] at at' vs h = cc
  length-read_values (kind ∷ kinds) at at' vs h =
      let (r, p, q) = >>=-eq-ok (read_value mv kind at) _ h in
      let (s, p', q') = >>=-eq-ok (read_values mv kinds r.0) _ q in
      let whole : r.1 ∷ s.1 ≡ vs = cc in
      ap length (sym whole) ∙ ap suc (length-read_values kinds r.0 s.0 s.1 p')

  length-read_required :
      (sparse : List ℕ) (i : ℕ) (kinds : List GbfFieldKind) (at at' : ℕ) (vs : List GbfFieldValue)
      → read_required mv sparse i kinds at ≡ ok (at', vs)
      → length vs ≡ length kinds
  unfolding read_required
  length-read_required sparse i [] at at' vs h = cc
  length-read_required sparse i (kind ∷ kinds) at at' vs h =
      let (r, p, q) =
        >>=-eq-ok (if contains i sparse then ok (at, default_value kind) else read_value mv kind at)
          _ h in
      let (s, p', q') = >>=-eq-ok (read_required mv sparse (suc i) kinds r.0) _ q in
      let whole : r.1 ∷ s.1 ≡ vs = cc in
      ap length (sym whole) ∙ ap suc (length-read_required sparse (suc i) kinds r.0 s.0 s.1 p')

  length-read_optional :
      (n : ℕ) (kinds : List GbfFieldKind) (values : List GbfFieldValue) (at at' : ℕ)
      (vs : List GbfFieldValue)
      → read_optional mv n kinds values at ≡ ok (at', vs)
      → length vs ≡ length values
  unfolding read_optional
  length-read_optional zero kinds values at at' vs h = cc
  length-read_optional (suc n) kinds values at at' vs h =
      let (r, p, q) = >>=-eq-ok (read_u8 mv at) _ h in
      let (s, p', q') = >>=-eq-ok (read_kind mv (get_elem? kinds r.1) r.0) _ q in
      length-read_optional n kinds (set values r.1 s.1) s.0 at' vs q' ∙ length-set values r.1 s.1

  length-read_columns :
      (sparse : Option (List ℕ)) (kinds : List GbfFieldKind) (at at' : ℕ) (vs : List GbfFieldValue)
      → read_columns mv sparse kinds at ≡ ok (at', vs)
      → length vs ≡ length kinds
  unfolding read_columns
  length-read_columns none kinds at at' vs h = length-read_values kinds at at' vs h
  length-read_columns (some sparse) kinds at at' vs h =
      let (r, p, q) = >>=-eq-ok (read_required mv sparse 0 kinds at) _ h in
      let (s, p', q') = >>=-eq-ok (read_u8 mv r.0) _ q in
      length-read_optional s.1 kinds r.1 s.0 at' vs q'
      ∙ length-read_required sparse 0 kinds at r.0 r.1 p

  -- A record that is read, of a table with sparse columns or without, has the key that was given
  -- and as many values as the table has columns.
  pub length-read_record :
      (schema : GbfTableSchema) (key : GbfFieldValue) (at at' : ℕ) (r : GbfRecord)
      → read_record mv schema key at ≡ ok (at', r)
      → (length r.values ≡ length schema.kinds) × (r.key ≡ key)
  unfolding read_record
  length-read_record schema key at at' r h =
      let (s, p, q) = >>=-eq-ok (read_columns mv schema.sparse_columns schema.kinds at) _ h in
      let n = length-read_columns schema.sparse_columns schema.kinds at s.0 s.1 p in
      let whole : record { key = key; values = s.1 } ≡ r = cc in
      (
        ap (λ (x : GbfRecord). length x.values) (sym whole) ∙ n,
        ap (λ (x : GbfRecord). x.key) (sym whole),
      )
