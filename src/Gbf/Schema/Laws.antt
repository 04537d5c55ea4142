-- ===== src/Gbf/Schema/Laws.antt =====
-- How far the reading of a record of fixed length moves the address.
use mizl_h_public.Base.{
  ℕ, suc, ◌+◌, ◌*◌, ◌^◌, ◌≤◌, ◌<◌, ◌≡◌, ap, sym, ◌∙◌, List, [], ◌∷◌, length, lt_i32, add32,
  replicate, ok, >>=-eq-ok, arith, Bool-cases, inl, inr, false, none,
}
use mizl_h_public.MemView.Codec.{Endianness, big_endian}
use mizl_h_public.MemView.Trait.{
  MemReader, read_word, read_u8, read_i8, read_i16, read_i32, read_i64,
}
use mizl_h_public.Gbf.Record.{
  GbfFieldKind, byte, short, int, long, string, bytes, boolean, GbfFieldValue, GbfRecord, get_len,
}
use mizl_h_public.Gbf.Schema.{
  GbfTableSchema, value_len_from, get_value_len, read_value, read_values, read_columns, read_record,
}

-- A read that succeeds moves the address behind the bytes that were asked for.
unfoldable pub Moves : MemReader → Type 0
Moves mv =
    (addr count : ℕ) (out_data : List ℕ) (r : ℕ × List ℕ)
    → count < 2 ^ 31
    → mv.read_bytes addr out_data count ≡ ok r
    → r.0 ≡ addr + count

module _ (mv : MemReader) (moves : Moves mv) where
  word_moves :
      (n at at' v : ℕ) (e : Endianness)
      → n < 2 ^ 31
      → read_word mv n at e ≡ ok (at', v)
      → at' ≡ at + n
  unfolding read_word Moves
  word_moves n at at' v e small h =
      let (r, p, q) = >>=-eq-ok (mv.read_bytes at (replicate n 0) n) _ h in
      let same : r.0 ≡ at' = cc in sym same ∙ moves at n (replicate n 0) r small p

  byte_moves : (at at' v : ℕ) → read_u8 mv at ≡ ok (at', v) → at' ≡ at + 1
  unfolding read_u8 Moves
  byte_moves at at' v h =
      let (r, p, q) = >>=-eq-ok (mv.read_bytes at (0 ∷ []) 1) _ h in
      let same : r.0 ≡ at' = cc in sym same ∙ moves at 1 (0 ∷ []) r (omega arith) p

  value_moves :
      (kind : GbfFieldKind) (at at' : ℕ) (v : GbfFieldValue)
      → lt_i32 (get_len kind) 0 ≡ false
      → read_value mv kind at ≡ ok (at', v)
      → at' ≡ at + get_len kind
  unfolding read_value get_len read_i8 read_i16 read_i32 read_i64
  value_moves boolean at at' v l h =
      let (r, p, q) = >>=-eq-ok (read_u8 mv at) _ h in
      let same : r.0 ≡ at' = cc in sym same ∙ byte_moves at r.0 r.1 p
  value_moves byte at at' v l h =
      let (r, p, q) = >>=-eq-ok (read_u8 mv at) _ h in
      let same : r.0 ≡ at' = cc in sym same ∙ byte_moves at r.0 r.1 p
  value_moves short at at' v l h =
      let (r, p, q) = >>=-eq-ok (read_word mv 2 at big_endian) _ h in
      let same : r.0 ≡ at' = cc in sym same ∙ word_moves 2 at r.0 r.1 big_endian (omega arith) p
  value_moves int at at' v l h =
      let (r, p, q) = >>=-eq-ok (read_word mv 4 at big_endian) _ h in
      let same : r.0 ≡ at' = cc in sym same ∙ word_moves 4 at r.0 r.1 big_endian (omega arith) p
  value_moves long at at' v l h =
      let (r, p, q) = >>=-eq-ok (read_word mv 8 at big_endian) _ h in
      let same : r.0 ≡ at' = cc in sym same ∙ word_moves 8 at r.0 r.1 big_endian (omega arith) p
  value_moves string at at' v l h = absurd (cc)
  value_moves bytes at at' v l h = absurd (cc)

  short_kind : (kind : GbfFieldKind) → lt_i32 (get_len kind) 0 ≡ false → get_len kind ≤ 8
  unfolding get_len
  short_kind boolean l = omega arith
  short_kind byte l = omega arith
  short_kind short l = omega arith
  short_kind int l = omega arith
  short_kind long l = omega arith
  short_kind string l = absurd (cc)
  short_kind bytes l = absurd (cc)

  lengths :
      (kinds : List GbfFieldKind) (len at at' : ℕ) (vs : List GbfFieldValue)
      → len + 8 * length kinds < 2 ^ 31
      → value_len_from len kinds < 2 ^ 31
      → read_values mv kinds at ≡ ok (at', vs)
      → (at' + len ≡ at + value_len_from len kinds) × (length vs ≡ length kinds)
  unfolding value_len_from read_values
  lengths [] len at at' vs few fixed h = (cc, cc)
  lengths (kind ∷ kinds) len at at' vs few fixed h = elim (Bool-cases (lt_i32 (get_len kind) 0)) [
    | inl e ↦ let f = rw e at fixed in absurd (omega arith)
    | inr e ↦
        let (r, p, q) = >>=-eq-ok (read_value mv kind at) _ h in
        let (s, p', q') = >>=-eq-ok (read_values mv kinds r.0) _ q in
        let low : get_len kind ≤ 8 = short_kind kind e in
        let wraps : add32 len (get_len kind) ≡ len + get_len kind = omega arith in
        let f = rw (e, wraps) at fixed in
        let (i1, i2) = lengths kinds (len + get_len kind) r.0 s.0 s.1 (omega arith) f p' in
        let same : s.0 ≡ at' = cc in
        let whole : r.1 ∷ s.1 ≡ vs = cc in
        rw (e, wraps)
          (
            omega (arith, same, i1, value_moves kind at r.0 r.1 e p),
            ap length (sym whole) ∙ ap suc i2,
          )
  ]

  -- In a view whose successful reads move the address by the number of bytes, a record that is
  -- read, of a table without sparse columns and with fields of fixed length only (`get_value_len`
  -- is not -1), has the key that was given and as many values as the table has columns, and ends
  -- `get_value_len` bytes behind its start. (For a table with fewer than 2 ^ 28 columns.)
  pub read_record-get_value_len :
      (schema : GbfTableSchema) (key : GbfFieldValue) (at at' : ℕ) (r : GbfRecord)
      → schema.sparse_columns ≡ none
      → length schema.kinds < 2 ^ 28
      → get_value_len schema < 2 ^ 31
      → read_record mv schema key at ≡ ok (at', r)
      → (at' ≡ at + get_value_len schema) × (length r.values ≡ length schema.kinds) × (r.key ≡ key)
  unfolding get_value_len read_record read_columns
  read_record-get_value_len schema key at at' r dense few fixed h =
      let h' = rw dense at h in
      let (v, p, q) = >>=-eq-ok (read_values mv schema.kinds at) _ h' in
      let (i, j) = lengths schema.kinds 0 at v.0 v.1 (omega arith) fixed p in
      let same : v.0 ≡ at' = cc in
      let whole : record { key = key; values = v.1 } ≡ r = cc in
      (
        omega (arith, i, same),
        ap (λ (s : GbfRecord). length s.values) (sym whole) ∙ j,
        ap (λ (s : GbfRecord). s.key) (sym whole),
      )
