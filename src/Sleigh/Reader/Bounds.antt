-- ===== src/Sleigh/Reader/Bounds.antt =====
-- Where a read of the packed format ends: at its start or behind it, inside the buffer; and no read
-- runs out of rounds.
use mizl_h_public.Base.{
  ℕ, zero, suc, ◌≤◌, ◌<◌, ◌≡◌, refl, not, ◌&&◌, List, Option, none, some, length, get_elem?,
  get_elem?-lt, ltb, leb, ◌==◌, ltb→lt, leb→le, both_true, arith, add64, Outcome, ◌>>=◌, Ensures,
  holds, fails, panics, Ensures->>=, Ensures-if,
}
use mizl_h_public.Sleigh.Reader.{
  AttributeKind, no_kind, boolean, positive_signed_integer, negative_signed_integer,
  unsigned_integer, basic_address_space, special_address_space, string, get_attribute_type,
  get_attribute_size, get_element_type, kind_of, is_extended_elem, text_of, byte_at, read_u8, seek,
  sized_int_from, read_sized_int, read_attr_bool, read_attr_int, read_attr_uint, read_attr_str,
  read_attr_space, read_value, read_id, read_attr,
}

module _ {ℓ} {A : Type ℓ} where
  -- The call ends at `from` or behind it, and no further than `len`, if it has a value.
  abbrev pub Within : ℕ → ℕ → Outcome (A × ℕ) → Type ℓ
  Within len from call = Ensures (λ r. (from ≤ r.1) × (r.1 ≤ len)) call

  pub Within-weaken :
      {len from at : ℕ} {call : Outcome (A × ℕ)}
      → from ≤ at
      → Within len at call
      → Within len from call
  Within-weaken h (holds w) = holds (omega (arith, w.0), w.1)
  Within-weaken h fails = fails
  Within-weaken h panics = panics

module _ {ℓ κ} {A : Type ℓ} {B : Type κ} where
  -- One read after another.
  pub Within->>= :
      {len from : ℕ} {call : Outcome (A × ℕ)} (next : A × ℕ → Outcome (B × ℕ))
      → Within len from call
      → ((a : A) (at : ℕ) → from ≤ at → at ≤ len → Within len at (next (a, at)))
      → Within len from (call >>= next)
  Within->>= next w k = Ensures->>= w λ (a, at) h. Within-weaken h.0 (k a at h.0 h.1)

module _ (buffer : List ℕ) where
  abbrev pub len : ℕ
  len = length buffer

  pub read_u8-Within : (pos : ℕ) → Within len (suc pos) (read_u8 buffer pos)
  unfolding read_u8
  read_u8-Within pos = at_byte (get_elem? buffer pos) refl
    where
      at_byte :
          (b : Option ℕ) → get_elem? buffer pos ≡ b → Within len (suc pos) (byte_at buffer pos b)
      at_byte none e = panics
      at_byte (some b) e = holds (omega arith, omega (arith, get_elem?-lt buffer pos b e))

  pub seek-Ensures : (pos to : ℕ) → Ensures (λ p. (p ≡ to) × (pos < len)) (seek buffer pos to)
  unfolding seek
  seek-Ensures pos to =
      Ensures-if (ltb pos (length buffer)) (λ e. holds (refl, ltb→lt _ _ e)) λ e. panics

  text_of-Ensures : (o : Option (List ℕ)) → Ensures (λ _. Unit) (text_of buffer o)
  text_of-Ensures none = panics
  text_of-Ensures (some v) = holds tt

  pub sized_int_from-Within :
      (size res pos : ℕ) → pos ≤ len → Within len pos (sized_int_from buffer size res pos)
  unfolding sized_int_from
  sized_int_from-Within zero res pos h = holds (omega arith, h)
  sized_int_from-Within (suc size) res pos h =
      Within-weaken (omega arith)
        (Within->>= _ (read_u8-Within pos) λ b at u v. sized_int_from-Within size _ at v)

  read_sized_int-Within :
      (size pos : ℕ) → pos ≤ len → Within len pos (read_sized_int buffer size pos)
  unfolding read_sized_int
  read_sized_int-Within size pos h = sized_int_from-Within size 0 pos h

  module _ (pos : ℕ) (h : pos ≤ len) where
    sized : (byte2 : ℕ) → Within len pos (read_sized_int buffer (get_attribute_size byte2) pos)
    sized byte2 = read_sized_int-Within (get_attribute_size byte2) pos h

    read_attr_int-Within : (byte2 : ℕ) → Within len pos (read_attr_int buffer byte2 pos)
    unfolding read_attr_int
    read_attr_int-Within byte2 =
        Ensures-if (get_attribute_type byte2 == 2) (λ e. sized byte2)
          λ e.
            Ensures-if (get_attribute_type byte2 == 3)
              (λ e. Within->>= _ (sized byte2) λ v at u w. holds (omega arith, w)) λ e. panics

    read_attr_uint-Within : (byte2 : ℕ) → Within len pos (read_attr_uint buffer byte2 pos)
    unfolding read_attr_uint
    read_attr_uint-Within byte2 =
        Ensures-if (get_attribute_type byte2 == 4) (λ e. sized byte2) λ e. panics

    read_attr_space-Within : (byte2 : ℕ) → Within len pos (read_attr_space buffer byte2 pos)
    unfolding read_attr_space
    read_attr_space-Within byte2 =
        Ensures-if (get_attribute_type byte2 == 5)
          (λ e. Within->>= _ (sized byte2) λ v at u w. holds (omega arith, w))
          λ e.
            Ensures-if (get_attribute_type byte2 == 6)
              (λ e. Within->>= _ (sized byte2) λ v at u w. holds (omega arith, w)) λ e. panics

    read_attr_str-Within : (byte2 : ℕ) → Within len pos (read_attr_str buffer byte2 pos)
    unfolding read_attr_str
    read_attr_str-Within byte2 =
        Ensures-if (get_attribute_type byte2 == 7)
          (λ e. Within->>= _ (sized byte2) λ size at u w.
            Ensures-if (leb at (add64 at size) && leb (add64 at size) (length buffer))
              (λ e. Ensures->>= (seek-Ensures at (add64 at size)) λ end r.
                Ensures->>= (text_of-Ensures _) λ v t.
                  let b = both_true (leb at (add64 at size)) _ e in
                  let lo = leb→le _ _ b.0 in
                  let hi = leb→le _ _ b.1 in holds {a = (v, end)} (rw r.0 lo, rw r.0 hi))
              λ e. panics)
          λ e. panics

    read_value-Within :
        (kind : AttributeKind) (byte2 : ℕ) → Within len pos (read_value buffer kind byte2 pos)
    unfolding read_value read_attr_bool
    read_value-Within no_kind byte2 = holds (omega arith, h)
    read_value-Within special_address_space byte2 = holds (omega arith, h)
    read_value-Within boolean byte2 =
        Ensures->>=
          (Ensures-if {P = λ _. Unit} (get_attribute_type byte2 == 1) (λ e. holds tt) λ e. panics)
          λ v t. holds (omega arith, h)
    read_value-Within positive_signed_integer byte2 =
        Within->>= _ (read_attr_int-Within byte2) λ v at u w. holds (omega arith, w)
    read_value-Within negative_signed_integer byte2 =
        Within->>= _ (read_attr_int-Within byte2) λ v at u w. holds (omega arith, w)
    read_value-Within unsigned_integer byte2 =
        Within->>= _ (read_attr_uint-Within byte2) λ v at u w. holds (omega arith, w)
    read_value-Within string byte2 =
        Within->>= _ (read_attr_str-Within byte2) λ v at u w. holds (omega arith, w)
    read_value-Within basic_address_space byte2 =
        Within->>= _ (read_attr_space-Within byte2) λ v at u w. holds (omega arith, w)

    pub read_id-Within : (byte1 : ℕ) → Within len pos (read_id buffer byte1 pos)
    unfolding read_id
    read_id-Within byte1 =
        Ensures-if (is_extended_elem byte1)
          (λ e.
            Within-weaken (omega arith)
              (Within->>= _ (read_u8-Within pos) λ b at u w. holds (omega arith, w)))
          λ e. holds (omega arith, h)

  pub read_attr-Within : (pos : ℕ) → Within len (suc pos) (read_attr buffer pos)
  unfolding read_attr
  read_attr-Within pos = Within->>= _ (read_u8-Within pos) λ byte1 p1 u1 w1.
      Ensures-if (not (get_element_type byte1 == 3)) (λ e. panics)
        λ e. Within->>= _ (read_id-Within p1 w1 byte1) λ n p2 u2 w2.
          Within->>= _ (Within-weaken (omega arith) (read_u8-Within p2)) λ byte2 p3 u3 w3.
            Within->>= _ (read_value-Within p3 w3 (kind_of (get_attribute_type byte2)) byte2)
              λ v p4 u4 w4. holds (omega arith, w4)
