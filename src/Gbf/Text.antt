-- ===== src/Gbf/Text.antt =====
-- Strings and byte strings in the database: mizl_core/src/database/gbf_helpers.rs. A Rust `String`
-- is the list of its UTF-8 bytes.
use mizl_h_public.Base.{
  ℕ, Bool, true, false, ◌&&◌, List, [], ◌∷◌, Option, none, some, replicate, ltb, leb, ◌==◌,
  if◌then◌else◌, add64, i32_as_u64, minus_one32, Outcome, ok, err, ◌>>=◌, end_of_stream, generic,
}
use mizl_h_public.MemView.Codec.{big_endian}
use mizl_h_public.MemView.Trait.{MemReader, read_i32}

-- The ranges of the bytes that follow a first byte of an encoded character.
abbrev pub tail_ranges : ℕ → Option (List (ℕ × ℕ))
tail_ranges b =
    if ltb b 0x80
    then some []
    else if ltb b 0xc2
    then none
    else if leb b 0xdf
    then some ((0x80, 0xbf) ∷ [])
    else if b == 0xe0
    then some ((0xa0, 0xbf) ∷ (0x80, 0xbf) ∷ [])
    else if b == 0xed
    then some ((0x80, 0x9f) ∷ (0x80, 0xbf) ∷ [])
    else if leb b 0xef
    then some ((0x80, 0xbf) ∷ (0x80, 0xbf) ∷ [])
    else if b == 0xf0
    then some ((0x90, 0xbf) ∷ (0x80, 0xbf) ∷ (0x80, 0xbf) ∷ [])
    else if leb b 0xf3
    then some ((0x80, 0xbf) ∷ (0x80, 0xbf) ∷ (0x80, 0xbf) ∷ [])
    else if b == 0xf4
    then some ((0x80, 0x8f) ∷ (0x80, 0xbf) ∷ (0x80, 0xbf) ∷ [])
    else none

-- The bytes are the rest of valid UTF-8 text, the bytes of the current character that are still to
-- come in the given ranges.
unfoldable pub is_utf8_from : List (ℕ × ℕ) → List ℕ → Bool
is_utf8_from [] [] = true
is_utf8_from (r ∷ rs) [] = false
is_utf8_from [] (b ∷ bs) = elim (tail_ranges b) [ none ↦ false | some rs ↦ is_utf8_from rs bs ]
is_utf8_from ((lo, hi) ∷ rs) (b ∷ bs) = (leb lo b && leb b hi) && is_utf8_from rs bs

-- `String::from_utf8`
unfoldable pub from_utf8 : List ℕ → Option (List ℕ)
unfolding is_utf8_from
from_utf8 bytes = if is_utf8_from [] bytes then some bytes else none

module _ (mv : MemReader) where
  -- The three tests on a length that was read: `-1` stands for no text; then the end of the text,
  -- with the length as an unsigned number, is held against the end of the view; and only then the
  -- length against 0.
  abbrev checked : ℕ → ℕ → Outcome (ℕ × Option (List ℕ)) → Outcome (ℕ × Option (List ℕ))
  checked at len body =
      let bounded = mv.max_address >>= λ end_addr.
      if leb end_addr (add64 (i32_as_u64 len) at)
      then err end_of_stream
      else if leb 0x8000_0000 len
      then err (generic "invalid string length {}" (len ∷ []))
      else body in
      if len == minus_one32 then ok (at, none) else bounded

  unfoldable pub read_bytestring : ℕ → Outcome (ℕ × Option (List ℕ))
  unfolding read_i32
  read_bytestring at = do
    (at', bytes_len) ← read_i32 mv at big_endian
    checked at' bytes_len (
        mv.read_bytes at' (replicate (i32_as_u64 bytes_len) 0) bytes_len >>= λ (r : ℕ × List ℕ).
        ok (r.0, some r.1))

  abbrev utf8_text : ℕ × List ℕ → Outcome (ℕ × Option (List ℕ))
  unfolding from_utf8
  utf8_text (at, str_bytes) = elim (from_utf8 str_bytes) [
    | some v ↦ ok (at, some v)
    | none ↦ err (generic "invalid utf-8 string read" [])
  ]

  unfoldable pub read_string : ℕ → Outcome (ℕ × Option (List ℕ))
  unfolding read_i32 utf8_text
  read_string at = do
    (at', str_len) ← read_i32 mv at big_endian
    checked at' str_len (mv.read_bytes at' (replicate (i32_as_u64 str_len) 0) str_len >>= utf8_text)
