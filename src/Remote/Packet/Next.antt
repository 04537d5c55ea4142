-- ===== src/Remote/Packet/Next.antt =====
-- What becomes of the packet behind one that was accepted.
use Prim.Native.Nat.{bit_xor}
use mizl_h_public.Base.{
  ℕ, ◌/◌, ◌%◌, ◌<◌, ◌≡◌, refl, true, false, List, [], ◌∷◌, ◌++◌, Bool-cases, inl, inr, ◌==◌, ==_iff,
  arith,
}
use mizl_h_public.Remote.Packet.{
  wait_start, checksum_next_nibble, PacketReader, nibble_to_u8_fast, second_nibble, read_byte_in,
  read_packets,
}
use mizl_h_public.Remote.Packet.RoundTrip.{
  is_special, escaped, sum_from, sum_from-lt, hex_digit, packet, one_of, none_of,
}

-- No byte starts a packet.
abbrev IsQuiet : List ℕ → Type 0
IsQuiet [] = Unit {0}
IsQuiet (b ∷ bytes) = ((b == 36) ≡ false) × IsQuiet bytes

append-IsQuiet : (xs ys : List ℕ) → IsQuiet xs → IsQuiet ys → IsQuiet (xs ++ ys)
append-IsQuiet [] ys h k = k
append-IsQuiet (x ∷ xs) ys (p, h) k = (p, append-IsQuiet xs ys h k)

hidden : (b : ℕ) → is_special b ≡ true → (bit_xor b 0x20 == 36) ≡ false
hidden b e = elim (one_of (b == 125) (b == 35) (b == 42) (b == 36) e) [
  | inl p ↦ at 125 ((==_iff b 125).0 p) refl
  | inr (inl p) ↦ at 35 ((==_iff b 35).0 p) refl
  | inr (inr (inl p)) ↦ at 42 ((==_iff b 42).0 p) refl
  | inr (inr (inr p)) ↦ at 36 ((==_iff b 36).0 p) refl
]
  where
    at : (c : ℕ) → b ≡ c → (bit_xor c 0x20 == 36) ≡ false → (bit_xor b 0x20 == 36) ≡ false
    at c same known = rw same known

escaped-IsQuiet : (body : List ℕ) → IsQuiet (escaped body)
unfolding escaped
escaped-IsQuiet [] = tt
escaped-IsQuiet (b ∷ body) = elim (Bool-cases (is_special b)) [
  | inl e ↦ rw e (refl, (hidden b e, escaped-IsQuiet body))
  | inr e ↦
      let (p, q, r, s) = none_of (b == 125) (b == 35) (b == 42) (b == 36) e in
      rw e (s, escaped-IsQuiet body)
]

hex_digit-ne : (n : ℕ) → n < 16 → (hex_digit n == 36) ≡ false
hex_digit-ne n h = ground arith

idle :
    (bytes : List ℕ) (r : PacketReader)
    → IsQuiet bytes
    → read_packets (record r { state = wait_start }) bytes ≡ (record r { state = wait_start }, [])
unfolding read_packets read_byte_in
idle [] r quiet = refl
idle (b ∷ bytes) r (p, quiet) = rw p (idle bytes r quiet)

-- A reader that still waits for the second digit of a checksum, as it does behind a packet that was
-- accepted, sends nothing for the next packet, whatever its body: its start is taken for a digit,
-- and the rest passed over.
pub read_packets-lost :
    (body : List ℕ) (r : PacketReader)
    → r.state ≡ checksum_next_nibble
    → read_packets r (packet body) ≡ (record r { state = wait_start }, [])
unfolding read_packets read_byte_in second_nibble nibble_to_u8_fast packet
read_packets-lost body r waits =
    let sum = sum_from 0 (escaped body) in
    let byte = sum_from-lt 0 (escaped body) (omega arith) in
    let tail = 35 ∷ hex_digit (sum / 16) ∷ hex_digit (sum % 16) ∷ [] in
    let quiet = append-IsQuiet (escaped body) tail (escaped-IsQuiet body) (
      refl,
      (hex_digit-ne (sum / 16) (omega arith), (hex_digit-ne (sum % 16) (omega arith), tt)),
    ) in
    rw waits (idle (escaped body ++ tail) r quiet)
