-- ===== src/Remote/Packet/RoundTrip.antt =====
-- Packets as the protocol has them, and what the reader makes of one.
use Prim.Native.Nat.{bit_or, bit_xor}
use mathlib.Core.List.{append_assoc, append-nil}
use mizl_h_public.Base.{
  ℕ, ◌+◌, ◌*◌, ◌/◌, ◌%◌, ◌<◌, ◌≡◌, refl, ap, sym, ◌∙◌, Bool, true, false, ◌||◌, List, [], ◌∷◌, ◌++◌,
  some, ◌⊎◌, eq→==, all_below-true, Bool-cases, inl, inr, ltb, ◌==◌, ==_iff, if◌then◌else◌, arith,
}
use mizl_h_public.Remote.Packet.{
  wait_start, normal, checksum_next_nibble, PacketReader, nibble_to_u8_fast, normal_byte,
  first_nibble, second_nibble, read_byte_in, read_packets,
}

-- The bytes that stand for something else in a packet, and are escaped: `}`, `#`, `*` and `$`.
abbrev pub is_special : ℕ → Bool
is_special b = b == 125 || b == 35 || b == 42 || b == 36

unfoldable pub escaped : List ℕ → List ℕ
escaped [] = []
escaped (b ∷ body) = if is_special b then 125 ∷ bit_xor b 0x20 ∷ escaped body else b ∷ escaped body

abbrev pub sum_from : ℕ → List ℕ → ℕ
sum_from k [] = k
sum_from k (b ∷ bytes) = sum_from ((k + b) % 256) bytes

abbrev pub hex_digit : ℕ → ℕ
hex_digit n = if ltb n 10 then 48 + n else 87 + n

unfoldable pub packet : List ℕ → List ℕ
unfolding escaped
packet body =
    let checksum = sum_from 0 (escaped body) in
    36 ∷ (escaped body ++ (35 ∷ hex_digit (checksum / 16) ∷ hex_digit (checksum % 16) ∷ []))

nibble-hex_digit : (n : ℕ) → n < 16 → nibble_to_u8_fast (hex_digit n) ≡ some n
unfolding nibble_to_u8_fast
nibble-hex_digit n h = ground arith

pub sum_from-lt : (k : ℕ) (bytes : List ℕ) → k < 256 → sum_from k bytes < 256
sum_from-lt k [] h = h
sum_from-lt k (b ∷ bytes) h = sum_from-lt ((k + b) % 256) bytes (omega arith)

abbrev in_normal : List ℕ → ℕ → ℕ → ℕ → PacketReader
in_normal cmd last sum cli = record {
  cmd = cmd;
  last_char = last;
  our_checksum = sum;
  cli_checksum = cli;
  state = normal;
}

-- Which of four tests hold.
pub none_of :
    (p q r s : Bool)
    → (p || q || r || s) ≡ false
    → (p ≡ false) × (q ≡ false) × (r ≡ false) × (s ≡ false)
none_of true q r s h = absurd (cc)
none_of false true r s h = absurd (cc)
none_of false false true s h = absurd (cc)
none_of false false false true h = absurd (cc)
none_of false false false false h = (refl, refl, refl, refl)

pub one_of :
    (p q r s : Bool)
    → (p || q || r || s) ≡ true
    → (p ≡ true) ⊎ ((q ≡ true) ⊎ ((r ≡ true) ⊎ (s ≡ true)))
one_of true q r s h = inl refl
one_of false true r s h = inr (inl refl)
one_of false false true s h = inr (inr (inl refl))
one_of false false false true h = inr (inr (inr refl))
one_of false false false false h = absurd (cc)

plain_byte :
    (b : ℕ) (cmd : List ℕ) (last sum cli : ℕ)
    → is_special b ≡ false
    → normal_byte (in_normal cmd last sum cli) b
      ≡ in_normal (cmd ++ (b ∷ [])) b ((sum + b) % 256) cli
unfolding normal_byte
plain_byte b cmd last sum cli e =
    let (p, q, r, s) = none_of (b == 125) (b == 35) (b == 42) (b == 36) e in rw (p, q, r, s) refl

unescaped : (b : ℕ) → is_special b ≡ true → bit_xor (bit_xor b 0x20) 0x20 ≡ b
unescaped b e = elim (one_of (b == 125) (b == 35) (b == 42) (b == 36) e) [
  | inl p ↦ at 125 ((==_iff b 125).0 p) refl
  | inr (inl p) ↦ at 35 ((==_iff b 35).0 p) refl
  | inr (inr (inl p)) ↦ at 42 ((==_iff b 42).0 p) refl
  | inr (inr (inr p)) ↦ at 36 ((==_iff b 36).0 p) refl
]
  where
    at : (c : ℕ) → b ≡ c → bit_xor (bit_xor c 0x20) 0x20 ≡ c → bit_xor (bit_xor b 0x20) 0x20 ≡ b
    at c same known = rw same known

body_read :
    (body tail cmd : List ℕ) (last sum cli : ℕ)
    → (last' : ℕ) × (read_packets (in_normal cmd last sum cli) (escaped body ++ tail)
        ≡ read_packets (in_normal (cmd ++ body) last' (sum_from sum (escaped body)) cli) tail)
unfolding read_packets read_byte_in escaped normal_byte
body_read [] tail cmd last sum cli =
    (last, ap (λ c. read_packets (in_normal c last sum cli) tail) (sym (append-nil cmd)))
body_read (b ∷ body) tail cmd last sum cli = elim (Bool-cases (is_special b)) [
  | inl e ↦
      let c = bit_xor (bit_xor b 0x20) 0x20 in
      let sum' = ((sum + 125) % 256 + bit_xor b 0x20) % 256 in
      let (last', ih) = body_read body tail (cmd ++ (c ∷ [])) c sum' cli in
      (
        last',
        rw e (
            ih
            ∙ ap (λ x. read_packets (in_normal x last' (sum_from sum' (escaped body)) cli) tail)
                (append_assoc cmd (c ∷ []) body ∙ ap (λ y. cmd ++ (y ∷ body)) (unescaped b e))),
      )
  | inr e ↦
      let (last', ih) = body_read body tail (cmd ++ (b ∷ [])) b ((sum + b) % 256) cli in
      (
        last',
        rw e (
            ap (λ r. read_packets r (escaped body ++ tail)) (plain_byte b cmd last sum cli e)
            ∙ ih
            ∙ ap
                (λ x.
                  read_packets (in_normal x last' (sum_from ((sum + b) % 256) (escaped body)) cli)
                    tail)
                (append_assoc cmd (b ∷ []) body)),
      )
]

-- The two nibbles of a byte.
nibbles : (n : ℕ) → n < 256 → bit_or ((n / 16 * 16) % 256) (n % 16) ≡ n
nibbles n h =
    (==_iff _ n).0 (all_below-true 256 (λ m. bit_or ((m / 16 * 16) % 256) (m % 16) == m) refl n h)

module _ (cmd : List ℕ) (last sum cli : ℕ) (byte : sum < 256) where
  checksum_read :
      read_packets
        (in_normal cmd last sum cli)
        (35 ∷ hex_digit (sum / 16) ∷ hex_digit (sum % 16) ∷ [])
      ≡ (
        record {
          cmd = [];
          last_char = last;
          our_checksum = sum;
          cli_checksum = sum;
          state = checksum_next_nibble;
        },
        cmd ∷ [],
      )
  unfolding read_packets read_byte_in normal_byte first_nibble second_nibble
  checksum_read =
      rw
        (
          nibble-hex_digit (sum / 16) (omega arith),
          nibble-hex_digit (sum % 16) (omega arith),
          nibbles sum byte,
          eq→== sum sum refl,
        )
        refl

-- A reader that waits for the start of a packet makes one command of a packet, escaped where needed
-- and with its checksum: the body, behind what stands in `cmd` from a dropped packet. It does not
-- wait for the next packet then, but for the second digit of a checksum.
pub read_packets-packet :
    (body : List ℕ) (r : PacketReader)
    → r.state ≡ wait_start
    → (last : ℕ) × (read_packets r (packet body) ≡ (
      record {
        cmd = [];
        last_char = last;
        our_checksum = sum_from 0 (escaped body);
        cli_checksum = sum_from 0 (escaped body);
        state = checksum_next_nibble;
      },
      (r.cmd ++ body) ∷ [],
    ))
unfolding read_packets read_byte_in packet
read_packets-packet body r waits =
    let sum = sum_from 0 (escaped body) in
    let tail = 35 ∷ hex_digit (sum / 16) ∷ hex_digit (sum % 16) ∷ [] in
    let (last, e) = body_read body tail r.cmd r.last_char 0 r.cli_checksum in
    (
      last,
      rw waits (
          e
          ∙ checksum_read (r.cmd ++ body) last sum r.cli_checksum
              (sum_from-lt 0 (escaped body) (omega arith))),
    )
