-- ===== src/Remote/Packet.antt =====
-- The reader of packets in mizl_core/src/remote/gdb_server.rs, a state machine over the bytes of a
-- client, and `nibble_to_u8_fast` of mizl_core/src/shared/fast_util.rs. A command is the list of
-- its characters, which are bytes.
pub mod RoundTrip
pub mod Next
use Prim.Native.Nat.{bit_or, bit_xor}
use mizl_h_public.Base.{
  ℕ, ◌+◌, ◌-◌, ◌*◌, ◌%◌, Bool, true, false, ◌||◌, ◌&&◌, List, [], ◌∷◌, ◌++◌, Option, none, some,
  replicate, ltb, leb, ◌==◌, if◌then◌else◌,
}

pub data GdbCmdState : Type 0 where
  wait_start normal escape checksum_start checksum_next_nibble run_length_encoding : GdbCmdState

-- The variables of the thread that reads.
pub record PacketReader : Type 0 where
  pub cmd : List ℕ
  pub last_char : ℕ
  pub our_checksum : ℕ
  pub cli_checksum : ℕ
  pub state : GdbCmdState

abbrev pub new_reader : PacketReader
new_reader = record {
  cmd = [];
  last_char = 0;
  our_checksum = 0;
  cli_checksum = 0;
  state = wait_start;
}

unfoldable pub nibble_to_u8_fast : ℕ → Option ℕ
nibble_to_u8_fast c =
    if leb 48 c && leb c 57
    then some (c - 48)
    else if leb 97 c && leb c 102
    then some (c - 97 + 10)
    else if leb 65 c && leb c 70
    then some (c - 65 + 10)
    else none

abbrev pub wrapping_add : ℕ → ℕ → ℕ
wrapping_add a b = (a + b) % 256

abbrev pub drop_packet : PacketReader → PacketReader × Option (List ℕ)
drop_packet r = (record r { state = wait_start }, none)

-- A byte in the state `Normal`: `}`, `#`, `*` and `$` are 125, 35, 42 and 36.
unfoldable pub normal_byte : PacketReader → ℕ → PacketReader
normal_byte r b =
    if b == 125
    then record r { state = escape; our_checksum = wrapping_add r.our_checksum b }
    else if b == 35
    then record r { state = checksum_start }
    else if b == 42
    then record r { state = run_length_encoding; our_checksum = wrapping_add r.our_checksum b }
    else if b == 36
    then record r { state = normal; our_checksum = 0; cmd = [] }
    else record r {
      last_char = b;
      cmd = r.cmd ++ (b ∷ []);
      our_checksum = wrapping_add r.our_checksum b;
    }

unfoldable pub first_nibble : PacketReader → Option ℕ → PacketReader × Option (List ℕ)
first_nibble r none = drop_packet r
first_nibble r (some v) =
    (record r { cli_checksum = (v * 16) % 256; state = checksum_next_nibble }, none)

-- A command is sent where the checksums agree. The state stays as it is.
unfoldable pub second_nibble : PacketReader → Option ℕ → PacketReader × Option (List ℕ)
second_nibble r none = drop_packet r
second_nibble r (some v) =
    let cli = bit_or r.cli_checksum v in
    if cli == r.our_checksum
    then (record r { cli_checksum = cli; cmd = [] }, some r.cmd)
    else drop_packet (record r { cli_checksum = cli })

abbrev pub is_empty : List ℕ → Bool
is_empty [] = true
is_empty (x ∷ xs) = false

unfoldable pub run_length : PacketReader → ℕ → PacketReader × Option (List ℕ)
run_length r b =
    if is_empty r.cmd
    then drop_packet r
    else if b == 35 || b == 36
    then drop_packet r
    else if ltb b 32 || ltb 126 b
    then drop_packet r
    else (record r { cmd = r.cmd ++ replicate (b - 29) r.last_char }, none)

-- One byte: the state after it, and the command that is sent.
unfoldable pub read_byte_in : GdbCmdState → PacketReader → ℕ → PacketReader × Option (List ℕ)
unfolding normal_byte first_nibble second_nibble run_length nibble_to_u8_fast
read_byte_in wait_start r b =
    if b == 36 then (record r { state = normal; our_checksum = 0 }, none) else (r, none)
read_byte_in normal r b = (normal_byte r b, none)
read_byte_in escape r b = (
  record r {
    last_char = bit_xor b 0x20;
    cmd = r.cmd ++ (bit_xor b 0x20 ∷ []);
    state = normal;
    our_checksum = wrapping_add r.our_checksum b;
  },
  none,
)
read_byte_in checksum_start r b = first_nibble r (nibble_to_u8_fast b)
read_byte_in checksum_next_nibble r b = second_nibble r (nibble_to_u8_fast b)
read_byte_in run_length_encoding r b = run_length r b

abbrev pub sent : Option (List ℕ) → List (List ℕ) → List (List ℕ)
sent none cmds = cmds
sent (some cmd) cmds = cmd ∷ cmds

-- The bytes of a client, one after the other: the commands that are sent, and the state after them.
unfoldable pub read_packets : PacketReader → List ℕ → PacketReader × List (List ℕ)
unfolding read_byte_in
read_packets r [] = (r, [])
read_packets r (b ∷ bytes) =
    let step = read_byte_in r.state r b in
    let rest = read_packets step.0 bytes in (rest.0, sent step.1 rest.1)
