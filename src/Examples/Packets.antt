-- ===== src/Examples/Packets.antt =====
-- The packets of a client.
use mizl_h_public.Base.{ℕ, ◌≡◌, refl, [], ◌∷◌}
use mizl_h_public.Remote.Packet.{
  PacketReader, new_reader, wait_start, checksum_next_nibble, read_packets,
}
use mizl_h_public.Remote.Packet.RoundTrip
use mizl_h_public.Remote.Packet.RoundTrip.{packet}
use mizl_h_public.Remote.Packet.Next

-- `$q#71` is the packet of `q`.
query : packet (113 ∷ []) ≡ 36 ∷ 113 ∷ 35 ∷ 55 ∷ 49 ∷ []
unfolding packet
query = refl

abbrev accepted : PacketReader
accepted = record {
  cmd = [];
  last_char = 113;
  our_checksum = 113;
  cli_checksum = 113;
  state = checksum_next_nibble;
}

query_read : read_packets new_reader (36 ∷ 113 ∷ 35 ∷ 55 ∷ 49 ∷ []) ≡ (accepted, (113 ∷ []) ∷ [])
unfolding read_packets
query_read = refl

read_packets-packet_example :
    (last : ℕ) × (read_packets new_reader (packet (113 ∷ 36 ∷ [])) ≡ (
      record {
        cmd = [];
        last_char = last;
        our_checksum = 242;
        cli_checksum = 242;
        state = checksum_next_nibble;
      },
      (113 ∷ 36 ∷ []) ∷ [],
    ))
unfolding RoundTrip.escaped
read_packets-packet_example = RoundTrip.read_packets-packet (113 ∷ 36 ∷ []) new_reader refl

read_packets-lost_example :
    read_packets accepted (packet (113 ∷ [])) ≡ (record accepted { state = wait_start }, [])
read_packets-lost_example = Next.read_packets-lost (113 ∷ []) accepted refl
