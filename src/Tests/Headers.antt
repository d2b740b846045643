-- ===== src/Tests/Headers.antt =====
-- Runs of the models of the decoders.
use sec_fw.Common.{
  ℕ, ◌+◌, ◌-◌, ◌≤◌, ◌<◌, ◌≡◌, ◌⊎◌, refl, List, [], ◌∷◌, some, get_or, length, zero, suc, arith,
}
use sec_fw.Decode.{
  Memory, Stat, decode_tcp_packet, decode_udp_packet, decode_ipv4_packet, tcp_get_hlen,
}
use sec_fw.Decode.Local.{decoders-SamePacket}
use sec_fw.Decode.Accepted.{Dropped, Carried, decode_tcp_packet-Carried}
use sec_fw.Tests.Dataplane.{packet}

-- An IPv4 header at 100 and a TCP header with no options at 120, then two bytes.
abbrev pub segment : List ℕ
segment =
    0x45 ∷ 0 ∷ 0 ∷ 42 ∷ 0 ∷ 1 ∷ 0 ∷ 0 ∷ 64 ∷ 6 ∷ 0 ∷ 0 ∷ 10 ∷ 0 ∷ 0 ∷ 2 ∷ 10 ∷ 0 ∷ 0 ∷ 1 ∷ 4 ∷ 0 ∷ 0
    ∷ 80 ∷ 0 ∷ 0 ∷ 0 ∷ 1 ∷ 0 ∷ 0 ∷ 0 ∷ 1 ∷ 0x50 ∷ 16 ∷ 1 ∷ 0 ∷ 0 ∷ 0 ∷ 0 ∷ 0 ∷ 7 ∷ 9 ∷ []

-- A UDP header, then two bytes.
abbrev datagram : List ℕ
datagram = 4 ∷ 0 ∷ 0 ∷ 53 ∷ 0 ∷ 10 ∷ 0 ∷ 0 ∷ 7 ∷ 9 ∷ []

-- The bytes of a list from 100 on, and `around` elsewhere.
abbrev holding : ℕ → List ℕ → Memory
holding around bytes a = get_or bytes (a - 100) around

segment_payload : (decode_tcp_packet (holding 0 segment) packet 120 22).1.payload_len ≡ 2
unfolding decode_tcp_packet
segment_payload = refl

segment_sip : (decode_ipv4_packet (holding 0 segment) packet 100 46).1.sip ≡ 0x0a000002
unfolding decode_ipv4_packet
segment_sip = refl

short_segment : (decode_tcp_packet (holding 0 segment) packet 120 19).0 ≡ some Stat.tcp_header_err
unfolding decode_tcp_packet
short_segment = refl

tcp_header_example :
    ((20 ≤ tcp_get_hlen (holding 0 segment) 120)
      × (tcp_get_hlen (holding 0 segment) 120 ≤ 22)
      × Carried
          (holding 0 segment)
          120
          22
          (tcp_get_hlen (holding 0 segment) 120)
          (decode_tcp_packet (holding 0 segment) packet 120 22))
    ⊎ (((tcp_get_hlen (holding 0 segment) 120 < 20) ⊎ (22 < tcp_get_hlen (holding 0 segment) 120))
        × Dropped packet (decode_tcp_packet (holding 0 segment) packet 120 22))
tcp_header_example = decode_tcp_packet-Carried (holding 0 segment) packet 120 22

get_or-default : (bytes : List ℕ) (i : ℕ) → i < length bytes → get_or bytes i 1 ≡ get_or bytes i 0
get_or-default [] i h = absurd (omega arith)
get_or-default (b ∷ bs) zero h = refl
get_or-default (b ∷ bs) (suc i) h = get_or-default bs i (omega (arith, h))

-- The same bytes between zeros and between ones.
abbrev one_around : Memory
one_around = holding 1 datagram

datagram_same : (a : ℕ) → 100 ≤ a → a < 100 + 10 → one_around a ≡ holding 0 datagram a
datagram_same a low high = get_or-default datagram (a - 100) (omega arith)

local_example :
    (decode_tcp_packet one_around packet 100 10
      ≡ decode_tcp_packet (holding 0 datagram) packet 100 10)
    × (decode_udp_packet one_around packet 100 10
        ≡ decode_udp_packet (holding 0 datagram) packet 100 10)
    × (decode_ipv4_packet one_around packet 100 10
        ≡ decode_ipv4_packet (holding 0 datagram) packet 100 10)
local_example = decoders-SamePacket (holding 0 datagram) one_around packet 100 10 datagram_same
