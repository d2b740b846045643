-- ===== src/Decode/Local.antt =====
-- The decoders of the headers read nothing outside the packet.
use sec_fw.Common.{ℕ, ◌+◌, ◌≤◌, ◌<◌, ◌≡◌, refl, inl, inr, Bool-cases, ltb, arith}
use sec_fw.Mbuf.{Mbuf}
use sec_fw.Decode.{
  Memory, decode_tcp_packet, decode_udp_packet, decode_ipv4_packet, tcp_header_len, udp_header_len,
  ipv4_header_len,
}

-- Two memories that hold the same packet.
abbrev pub SamePacket : ℕ → ℕ → Memory → Memory → Type 0
SamePacket pkt len mem mem' = (a : ℕ) → pkt ≤ a → a < pkt + len → mem' a ≡ mem a

-- DecodeTCPPacket, DecodeUDPPacket and DecodeIPV4Packet answer the same in any two memories that hold the
-- same packet: on no branch do they read a byte outside it.
pub decoders-SamePacket :
    (mem mem' : Memory) (mbuf : Mbuf) (pkt len : ℕ)
    → SamePacket pkt len mem mem'
    → (decode_tcp_packet mem' mbuf pkt len ≡ decode_tcp_packet mem mbuf pkt len)
      × (decode_udp_packet mem' mbuf pkt len ≡ decode_udp_packet mem mbuf pkt len)
      × (decode_ipv4_packet mem' mbuf pkt len ≡ decode_ipv4_packet mem mbuf pkt len)
unfolding decode_tcp_packet decode_udp_packet decode_ipv4_packet
decoders-SamePacket mem mem' mbuf pkt len same = (tcp, udp, ipv4)
  where
    tcp : decode_tcp_packet mem' mbuf pkt len ≡ decode_tcp_packet mem mbuf pkt len
    tcp = elim (Bool-cases (ltb len tcp_header_len)) [
      | inl e ↦ rw e refl
      | inr e ↦
          rw
            (
              same pkt (omega arith) (ground arith),
              same (pkt + 1) (omega arith) (ground arith),
              same (pkt + 2) (omega arith) (ground arith),
              same (pkt + 2 + 1) (omega arith) (ground arith),
              same (pkt + 12) (omega arith) (ground arith),
            )
            refl
    ]

    udp : decode_udp_packet mem' mbuf pkt len ≡ decode_udp_packet mem mbuf pkt len
    udp = elim (Bool-cases (ltb len udp_header_len)) [
      | inl e ↦ rw e refl
      | inr e ↦
          rw
            (
              same pkt (omega arith) (ground arith),
              same (pkt + 1) (omega arith) (ground arith),
              same (pkt + 2) (omega arith) (ground arith),
              same (pkt + 2 + 1) (omega arith) (ground arith),
              same (pkt + 4) (omega arith) (ground arith),
              same (pkt + 4 + 1) (omega arith) (ground arith),
            )
            refl
    ]

    ipv4 : decode_ipv4_packet mem' mbuf pkt len ≡ decode_ipv4_packet mem mbuf pkt len
    ipv4 = elim (Bool-cases (ltb len ipv4_header_len)) [
      | inl e ↦ rw e refl
      | inr e ↦
          rw
            (
              same pkt (omega arith) (ground arith),
              same (pkt + 2) (omega arith) (ground arith),
              same (pkt + 2 + 1) (omega arith) (ground arith),
              same (pkt + 12) (omega arith) (ground arith),
              same (pkt + 12 + 1) (omega arith) (ground arith),
              same (pkt + 12 + 2) (omega arith) (ground arith),
              same (pkt + 12 + 3) (omega arith) (ground arith),
              same (pkt + 16) (omega arith) (ground arith),
              same (pkt + 16 + 1) (omega arith) (ground arith),
              same (pkt + 16 + 2) (omega arith) (ground arith),
              same (pkt + 16 + 3) (omega arith) (ground arith),
            )
            refl
    ]
