-- ===== src/Decode/Accepted.antt =====
-- Which headers the decoders accept.
use sec_fw.Common.{
  ℕ, ◌+◌, ◌-◌, ◌%◌, ◌^◌, ◌≤◌, ◌<◌, ◌≡◌, ◌≢◌, ◌⊎◌, refl, inl, inr, Bool-cases, ◌!=◌, ltb, Option,
  none, some, arith,
}
use sec_fw.Mbuf.{Mbuf}
use sec_fw.Decode.{
  Memory, Stat, read16, read32, decode_tcp_packet, decode_udp_packet, decode_ipv4_packet,
  tcp_get_hlen, tcp_header_len, tcp_optlenmax, udp_header_len, udp_get_len, ipv4_header_len,
  ip_get_raw_ver, ipv4_get_hlen, ipv4_get_iplen,
}

-- The packet is dropped, and its addresses, ports and payload stand as they were.
pub record Dropped (mbuf : Mbuf) (r : Option Stat × Mbuf) : Type 0 where
  pub stat : Stat
  pub dropped : r.0 ≡ some stat
  pub sip : r.1.sip ≡ mbuf.sip
  pub dip : r.1.dip ≡ mbuf.dip
  pub sport : r.1.sport ≡ mbuf.sport
  pub dport : r.1.dport ≡ mbuf.dport
  pub payload : r.1.payload ≡ mbuf.payload
  pub payload_len : r.1.payload_len ≡ mbuf.payload_len

-- The packet is accepted, with the ports of its header, and its payload runs from the end of a header of
-- `hlen` bytes to the end of the packet.
pub record Carried (mem : Memory) (pkt len hlen : ℕ) (r : Option Stat × Mbuf) : Type 0 where
  pub accepted : r.0 ≡ none
  pub header : r.1.transport_header ≡ some pkt
  pub sport : r.1.sport ≡ read16 mem pkt
  pub dport : r.1.dport ≡ read16 mem (pkt + 2)
  pub payload : r.1.payload ≡ some (pkt + hlen)
  pub payload_len : hlen + r.1.payload_len ≡ len

stopped-Dropped :
    (stat : Stat) (mbuf : Mbuf) (network transport : Option ℕ)
    → Dropped mbuf
        (some stat, record mbuf { network_header = network; transport_header = transport })
stopped-Dropped stat mbuf network transport = record {
  stat = stat;
  dropped = refl;
  sip = refl;
  dip = refl;
  sport = refl;
  dport = refl;
  payload = refl;
  payload_len = refl;
}

module _ (mem : Memory) (mbuf : Mbuf) (pkt len : ℕ) where
  -- DecodeTCPPacket accepts the packet exactly if its header says that it has at least 20 bytes and no more
  -- than the packet. It then takes the ports and the payload, and otherwise drops the packet as it was.
  pub decode_tcp_packet-Carried :
      ((20 ≤ tcp_get_hlen mem pkt)
        × (tcp_get_hlen mem pkt ≤ len)
        × Carried mem pkt len (tcp_get_hlen mem pkt) (decode_tcp_packet mem mbuf pkt len))
      ⊎ (((tcp_get_hlen mem pkt < 20) ⊎ (len < tcp_get_hlen mem pkt))
          × Dropped mbuf (decode_tcp_packet mem mbuf pkt len))
  unfolding decode_tcp_packet
  decode_tcp_packet-Carried =
      let hlen = tcp_get_hlen mem pkt in
      elim (Bool-cases (ltb len tcp_header_len)) [
        | inl e ↦ inr (ground arith, rw e (stopped-Dropped Stat.tcp_header_err mbuf _ _))
        | inr e ↦ elim (Bool-cases (ltb len hlen)) [
          | inl f ↦ inr (inr (ground arith), rw (e, f) (stopped-Dropped Stat.tcp_len_err mbuf _ _))
          | inr f ↦
              elim (Bool-cases (ltb tcp_optlenmax ((hlen + (2 ^ 8 - tcp_header_len)) % 2 ^ 8))) [
                | inl g ↦
                    inr
                      (inl (ground arith), rw (e, f, g) (stopped-Dropped Stat.tcp_len_err mbuf _ _))
                | inr g ↦ inl (
                  ground arith,
                  ground arith,
                  rw (e, f, g)
                      (record {
                        accepted = refl;
                        header = refl;
                        sport = refl;
                        dport = refl;
                        payload = refl;
                        payload_len = ground arith;
                      }),
                )
              ]
        ]
      ]

  -- DecodeUDPPacket accepts the packet exactly if its header says that it has the length of the packet, and
  -- this is at least 8. It then takes the ports and the payload, and otherwise drops the packet as it was.
  pub decode_udp_packet-Carried :
      ((8 ≤ len)
        × (udp_get_len mem pkt ≡ len)
        × Carried mem pkt len 8 (decode_udp_packet mem mbuf pkt len))
      ⊎ (((len < 8) ⊎ (udp_get_len mem pkt ≢ len))
          × Dropped mbuf (decode_udp_packet mem mbuf pkt len))
  unfolding decode_udp_packet
  decode_udp_packet-Carried = elim (Bool-cases (ltb len udp_header_len)) [
    | inl e ↦ inr (inl (ground arith), rw e (stopped-Dropped Stat.udp_header_err mbuf _ _))
    | inr e ↦ elim (Bool-cases (ltb len (udp_get_len mem pkt))) [
      | inl f ↦ inr (inr (ground arith), rw (e, f) (stopped-Dropped Stat.udp_len_err mbuf _ _))
      | inr f ↦ elim (Bool-cases (len != udp_get_len mem pkt)) [
        | inl g ↦ inr (inr (ground arith), rw (e, f, g) (stopped-Dropped Stat.udp_len_err mbuf _ _))
        | inr g ↦ inl (
          ground arith,
          ground arith,
          rw (e, f, g)
              (record {
                accepted = refl;
                header = refl;
                sport = refl;
                dport = refl;
                payload = refl;
                payload_len = ground arith;
              }),
        )
      ]
    ]
  ]

  -- DecodeIPV4Packet accepts the packet exactly if its version is 4 and its header length is at least 20 and
  -- at most its total length, which is at most the length of the packet. It then takes the addresses, and
  -- otherwise drops the packet as it was.
  pub decode_ipv4_packet-accepted :
      ((ip_get_raw_ver mem pkt ≡ 4)
        × (20 ≤ ipv4_get_hlen mem pkt)
        × (ipv4_get_hlen mem pkt ≤ ipv4_get_iplen mem pkt)
        × (ipv4_get_iplen mem pkt ≤ len)
        × (decode_ipv4_packet mem mbuf pkt len ≡ (
          none,
          record mbuf {
            network_header = some pkt;
            sip = read32 mem (pkt + 12);
            dip = read32 mem (pkt + 16);
          },
        )))
      ⊎ (((ip_get_raw_ver mem pkt ≢ 4)
            ⊎ ((ipv4_get_hlen mem pkt < 20)
                ⊎ ((ipv4_get_iplen mem pkt < ipv4_get_hlen mem pkt)
                    ⊎ (len < ipv4_get_iplen mem pkt))))
          × Dropped mbuf (decode_ipv4_packet mem mbuf pkt len))
  unfolding decode_ipv4_packet
  decode_ipv4_packet-accepted =
      let hlen = ipv4_get_hlen mem pkt in
      let iplen = ipv4_get_iplen mem pkt in
      elim (Bool-cases (ltb len ipv4_header_len)) [
        | inl a ↦
            inr (inr (short (ground arith)), rw a (stopped-Dropped Stat.ipv4_header_err mbuf _ _))
        | inr a ↦ elim (Bool-cases (ip_get_raw_ver mem pkt != 4)) [
          | inl b ↦
              inr (inl (ground arith), rw (a, b) (stopped-Dropped Stat.ipv4_version_err mbuf _ _))
          | inr b ↦ elim (Bool-cases (ltb hlen ipv4_header_len)) [
            | inl c ↦ inr (
              inr (inl (ground arith)),
              rw (a, b, c) (stopped-Dropped Stat.ipv4_header_err mbuf _ _),
            )
            | inr c ↦ elim (Bool-cases (ltb iplen hlen)) [
              | inl d ↦ inr (
                inr (inr (inl (ground arith))),
                rw (a, b, c, d) (stopped-Dropped Stat.ipv4_len_err mbuf _ _),
              )
              | inr d ↦ elim (Bool-cases (ltb len iplen)) [
                | inl e ↦ inr (
                  inr (inr (inr (ground arith))),
                  rw (a, b, c, d, e) (stopped-Dropped Stat.ipv4_len_err mbuf _ _),
                )
                | inr e ↦ inl (
                  ground arith,
                  ground arith,
                  ground arith,
                  ground arith,
                  rw (a, b, c, d, e) refl,
                )
              ]
            ]
          ]
        ]
      ]
    where
      short :
          len < 20
          → (ipv4_get_hlen mem pkt < 20)
            ⊎ ((ipv4_get_iplen mem pkt < ipv4_get_hlen mem pkt) ⊎ (len < ipv4_get_iplen mem pkt))
      short h = elim (Bool-cases (ltb (ipv4_get_hlen mem pkt) 20)) [
        | inl c ↦ inl (ground arith)
        | inr c ↦ elim (Bool-cases (ltb (ipv4_get_iplen mem pkt) (ipv4_get_hlen mem pkt))) [
          | inl d ↦ inr (inl (ground arith))
          | inr d ↦ inr (inr (ground arith))
        ]
      ]
