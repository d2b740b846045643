-- ===== src/Decode/Segment.antt =====
-- What the layers make of a good packet: a TCP segment on its way to the flow table, and a fragment on its way to
-- the table of fragments.
use sec_fw.Common.{
  ℕ, ◌+◌, ◌-◌, ◌*◌, ◌%◌, ◌^◌, ◌≤◌, ◌<◌, ◌≡◌, refl, ap, ◌∙◌, inl, inr, true, false, ◌==◌, ◌!=◌, ltb,
  [], ◌∷◌, none, some, arith,
}
use sec_fw.Mbuf.{Mbuf}
use sec_fw.Decode.{
  Memory, Stat, read16, read32, decode_tcp_packet, decode_ipv4_packet, ipv4_get_hlen,
  ipv4_get_iplen, ip_get_raw_ver, tcp_get_hlen,
}
use sec_fw.Decode.Accepted.{decode_ipv4_packet-accepted}
use sec_fw.Decode.Layers.{
  counted, to_flow, decode_tcp, decode_transport, Defrag, reassembled, fragment, ipv4_is_fragment,
  ipv4_get_ipoffset, decode_checked, decode_ipv4, decode_ethernet, decode, count_result, proto_tcp,
  ethernet_type_ip, ethernet_header_len, mac_at,
}

-- An IPv4 header that the packet has room for.
pub record Ipv4Header (mem : Memory) (ip len : ℕ) : Type 0 where
  pub version : ip_get_raw_ver mem ip ≡ 4
  pub header : 20 ≤ ipv4_get_hlen mem ip
  pub total : ipv4_get_hlen mem ip ≤ ipv4_get_iplen mem ip
  pub fits : ipv4_get_iplen mem ip ≤ len

abbrev addressed : Memory → Mbuf → ℕ → Mbuf
addressed mem mbuf ip = record mbuf {
  network_header = some ip;
  sip = read32 mem (ip + 12);
  dip = read32 mem (ip + 16);
}

decode_ipv4_packet-header :
    (mem : Memory) (mbuf : Mbuf) (ip len : ℕ)
    → Ipv4Header mem ip len
    → decode_ipv4_packet mem mbuf ip len ≡ (none, addressed mem mbuf ip)
decode_ipv4_packet-header mem mbuf ip len h = elim (decode_ipv4_packet-accepted mem mbuf ip len) [
  | inl a ↦ a.4
  | inr (inl b, _) ↦ absurd (b h.version)
  | inr (inr (inl b), _) ↦ absurd (let g = h.header in omega (arith, b, g))
  | inr (inr (inr (inl b)), _) ↦ absurd (let g = h.total in omega (arith, b, g))
  | inr (inr (inr (inr b)), _) ↦ absurd (let g = h.fits in omega (arith, b, g))
]

-- DecodeIPV4 hands a fragment to Defrag with its identification and its offset in bytes. The length that it
-- gives the fragment is that of the data of the packet, and besides it what follows the packet in the frame:
-- for a good header of a fragment, with data or padding behind it.
pub decode_ipv4-padding :
    (defrag : Defrag) (mem : Memory) (mbuf : Mbuf) (ip len : ℕ)
    → Ipv4Header mem ip len
    → ipv4_is_fragment mem ip ≡ true
    → ipv4_get_hlen mem ip < len
    → (f : Mbuf) × (decode_ipv4 defrag mem mbuf ip len ≡ reassembled f (defrag mem f))
      × (f.frag_len
          ≡ (ipv4_get_iplen mem ip - ipv4_get_hlen mem ip) + (len - ipv4_get_iplen mem ip))
      × (f.frag_offset ≡ ipv4_get_ipoffset mem ip * 8)
      × (f.defrag_id ≡ read16 mem (ip + 4))
unfolding decode_ipv4 decode_checked
decode_ipv4-padding defrag mem mbuf ip len h frag more =
    let total = h.total in
    let fits = h.fits in
    let f = fragment mem (record (addressed mem mbuf ip) { proto = mem (ip + 9) }) ip len in
    let full : (len - ipv4_get_hlen mem ip == 0) ≡ false = ground arith in
    (f, rw (decode_ipv4_packet-header mem mbuf ip len h, frag, full) refl, omega arith, refl, refl)

-- An Ethernet frame that holds the whole of a TCP segment. `ip` is the address of the IPv4 header and `tcp` that
-- of the TCP header.
pub record TcpFrame (mem : Memory) (pkt len : ℕ) : Type 0 where
  pub frame : ethernet_header_len ≤ len
  pub first_byte : mem pkt ≡ 136
  pub eth_type : read16 mem (pkt + 12) ≡ ethernet_type_ip
  pub ipv4 : Ipv4Header mem (pkt + ethernet_header_len) (len - ethernet_header_len)
  pub total_fits : ipv4_get_iplen mem (pkt + ethernet_header_len) < 2 ^ 16
  pub whole : ipv4_is_fragment mem (pkt + ethernet_header_len) ≡ false
  pub proto : mem (pkt + ethernet_header_len + 9) ≡ proto_tcp
  pub tcp_header :
      20
      ≤ tcp_get_hlen mem (pkt + ethernet_header_len + ipv4_get_hlen mem (pkt + ethernet_header_len))
  pub tcp_fits :
      ipv4_get_hlen mem (pkt + ethernet_header_len)
        + tcp_get_hlen mem
            (pkt + ethernet_header_len + ipv4_get_hlen mem (pkt + ethernet_header_len))
      ≤ ipv4_get_iplen mem (pkt + ethernet_header_len)

-- The packet as FlowHandlePacket gets it.
pub record Segment (mem : Memory) (ip tcp : ℕ) (m : Mbuf) : Type 0 where
  pub network_header : m.network_header ≡ some ip
  pub transport_header : m.transport_header ≡ some tcp
  pub sip : m.sip ≡ read32 mem (ip + 12)
  pub dip : m.dip ≡ read32 mem (ip + 16)
  pub proto : m.proto ≡ proto_tcp
  pub sport : m.sport ≡ read16 mem tcp
  pub dport : m.dport ≡ read16 mem (tcp + 2)
  pub payload : m.payload ≡ some (tcp + tcp_get_hlen mem tcp)
  pub payload_len :
      ipv4_get_hlen mem ip + tcp_get_hlen mem tcp + m.payload_len ≡ ipv4_get_iplen mem ip

transport-Segment :
    (mem : Memory) (mbuf : Mbuf) (ip : ℕ)
    → ipv4_get_hlen mem ip + tcp_get_hlen mem (ip + ipv4_get_hlen mem ip) ≤ ipv4_get_iplen mem ip
    → ipv4_get_iplen mem ip < 2 ^ 16
    → 20 ≤ tcp_get_hlen mem (ip + ipv4_get_hlen mem ip)
    → mem (ip + 9) ≡ proto_tcp
    → (n : Mbuf) × (decode_transport mem
          (record (addressed mem mbuf ip) { proto = mem (ip + 9) })
          ip
        ≡ record {
          ok = true;
          mbuf = n;
          events = counted Stat.ipv4_recv_ok ∷ counted Stat.tcp_recv_ok ∷ to_flow n ∷ [];
        })
      × Segment mem ip (ip + ipv4_get_hlen mem ip) n
unfolding decode_transport decode_tcp decode_tcp_packet
transport-Segment mem mbuf ip fits short header proto =
    let m = record (addressed mem mbuf ip) { proto = mem (ip + 9) } in
    let hlen = ipv4_get_hlen mem ip in
    let tcp = ip + hlen in
    let len = (ipv4_get_iplen mem ip + (2 ^ 16 - hlen)) % 2 ^ 16 in
    let length_rest : len ≡ ipv4_get_iplen mem ip - hlen = omega arith in
    let thlen = tcp_get_hlen mem tcp in
    let e0 : (mem (ip + 9) == proto_tcp) ≡ true = ground arith in
    let e1 : ltb len 20 ≡ false = ground arith in
    let e2 : ltb len thlen ≡ false = ground arith in
    let e3 : ltb 40 ((thlen + (2 ^ 8 - 20)) % 2 ^ 8) ≡ false = ground arith in
    (
      record m {
        transport_header = some tcp;
        sport = read16 mem tcp;
        dport = read16 mem (tcp + 2);
        payload = some (tcp + thlen);
        payload_len = len - thlen;
      },
      rw (e0, e1, e2, e3) refl,
      record {
        network_header = refl;
        transport_header = refl;
        sip = refl;
        dip = refl;
        proto = proto;
        sport = refl;
        dport = refl;
        payload = refl;
        payload_len = omega arith;
      },
    )

-- Decode hands a TCP segment that a frame holds whole to the flow table, with its addresses, ports and payload:
-- the payload ends with the IPv4 packet, and not with the frame. It counts the frame once in each layer. The
-- frame is for a destination whose first byte is 0x88, and the lengths that its headers say fit into it.
pub decode-Segment :
    (defrag : Defrag) (mem : Memory) (m : Mbuf)
    → TcpFrame mem m.pkt_ptr m.pkt_totallen
    → (n : Mbuf) × (decode defrag mem m
        ≡ some (record {
          ok = true;
          mbuf = n;
          events =
              counted Stat.l2_recv_ok
              ∷ counted Stat.ipv4_recv_ok
              ∷ counted Stat.tcp_recv_ok
              ∷ to_flow n
              ∷ [];
        }))
      × Segment mem (m.pkt_ptr + 14) (m.pkt_ptr + 14 + ipv4_get_hlen mem (m.pkt_ptr + 14)) n
unfolding decode decode_ethernet decode_ipv4 decode_checked
decode-Segment defrag mem m t =
    let pkt = m.pkt_ptr in
    let len = m.pkt_totallen in
    let m1 = record m {
      ethh = some pkt;
      eth_dst = mac_at mem pkt;
      eth_src = mac_at mem (pkt + 6);
    } in
    let seg = transport-Segment mem m1 (pkt + 14) t.tcp_fits t.total_fits t.tcp_header t.proto in
    let frame = t.frame in
    let first = t.first_byte in
    let kind = t.eth_type in
    let e0 : ltb len ethernet_header_len ≡ false = ground arith in
    let e1 : (mem pkt != 136) ≡ false = ground arith in
    let e2 : (read16 mem (pkt + 12) == ethernet_type_ip) ≡ true = ground arith in
    let network : decode_ipv4 defrag mem m1 (pkt + 14) (len - 14)
        ≡ some (
            decode_transport mem
              (record (addressed mem m1 (pkt + 14)) { proto = mem (pkt + 14 + 9) }) (pkt + 14)) =
      rw (decode_ipv4_packet-header mem m1 (pkt + 14) (len - 14) t.ipv4, t.whole) refl in
    let link : decode_ethernet defrag mem m pkt len
        ≡ count_result Stat.l2_recv_ok (decode_ipv4 defrag mem m1 (pkt + 14) (len - 14)) =
      rw (e0, e1, e2) refl in
    (
      seg.0,
      rw (link ∙ ap (count_result Stat.l2_recv_ok) (network ∙ ap some seg.1), decode) refl,
      seg.2,
    )
