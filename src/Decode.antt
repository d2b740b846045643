-- ===== src/Decode.antt =====
-- dataplane/src/decode: the headers of a packet. The memory gives the byte at an address; the Octeon reads
-- the fields of a header with the high byte first.
pub mod Local
pub mod Accepted
pub mod Layers
pub mod Fragments
pub mod Kept
pub mod Settled
pub mod Disposal
pub mod Segment
use sec_fw.Common.{
  ℕ, ◌+◌, ◌-◌, ◌*◌, ◌/◌, ◌%◌, ◌^◌, Bool, ◌==◌, ◌!=◌, ltb, if◌then◌else◌, Option, none, some,
}
use sec_fw.Mbuf.{Mbuf}

abbrev pub Memory : Type 0
Memory = ℕ → ℕ

abbrev pub read16 : Memory → ℕ → ℕ
read16 mem a = mem a * 256 + mem (a + 1)

abbrev pub read32 : Memory → ℕ → ℕ
read32 mem a = mem a * 2 ^ 24 + mem (a + 1) * 2 ^ 16 + mem (a + 2) * 256 + mem (a + 3)

-- The counters that a packet adds to.
pub data Stat : Type 0 where
  tcp_header_err : Stat
  tcp_len_err : Stat
  udp_header_err : Stat
  udp_len_err : Stat
  ipv4_header_err : Stat
  ipv4_version_err : Stat
  ipv4_len_err : Stat
  frag_len_err : Stat
  frag_fcb_no : Stat
  frag_hw2sw_err : Stat
  frag_defrag_err : Stat
  frag_reasm_ok : Stat
  frag_cache_ok : Stat
  ipv4_unsupport : Stat
  ipv4_recv_ok : Stat
  tcp_recv_ok : Stat
  udp_recv_ok : Stat
  vlan_header_err : Stat
  vlan_layer_exceed : Stat
  vlan_unsupport : Stat
  l2_header_err : Stat
  l2_unsupport : Stat
  l2_recv_ok : Stat

abbrev pub tcp_header_len : ℕ
tcp_header_len = 20

abbrev pub tcp_optlenmax : ℕ
tcp_optlenmax = 40

abbrev pub udp_header_len : ℕ
udp_header_len = 8

abbrev pub ipv4_header_len : ℕ
ipv4_header_len = 20

-- TCP_GET_HLEN of the header at an address
abbrev pub tcp_get_hlen : Memory → ℕ → ℕ
tcp_get_hlen mem h = mem (h + 12) / 16 % 16 * 4

-- DecodeTCPPacket: DECODE_OK is `none`.
unfoldable pub decode_tcp_packet : Memory → Mbuf → ℕ → ℕ → Option Stat × Mbuf
decode_tcp_packet mem mbuf pkt len =
    let m = record mbuf { transport_header = some pkt } in
    let hlen = tcp_get_hlen mem pkt in
    if ltb len tcp_header_len
    then (some tcp_header_err, mbuf)
    else if ltb len hlen
    then (some tcp_len_err, m)
    else if ltb tcp_optlenmax ((hlen + (2 ^ 8 - tcp_header_len)) % 2 ^ 8)
    then (some tcp_len_err, m)
    else (
      none,
      record m {
        sport = read16 mem pkt;
        dport = read16 mem (pkt + 2);
        payload = some (pkt + hlen);
        payload_len = len - hlen;
      },
    )

-- UDP_GET_LEN of the header at an address
abbrev pub udp_get_len : Memory → ℕ → ℕ
udp_get_len mem h = read16 mem (h + 4)

-- DecodeUDPPacket
unfoldable pub decode_udp_packet : Memory → Mbuf → ℕ → ℕ → Option Stat × Mbuf
decode_udp_packet mem mbuf pkt len =
    let m = record mbuf { transport_header = some pkt } in
    if ltb len udp_header_len
    then (some udp_header_err, mbuf)
    else if ltb len (udp_get_len mem pkt)
    then (some udp_len_err, m)
    else if len != udp_get_len mem pkt
    then (some udp_len_err, m)
    else (
      none,
      record m {
        sport = read16 mem pkt;
        dport = read16 mem (pkt + 2);
        payload = some (pkt + udp_header_len);
        payload_len = len - udp_header_len;
      },
    )

abbrev pub ip_get_raw_ver : Memory → ℕ → ℕ
ip_get_raw_ver mem h = mem h / 16 % 16

abbrev pub ipv4_get_hlen : Memory → ℕ → ℕ
ipv4_get_hlen mem h = mem h % 16 * 4

abbrev pub ipv4_get_iplen : Memory → ℕ → ℕ
ipv4_get_iplen mem h = read16 mem (h + 2)

-- DecodeIPV4Packet
unfoldable pub decode_ipv4_packet : Memory → Mbuf → ℕ → ℕ → Option Stat × Mbuf
decode_ipv4_packet mem mbuf pkt len =
    let m = record mbuf { network_header = some pkt } in
    if ltb len ipv4_header_len
    then (some ipv4_header_err, mbuf)
    else if ip_get_raw_ver mem pkt != 4
    then (some ipv4_version_err, mbuf)
    else if ltb (ipv4_get_hlen mem pkt) ipv4_header_len
    then (some ipv4_header_err, m)
    else if ltb (ipv4_get_iplen mem pkt) (ipv4_get_hlen mem pkt)
    then (some ipv4_len_err, m)
    else if ltb len (ipv4_get_iplen mem pkt)
    then (some ipv4_len_err, m)
    else (none, record m { sip = read32 mem (pkt + 12); dip = read32 mem (pkt + 16) })
