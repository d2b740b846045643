-- ===== src/Decode/Layers.antt =====
-- Decode, DecodeEthernet, DecodeVLAN, DecodeIPV4, DecodeTCP and DecodeUDP of dataplane/src/decode: a frame on
-- its way through the layers. What happens to the packet is a list of events. Defrag, with the table of the
-- fragments as it is, is an argument, which Fragments gives.
use sec_fw.Common.{
  ℕ, zero, suc, ◌+◌, ◌-◌, ◌*◌, ◌/◌, ◌%◌, ◌^◌, Bool, true, false, ◌||◌, ◌==◌, ◌!=◌, ltb, leb,
  if◌then◌else◌, List, [], ◌∷◌, ◌++◌, Option, none, some,
}
use sec_fw.RuleTuple.{Mac}
use sec_fw.Mbuf.{Mbuf}
use sec_fw.Decode.{
  Memory, Stat, read16, decode_tcp_packet, decode_udp_packet, decode_ipv4_packet, ipv4_get_hlen,
  ipv4_get_iplen,
}

-- A counter is raised; or the packet is kept in the table of fragments, freed there with the other fragments of
-- its datagram for the whole packet, which goes on, handed to FlowHandlePacket, or freed by PACKET_DESTROY_ALL,
-- and is then no longer the decoder's.
pub data Event : Type 0 where
  counted : Stat → Event
  cached : Mbuf → Event
  joined : Mbuf → Event
  to_flow : Mbuf → Event
  destroyed : Mbuf → Event

-- What a decoder answers, DECODE_OK or DECODE_DROP, with the packet as it then is.
pub record Outcome : Type 0 where
  pub ok : Bool
  pub mbuf : Mbuf
  pub events : List Event

abbrev pub drop_with : Stat → Mbuf → Outcome
drop_with stat m = record { ok = false; mbuf = m; events = counted stat ∷ [] }

abbrev pub count_first : Stat → Outcome → Outcome
count_first stat o = record o { events = counted stat ∷ o.events }

-- `if(DECODE_OK != ...) PACKET_DESTROY_ALL(m);`
abbrev pub or_destroy : Outcome → Outcome
or_destroy o =
    if o.ok
    then o
    else (record { ok = true; mbuf = o.mbuf; events = o.events ++ (destroyed o.mbuf ∷ []) })

-- The packet of a transport layer, once its header is checked.
abbrev pub hand_over : Stat → Option Stat × Mbuf → Outcome
hand_over stat (none, m) = record { ok = true; mbuf = m; events = counted stat ∷ to_flow m ∷ [] }
hand_over stat (some err, m) = drop_with err m

-- DecodeTCP
unfoldable pub decode_tcp : Memory → Mbuf → ℕ → ℕ → Outcome
decode_tcp mem mbuf pkt len = hand_over Stat.tcp_recv_ok (decode_tcp_packet mem mbuf pkt len)

-- DecodeUDP
unfoldable pub decode_udp : Memory → Mbuf → ℕ → ℕ → Outcome
decode_udp mem mbuf pkt len = hand_over Stat.udp_recv_ok (decode_udp_packet mem mbuf pkt len)

abbrev pub proto_tcp : ℕ
proto_tcp = 6

abbrev pub proto_udp : ℕ
proto_udp = 17

-- The switch over the protocol in DecodeIPV4, for a packet with its header at `h`.
unfoldable pub decode_transport : Memory → Mbuf → ℕ → Outcome
decode_transport mem nmbuf h =
    let hlen = ipv4_get_hlen mem h in
    let len = (ipv4_get_iplen mem h + (2 ^ 16 - hlen)) % 2 ^ 16 in
    if nmbuf.proto == proto_tcp
    then count_first Stat.ipv4_recv_ok (or_destroy (decode_tcp mem nmbuf (h + hlen) len))
    else if nmbuf.proto == proto_udp
    then count_first Stat.ipv4_recv_ok (or_destroy (decode_udp mem nmbuf (h + hlen) len))
    else (record {
      ok = true;
      mbuf = nmbuf;
      events = counted Stat.ipv4_unsupport ∷ destroyed nmbuf ∷ [];
    })

-- IPV4_GET_IPOFFSET and IPV4_IS_FRAGMENT of the header at an address
abbrev pub ipv4_get_ipoffset : Memory → ℕ → ℕ
ipv4_get_ipoffset mem h = read16 mem (h + 6) % 2 ^ 13

abbrev pub ipv4_is_fragment : Memory → ℕ → Bool
ipv4_is_fragment mem h = ltb 0 (ipv4_get_ipoffset mem h) || read16 mem (h + 6) / 2 ^ 13 % 2 == 1

-- What Defrag does with a fragment: it reads through a network header that is NULL; or keeps the fragment; or
-- keeps it, the last one of its datagram, although no whole packet could be made; or frees it and counts why; or
-- frees it with the others and answers with the whole packet, in the memory that has its bytes.
pub data DefragAnswer : Type 0 where
  null_read : DefragAnswer
  kept : DefragAnswer
  unmade : DefragAnswer
  freed : Stat → DefragAnswer
  whole : Memory → Mbuf → DefragAnswer

-- Defrag
abbrev pub Defrag : Type 0
Defrag = Memory → Mbuf → DefragAnswer

abbrev pub join_first : Mbuf → Outcome → Outcome
join_first m o = record o { events = joined m ∷ counted Stat.frag_reasm_ok ∷ o.events }

-- DecodeIPV4 from its call of Defrag on; `none` is a read through a network header that is NULL.
abbrev pub reassembled : Mbuf → DefragAnswer → Option Outcome
reassembled m null_read = none
reassembled m kept =
    some (record { ok = true; mbuf = m; events = cached m ∷ counted Stat.frag_cache_ok ∷ [] })
reassembled m unmade = some (record { ok = true; mbuf = m; events = cached m ∷ [] })
reassembled m (freed stat) =
    some (record { ok = true; mbuf = m; events = destroyed m ∷ counted stat ∷ [] })
reassembled m (whole mem nmbuf) = elim nmbuf.network_header [
  | none ↦ none
  | some h ↦ some (join_first m (decode_transport mem nmbuf h))
]

abbrev pub fragment : Memory → Mbuf → ℕ → ℕ → Mbuf
fragment mem m pkt len = record m {
  defrag_id = read16 mem (pkt + 4);
  frag_offset = ipv4_get_ipoffset mem pkt * 8;
  frag_len = len - ipv4_get_hlen mem pkt;
}

-- DecodeIPV4, once the header is checked.
unfoldable pub decode_checked : Defrag → Memory → ℕ → ℕ → Option Stat × Mbuf → Option Outcome
decode_checked defrag mem pkt len (some err, m) = some (drop_with err m)
decode_checked defrag mem pkt len (none, m0) =
    let m = record m0 { proto = mem (pkt + 9) } in
    let f = fragment mem m pkt len in
    if ipv4_is_fragment mem pkt
    then if f.frag_len == 0
      then some (drop_with Stat.frag_len_err f)
      else reassembled f (defrag mem f)
    else some (decode_transport mem m pkt)

-- DecodeIPV4
unfoldable pub decode_ipv4 : Defrag → Memory → Mbuf → ℕ → ℕ → Option Outcome
decode_ipv4 defrag mem mbuf pkt len =
    decode_checked defrag mem pkt len (decode_ipv4_packet mem mbuf pkt len)

abbrev pub ethernet_type_ip : ℕ
ethernet_type_ip = 2048

abbrev pub ethernet_type_vlan : ℕ
ethernet_type_vlan = 33024

abbrev pub ethernet_type_qinq : ℕ
ethernet_type_qinq = 37120

abbrev pub vlan_header_len : ℕ
vlan_header_len = 4

-- DecodeVLAN; `none` is also the end of the fuel, its depth of recursion.
unfoldable pub decode_vlan : ℕ → Defrag → Memory → Mbuf → ℕ → ℕ → Option Outcome
decode_vlan zero defrag mem mb pkt len = none
decode_vlan (suc fuel) defrag mem mb pkt len =
    let m = record mb { vlanh = pkt; vlan_idx = 1 } in
    let proto = read16 mem (pkt + 2) in
    let inner = decode_vlan fuel defrag mem m (pkt + vlan_header_len) (len - vlan_header_len) in
    if ltb len vlan_header_len
    then some (drop_with Stat.vlan_header_err mb)
    else if leb 1 mb.vlan_idx
    then some (drop_with Stat.vlan_layer_exceed mb)
    else if proto == ethernet_type_ip
    then decode_ipv4 defrag mem m (pkt + vlan_header_len) (len - vlan_header_len)
    else if proto == ethernet_type_vlan || proto == ethernet_type_qinq
    then inner
    else some (drop_with Stat.vlan_unsupport m)

abbrev pub ethernet_header_len : ℕ
ethernet_header_len = 14

abbrev pub mac_at : Memory → ℕ → Mac
mac_at mem a = record {
  b0 = mem a;
  b1 = mem (a + 1);
  b2 = mem (a + 2);
  b3 = mem (a + 3);
  b4 = mem (a + 4);
  b5 = mem (a + 5);
}

abbrev pub count_result : Stat → Option Outcome → Option Outcome
count_result stat none = none
count_result stat (some o) = some (count_first stat o)

-- DecodeEthernet; a VLAN header inside a VLAN header is as deep as DecodeVLAN recurs.
unfoldable pub decode_ethernet : Defrag → Memory → Mbuf → ℕ → ℕ → Option Outcome
decode_ethernet defrag mem mbuf pkt len =
    let m0 = record mbuf { ethh = some pkt } in
    let m = record m0 { eth_dst = mac_at mem pkt; eth_src = mac_at mem (pkt + 6) } in
    let eth_type = read16 mem (pkt + 12) in
    let next = pkt + ethernet_header_len in
    let rest = len - ethernet_header_len in
    if ltb len ethernet_header_len
    then some (drop_with Stat.l2_header_err mbuf)
    else if mem pkt != 136
    then some (record { ok = false; mbuf = m0; events = [] })
    else if eth_type == ethernet_type_ip
    then count_result Stat.l2_recv_ok (decode_ipv4 defrag mem m next rest)
    else if eth_type == ethernet_type_vlan || eth_type == ethernet_type_qinq
    then count_result Stat.l2_recv_ok (decode_vlan 2 defrag mem m next rest)
    else some (drop_with Stat.l2_unsupport m)

-- Decode
unfoldable pub decode : Defrag → Memory → Mbuf → Option Outcome
decode defrag mem m = elim (decode_ethernet defrag mem m m.pkt_ptr m.pkt_totallen) [
  | none ↦ none
  | some o ↦ some (or_destroy o)
]
