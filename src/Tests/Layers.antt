-- ===== src/Tests/Layers.antt =====
-- Runs of the model of the layers.
use sec_fw.Common.{
  ℕ, ◌+◌, ◌-◌, ◌*◌, ◌≡◌, refl, true, List, [], ◌∷◌, ◌++◌, Option, none, some, get_or, arith,
}
use sec_fw.Mbuf.{Mbuf}
use sec_fw.Decode.{
  Memory, Stat, read16, ipv4_get_hlen, ipv4_get_iplen, decode_tcp_packet, decode_udp_packet,
  decode_ipv4_packet,
}
use sec_fw.Decode.Fragments.{
  FragEnv, datagram_of, packet_fragment, bytes_at, frag_defrag_setup, defrag_packet,
}
use sec_fw.Defrag.{
  frag_defrag_process, note_end, insert_fragment, place, after_tail, clear_of_prev,
  frag_defrag_reasm, finish_header, copy_rest, fragment_data, ipv4_calculate_checksum, sum_words,
}
use sec_fw.Buffers.{packet_header_ptr_adjust, adjust}
use sec_fw.Defrag.Table.{
  Supply, defrag, defrag_bucket, find_or_create, frag_find, frag_defrag_begin, write_item,
  ip4_frag_match,
}
use sec_fw.Decode.Layers.{
  kept, Event, counted, to_flow, Outcome, Defrag, decode, decode_ethernet, decode_vlan, decode_ipv4,
  decode_checked, decode_transport, decode_tcp, decode_udp, reassembled, ipv4_get_ipoffset,
}
use sec_fw.Decode.Segment.{Segment, decode-Segment, decode_ipv4-padding}
use sec_fw.Tests.Dataplane.{packet}
use sec_fw.Tests.Headers.{segment}

-- A frame of 60 bytes at 0: the Ethernet header, a segment of 42 bytes, and padding.
abbrev ethernet : List ℕ → List ℕ
ethernet rest = 0x88 ∷ 1 ∷ 2 ∷ 3 ∷ 4 ∷ 5 ∷ 0x88 ∷ 6 ∷ 7 ∷ 8 ∷ 9 ∷ 10 ∷ rest

abbrev bytes : List ℕ → Memory
bytes frame a = get_or frame a 0

abbrev segment_frame : Memory
segment_frame = bytes (ethernet (8 ∷ 0 ∷ segment))

-- The first fragment of a datagram, with 22 bytes of data, and padding.
abbrev fragment_frame : Memory
fragment_frame = bytes (0x45 ∷ 0 ∷ 0 ∷ 42 ∷ 0 ∷ 9 ∷ 0x20 ∷ 0 ∷ 64 ∷ 6 ∷ [])

-- Two VLAN headers, and then a segment.
abbrev vlan_frame : Memory
vlan_frame = bytes (ethernet (0x81 ∷ 0 ∷ 0 ∷ 1 ∷ 0x81 ∷ 0 ∷ 0 ∷ 2 ∷ 8 ∷ 0 ∷ segment))

abbrev tagged_frame : Memory
tagged_frame = bytes (ethernet (0x81 ∷ 0 ∷ 0 ∷ 1 ∷ 8 ∷ 0 ∷ segment))

abbrev keep_all : Defrag
keep_all mem m = kept

-- The first fragment of a datagram with eight bytes of data, in a frame of 42 bytes, and the second and last one.
abbrev data_bytes : List ℕ
data_bytes = 0 ∷ 53 ∷ 0 ∷ 7 ∷ 0 ∷ 16 ∷ 0 ∷ 0 ∷ []

abbrev fragment_packet : List ℕ → Memory
fragment_packet offset = bytes (
    ethernet (
      8
      ∷ 0
      ∷ 0x45
      ∷ 0
      ∷ 0
      ∷ 28
      ∷ 0
      ∷ 9
      ∷ (offset ++ 64 ∷ 17 ∷ 0 ∷ 0 ∷ 10 ∷ 0 ∷ 0 ∷ 1 ∷ 10 ∷ 0 ∷ 0 ∷ 2 ∷ data_bytes)))

abbrev fragment_mbuf : Mbuf
fragment_mbuf = record packet { pkt_totallen = 42 }

abbrev plenty : Supply
plenty = record { block = true; packet = true; whole = λ n. true }

-- Nothing has come yet.
abbrev no_fragments : FragEnv
no_fragments = record {
  jhash_3words = λ a b c d. a + b + c;
  supply = plenty;
  now = 100;
  table = λ i. [];
  buffer = 4000;
}

-- The mbuf of the first one, as Defrag gets it.
abbrev first_mbuf : Mbuf
first_mbuf = record fragment_mbuf {
  network_header = some 14;
  sip = 167772161;
  dip = 167772162;
  proto = 17;
  defrag_id = 9;
  frag_offset = 0;
  frag_len = 8;
}

segment_example :
    (n : Mbuf) × (decode keep_all segment_frame packet
      ≡ some (record {
        ok = true;
        mbuf = n;
        events =
            counted Stat.l2_recv_ok
            ∷ counted Stat.ipv4_recv_ok
            ∷ counted Stat.tcp_recv_ok
            ∷ to_flow n
            ∷ [];
      }))
    × Segment segment_frame 14 34 n
segment_example = decode-Segment keep_all segment_frame packet (record {
  frame = omega arith;
  first_byte = refl;
  eth_type = refl;
  ipv4 = record { version = refl; header = omega arith; total = omega arith; fits = omega arith };
  total_fits = omega arith;
  whole = refl;
  proto = refl;
  tcp_header = omega arith;
  tcp_fits = omega arith;
})

padding_example :
    (f : Mbuf) × (decode_ipv4 keep_all fragment_frame packet 0 46
      ≡ reassembled f (keep_all fragment_frame f))
    × (f.frag_len
        ≡ (ipv4_get_iplen fragment_frame 0 - ipv4_get_hlen fragment_frame 0)
          + (46 - ipv4_get_iplen fragment_frame 0))
    × (f.frag_offset ≡ ipv4_get_ipoffset fragment_frame 0 * 8)
    × (f.defrag_id ≡ read16 fragment_frame (0 + 4))
padding_example =
    decode_ipv4-padding keep_all fragment_frame packet 0 46
      (record { version = refl; header = omega arith; total = omega arith; fits = omega arith })
      refl (omega arith)

abbrev events_of : Option Outcome → List Event
events_of none = []
events_of (some o) = o.events

abbrev stat_of : List Event → List Stat
stat_of [] = []
stat_of (counted s ∷ es) = s ∷ stat_of es
stat_of (e ∷ es) = stat_of es

-- The second VLAN header is one too many.
two_vlans :
    stat_of (events_of (decode keep_all vlan_frame packet))
    ≡ Stat.l2_recv_ok ∷ Stat.vlan_layer_exceed ∷ []
unfolding decode decode_ethernet decode_vlan
two_vlans = refl

-- One VLAN header: the segment goes on to the flow table, and the VLAN layer counts nothing.
one_vlan :
    stat_of (events_of (decode keep_all tagged_frame (record packet { pkt_totallen = 64 })))
    ≡ Stat.l2_recv_ok ∷ Stat.ipv4_recv_ok ∷ Stat.tcp_recv_ok ∷ []
unfolding decode decode_ethernet decode_vlan decode_ipv4 decode_checked decode_ipv4_packet
    decode_transport decode_tcp decode_tcp_packet
one_vlan = refl

-- A frame for another destination is freed, and no counter shows it.
other_destination : stat_of (events_of (decode keep_all (bytes (0x10 ∷ [])) packet)) ≡ []
unfolding decode decode_ethernet
other_destination = refl

first_cached :
    stat_of (
      events_of
        (decode (defrag_packet no_fragments) (fragment_packet (0x20 ∷ 0 ∷ [])) fragment_mbuf))
    ≡ Stat.l2_recv_ok ∷ Stat.frag_cache_ok ∷ []
unfolding decode decode_ethernet decode_ipv4 decode_checked decode_ipv4_packet defrag_packet defrag
    defrag_bucket find_or_create frag_find frag_defrag_begin frag_defrag_process note_end
    insert_fragment place after_tail clear_of_prev
first_cached = refl

-- The first fragment is in the table, and the second one arrives.
abbrev first_there : FragEnv
first_there = record no_fragments {
  table =
      (defrag (λ a b c d. a + b + c) plenty 100 (datagram_of first_mbuf)
        (packet_fragment (fragment_packet (0x20 ∷ 0 ∷ [])) first_mbuf 14) (λ i. [])).1;
}

second_joins :
    stat_of
      (events_of (decode (defrag_packet first_there) (fragment_packet (0 ∷ 1 ∷ [])) fragment_mbuf))
    ≡ Stat.l2_recv_ok ∷ Stat.frag_reasm_ok ∷ Stat.ipv4_recv_ok ∷ Stat.udp_recv_ok ∷ []
unfolding decode decode_ethernet decode_ipv4 decode_checked decode_ipv4_packet defrag_packet defrag
    defrag_bucket find_or_create frag_find frag_defrag_begin frag_defrag_process note_end
    insert_fragment place after_tail clear_of_prev write_item ip4_frag_match frag_defrag_reasm
    finish_header copy_rest fragment_data bytes_at frag_defrag_setup packet_header_ptr_adjust adjust
    decode_transport decode_udp decode_udp_packet ipv4_calculate_checksum sum_words
second_joins = refl
