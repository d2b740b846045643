-- ===== src/Decode/Fragments.antt =====
-- Defrag of dataplane/src/decode/decode-defrag.c as DecodeIPV4 calls it, with Frag_defrag_setup: the fragment is
-- made from its mbuf and the memory, the table of the fragments works on it, and the answer is a packet again.
use sec_fw.Common.{
  ℕ, zero, suc, ◌+◌, ◌-◌, ◌/◌, ◌%◌, ◌^◌, ◌&&◌, ◌==◌, ltb, leb, if◌then◌else◌, List, [], ◌∷◌, length,
  get_or, none, some,
}
use sec_fw.Mbuf.{Mbuf, pktbuf_sw}
use sec_fw.Decode.{Memory, Stat, read16}
use sec_fw.Decode.Layers.{DefragAnswer, null_read, kept, unmade, freed, whole, Defrag}
use sec_fw.Defrag.{Fragment, Fcb, fcb_create, place, cached, dropped, failed, reassembled}
use sec_fw.Defrag.Table.{
  DatagramId, FragTable, Reply, Supply, fcb_no, hw2sw_err, processed, frag_find, ip4_frag_hashfn,
  defrag,
}
use sec_fw.Buffers.{packet_header_ptr_adjust}

-- What a call of Defrag finds: the hash, the memory and the time of the table, the table, and the buffer that
-- MEM_8K_ALLOC gives, if there is one.
pub record FragEnv : Type 0 where
  pub jhash_3words : ℕ → ℕ → ℕ → ℕ → ℕ
  pub supply : Supply
  pub now : ℕ
  pub table : FragTable
  pub buffer : ℕ

unfoldable pub bytes_at : Memory → ℕ → ℕ → List ℕ
bytes_at mem a zero = []
bytes_at mem a (suc n) = mem a ∷ bytes_at mem (a + 1) n

-- The fragment of an mbuf with its network header at `h`; PACKET_HW2SW moves the bytes, and keeps the distances
-- between the pointers.
abbrev pub packet_fragment : Memory → Mbuf → ℕ → Fragment
packet_fragment mem m h = record {
  frag_offset = m.frag_offset;
  frag_len = m.frag_len;
  more = read16 mem (h + 6) / 2 ^ 13 % 2 == 1;
  network = (h + (2 ^ 64 - m.pkt_ptr)) % 2 ^ 64;
  pkt = bytes_at mem m.pkt_ptr m.pkt_totallen;
  mbuf = m;
}

abbrev pub datagram_of : Mbuf → DatagramId
datagram_of m = record { sip = m.sip; dip = m.dip; id = m.defrag_id }

-- The block that Defrag finds or makes for the fragment.
abbrev pub block_of : FragEnv → DatagramId → Fcb
block_of env d = elim (frag_find (env.table (ip4_frag_hashfn env.jhash_3words d)) d) [
  | none ↦ fcb_create
  | some item ↦ item.fcb
]

-- The first of the list of fragments, once `m` is in it.
abbrev pub first_of : Fragment → List Fragment → Fragment
first_of m [] = m
first_of m (f ∷ fs) = f

abbrev pub head_of : FragEnv → Fragment → Fragment
head_of env m = first_of m (place m.frag_offset (block_of env (datagram_of m.mbuf)).fragments).0

-- Frag_defrag_setup, with the bytes of the new packet counted. vlanh is adjusted without having been copied.
unfoldable pub frag_defrag_setup : Fragment → ℕ → ℕ → Mbuf
frag_defrag_setup head buf len =
    let m = head.mbuf in
    packet_header_ptr_adjust
      (record {
        pkt_space = pktbuf_sw;
        pkt_totallen = len;
        packet_ptr = 0;
        pkt_ptr = buf;
        ethh = m.ethh;
        vlanh = 0;
        network_header = some ((m.pkt_ptr + head.network) % 2 ^ 64);
        transport_header = m.transport_header;
        input_port = m.input_port;
        eth_dst = m.eth_dst;
        eth_src = m.eth_src;
        sip = m.sip;
        dip = m.dip;
        sport = m.sport;
        dport = m.dport;
        proto = m.proto;
        vlan_idx = m.vlan_idx;
        payload_len = 0;
        vlan_id = m.vlan_id;
        defrag_id = 0;
        payload = m.payload;
        frag_offset = 0;
        frag_len = 0;
        flags = 0;
        flow_hash = 0;
        flow = none;
      })
      m.pkt_ptr buf

-- The memory with the new packet in its buffer.
abbrev pub with_bytes : Memory → ℕ → List ℕ → Memory
with_bytes mem buf bytes a =
    if leb buf a && ltb a (buf + length bytes) then get_or bytes (a - buf) 0 else mem a

abbrev pub answer_of : FragEnv → Memory → Fragment → Reply → DefragAnswer
answer_of env mem m fcb_no = freed Stat.frag_fcb_no
answer_of env mem m hw2sw_err = freed Stat.frag_hw2sw_err
answer_of env mem m (processed cached) = kept
answer_of env mem m (processed dropped) = freed Stat.frag_defrag_err
answer_of env mem m (processed failed) = unmade
answer_of env mem m (processed (reassembled bytes)) =
    whole (with_bytes mem env.buffer bytes)
      (frag_defrag_setup (head_of env m) env.buffer (length bytes))

-- Defrag, for the packet that it is given: the first answer of the table. What the table becomes is its second.
unfoldable pub defrag_packet : FragEnv → Defrag
defrag_packet env mem m = elim m.network_header [
  | none ↦ null_read
  | some h ↦
      let f = packet_fragment mem m h in
      answer_of env mem f (defrag env.jhash_3words env.supply env.now (datagram_of m) f env.table).0
]
