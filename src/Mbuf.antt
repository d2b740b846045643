-- ===== src/Mbuf.antt =====
-- dataplane/src/include/mbuf.h: what the data plane keeps of a packet. A pointer is a number, or `none`
-- for NULL where the code tests it.
use sec_fw.Common.{ℕ, Option}
use sec_fw.RuleTuple.{Mac}

-- PKTBUF_HW and PKTBUF_SW
abbrev pub pktbuf_hw : ℕ
pktbuf_hw = 1

abbrev pub pktbuf_sw : ℕ
pktbuf_sw = 2

-- mbuf_t, without the magic number, which is never read, and `next`, the link of a fragment's list.
pub record Mbuf : Type 0 where
  pub pkt_space : ℕ
  pub pkt_totallen : ℕ
  pub packet_ptr : ℕ
  pub pkt_ptr : ℕ
  pub ethh : Option ℕ
  pub vlanh : ℕ
  pub network_header : Option ℕ
  pub transport_header : Option ℕ
  pub input_port : ℕ
  pub eth_dst : Mac
  pub eth_src : Mac
  pub sip : ℕ
  pub dip : ℕ
  pub sport : ℕ
  pub dport : ℕ
  pub proto : ℕ
  pub vlan_idx : ℕ
  pub payload_len : ℕ
  pub vlan_id : ℕ
  pub defrag_id : ℕ
  pub payload : Option ℕ
  pub frag_offset : ℕ
  pub frag_len : ℕ
  pub flags : ℕ
  pub flow_hash : ℕ
  pub flow : Option ℕ
