-- ===== src/Flow/Reference.antt =====
-- The use counts of flow.h, FlowHandlePacket of flow.c, and packet_recycle of dataplane/src/common/mbuf.c:
-- a packet refers to its flow from FlowHandlePacket until its mbuf is freed.
use sec_fw.Common.{ℕ, ◌+◌, ◌-◌, ◌%◌, ◌^◌, bit_or, ◌==◌, if◌then◌else◌, map, Option, none, some}
use sec_fw.Mbuf.{Mbuf}
use sec_fw.Flow.{FlowItem, FlowTable, flow_get_flow_from_hash}

-- `cvmx_atomic_add32(&f->use_cnt, n)` for the flow at an address, n as 32 bits.
abbrev pub add_use : ℕ → ℕ → FlowItem → FlowItem
add_use n addr f = if f.addr == addr then record f { use_cnt = (f.use_cnt + n) % 2 ^ 32 } else f

unfoldable pub flow_incr_usecnt : ℕ → FlowTable → FlowTable
flow_incr_usecnt addr t = record t { bucket = λ h. map (add_use 1 addr) (t.bucket h) }

unfoldable pub flow_decr_usecnt : ℕ → FlowTable → FlowTable
flow_decr_usecnt addr t = record t { bucket = λ h. map (add_use (2 ^ 32 - 1) addr) (t.bucket h) }

-- FlowReference on `m->flow`
unfoldable pub flow_reference : Mbuf → ℕ → FlowTable → Mbuf × FlowTable
flow_reference m addr t = elim m.flow [
  | none ↦ (record m { flow = some addr }, flow_incr_usecnt addr t)
  | some old ↦
      if old == addr then (m, t) else (record m { flow = some addr }, flow_incr_usecnt addr t)
]

-- FlowDeReference on `m->flow`, as packet_recycle calls it.
unfoldable pub flow_de_reference : Mbuf → FlowTable → Mbuf × FlowTable
flow_de_reference m t = elim m.flow [
  | none ↦ (m, t)
  | some addr ↦ (record m { flow = none }, flow_decr_usecnt addr t)
]

-- PKT_HAS_FLOW
abbrev pub pkt_has_flow : ℕ
pkt_has_flow = 256

-- What FlowHandlePacket comes to: the packet that l7_deliver gets, or `none` for one that is destroyed.
pub record Handled : Type 0 where
  pub delivered : Option Mbuf
  pub table : FlowTable

unfoldable pub flow_handle_packet : ℕ → ℕ → FlowTable → Option ℕ → Mbuf → Handled
flow_handle_packet cpu now t slice m =
    let found = flow_get_flow_from_hash cpu now t slice m in
    elim found.flow [
      | none ↦ record { delivered = none; table = (flow_de_reference m found.table).1 }
      | some f ↦
          let (m', t') = flow_reference m f.addr found.table in
          record {
            delivered = some (record m' { flags = bit_or m'.flags pkt_has_flow });
            table = t';
          }
    ]
