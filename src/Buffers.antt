-- ===== src/Buffers.antt =====
-- dataplane/src/common/mbuf.c and include/mbuf.h: the buffer of a packet. It comes from the hardware, in the
-- buffer that its packet_ptr describes, or it is a slice of the software pools. The mbuf itself is a slice of a
-- pool of the hardware. The fields of packet_ptr, which the vendor's SDK defines, and the answer of the pool of
-- the hardware are arguments.
pub mod Moved
pub mod Destroyed
use sec_fw.Common.{
  ℕ, ◌+◌, ◌-◌, ◌*◌, ◌/◌, ◌%◌, ◌^◌, Bool, true, false, ◌&&◌, ◌==◌, ◌!=◌, ltb, leb, if◌then◌else◌,
  List, [], ◌∷◌, Option, none, some,
}
use sec_fw.Mbuf.{Mbuf, pktbuf_hw, pktbuf_sw}
use sec_fw.MemPool.{
  Pools, SliceCtrl, store, mem_pool_alloc, mem_pool_free, mem_pool_id_small_buffer,
  mem_pool_magic_num, mem_pool_slice_ctrl_size,
}
use sec_fw.Flow.{FlowTable}
use sec_fw.Flow.Reference.{flow_de_reference}

-- The software pools, the bytes of the memory, the control blocks of the mbufs, which are slices of a pool of
-- the hardware, the table of flows, and what the hardware got back, pool and address, the last one first. A
-- buffer of a packet stands with its physical address, before cvmx_phys_to_ptr.
pub record PacketStore : Type 0 where
  pub pools : Pools
  pub bytes : ℕ → ℕ
  pub mbufs : ℕ → SliceCtrl
  pub flows : FlowTable
  pub fpa : List (ℕ × ℕ)

-- The fields `addr`, `back` and `pool` of a cvmx_buf_ptr_t.
pub record BufPtr : Type 0 where
  pub addr : ℕ → ℕ
  pub back : ℕ → ℕ
  pub pool : ℕ → ℕ

-- FPA_POOL_ID_HOST_MBUF
abbrev pub fpa_pool_id_host_mbuf : ℕ
fpa_pool_id_host_mbuf = 6

-- mem_pool_fpa_slice_free
abbrev pub mem_pool_fpa_slice_free : ℕ → ℕ → PacketStore → PacketStore
mem_pool_fpa_slice_free buf pool_id s = record s { fpa = (pool_id, buf) ∷ s.fpa }

-- mbuf_alloc, where `slice` is the answer of mem_pool_fpa_slice_alloc.
unfoldable pub mbuf_alloc : Option ℕ → PacketStore → Option ℕ × PacketStore
mbuf_alloc none s = (none, s)
mbuf_alloc (some buf) s =
    let mscb = record (s.mbufs buf) {
      magic = mem_pool_magic_num;
      pool_id = fpa_pool_id_host_mbuf;
    } in
    (some ((buf + mem_pool_slice_ctrl_size) % 2 ^ 64), record s { mbufs = store s.mbufs buf mscb })

-- mbuf_free for the mbuf at an address, with packet_recycle.
unfoldable pub mbuf_free : ℕ → Mbuf → PacketStore → PacketStore
mbuf_free address mb s =
    let recycled = record s { flows = (flow_de_reference mb s.flows).1 } in
    let buf = (address + (2 ^ 64 - mem_pool_slice_ctrl_size)) % 2 ^ 64 in
    let mscb = s.mbufs buf in
    if mscb.magic != mem_pool_magic_num
    then recycled
    else if mscb.pool_id != fpa_pool_id_host_mbuf
    then recycled
    else mem_pool_fpa_slice_free buf mscb.pool_id recycled

-- `((buffer_ptr.s.addr >> 7) - buffer_ptr.s.back) << 7`
abbrev pub start_of_buffer : BufPtr → ℕ → ℕ
start_of_buffer ptr u64 = (ptr.addr u64 / 2 ^ 7 + (2 ^ 64 - ptr.back u64)) % 2 ^ 64 * 2 ^ 7 % 2 ^ 64

-- packet_destory_rawdata
abbrev pub packet_destory_rawdata : BufPtr → ℕ → PacketStore → PacketStore
packet_destory_rawdata ptr u64 s = record s {
  fpa = (ptr.pool u64, start_of_buffer ptr u64) ∷ s.fpa;
}

-- `new_pkt + (header - old_pkt)`
unfoldable pub adjust : ℕ → ℕ → ℕ → ℕ
adjust old new h = (new + (h + (2 ^ 64 - old)) % 2 ^ 64) % 2 ^ 64

abbrev pub adjust_ptr : ℕ → ℕ → Option ℕ → Option ℕ
adjust_ptr old new none = none
adjust_ptr old new (some h) = some (adjust old new h)

unfoldable pub packet_header_ptr_adjust : Mbuf → ℕ → ℕ → Mbuf
packet_header_ptr_adjust mb old new = record mb {
  ethh = adjust_ptr old new mb.ethh;
  vlanh = if mb.vlan_idx == 0 then mb.vlanh else adjust old new mb.vlanh;
  network_header = adjust_ptr old new mb.network_header;
  transport_header = adjust_ptr old new mb.transport_header;
  payload = adjust_ptr old new mb.payload;
}

-- `memcpy(to, from, len)`
unfoldable pub memcpy : (ℕ → ℕ) → ℕ → ℕ → ℕ → ℕ → ℕ
memcpy bytes to from len a =
    if leb to a && ltb a (to + len) then bytes (from + (a - to)) else bytes a

-- What packet_hw2sw does once it has a buffer.
unfoldable pub move_to : BufPtr → PacketStore → Mbuf → Pools → ℕ → Mbuf × PacketStore
move_to ptr s mb pools buf =
    let moved = record mb { pkt_space = pktbuf_sw; pkt_ptr = buf } in
    let copied = record s {
      pools = pools;
      bytes = memcpy s.bytes buf mb.pkt_ptr mb.pkt_totallen;
    } in
    (
      record (packet_header_ptr_adjust moved mb.pkt_ptr buf) { packet_ptr = 0 },
      packet_destory_rawdata ptr mb.packet_ptr copied,
    )

-- packet_hw2sw: SEC_OK is `true`.
unfoldable pub packet_hw2sw : BufPtr → PacketStore → Mbuf → Bool × Mbuf × PacketStore
packet_hw2sw ptr s mb =
    let alloc = mem_pool_alloc s.pools mem_pool_id_small_buffer mb.pkt_totallen in
    if mb.pkt_space == pktbuf_sw then (true, mb, s) else elim alloc.0 [
      | none ↦ (false, mb, record s { pools = alloc.1 })
      | some buf ↦ let moved = move_to ptr s mb alloc.1 buf in (true, moved.0, moved.1)
    ]

-- packet_destroy_all for the mbuf at an address.
unfoldable pub packet_destroy_all : BufPtr → ℕ → PacketStore → Mbuf → PacketStore
packet_destroy_all ptr address s mb = mbuf_free address mb (
    if mb.pkt_space == pktbuf_hw
    then packet_destory_rawdata ptr mb.packet_ptr s
    else if mb.pkt_space == pktbuf_sw
    then record s { pools = mem_pool_free s.pools mb.pkt_ptr }
    else s)

-- packet_destroy_data
unfoldable pub packet_destroy_data : BufPtr → PacketStore → Mbuf → PacketStore
packet_destroy_data ptr s mb =
    if mb.pkt_space == pktbuf_hw then packet_destory_rawdata ptr mb.packet_ptr s else s
