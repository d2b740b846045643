-- ===== src/Buffers/Moved.antt =====
-- The move of a packet from the buffer of the hardware to a slice of the software pools.
use sec_fw.Common.{
  ℕ, ◌+◌, ◌-◌, ◌^◌, ◌<◌, ◌≤◌, ◌≡◌, refl, ap, ◌⊎◌, inl, inr, true, false, ◌&&◌, ◌==◌, ltb, leb, ◌∷◌,
  Option, none, some, arith,
}
use sec_fw.Mbuf.{Mbuf, pktbuf_hw, pktbuf_sw}
use sec_fw.MemPool.{Pools, mem_pool_alloc, mem_pool_id_small_buffer}
use sec_fw.MemPool.Valid.{IsValid}
use sec_fw.MemPool.Alloc.{Refusal, mem_pool_alloc-Answer}
use sec_fw.Buffers.{
  PacketStore, BufPtr, start_of_buffer, adjust, adjust_ptr, packet_header_ptr_adjust, memcpy,
  move_to, packet_hw2sw,
}

-- The header lies in the packet.
abbrev pub InPacket : Mbuf → ℕ → Type 0
InPacket mb h = (mb.pkt_ptr ≤ h) × (h < mb.pkt_ptr + mb.pkt_totallen)

abbrev pub PtrInPacket : Mbuf → Option ℕ → Type 0
PtrInPacket mb none = Unit
PtrInPacket mb (some h) = InPacket mb h

-- All headers that the mbuf has lie in the packet, which does not reach beyond the memory.
pub record HasHeaders (mb : Mbuf) : Type 0 where
  pub ethh : PtrInPacket mb mb.ethh
  pub vlanh : (mb.vlan_idx == 0) ≡ false → InPacket mb mb.vlanh
  pub network_header : PtrInPacket mb mb.network_header
  pub transport_header : PtrInPacket mb mb.transport_header
  pub payload : PtrInPacket mb mb.payload
  pub in_memory : mb.pkt_ptr + mb.pkt_totallen ≤ 2 ^ 64

-- The same place in another buffer.
abbrev pub shifted : Mbuf → ℕ → Option ℕ → Option ℕ
shifted mb buf none = none
shifted mb buf (some h) = some (buf + (h - mb.pkt_ptr))

adjust-shifted :
    (mb : Mbuf) (buf h : ℕ)
    → mb.pkt_ptr + mb.pkt_totallen ≤ 2 ^ 64
    → buf + mb.pkt_totallen ≤ 2 ^ 64
    → InPacket mb h
    → adjust mb.pkt_ptr buf h ≡ buf + (h - mb.pkt_ptr)
unfolding adjust
adjust-shifted mb buf h old new (low, high) = omega arith

adjust_ptr-shifted :
    (mb : Mbuf) (buf : ℕ) (h : Option ℕ)
    → mb.pkt_ptr + mb.pkt_totallen ≤ 2 ^ 64
    → buf + mb.pkt_totallen ≤ 2 ^ 64
    → PtrInPacket mb h
    → adjust_ptr mb.pkt_ptr buf h ≡ shifted mb buf h
adjust_ptr-shifted mb buf none old new i = refl
adjust_ptr-shifted mb buf (some h) old new i = ap some (adjust-shifted mb buf h old new i)

-- The packet `n`, in the memory `t`, is the packet `mb` in the buffer `buf`: its bytes are the same, its headers
-- lie at the same places in it, and the hardware got back the old buffer.
pub record MovedTo (ptr : BufPtr) (s : PacketStore) (mb : Mbuf) (buf : ℕ) (n : Mbuf)
    (t : PacketStore) : Type 0 where
  pub space : n.pkt_space ≡ pktbuf_sw
  pub pkt_ptr : n.pkt_ptr ≡ buf
  pub pkt_totallen : n.pkt_totallen ≡ mb.pkt_totallen
  pub ethh : n.ethh ≡ shifted mb buf mb.ethh
  pub vlanh : (mb.vlan_idx == 0) ≡ false → n.vlanh ≡ buf + (mb.vlanh - mb.pkt_ptr)
  pub network_header : n.network_header ≡ shifted mb buf mb.network_header
  pub transport_header : n.transport_header ≡ shifted mb buf mb.transport_header
  pub payload : n.payload ≡ shifted mb buf mb.payload
  pub same : (k : ℕ) → k < mb.pkt_totallen → t.bytes (buf + k) ≡ s.bytes (mb.pkt_ptr + k)
  pub outside : (a : ℕ) → (a < buf) ⊎ (buf + mb.pkt_totallen ≤ a) → t.bytes a ≡ s.bytes a
  pub fpa : t.fpa ≡ (ptr.pool mb.packet_ptr, start_of_buffer ptr mb.packet_ptr) ∷ s.fpa
  pub mbufs : t.mbufs ≡ s.mbufs
  pub flows : t.flows ≡ s.flows

memcpy-inside :
    (bytes : ℕ → ℕ) (to from len k : ℕ)
    → k < len
    → memcpy bytes to from len (to + k) ≡ bytes (from + k)
unfolding memcpy
memcpy-inside bytes to from len k h =
    let inside : (leb to (to + k) && ltb (to + k) (to + len)) ≡ true = ground arith in
    rw inside (ap (λ n. bytes (from + n)) (omega arith))

memcpy-outside :
    (bytes : ℕ → ℕ) (to from len a : ℕ)
    → (a < to) ⊎ (to + len ≤ a)
    → memcpy bytes to from len a ≡ bytes a
unfolding memcpy
memcpy-outside bytes to from len a h =
    let outside : (leb to a && ltb a (to + len)) ≡ false = ground arith in rw outside refl

move_to-MovedTo :
    (ptr : BufPtr) (s : PacketStore) (mb : Mbuf) (pools : Pools) (buf : ℕ)
    → HasHeaders mb
    → buf + mb.pkt_totallen ≤ 2 ^ 64
    → MovedTo ptr s mb buf (move_to ptr s mb pools buf).0 (move_to ptr s mb pools buf).1
unfolding move_to packet_header_ptr_adjust
move_to-MovedTo ptr s mb pools buf h room = record {
  space = refl;
  pkt_ptr = refl;
  pkt_totallen = refl;
  ethh = adjust_ptr-shifted mb buf mb.ethh h.in_memory room h.ethh;
  vlanh = λ e. rw e (adjust-shifted mb buf mb.vlanh h.in_memory room (h.vlanh e));
  network_header = adjust_ptr-shifted mb buf mb.network_header h.in_memory room h.network_header;
  transport_header =
      adjust_ptr-shifted mb buf mb.transport_header h.in_memory room h.transport_header;
  payload = adjust_ptr-shifted mb buf mb.payload h.in_memory room h.payload;
  same = λ k l. memcpy-inside s.bytes buf mb.pkt_ptr mb.pkt_totallen k l;
  outside = λ a o. memcpy-outside s.bytes buf mb.pkt_ptr mb.pkt_totallen a o;
  fpa = refl;
  mbufs = refl;
  flows = refl;
}

-- packet_hw2sw, on valid pools and a packet in a buffer of the hardware whose headers lie in it, answers SEC_NO
-- if the pools have no slice for the packet, and then leaves the packet and its bytes as they were. Otherwise the
-- packet is in a software buffer with the same bytes and its headers at the same places, nothing else in the
-- memory is changed, and the hardware gets back the old buffer, once. The condition is that a slice for the packet
-- does not reach beyond the memory.
pub packet_hw2sw-MovedTo :
    (ptr : BufPtr) (s : PacketStore) (mb : Mbuf)
    → IsValid s.pools
    → mb.pkt_space ≡ pktbuf_hw
    → HasHeaders mb
    → ((buf : ℕ)
        → (mem_pool_alloc s.pools mem_pool_id_small_buffer mb.pkt_totallen).0 ≡ some buf
        → buf + mb.pkt_totallen ≤ 2 ^ 64)
    → (Refusal s.pools mem_pool_id_small_buffer mb.pkt_totallen
        × (packet_hw2sw ptr s mb ≡ (
          false,
          mb,
          record s { pools = (mem_pool_alloc s.pools mem_pool_id_small_buffer mb.pkt_totallen).1 },
        )))
      ⊎ ((buf : ℕ) × ((mem_pool_alloc s.pools mem_pool_id_small_buffer mb.pkt_totallen).0
            ≡ some buf)
          × ((packet_hw2sw ptr s mb).0 ≡ true)
          × MovedTo ptr s mb buf (packet_hw2sw ptr s mb).1 (packet_hw2sw ptr s mb).2)
unfolding packet_hw2sw
packet_hw2sw-MovedTo ptr s mb valid hw headers room =
    let alloc = mem_pool_alloc s.pools mem_pool_id_small_buffer mb.pkt_totallen in
    let not_sw : (mb.pkt_space == pktbuf_sw) ≡ false = ground arith in
    elim (mem_pool_alloc-Answer s.pools mem_pool_id_small_buffer mb.pkt_totallen valid) [
      | inl refused ↦ inl (refused.reason, rw (not_sw, refused.null) refl)
      | inr (l, got, taken) ↦ inr (
        l + 24,
        got,
        rw (not_sw, got) refl,
        rw (not_sw, got) (move_to-MovedTo ptr s mb alloc.1 (l + 24) headers (room (l + 24) got)),
      )
    ]
