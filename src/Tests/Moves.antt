-- ===== src/Tests/Moves.antt =====
-- Runs of the move of a packet to a software buffer.
use sec_fw.Common.{ℕ, ◌+◌, ◌^◌, ◌%◌, ◌≤◌, ◌≡◌, ◌⊎◌, refl, true, false, [], ◌∷◌, some, arith}
use sec_fw.Mbuf.{Mbuf}
use sec_fw.MemPool.{mem_pool_alloc, mem_pool_id_small_buffer, alloc_from, take_slice}
use sec_fw.MemPool.Alloc.{Refusal}
use sec_fw.MemPool.Free.{Restored}
use sec_fw.Buffers.{
  PacketStore, BufPtr, fpa_pool_id_host_mbuf, mbuf_alloc, packet_hw2sw, packet_destroy_all,
  packet_destroy_data, move_to, packet_header_ptr_adjust, adjust,
}
use sec_fw.Buffers.Moved.{HasHeaders, MovedTo, packet_hw2sw-MovedTo}
use sec_fw.Buffers.Destroyed.{let_go, mbuf_alloc-IsDescriptor, packet_destroy_all-hw2sw}
use sec_fw.MemPool.Valid.{IsValid}
use sec_fw.Flow.{flow_init}
use sec_fw.Tests.Dataplane.{packet}
use sec_fw.Tests.Pools.{one_slice, one_slice-IsValid}

-- A packet of 60 bytes at 1000, in a buffer that begins at 896.
abbrev hw_packet : Mbuf
hw_packet = record packet {
  pkt_ptr = 1000;
  packet_ptr = 1000;
  ethh = some 1000;
  network_header = some 1014;
}

abbrev fields : BufPtr
fields = record { addr = λ u64. u64; back = λ u64. 0; pool = λ u64. 0 }

abbrev at_first : PacketStore
at_first = record {
  pools = one_slice;
  bytes = λ a. a % 256;
  mbufs = λ a. record { magic = 0; pool_id = 0; subpool_id = 0; ref = 0 };
  flows = flow_init;
  fpa = [];
}

-- With an mbuf at 640.
abbrev with_mbuf : PacketStore
with_mbuf = (mbuf_alloc (some 616) at_first).1

hw_packet-HasHeaders : HasHeaders hw_packet
hw_packet-HasHeaders = record {
  ethh = (omega arith, omega arith);
  vlanh = λ e. absurd (cc e);
  network_header = (omega arith, omega arith);
  transport_header = _;
  payload = _;
  in_memory = omega arith;
}

buffer_at :
    (mem_pool_alloc at_first.pools mem_pool_id_small_buffer hw_packet.pkt_totallen).0 ≡ some 4120
unfolding mem_pool_alloc alloc_from take_slice
buffer_at = refl

buffer_fits :
    (buf : ℕ)
    → (mem_pool_alloc at_first.pools mem_pool_id_small_buffer hw_packet.pkt_totallen).0 ≡ some buf
    → buf + hw_packet.pkt_totallen ≤ 2 ^ 64
buffer_fits buf e = let same : buf ≡ 4120 = cc (e, buffer_at) in omega arith

moved_example :
    (Refusal at_first.pools mem_pool_id_small_buffer hw_packet.pkt_totallen
      × (packet_hw2sw fields at_first hw_packet ≡ (
        false,
        hw_packet,
        record at_first { pools = (mem_pool_alloc at_first.pools mem_pool_id_small_buffer 60).1 },
      )))
    ⊎ ((buf : ℕ) × ((mem_pool_alloc at_first.pools mem_pool_id_small_buffer
            hw_packet.pkt_totallen).0
          ≡ some buf)
        × ((packet_hw2sw fields at_first hw_packet).0 ≡ true)
        × MovedTo fields at_first hw_packet buf
            (packet_hw2sw fields at_first hw_packet).1
            (packet_hw2sw fields at_first hw_packet).2)
moved_example =
    packet_hw2sw-MovedTo fields at_first hw_packet one_slice-IsValid refl hw_packet-HasHeaders
      buffer_fits

hw_packet_moves : (packet_hw2sw fields at_first hw_packet).0 ≡ true
unfolding packet_hw2sw mem_pool_alloc alloc_from take_slice
hw_packet_moves = refl

network_header_moves : (packet_hw2sw fields at_first hw_packet).1.network_header ≡ some 4134
unfolding packet_hw2sw mem_pool_alloc alloc_from take_slice move_to packet_header_ptr_adjust adjust
network_header_moves = refl

with_mbuf-moves : (packet_hw2sw fields with_mbuf hw_packet).0 ≡ true
unfolding packet_hw2sw mem_pool_alloc alloc_from take_slice mbuf_alloc
with_mbuf-moves = refl

with_mbuf-IsValid : IsValid with_mbuf.pools
unfolding mbuf_alloc
with_mbuf-IsValid = one_slice-IsValid

abbrev after : PacketStore
after =
    packet_destroy_all fields 640 (packet_hw2sw fields with_mbuf hw_packet).2
      (packet_hw2sw fields with_mbuf hw_packet).1

destroyed_example :
    Restored with_mbuf.pools after.pools
    × (after.fpa ≡ (fpa_pool_id_host_mbuf, 616) ∷ (0, 896) ∷ with_mbuf.fpa)
    × ((h : ℕ) → after.flows.bucket h ≡ let_go hw_packet.flow (with_mbuf.flows.bucket h))
destroyed_example =
    packet_destroy_all-hw2sw fields with_mbuf hw_packet 640 with_mbuf-IsValid
      (mbuf_alloc-IsDescriptor at_first 616 (omega arith)).1 refl with_mbuf-moves

-- packet_destroy_data does not give back a software buffer.
software_kept :
    (packet_destroy_data fields
      (packet_hw2sw fields at_first hw_packet).2
      (packet_hw2sw fields at_first hw_packet).1).pools
    ≡ (packet_hw2sw fields at_first hw_packet).2.pools
unfolding packet_destroy_data packet_hw2sw mem_pool_alloc alloc_from take_slice move_to
    packet_header_ptr_adjust
software_kept = refl
