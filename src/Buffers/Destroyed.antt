-- ===== src/Buffers/Destroyed.antt =====
-- The end of a packet: its buffer, its mbuf, and its reference to a flow.
use sec_fw.Common.{
  ℕ, ◌+◌, ◌-◌, ◌%◌, ◌^◌, ◌<◌, ◌≤◌, ◌≡◌, refl, sym, subst, Option-cases, inl, inr, ==_self, true,
  false, ◌==◌, ◌!=◌, if◌then◌else◌, List, ◌∷◌, map, Option, none, some, arith,
}
use sec_fw.Mbuf.{Mbuf, pktbuf_hw, pktbuf_sw}
use sec_fw.MemPool.{mem_pool_free, mem_pool_alloc, mem_pool_id_small_buffer, mem_pool_magic_num}
use sec_fw.MemPool.Valid.{IsValid}
use sec_fw.MemPool.Alloc.{mem_pool_alloc-Answer}
use sec_fw.MemPool.Free.{Restored, mem_pool_alloc-free}
use sec_fw.Flow.{FlowItem, FlowTable}
use sec_fw.Flow.Reference.{flow_de_reference, flow_decr_usecnt}
use sec_fw.Buffers.{
  PacketStore, BufPtr, start_of_buffer, fpa_pool_id_host_mbuf, mbuf_alloc, mbuf_free, move_to,
  packet_header_ptr_adjust, packet_hw2sw, packet_destroy_all,
}

-- The mbuf at the address is one that mbuf_alloc gave out.
pub record IsDescriptor (s : PacketStore) (address : ℕ) : Type 0 where
  pub low : 24 ≤ address
  pub high : address < 2 ^ 64
  pub magic : (s.mbufs (address - 24)).magic ≡ mem_pool_magic_num
  pub pool_id : (s.mbufs (address - 24)).pool_id ≡ fpa_pool_id_host_mbuf

pub mbuf_alloc-IsDescriptor :
    (s : PacketStore) (buf : ℕ)
    → buf + 24 < 2 ^ 64
    → ((mbuf_alloc (some buf) s).0 ≡ some (buf + 24))
      × IsDescriptor (mbuf_alloc (some buf) s).1 (buf + 24)
unfolding mbuf_alloc
mbuf_alloc-IsDescriptor s buf small =
    let back : buf + 24 - 24 ≡ buf = omega arith in
    let address : (buf + 24) % 2 ^ 64 ≡ buf + 24 = omega arith in
    (
      rw address refl,
      record {
        low = omega arith;
        high = small;
        magic = rw (back, ==_self buf) refl;
        pool_id = rw (back, ==_self buf) refl;
      },
    )

-- The flows of a bucket, of which one, if any, has one packet fewer.
abbrev pub let_go : Option ℕ → List FlowItem → List FlowItem
let_go none fs = fs
let_go (some addr) fs =
    map
      (λ f.
        if f.addr == addr then record f { use_cnt = (f.use_cnt + (2 ^ 32 - 1)) % 2 ^ 32 } else f)
      fs

-- What freeing an mbuf leaves: the hardware got its slice back, its flow has one packet fewer.
record Freed (s t : PacketStore) (mb : Mbuf) (address : ℕ) : Type 0 where
  fpa : t.fpa ≡ (fpa_pool_id_host_mbuf, address - 24) ∷ s.fpa
  flows : (h : ℕ) → t.flows.bucket h ≡ let_go mb.flow (s.flows.bucket h)
  pools : t.pools ≡ s.pools

flow_de_reference-let_go :
    (mb : Mbuf) (t : FlowTable) (h : ℕ)
    → (flow_de_reference mb t).1.bucket h ≡ let_go mb.flow (t.bucket h)
unfolding flow_de_reference flow_decr_usecnt
flow_de_reference-let_go mb t h = elim (Option-cases mb.flow) [
  | inl e ↦ rw e refl
  | inr (addr, e) ↦ rw e refl
]

mbuf_free-Freed :
    (s : PacketStore) (mb : Mbuf) (address : ℕ)
    → IsDescriptor s address
    → Freed s (mbuf_free address mb s) mb address
unfolding mbuf_free
mbuf_free-Freed s mb address d =
    let back : (address + (2 ^ 64 - 24)) % 2 ^ 64 ≡ address - 24 = omega (arith, d.low, d.high) in
    let magic : ((s.mbufs (address - 24)).magic != mem_pool_magic_num) ≡ false = rw d.magic refl in
    let pool : ((s.mbufs (address - 24)).pool_id != fpa_pool_id_host_mbuf) ≡ false =
      rw d.pool_id refl in
    record {
      fpa = rw (back, magic, pool, d.pool_id) refl;
      flows = λ h. rw (back, magic, pool) (flow_de_reference-let_go mb s.flows h);
      pools = rw (back, magic, pool) refl;
    }

-- A packet of the hardware that was moved to a software buffer and is then destroyed leaves nothing behind, with
-- valid pools and an mbuf that mbuf_alloc gave out: the software pools are as they were, the hardware got back
-- the buffer of the packet and then the slice of its mbuf, and nothing else, and the flow that the packet refers
-- to, if any, has one packet fewer, and no other flow is changed.
pub packet_destroy_all-hw2sw :
    (ptr : BufPtr) (s : PacketStore) (mb : Mbuf) (address : ℕ)
    → IsValid s.pools
    → IsDescriptor s address
    → mb.pkt_space ≡ pktbuf_hw
    → (packet_hw2sw ptr s mb).0 ≡ true
    → let t = packet_destroy_all ptr address (packet_hw2sw ptr s mb).2 (packet_hw2sw ptr s mb).1 in
      Restored s.pools t.pools
      × (t.fpa
          ≡ (fpa_pool_id_host_mbuf, address - 24)
            ∷ (ptr.pool mb.packet_ptr, start_of_buffer ptr mb.packet_ptr)
            ∷ s.fpa)
      × ((h : ℕ) → t.flows.bucket h ≡ let_go mb.flow (s.flows.bucket h))
unfolding packet_hw2sw packet_destroy_all move_to packet_header_ptr_adjust
packet_destroy_all-hw2sw ptr s mb address valid d hw ok =
    let alloc = mem_pool_alloc s.pools mem_pool_id_small_buffer mb.pkt_totallen in
    let not_sw : (mb.pkt_space == pktbuf_sw) ≡ false = ground arith in
    elim (mem_pool_alloc-Answer s.pools mem_pool_id_small_buffer mb.pkt_totallen valid) [
      | inl refused ↦ absurd (cc (rw (not_sw, refused.null) at ok))
      | inr (l, got, taken) ↦
          let moved = move_to ptr s mb alloc.1 (l + 24) in
          let before : PacketStore = record moved.1 {
            pools = mem_pool_free moved.1.pools (l + 24);
          } in
          let same : IsDescriptor before address = record {
            low = d.low;
            high = d.high;
            magic = d.magic;
            pool_id = d.pool_id;
          } in
          let freed = mbuf_free-Freed before moved.0 address same in
          let restored =
            mem_pool_alloc-free s.pools mem_pool_id_small_buffer mb.pkt_totallen (l + 24) valid
              got in
          rw (not_sw, got)
            (subst (Restored s.pools) (sym freed.pools) restored, freed.fpa, freed.flows)
    ]
