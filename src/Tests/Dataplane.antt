-- ===== src/Tests/Dataplane.antt =====
-- Runs of the data plane's models.
use sec_fw.Common.{ℕ, ◌<◌, ◌≡◌, refl, false, not, [], ◌∷◌, none, some, arith}
use sec_fw.Rules.{zero_mac}
use sec_fw.Mbuf.{Mbuf, pktbuf_hw}
use sec_fw.Flow.{
  flow_init, touched, new_item, flow_get_flow_from_hash, flow_find, flowhashfn, flow_lookup,
  flow_add, AgeContext, flow_age_timeout_cb, flow_bucket_num, mbuf_hash,
}
use sec_fw.Flow.Hash.{flow_hashfn, tlu_hash}
use sec_fw.Flow.Table
use sec_fw.Flow.Direction.{reply, reply-SameConnection, flow_get-again}
use sec_fw.Flow.Ageing.{select, goes, flow_age_timeout_cb-survivors}
use sec_fw.Flow.Reference.{Handled, flow_handle_packet, flow_reference}
use sec_fw.Flow.InUse.{uses, at_addr, IsCounted}
use sec_fw.Flow.Lives
use sec_fw.Flow.Lives.{under_way, reachable-IsCounted}
use sec_fw.Flow.Interleaving.{World, Step, Reach, reachable-IsValid}

-- A packet from 10.0.0.2, port 1024, to port 80 of 10.0.0.1.
abbrev pub packet : Mbuf
packet = record {
  pkt_space = pktbuf_hw;
  pkt_totallen = 60;
  packet_ptr = 0;
  pkt_ptr = 0;
  ethh = none;
  vlanh = 0;
  network_header = none;
  transport_header = none;
  input_port = 0;
  eth_dst = zero_mac;
  eth_src = zero_mac;
  sip = 0x0a000002;
  dip = 0x0a000001;
  sport = 1024;
  dport = 80;
  proto = 6;
  vlan_idx = 0;
  payload_len = 0;
  vlan_id = 0;
  defrag_id = 0;
  payload = none;
  frag_offset = 0;
  frag_len = 0;
  flags = 0;
  flow_hash = 0;
  flow = none;
}

first_flow :
    (flow_get_flow_from_hash 0 100 flow_init (some 4096) packet).flow
    ≡ some (new_item 100 4096 packet)
unfolding flow_get_flow_from_hash flow_add flow_lookup flow_find flowhashfn flow_hashfn tlu_hash
first_flow = refl

again_example :
    let t = (flow_get_flow_from_hash 0 100 flow_init (some 4096) packet).table in
    let r = flow_get_flow_from_hash 1 200 t none (reply packet) in
    (r.flow ≡ some (touched 200 (new_item 100 4096 packet)))
    × (r.freed ≡ none)
    × (r.table.new_flow ≡ t.new_flow)
again_example =
    flow_get-again 0 100 flow_init (some 4096) packet (new_item 100 4096 packet) first_flow 1 200
      none (reply packet) (reply-SameConnection packet)

-- Two cores miss the same connection, and both add it.
abbrev idle : World
idle = record { table = flow_init; missed = [] }

abbrev one_missed : World
one_missed = record {
  table = (flow_lookup 1 flow_init (mbuf_hash packet) packet).1;
  missed = packet ∷ [];
}

abbrev both_missed : World
both_missed = record {
  table = (flow_lookup 2 one_missed.table (mbuf_hash (reply packet)) (reply packet)).1;
  missed = reply packet ∷ packet ∷ [];
}

abbrev one_added : World
one_added = record {
  table = (flow_add 0 3 both_missed.table (mbuf_hash packet) (some 4096) packet).table;
  missed = reply packet ∷ [];
}

abbrev both_added : World
both_added = record {
  table =
      (flow_add 1 4 one_added.table (mbuf_hash (reply packet)) (some 8192) (reply packet)).table;
  missed = [];
}

both_missed-Reach : Reach both_missed
unfolding flow_lookup flow_find flowhashfn flow_hashfn tlu_hash
both_missed-Reach =
    Reach.next (Reach.next Reach.start (Step.miss idle 1 packet refl))
      (Step.miss one_missed 2 (reply packet) refl)

both_added-Reach : Reach both_added
both_added-Reach =
    Reach.next
      (Reach.next both_missed-Reach
        (Step.add both_missed 0 3 (some 4096) (reply packet ∷ []) packet [] refl))
      (Step.add one_added 1 4 (some 8192) [] (reply packet) [] refl)

interleaving_example : Table.IsValid both_added.table
interleaving_example = reachable-IsValid both_added both_added-Reach

abbrev context : AgeContext
context = record {
  now = 1000;
  timeout = 20;
  cpu = 0;
  bucket_locked = λ i. false;
  item_locked = λ a. false;
}

ageing_example :
    Table.IsValid (flow_age_timeout_cb context both_added.table).0
    × ((j : ℕ)
        → j < flow_bucket_num
        → (flow_age_timeout_cb context both_added.table).0.bucket j
          ≡ select (λ f. not (goes context j f)) (both_added.table.bucket j))
ageing_example = flow_age_timeout_cb-survivors context both_added.table interleaving_example

-- A packet is given a flow, and the ageing runs long after while it is under way.
abbrev carried : Handled
carried = flow_handle_packet 0 1 flow_init (some 4096) packet

carried-Reach : Lives.Reach carried.table (under_way carried [])
unfolding at_addr
carried-Reach =
    Lives.Reach.handled flow_init [] 0 1 (some 4096) packet Lives.Reach.start (omega arith) refl
      (λ h. refl)

carried-uses : uses 4096 (under_way carried []) ≡ 1
unfolding uses under_way flow_handle_packet flow_get_flow_from_hash flow_lookup flow_add flow_find
    flow_reference flowhashfn flow_hashfn tlu_hash
carried-uses = refl

in_use_example : IsCounted (flow_age_timeout_cb context carried.table).0 (under_way carried [])
in_use_example =
    reachable-IsCounted (flow_age_timeout_cb context carried.table).0 (under_way carried [])
      (Lives.Reach.aged carried.table (under_way carried []) context carried-Reach)
