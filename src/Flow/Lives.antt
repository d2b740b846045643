-- ===== src/Flow/Lives.antt =====
-- The life of a packet: FlowHandlePacket gives it a flow, l7_deliver has it, and packet_recycle lets the
-- flow go; the ageing runs in between.
use sec_fw.Common.{
  ℕ, suc, ◌^◌, ◌≤◌, ◌<◌, ◌≡◌, refl, ap, sym, inl, inr, subst, ◌∙◌, not, List, [], ◌∷◌, ◌++◌, length,
  Option, none, some, Option-cases, bit_or, ◌==◌, Bool-cases, arith,
}
use sec_fw.Mbuf.{Mbuf}
use sec_fw.Flow.{
  FlowItem, FlowTable, flow_init, flow_get_flow_from_hash, AgeContext, flow_age_timeout_cb,
}
use sec_fw.Flow.Ageing.{goes, flow_age-either}
use sec_fw.Flow.Reference.{
  flow_incr_usecnt, flow_decr_usecnt, flow_reference, flow_de_reference, Handled,
  flow_handle_packet, pkt_has_flow,
}
use sec_fw.Flow.InUse.{uses, at_addr, CountedBy, IsCounted, FreshFor}
use sec_fw.Flow.Uses.{
  get-Got, uses-length, incr-IsCounted, decr-IsCounted, uses-middle, select-kept, select-CountedBy,
}

-- The packets under way after FlowHandlePacket.
unfoldable pub under_way : Handled → List Mbuf → List Mbuf
under_way r packets = elim r.delivered [ none ↦ packets | some m ↦ m ∷ packets ]

-- The pool hands out no slice that is a flow of the table.
abbrev pub NotHeld : Option ℕ → FlowTable → Type 0
NotHeld none t = Unit
NotHeld (some addr) t = (h : ℕ) → at_addr addr (t.bucket h) ≡ 0

-- A packet comes in with no flow, a packet is freed, or the ageing runs. At most 2 ^ 31 - 1 packets are
-- under way, as many as an int32_t counts.
pub data Reach : FlowTable → List Mbuf → Type 0 where
  start : Reach flow_init []
  handled :
      (t : FlowTable) (packets : List Mbuf) (cpu now : ℕ) (slice : Option ℕ) (m : Mbuf)
      → Reach t packets
      → suc (length packets) < 2 ^ 31
      → m.flow ≡ none
      → NotHeld slice t
      → Reach
          (flow_handle_packet cpu now t slice m).table
          (under_way (flow_handle_packet cpu now t slice m) packets)
  freed :
      (t : FlowTable) (before : List Mbuf) (m : Mbuf) (after : List Mbuf)
      → Reach t (before ++ m ∷ after)
      → Reach (flow_de_reference m t).1 (before ++ after)
  aged :
      (t : FlowTable) (packets : List Mbuf) (c : AgeContext)
      → Reach t packets
      → Reach (flow_age_timeout_cb c t).0 packets

flow_de_reference-some :
    (m : Mbuf) (t : FlowTable) (addr : ℕ)
    → m.flow ≡ some addr
    → (flow_de_reference m t).1 ≡ flow_decr_usecnt addr t
unfolding flow_de_reference
flow_de_reference-some m t addr e = rw (flow_de_reference, e) refl

flow_de_reference-none : (m : Mbuf) (t : FlowTable) → m.flow ≡ none → (flow_de_reference m t).1 ≡ t
unfolding flow_de_reference
flow_de_reference-none m t e = rw (flow_de_reference, e) refl

flow_reference-none :
    (m : Mbuf) (addr : ℕ) (t : FlowTable)
    → m.flow ≡ none
    → flow_reference m addr t ≡ (record m { flow = some addr }, flow_incr_usecnt addr t)
unfolding flow_reference
flow_reference-none m addr t e = simp (flow_reference, e)

flow_handle_packet-none :
    (cpu now : ℕ) (t : FlowTable) (slice : Option ℕ) (m : Mbuf)
    → (flow_get_flow_from_hash cpu now t slice m).flow ≡ none
    → m.flow ≡ none
    → flow_handle_packet cpu now t slice m
      ≡ record { delivered = none; table = (flow_get_flow_from_hash cpu now t slice m).table }
unfolding flow_handle_packet
flow_handle_packet-none cpu now t slice m e k =
    let found = (flow_get_flow_from_hash cpu now t slice m).table in
    rw (flow_handle_packet, e)
      (λ i. record { delivered = none; table = flow_de_reference-none m found k i })

flow_handle_packet-some :
    (cpu now : ℕ) (t : FlowTable) (slice : Option ℕ) (m : Mbuf) (f : FlowItem)
    → (flow_get_flow_from_hash cpu now t slice m).flow ≡ some f
    → m.flow ≡ none
    → flow_handle_packet cpu now t slice m ≡ record {
      delivered = some (record m { flow = some f.addr; flags = bit_or m.flags pkt_has_flow });
      table = flow_incr_usecnt f.addr (flow_get_flow_from_hash cpu now t slice m).table;
    }
unfolding flow_handle_packet
flow_handle_packet-some cpu now t slice m f e k =
    let found = (flow_get_flow_from_hash cpu now t slice m).table in
    rw (flow_handle_packet, e, flow_reference-none m f.addr found k) refl

NotHeld-FreshFor :
    (slice : Option ℕ) (t : FlowTable) (packets : List Mbuf)
    → IsCounted t packets
    → NotHeld slice t
    → FreshFor slice packets
NotHeld-FreshFor none t packets c n = _
NotHeld-FreshFor (some addr) t packets c n = elim (Bool-cases (uses addr packets == 0)) [
  | inl e ↦ ground arith
  | inr e ↦ let (h, at_h) = c.present addr (ground arith) in absurd (at_h (n h))
]

flow_handle_packet-IsCounted :
    (cpu now : ℕ) (t : FlowTable) (slice : Option ℕ) (packets : List Mbuf) (m : Mbuf)
    → IsCounted t packets
    → suc (length packets) < 2 ^ 31
    → m.flow ≡ none
    → FreshFor slice packets
    → IsCounted
        (flow_handle_packet cpu now t slice m).table
        (under_way (flow_handle_packet cpu now t slice m) packets)
unfolding under_way
flow_handle_packet-IsCounted cpu now t slice packets m c few free fresh =
    let got = get-Got cpu now t slice packets m c fresh in
    elim (Option-cases (flow_get_flow_from_hash cpu now t slice m).flow) [
      | inl e ↦ rw (flow_handle_packet-none cpu now t slice m e free) got.still
      | inr (f, e) ↦ rw (flow_handle_packet-some cpu now t slice m f e free) (
          incr-IsCounted (flow_get_flow_from_hash cpu now t slice m).table packets
            (record m { flow = some f.addr; flags = bit_or m.flags pkt_has_flow }) f.addr got.still
            few refl (got.there f e))
    ]

-- The end of a packet with no flow.
drop-IsCounted :
    (t : FlowTable) (before : List Mbuf) (m : Mbuf) (after : List Mbuf)
    → IsCounted t (before ++ m ∷ after)
    → m.flow ≡ none
    → IsCounted t (before ++ after)
drop-IsCounted t before m after c e =
    let same : (a : ℕ) → uses a (before ++ m ∷ after) ≡ uses a (before ++ after) =
      λ a. uses-middle a before m after ∙ rw e (omega arith) in
    record {
      counted = λ h. subst (λ n. CountedBy n (t.bucket h)) (λ i a. same a i) (c.counted h);
      present = λ a u. c.present a (λ z. u (sym (same a) ∙ z));
    }

flow_de_reference-IsCounted :
    (t : FlowTable) (before : List Mbuf) (m : Mbuf) (after : List Mbuf)
    → IsCounted t (before ++ m ∷ after)
    → length (before ++ m ∷ after) < 2 ^ 31
    → IsCounted (flow_de_reference m t).1 (before ++ after)
flow_de_reference-IsCounted t before m after c few = elim (Option-cases m.flow) [
  | inl e ↦ rw (flow_de_reference-none m t e) (drop-IsCounted t before m after c e)
  | inr (addr, e) ↦
      rw (flow_de_reference-some m t addr e) (decr-IsCounted t before m after addr c few e)
]

flow_age-IsCounted :
    (c : AgeContext) (t : FlowTable) (packets : List Mbuf)
    → IsCounted t packets
    → length packets < 2 ^ 31
    → IsCounted (flow_age_timeout_cb c t).0 packets
flow_age-IsCounted c t packets k few = record {
  counted = λ j. elim (flow_age-either c t j) [
    | inl e ↦
        rw e (
          select-CountedBy (λ f. not (goes c j f)) (λ a. uses a packets) (t.bucket j) (k.counted j))
    | inr e ↦ rw e (k.counted j)
  ];
  present = λ a u.
      let (j, at_j) = k.present a u in
      (
        j,
        elim (flow_age-either c t j) [
          | inl e ↦ rw e (λ z. at_j (
              sym (
                select-kept c j a (λ b. uses b packets) (t.bucket j) (k.counted j) u
                  (omega (arith, uses-length a packets)))
              ∙ z))
          | inr e ↦ rw e at_j
        ],
      );
}

length-under_way :
    (r : Handled) (packets : List Mbuf) → length (under_way r packets) ≤ suc (length packets)
unfolding under_way
length-under_way r packets = elim (Option-cases r.delivered) [
  | inl e ↦ rw (under_way, e) (omega arith)
  | inr (m, e) ↦ rw (under_way, e) (omega arith)
]

length-middle :
    (before : List Mbuf) (m : Mbuf) (after : List Mbuf)
    → length (before ++ m ∷ after) ≡ suc (length (before ++ after))
length-middle [] m after = refl
length-middle (x ∷ before) m after = ap suc (length-middle before m after)

Reach-length : {t : FlowTable} {packets : List Mbuf} → Reach t packets → length packets < 2 ^ 31
Reach-length start = omega arith
Reach-length (handled t packets cpu now slice m r few free pool) =
    omega (arith, few, length-under_way (flow_handle_packet cpu now t slice m) packets)
Reach-length (freed t before m after r) =
    omega (arith, Reach-length r, length-middle before m after)
Reach-length (aged t packets c r) = Reach-length r

-- However packets come in and are freed and the ageing runs, the use count of every flow is the number of
-- packets under way that refer to it, and the flow that such a packet refers to is in the table.
pub reachable-IsCounted :
    (t : FlowTable) (packets : List Mbuf) → Reach t packets → IsCounted t packets
unfolding uses
reachable-IsCounted t packets start = record { counted = λ h. _; present = λ a u. absurd (u refl) }
reachable-IsCounted t packets (handled s under cpu now slice m r few free pool) =
    let c = reachable-IsCounted s under r in
    flow_handle_packet-IsCounted cpu now s slice under m c few free
      (NotHeld-FreshFor slice s under c pool)
reachable-IsCounted t packets (freed s before m after r) =
    flow_de_reference-IsCounted s before m after (reachable-IsCounted s (before ++ m ∷ after) r)
      (Reach-length r)
reachable-IsCounted t packets (aged s under c r) =
    flow_age-IsCounted c s under (reachable-IsCounted s under r) (Reach-length r)
