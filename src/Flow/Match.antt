-- ===== src/Flow/Match.antt =====
-- FlowMatch as equality of connections, and the hash that goes with it.
use sec_fw.Common.{
  ℕ, ◌%◌, ◌≡◌, refl, sym, ◌⊎◌, inl, inr, ap, ◌∙◌, Bool, true, Bool-cases, ◌==◌, ◌&&◌, ◌||◌, arith,
}
use sec_fw.Mbuf.{Mbuf}
use sec_fw.Flow.{FlowItem, flow_match, flowhashfn, mbuf_hash, new_item}
use sec_fw.Flow.Hash.{flow_hashfn_comm}

-- The two directions in which a flow matches a packet.
abbrev Forward : FlowItem → Mbuf → Type 0
Forward f m =
    (f.sip ≡ m.sip)
    × (f.dip ≡ m.dip)
    × (f.sport ≡ m.sport)
    × (f.dport ≡ m.dport)
    × (f.protocol ≡ m.proto)

abbrev Backward : FlowItem → Mbuf → Type 0
Backward f m =
    (f.sip ≡ m.dip)
    × (f.dip ≡ m.sip)
    × (f.sport ≡ m.dport)
    × (f.dport ≡ m.sport)
    × (f.protocol ≡ m.proto)

match→ways : (f : FlowItem) (m : Mbuf) → flow_match f m ≡ true → Forward f m ⊎ Backward f m
unfolding flow_match
match→ways f m h = ground arith

ways→match : (f : FlowItem) (m : Mbuf) → Forward f m ⊎ Backward f m → flow_match f m ≡ true
unfolding flow_match
ways→match f m h = ground arith

abbrev item_hash : FlowItem → ℕ
item_hash f = flowhashfn f.sip f.dip f.sport f.dport f.protocol

match→hash : (f : FlowItem) (m : Mbuf) → flow_match f m ≡ true → item_hash f ≡ mbuf_hash m
unfolding flowhashfn
match→hash f m h = elim (match→ways f m h) [
  | inl (a, b, c, d, e) ↦ rw (a, b, c, d, e) refl
  | inr (a, b, c, d, e) ↦
      rw (a, b, c, d, e)
        (ap (λ x. x % 65536) (flow_hashfn_comm m.proto m.dip m.sip m.dport m.sport))
]

-- Packets of one flow have one hash.
pub same_hash :
    (f : FlowItem) (m q : Mbuf)
    → flow_match f m ≡ true
    → flow_match f q ≡ true
    → mbuf_hash m ≡ mbuf_hash q
same_hash f m q h k = sym (match→hash f m h) ∙ match→hash f q k

pub new_item_matches : (now addr : ℕ) (m : Mbuf) → flow_match (new_item now addr m) m ≡ true
new_item_matches now addr m =
    ways→match (new_item now addr m) m (inl (refl, refl, refl, refl, refl))

-- The test in one direction or the other does not depend on which comes first.
turned :
    (a b c d a' b' c' d' e : Bool)
    → (a && b && c && d && e || a' && b' && c' && d' && e)
      ≡ (b' && a' && d' && c' && e || b && a && d && c && e)
turned a b c d a' b' c' d' e = ground arith

-- A flow that matches `m` matches just what the flow made for `m` would.
pub new_item_same :
    (now addr : ℕ) (f : FlowItem) (m q : Mbuf)
    → flow_match f m ≡ true
    → flow_match f q ≡ flow_match (new_item now addr m) q
unfolding flow_match
new_item_same now addr f m q h = elim (match→ways f m h) [
  | inl (a, b, c, d, e) ↦ rw (a, b, c, d, e) refl
  | inr (a, b, c, d, e) ↦
      rw (a, b, c, d, e)
        (turned (m.dip == q.sip) (m.sip == q.dip) (m.dport == q.sport) (m.sport == q.dport)
          (m.dip == q.dip) (m.sip == q.sip) (m.dport == q.dport) (m.sport == q.sport)
          (m.proto == q.proto))
]

new_item_swap :
    (now addr : ℕ) (m q : Mbuf)
    → flow_match (new_item now addr m) q ≡ true
    → flow_match (new_item now addr q) m ≡ true
new_item_swap now addr m q h = ways→match (new_item now addr q) m (elim (match→ways _ q h) [
  | inl (a, b, c, d, e) ↦ inl (sym a, sym b, sym c, sym d, sym e)
  | inr (a, b, c, d, e) ↦ inr (sym b, sym a, sym d, sym c, sym e)
])

pub new_item_transfer :
    (now addr : ℕ) (f : FlowItem) (m q : Mbuf)
    → flow_match (new_item now addr m) q ≡ true
    → flow_match f m ≡ flow_match f q
new_item_transfer now addr f m q h = elim (Bool-cases (flow_match f m)) [
  | inl k ↦ k ∙ sym (new_item_same now addr f m q k ∙ h)
  | inr k ↦ elim (Bool-cases (flow_match f q)) [
    | inl l ↦ new_item_same now addr f q m l ∙ new_item_swap now addr m q h ∙ sym l
    | inr l ↦ k ∙ sym l
  ]
]
