-- ===== src/Flow/Direction.antt =====
-- All packets of a connection, in either direction, get one flow.
use sec_fw.Common.{
  ℕ, ◌≡◌, refl, sym, inl, inr, ap, subst, ◌∙◌, true, false, Bool-cases, ==_self, List, [], ◌∷◌,
  Option, none, some, Option-cases, none≢some, some-inj, arith,
}
use sec_fw.Mbuf.{Mbuf}
use sec_fw.Flow.{
  FlowItem, FlowTable, update, flow_match, touched, flow_find, new_item, flow_add, flow_lookup,
  mbuf_hash, flow_get_flow_from_hash,
}
use sec_fw.Flow.Match.{same_hash, new_item_matches, new_item_transfer}
use sec_fw.Flow.Table.{touched_match, flow_add_hit, flow_add_miss, flow_get_hit, flow_get_miss}

-- Two packets of one connection: the flow made for the one matches the other.
abbrev pub SameConnection : Mbuf → Mbuf → Type 0
SameConnection m q = flow_match (new_item 0 0 m) q ≡ true

-- The packet that goes the other way.
abbrev pub reply : Mbuf → Mbuf
reply m = record m { sip = m.dip; dip = m.sip; sport = m.dport; dport = m.sport }

pub reply-SameConnection : (m : Mbuf) → SameConnection m (reply m)
unfolding flow_match
reply-SameConnection m = ground arith

update_same : (f : ℕ → List FlowItem) (h : ℕ) (v : List FlowItem) → update f h v h ≡ v
update_same f h v = rw (==_self h) refl

flow_find-again :
    (now now' : ℕ) (fs : List FlowItem) (m q : Mbuf) (f : FlowItem)
    → SameConnection m q
    → (flow_find now fs m).0 ≡ some f
    → (flow_find now' (flow_find now fs m).1 q).0 ≡ some (touched now' f)
unfolding flow_find
flow_find-again now now' [] m q f same e = absurd (none≢some e)
flow_find-again now now' (g ∷ fs) m q f same e = elim (Bool-cases (flow_match g m)) [
  | inl k ↦
      let gf : touched now g ≡ f = some-inj (rw k at e) in
      let kq : flow_match (touched now g) q ≡ true =
        touched_match now g q ∙ sym (new_item_transfer 0 0 g m q same) ∙ k in
      rw (k, kq) (ap (λ x. some (touched now' x)) gf)
  | inr k ↦
      let kq : flow_match g q ≡ false = sym (new_item_transfer 0 0 g m q same) ∙ k in
      rw (k, kq) (flow_find-again now now' fs m q f same (rw k at e))
]

-- The next packet of the connection finds `f`.
abbrev Ready : FlowTable → Mbuf → FlowItem → Type 0
Ready t m f =
    (now' : ℕ) (q : Mbuf)
    → SameConnection m q
    → (flow_find now' (t.bucket (mbuf_hash m)) q).0 ≡ some (touched now' f)

lookup-Ready :
    (now : ℕ) (t : FlowTable) (m : Mbuf) (f : FlowItem)
    → (flow_lookup now t (mbuf_hash m) m).0 ≡ some f
    → Ready (flow_lookup now t (mbuf_hash m) m).1 m f
unfolding flow_lookup
lookup-Ready now t m f e now' q same =
    rw (==_self (mbuf_hash m)) (flow_find-again now now' (t.bucket (mbuf_hash m)) m q f same e)

front :
    (now : ℕ) (f : FlowItem) (q : Mbuf) (fs : List FlowItem)
    → flow_match f q ≡ true
    → (flow_find now (f ∷ fs) q).0 ≡ some (touched now f)
unfolding flow_find
front now f q fs k = rw k refl

-- The address and the time of a flow do not matter to FlowMatch.
new_item_match_any :
    (now addr : ℕ) (m q : Mbuf) → SameConnection m q → flow_match (new_item now addr m) q ≡ true
unfolding flow_match
new_item_match_any now addr m q same = same

add-Ready :
    (cpu now : ℕ) (t : FlowTable) (slice : Option ℕ) (m : Mbuf) (f : FlowItem)
    → (flow_add cpu now t (mbuf_hash m) slice m).flow ≡ some f
    → Ready (flow_add cpu now t (mbuf_hash m) slice m).table m f
unfolding flow_find
add-Ready cpu now t none m f e = absurd (none≢some {a = f} (unfold flow_add in e))
add-Ready cpu now t (some addr) m f e =
    elim (Option-cases (flow_find now (t.bucket (mbuf_hash m)) m).0) [
      | inl k ↦
          let new : new_item now addr m ≡ f =
            some-inj (rw (flow_add_miss cpu now t (mbuf_hash m) addr m k) at e) in
          rw (flow_add_miss cpu now t (mbuf_hash m) addr m k) (λ now' q same.
            rw (==_self (mbuf_hash m)) (
              front now' (new_item now addr m) q _ (new_item_match_any now addr m q same)
              ∙ ap (λ x. some (touched now' x)) new))
      | inr (g, k) ↦
          let gf : g ≡ f = some-inj (rw (flow_add_hit cpu now t (mbuf_hash m) addr m g k) at e) in
          rw (flow_add_hit cpu now t (mbuf_hash m) addr m g k)
            (lookup-Ready now t m f (unfold flow_lookup in k ∙ ap some gf))
    ]

lookup-new_flow :
    (now : ℕ) (t : FlowTable) (h : ℕ) (m : Mbuf) → (flow_lookup now t h m).1.new_flow ≡ t.new_flow
unfolding flow_lookup
lookup-new_flow now t h m = refl

get-Ready :
    (cpu now : ℕ) (t : FlowTable) (slice : Option ℕ) (m : Mbuf) (f : FlowItem)
    → (flow_get_flow_from_hash cpu now t slice m).flow ≡ some f
    → Ready (flow_get_flow_from_hash cpu now t slice m).table m f
get-Ready cpu now t slice m f e = elim (Option-cases (flow_lookup now t (mbuf_hash m) m).0) [
  | inl k ↦
      rw (flow_get_miss cpu now t slice m k)
        (add-Ready cpu now _ slice m f (rw (flow_get_miss cpu now t slice m k) at e))
  | inr (g, k) ↦
      let gf : g ≡ f = some-inj (rw (flow_get_hit cpu now t slice m g k) at e) in
      rw (flow_get_hit cpu now t slice m g k) (lookup-Ready now t m f (k ∙ ap some gf))
]

-- Once a packet has its flow, the next packet of the connection, in either direction, gets the same flow
-- with the new time, needs no slice, and adds no flow.
pub flow_get-again :
    (cpu now : ℕ) (t : FlowTable) (slice : Option ℕ) (m : Mbuf) (f : FlowItem)
    → (flow_get_flow_from_hash cpu now t slice m).flow ≡ some f
    → (cpu' now' : ℕ) (slice' : Option ℕ) (q : Mbuf) → SameConnection m q
    → let t' = (flow_get_flow_from_hash cpu now t slice m).table in
      let r = flow_get_flow_from_hash cpu' now' t' slice' q in
      (r.flow ≡ some (touched now' f)) × (r.freed ≡ none) × (r.table.new_flow ≡ t'.new_flow)
flow_get-again cpu now t slice m f e cpu' now' slice' q same =
    let t' = (flow_get_flow_from_hash cpu now t slice m).table in
    let hash : mbuf_hash m ≡ mbuf_hash q =
      same_hash (new_item 0 0 m) m q (new_item_matches 0 0 m) same in
    let found : (flow_lookup now' t' (mbuf_hash q) q).0 ≡ some (touched now' f) =
      subst (λ h. (flow_lookup now' t' h q).0 ≡ some (touched now' f)) hash
        (unfold flow_lookup in get-Ready cpu now t slice m f e now' q same) in
    rw (flow_get_hit cpu' now' t' slice' q (touched now' f) found)
      (refl, refl, lookup-new_flow now' t' (mbuf_hash q) q)
