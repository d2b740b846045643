-- ===== src/Flow/InUse.antt =====
-- A flow that a packet refers to is in the table until the packet is freed.
use sec_fw.Common.{
  ℕ, ◌+◌, ◌≡◌, ◌≢◌, refl, sym, inl, inr, subst, ◌∙◌, Bool-cases, ==_self, ◌==◌, if◌then◌else◌, List,
  [], ◌∷◌, All, Option, none, some, Option-cases, none≢some, some-inj, arith,
}
use sec_fw.Mbuf.{Mbuf}
use sec_fw.Flow.{
  FlowItem, FlowTable, update, flow_match, touched, new_item, flow_find, flow_lookup, flow_add,
  mbuf_hash, Lookup, increment,
}
use sec_fw.Flow.Table.{flow_add_hit, flow_add_miss}

-- 1 if the packet refers to the flow at an address.
abbrev pub refers : ℕ → Mbuf → ℕ
refers a m = elim m.flow [ none ↦ 0 | some b ↦ if a == b then 1 else 0 ]

unfoldable pub uses : ℕ → List Mbuf → ℕ
uses a [] = 0
uses a (m ∷ ms) = refers a m + uses a ms

-- How many flows of a list have an address.
unfoldable pub at_addr : ℕ → List FlowItem → ℕ
at_addr a [] = 0
at_addr a (f ∷ fs) = (if f.addr == a then 1 else 0) + at_addr a fs

-- The use count of every flow is `n` of its address.
abbrev pub CountedBy : (ℕ → ℕ) → List FlowItem → Type 0
CountedBy n fs = All (λ f. f.use_cnt ≡ n f.addr) fs

-- The counts are those of the packets under way, and each packet's flow is in the table.
pub record IsCounted (t : FlowTable) (packets : List Mbuf) : Type 0 where
  pub counted : (h : ℕ) → CountedBy (λ a. uses a packets) (t.bucket h)
  pub present : (a : ℕ) → uses a packets ≢ 0 → (h : ℕ) × (at_addr a (t.bucket h) ≢ 0)

-- A lookup changes no address and no count.
flow_find-at_addr :
    (now : ℕ) (fs : List FlowItem) (m : Mbuf) (a : ℕ)
    → at_addr a (flow_find now fs m).1 ≡ at_addr a fs
unfolding flow_find at_addr
flow_find-at_addr now [] m a = refl
flow_find-at_addr now (f ∷ fs) m a = elim (Bool-cases (flow_match f m)) [
  | inl e ↦ rw e refl
  | inr e ↦ rw e (omega (arith, flow_find-at_addr now fs m a))
]

flow_find-CountedBy :
    (now : ℕ) (fs : List FlowItem) (m : Mbuf) (n : ℕ → ℕ)
    → CountedBy n fs
    → CountedBy n (flow_find now fs m).1
unfolding flow_find
flow_find-CountedBy now [] m n c = c
flow_find-CountedBy now (f ∷ fs) m n (c, cs) = elim (Bool-cases (flow_match f m)) [
  | inl e ↦ rw e (c, cs)
  | inr e ↦ rw e (c, flow_find-CountedBy now fs m n cs)
]

flow_find-present :
    (now : ℕ) (fs : List FlowItem) (m : Mbuf) (f : FlowItem)
    → (flow_find now fs m).0 ≡ some f
    → at_addr f.addr (flow_find now fs m).1 ≢ 0
unfolding flow_find at_addr
flow_find-present now [] m f e = absurd (none≢some e)
flow_find-present now (g ∷ fs) m f e = elim (Bool-cases (flow_match g m)) [
  | inl k ↦
      let gf : touched now g ≡ f = some-inj (rw k at e) in
      rw k (subst (λ x. at_addr x.addr (touched now g ∷ fs) ≢ 0) gf (front (touched now g) fs))
  | inr k ↦ rw k (λ z. flow_find-present now fs m f (rw k at e) (omega (arith, z)))
]
  where
    front : (x : FlowItem) (xs : List FlowItem) → at_addr x.addr (x ∷ xs) ≢ 0
    front x xs z = ground (arith, ==_self x.addr)

-- A bucket is replaced by a list that still has its addresses and whose counts are right.
replaced-IsCounted :
    (t : FlowTable) (packets : List Mbuf) (h : ℕ) (items : List FlowItem) (n d : ℕ → ℕ)
    → IsCounted t packets
    → CountedBy (λ a. uses a packets) items
    → ((a : ℕ) → uses a packets ≢ 0 → at_addr a (t.bucket h) ≢ 0 → at_addr a items ≢ 0)
    → IsCounted (record { bucket = update t.bucket h items; new_flow = n; del_flow = d }) packets
replaced-IsCounted t packets h items n d c right kept = record {
  counted = λ k. elim (Bool-cases (h == k)) [ inl e ↦ rw e right | inr e ↦ rw e (c.counted k) ];
  present = λ a u.
      let (k, at_k) = c.present a u in
      (
        k,
        elim (Bool-cases (h == k)) [
          | inl e ↦
              let hk : h ≡ k = ground arith in
              rw e (kept a u (subst (λ j. at_addr a (t.bucket j) ≢ 0) (sym hk) at_k))
          | inr e ↦ rw e at_k
        ],
      );
}

-- The slice that the pool gave, if it gave one, is not a flow of any packet.
abbrev pub FreshFor : Option ℕ → List Mbuf → Type 0
FreshFor none packets = Unit
FreshFor (some addr) packets = uses addr packets ≡ 0

-- A lookup that leaves the counts right, and whose flow is in its table.
pub record Got (packets : List Mbuf) (r : Lookup) : Type 0 where
  pub still : IsCounted r.table packets
  pub there : (f : FlowItem) → r.flow ≡ some f → (h : ℕ) × (at_addr f.addr (r.table.bucket h) ≢ 0)

module _ (now : ℕ) (t : FlowTable) (packets : List Mbuf) (m : Mbuf) (c : IsCounted t packets) where
  pub lookup-IsCounted : IsCounted (flow_lookup now t (mbuf_hash m) m).1 packets
  unfolding flow_lookup
  lookup-IsCounted =
      let items = t.bucket (mbuf_hash m) in
      replaced-IsCounted t packets (mbuf_hash m) (flow_find now items m).1 t.new_flow t.del_flow c
        (flow_find-CountedBy now items m (λ a. uses a packets) (c.counted (mbuf_hash m)))
        (λ a u o z. o (sym (flow_find-at_addr now items m a) ∙ z))

  pub lookup-there :
      (f : FlowItem)
      → (flow_find now (t.bucket (mbuf_hash m)) m).0 ≡ some f
      → (h : ℕ) × (at_addr f.addr ((flow_lookup now t (mbuf_hash m) m).1.bucket h) ≢ 0)
  unfolding flow_lookup
  lookup-there f e = (
    mbuf_hash m,
    rw (==_self (mbuf_hash m)) (flow_find-present now (t.bucket (mbuf_hash m)) m f e),
  )

  pub add-Got :
      (cpu : ℕ) (slice : Option ℕ)
      → FreshFor slice packets
      → Got packets (flow_add cpu now t (mbuf_hash m) slice m)
  unfolding flow_add at_addr
  add-Got cpu none fresh = record { still = c; there = λ f e. absurd (none≢some {a = f} e) }
  add-Got cpu (some addr) fresh =
      let items = t.bucket (mbuf_hash m) in
      elim (Option-cases (flow_find now items m).0) [
        | inl e ↦ rw (flow_add_miss cpu now t (mbuf_hash m) addr m e) (record {
          still =
              replaced-IsCounted t packets (mbuf_hash m)
                (new_item now addr m ∷ (flow_find now items m).1) (increment t.new_flow cpu)
                t.del_flow c
                (
                  sym fresh,
                  flow_find-CountedBy now items m (λ a. uses a packets) (c.counted (mbuf_hash m)),
                )
                (λ a u o z. o (omega (arith, sym (flow_find-at_addr now items m a), z)));
          there = λ f k.
              let nf : new_item now addr m ≡ f = some-inj k in
              (
                mbuf_hash m,
                rw (==_self (mbuf_hash m)) (
                    subst
                      (λ x. at_addr x.addr (new_item now addr m ∷ (flow_find now items m).1) ≢ 0) nf
                      (λ z. ground (arith, z, ==_self addr))),
              );
        })
        | inr (g, e) ↦ rw (flow_add_hit cpu now t (mbuf_hash m) addr m g e) (record {
          still = lookup-IsCounted;
          there = λ f k.
              subst
                (λ x.
                  (h : ℕ) × (at_addr x.addr ((flow_lookup now t (mbuf_hash m) m).1.bucket h) ≢ 0))
                (some-inj k) (lookup-there g e);
        })
      ]
