-- ===== src/Flow/Uses.antt =====
-- FlowHandlePacket, the release of a packet, and the ageing keep the use counts right.
use sec_fw.Common.{
  ℕ, suc, ◌+◌, ◌-◌, ◌%◌, ◌^◌, ◌≤◌, ◌<◌, ◌≡◌, ◌≢◌, refl, sym, inl, inr, ap, subst, ◌∙◌, Bool, not,
  Bool-cases, ==_self, ==_of_ne, ◌==◌, List, [], ◌∷◌, ◌++◌, map, length, Option, some, Option-cases,
  some-inj, arith,
}
use sec_fw.Mbuf.{Mbuf}
use sec_fw.Flow.{FlowItem, FlowTable, flow_lookup, flow_get_flow_from_hash, mbuf_hash, AgeContext}
use sec_fw.Flow.Table.{flow_get_hit, flow_get_miss}
use sec_fw.Flow.Ageing.{select, goes, referred-stays}
use sec_fw.Flow.Reference.{add_use, flow_incr_usecnt, flow_decr_usecnt}
use sec_fw.Flow.InUse.{
  refers, uses, at_addr, CountedBy, IsCounted, FreshFor, Got, lookup-IsCounted, lookup-there,
  add-Got,
}

pub get-Got :
    (cpu now : ℕ) (t : FlowTable) (slice : Option ℕ) (packets : List Mbuf) (m : Mbuf)
    → IsCounted t packets
    → FreshFor slice packets
    → Got packets (flow_get_flow_from_hash cpu now t slice m)
unfolding flow_lookup
get-Got cpu now t slice packets m c fresh =
    elim (Option-cases (flow_lookup now t (mbuf_hash m) m).0) [
      | inl e ↦ rw (flow_get_miss cpu now t slice m e) (
          add-Got now (flow_lookup now t (mbuf_hash m) m).1 packets m
            (lookup-IsCounted now t packets m c) cpu slice fresh)
      | inr (f, e) ↦ rw (flow_get_hit cpu now t slice m f e) (record {
        still = lookup-IsCounted now t packets m c;
        there = λ g k.
            subst
              (λ x. (h : ℕ) × (at_addr x.addr ((flow_lookup now t (mbuf_hash m) m).1.bucket h) ≢ 0))
              (some-inj k) (lookup-there now t packets m c f e);
      })
    ]

pub uses-length : (a : ℕ) (packets : List Mbuf) → uses a packets ≤ length packets
unfolding uses
uses-length a [] = omega arith
uses-length a (m ∷ ms) = elim (Option-cases m.flow) [
  | inl e ↦ rw e (omega (arith, uses-length a ms))
  | inr (b, e) ↦ elim (Bool-cases (a == b)) [
    | inl k ↦ rw (e, k) (omega (arith, uses-length a ms))
    | inr k ↦ rw (e, k) (omega (arith, uses-length a ms))
  ]
]

-- A change of the counts at one address.
map-at_addr : (n a b : ℕ) (fs : List FlowItem) → at_addr b (map (add_use n a) fs) ≡ at_addr b fs
unfolding at_addr
map-at_addr n a b [] = refl
map-at_addr n a b (f ∷ fs) = elim (Bool-cases (f.addr == a)) [
  | inl e ↦ rw e (omega (arith, map-at_addr n a b fs))
  | inr e ↦ rw e (omega (arith, map-at_addr n a b fs))
]

map-CountedBy :
    (n a : ℕ) (old new : ℕ → ℕ)
    → ((old a + n) % 2 ^ 32 ≡ new a)
    → ((b : ℕ) → b ≢ a → old b ≡ new b)
    → (fs : List FlowItem) → CountedBy old fs
    → CountedBy new (map (add_use n a) fs)
map-CountedBy n a old new here there [] c = c
map-CountedBy n a old new here there (f ∷ fs) (c, cs) = elim (Bool-cases (f.addr == a)) [
  | inl e ↦
      let fa : f.addr ≡ a = ground arith in
      rw e (
        ap (λ x. (x + n) % 2 ^ 32) (c ∙ ap old fa) ∙ here ∙ sym (ap new fa),
        map-CountedBy n a old new here there fs cs,
      )
  | inr e ↦ rw e (c ∙ there f.addr (ground arith), map-CountedBy n a old new here there fs cs)
]

-- One more packet refers to a flow of the table.
pub incr-IsCounted :
    (t : FlowTable) (packets : List Mbuf) (m : Mbuf) (addr : ℕ)
    → IsCounted t packets
    → suc (length packets) < 2 ^ 31
    → m.flow ≡ some addr
    → (h : ℕ) × (at_addr addr (t.bucket h) ≢ 0)
    → IsCounted (flow_incr_usecnt addr t) (m ∷ packets)
unfolding flow_incr_usecnt uses
incr-IsCounted t packets m addr c few e (h, at_h) = record {
  counted = λ k.
      map-CountedBy 1 addr (λ a. uses a packets) (λ a. refers a m + uses a packets)
        (rw (e, ==_self addr) (omega (arith, uses-length addr packets)))
        (λ b n. rw (e, ==_of_ne b addr n) (omega arith)) (t.bucket k) (c.counted k);
  present = λ a u. elim (Bool-cases (a == addr)) [
    | inl k ↦
        let ad : addr ≡ a = ground arith in
        (
          h,
          λ z. at_h (
              sym (map-at_addr 1 addr addr (t.bucket h))
              ∙ subst (λ x. at_addr x (map (add_use 1 addr) (t.bucket h)) ≡ 0) (sym ad) z),
        )
    | inr k ↦
        let (j, at_j) = c.present a (λ z. u (rw (e, k) (omega (arith, z)))) in
        (j, λ z. at_j (sym (map-at_addr 1 addr a (t.bucket j)) ∙ z))
  ];
}

pub uses-middle :
    (a : ℕ) (before : List Mbuf) (m : Mbuf) (after : List Mbuf)
    → uses a (before ++ m ∷ after) ≡ uses a (before ++ after) + refers a m
unfolding uses
uses-middle a [] m after = omega arith
uses-middle a (x ∷ before) m after = omega (arith, uses-middle a before m after)

-- A packet that referred to a flow is gone.
pub decr-IsCounted :
    (t : FlowTable) (before : List Mbuf) (m : Mbuf) (after : List Mbuf) (addr : ℕ)
    → IsCounted t (before ++ m ∷ after)
    → length (before ++ m ∷ after) < 2 ^ 31
    → m.flow ≡ some addr
    → IsCounted (flow_decr_usecnt addr t) (before ++ after)
unfolding flow_decr_usecnt
decr-IsCounted t before m after addr c few e =
    let one : (a : ℕ) → uses a (before ++ m ∷ after) ≡ uses a (before ++ after) + refers a m =
      λ a. uses-middle a before m after in
    let at_self : refers addr m ≡ 1 = rw (e, ==_self addr) refl in
    let elsewhere : (b : ℕ) → b ≢ addr → refers b m ≡ 0 = λ b n. rw (e, ==_of_ne b addr n) refl in
    record {
      counted = λ k.
          map-CountedBy (2 ^ 32 - 1) addr (λ a. uses a (before ++ m ∷ after))
            (λ a. uses a (before ++ after))
            (omega (arith, one addr, at_self, uses-length addr (before ++ m ∷ after)))
            (λ b n. omega (arith, one b, elsewhere b n)) (t.bucket k) (c.counted k);
      present = λ a u.
          let (j, at_j) = c.present a (omega (arith, one a)) in
          (j, λ z. at_j (sym (map-at_addr (2 ^ 32 - 1) addr a (t.bucket j)) ∙ z));
    }

-- The ageing keeps the flows that packets refer to.
pub select-kept :
    (c : AgeContext) (j a : ℕ) (n : ℕ → ℕ) (fs : List FlowItem)
    → CountedBy n fs
    → n a ≢ 0
    → n a < 2 ^ 31
    → at_addr a (select (λ f. not (goes c j f)) fs) ≡ at_addr a fs
unfolding select at_addr
select-kept c j a n [] k u b = refl
select-kept c j a n (f ∷ fs) (k, ks) u b = elim (Bool-cases (f.addr == a)) [
  | inl e ↦
      let fa : f.addr ≡ a = ground arith in
      let used : f.use_cnt ≡ n a = k ∙ ap n fa in
      rw (referred-stays c j f (omega (arith, used)) (omega (arith, used)), e)
        (omega (arith, select-kept c j a n fs ks u b))
  | inr e ↦ elim (Bool-cases (goes c j f)) [
    | inl g ↦ rw (g, e) (omega (arith, select-kept c j a n fs ks u b))
    | inr g ↦ rw (g, e) (omega (arith, select-kept c j a n fs ks u b))
  ]
]

pub select-CountedBy :
    (test : FlowItem → Bool) (n : ℕ → ℕ) (fs : List FlowItem)
    → CountedBy n fs
    → CountedBy n (select test fs)
unfolding select
select-CountedBy test n [] k = k
select-CountedBy test n (f ∷ fs) (k, ks) = elim (Bool-cases (test f)) [
  | inl e ↦ rw e (k, select-CountedBy test n fs ks)
  | inr e ↦ rw e (select-CountedBy test n fs ks)
]
