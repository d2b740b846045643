-- ===== src/Flow/Table.antt =====
-- The flow table holds at most one flow of each connection, in the bucket of its hash.
use sec_fw.Common.{
  ℕ, ◌+◌, ◌≤◌, ◌≡◌, refl, sym, ◌≢◌, inl, inr, ap, ◌∙◌, true, Bool-cases, ◌==◌, if◌then◌else◌, List,
  [], ◌∷◌, Option, none, some, Option-cases, none≢some, some-inj, arith,
}
use sec_fw.Mbuf.{Mbuf}
use sec_fw.Flow.{
  FlowItem, FlowTable, update, increment, flow_init, flow_match, touched, flow_find, new_item,
  flow_add, flow_lookup, mbuf_hash, flow_get_flow_from_hash,
}
use sec_fw.Flow.Match.{same_hash, new_item_matches, new_item_transfer}

-- How many flows of a list match a packet.
unfoldable pub matching : Mbuf → List FlowItem → ℕ
matching m [] = 0
matching m (f ∷ fs) = (if flow_match f m then 1 else 0) + matching m fs

-- At most one flow matches a packet, and it lies in the bucket of the packet's hash.
pub record IsValid (t : FlowTable) : Type 0 where
  pub unique : (h : ℕ) (m : Mbuf) → matching m (t.bucket h) ≤ 1
  pub placed : (h : ℕ) (m : Mbuf) → matching m (t.bucket h) ≢ 0 → mbuf_hash m ≡ h

pub flow_init-IsValid : IsValid flow_init
unfolding matching
flow_init-IsValid = record { unique = λ h m. omega arith; placed = λ h m k. absurd (k refl) }

pub touched_match :
    (now : ℕ) (f : FlowItem) (m : Mbuf) → flow_match (touched now f) m ≡ flow_match f m
unfolding flow_match
touched_match now f m = refl

-- A lookup changes times only, and finds a flow if one matches.
flow_find-matching :
    (now : ℕ) (fs : List FlowItem) (m q : Mbuf) → matching q (flow_find now fs m).1 ≡ matching q fs
unfolding flow_find matching
flow_find-matching now [] m q = refl
flow_find-matching now (f ∷ fs) m q = elim (Bool-cases (flow_match f m)) [
  | inl e ↦ rw e (rw (touched_match now f q) refl)
  | inr e ↦ rw e (omega (arith, flow_find-matching now fs m q))
]

flow_find-none :
    (now : ℕ) (fs : List FlowItem) (m : Mbuf) → (flow_find now fs m).0 ≡ none → matching m fs ≡ 0
unfolding flow_find matching
flow_find-none now [] m h = refl
flow_find-none now (f ∷ fs) m h = elim (Bool-cases (flow_match f m)) [
  | inl e ↦ absurd (ground (arith, e, h))
  | inr e ↦ rw e (omega (arith, flow_find-none now fs m (rw e at h)))
]

flow_find-some :
    (now : ℕ) (fs : List FlowItem) (m : Mbuf) (f : FlowItem)
    → (flow_find now fs m).0 ≡ some f
    → (flow_match f m ≡ true) × (f.cycle ≡ now)
unfolding flow_find
flow_find-some now [] m f h = absurd (none≢some h)
flow_find-some now (g ∷ fs) m f h = elim (Bool-cases (flow_match g m)) [
  | inl e ↦
      let gf : touched now g ≡ f = some-inj (rw e at h) in
      (ap (λ x. flow_match x m) (sym gf) ∙ touched_match now g m ∙ e, ap (λ x. x.cycle) (sym gf))
  | inr e ↦ flow_find-some now fs m f (rw e at h)
]

-- A bucket is replaced by a list that is well formed for its hash.
module _ (t : FlowTable) (v : IsValid t) (h : ℕ) (items : List FlowItem) (n d : ℕ → ℕ) where
  abbrev pub replaced : FlowTable
  replaced = record { bucket = update t.bucket h items; new_flow = n; del_flow = d }

  bucket_cases :
      (P : List FlowItem → Type 0) (k : ℕ)
      → (h ≡ k → P items)
      → P (t.bucket k)
      → P (update t.bucket h items k)
  bucket_cases P k new old = elim (Bool-cases (h == k)) [
    | inl e ↦ rw e (new (ground arith))
    | inr e ↦ rw e old
  ]

  pub replaced-IsValid :
      ((q : Mbuf) → matching q items ≤ 1)
      → ((q : Mbuf) → matching q items ≢ 0 → mbuf_hash q ≡ h)
      → IsValid replaced
  replaced-IsValid one here = record {
    unique = λ k q. bucket_cases (λ xs. matching q xs ≤ 1) k (λ e. one q) (v.unique k q);
    placed = λ k q.
        bucket_cases (λ xs. matching q xs ≢ 0 → mbuf_hash q ≡ k) k (λ e o. here q o ∙ e)
          (v.placed k q);
  }

  -- No packet has more matches than before.
  pub fewer-IsValid : ((q : Mbuf) → matching q items ≤ matching q (t.bucket h)) → IsValid replaced
  fewer-IsValid fewer =
      replaced-IsValid (λ q. omega (arith, fewer q, v.unique h q))
        (λ q o. v.placed h q (omega (arith, fewer q)))

-- Two packets of one connection have the same matches.
matching_transfer :
    (now addr : ℕ) (m q : Mbuf)
    → flow_match (new_item now addr m) q ≡ true
    → (fs : List FlowItem) → matching m fs ≡ matching q fs
unfolding matching
matching_transfer now addr m q k [] = refl
matching_transfer now addr m q k (f ∷ fs) =
    rw (new_item_transfer now addr f m q k) (omega (arith, matching_transfer now addr m q k fs))

module _ (now : ℕ) (t : FlowTable) (m : Mbuf) where
  abbrev found_items : List FlowItem
  found_items = (flow_find now (t.bucket (mbuf_hash m)) m).1

  pub flow_lookup-IsValid : IsValid t → IsValid (flow_lookup now t (mbuf_hash m) m).1
  unfolding flow_lookup
  flow_lookup-IsValid v =
      fewer-IsValid t v (mbuf_hash m) found_items t.new_flow t.del_flow
        (λ q. omega (arith, flow_find-matching now (t.bucket (mbuf_hash m)) m q))

  -- The flow that FlowAdd puts in front, when its second look finds none.
  new-IsValid :
      (addr : ℕ) (n d : ℕ → ℕ) (v : IsValid t)
      → matching m (t.bucket (mbuf_hash m)) ≡ 0
      → IsValid (replaced t v (mbuf_hash m) (new_item now addr m ∷ found_items) n d)
  unfolding matching
  new-IsValid addr n d v none_there =
      let same = flow_find-matching now (t.bucket (mbuf_hash m)) m in
      let absent : (q : Mbuf)
          → flow_match (new_item now addr m) q ≡ true
          → matching q found_items ≡ 0 =
        λ q k.
          same q ∙ sym (matching_transfer now addr m q k (t.bucket (mbuf_hash m))) ∙ none_there in
      let hash : (q : Mbuf)
          → flow_match (new_item now addr m) q ≡ true
          → mbuf_hash q ≡ mbuf_hash m =
        λ q k. same_hash (new_item now addr m) q m k (new_item_matches now addr m) in
      replaced-IsValid t v (mbuf_hash m) (new_item now addr m ∷ found_items) n d
        (λ q. elim (Bool-cases (flow_match (new_item now addr m) q)) [
          | inl k ↦ rw k (omega (arith, absent q k))
          | inr k ↦ rw k (omega (arith, same q, v.unique (mbuf_hash m) q))
        ])
        (λ q o. elim (Bool-cases (flow_match (new_item now addr m) q)) [
          | inl k ↦ hash q k
          | inr k ↦ v.placed (mbuf_hash m) q (λ z. rw k at o (omega (arith, same q, z)))
        ])

-- The branches of FlowAdd and of FlowGetFlowFromHash.
pub flow_add_hit :
    (cpu now : ℕ) (t : FlowTable) (h addr : ℕ) (m : Mbuf) (f : FlowItem)
    → (flow_find now (t.bucket h) m).0 ≡ some f
    → flow_add cpu now t h (some addr) m
      ≡ record { flow = some f; table = (flow_lookup now t h m).1; freed = some addr }
unfolding flow_add flow_lookup
flow_add_hit cpu now t h addr m f e = rw (e, flow_add) refl

pub flow_add_miss :
    (cpu now : ℕ) (t : FlowTable) (h addr : ℕ) (m : Mbuf)
    → (flow_find now (t.bucket h) m).0 ≡ none
    → flow_add cpu now t h (some addr) m ≡ record {
      flow = some (new_item now addr m);
      table = record {
        bucket = update t.bucket h (new_item now addr m ∷ (flow_find now (t.bucket h) m).1);
        new_flow = increment t.new_flow cpu;
        del_flow = t.del_flow;
      };
      freed = none;
    }
unfolding flow_add
flow_add_miss cpu now t h addr m e = rw (e, flow_add) refl

pub flow_get_hit :
    (cpu now : ℕ) (t : FlowTable) (slice : Option ℕ) (m : Mbuf) (f : FlowItem)
    → (flow_lookup now t (mbuf_hash m) m).0 ≡ some f
    → flow_get_flow_from_hash cpu now t slice m
      ≡ record { flow = some f; table = (flow_lookup now t (mbuf_hash m) m).1; freed = none }
unfolding flow_get_flow_from_hash
flow_get_hit cpu now t slice m f e = rw (e, flow_get_flow_from_hash) refl

pub flow_get_miss :
    (cpu now : ℕ) (t : FlowTable) (slice : Option ℕ) (m : Mbuf)
    → (flow_lookup now t (mbuf_hash m) m).0 ≡ none
    → flow_get_flow_from_hash cpu now t slice m
      ≡ flow_add cpu now (flow_lookup now t (mbuf_hash m) m).1 (mbuf_hash m) slice m
unfolding flow_get_flow_from_hash
flow_get_miss cpu now t slice m e = rw (e, flow_get_flow_from_hash) refl

-- FlowAdd: whatever another core added meanwhile, the table keeps one flow of each connection.
pub flow_add-IsValid :
    (cpu now : ℕ) (t : FlowTable) (slice : Option ℕ) (m : Mbuf)
    → IsValid t
    → IsValid (flow_add cpu now t (mbuf_hash m) slice m).table
unfolding flow_add
flow_add-IsValid cpu now t none m v = v
flow_add-IsValid cpu now t (some addr) m v =
    elim (Option-cases (flow_find now (t.bucket (mbuf_hash m)) m).0) [
      | inl e ↦ rw (flow_add_miss cpu now t (mbuf_hash m) addr m e) (
          new-IsValid now t m addr (increment t.new_flow cpu) t.del_flow v
            (flow_find-none now (t.bucket (mbuf_hash m)) m e))
      | inr (f, e) ↦
          rw (flow_add_hit cpu now t (mbuf_hash m) addr m f e) (flow_lookup-IsValid now t m v)
    ]

pub flow_get-IsValid :
    (cpu now : ℕ) (t : FlowTable) (slice : Option ℕ) (m : Mbuf)
    → IsValid t
    → IsValid (flow_get_flow_from_hash cpu now t slice m).table
unfolding flow_get_flow_from_hash
flow_get-IsValid cpu now t slice m v = elim (Option-cases (flow_lookup now t (mbuf_hash m) m).0) [
  | inl e ↦
      rw (flow_get_miss cpu now t slice m e)
        (flow_add-IsValid cpu now _ slice m (flow_lookup-IsValid now t m v))
  | inr (f, e) ↦ rw (flow_get_hit cpu now t slice m f e) (flow_lookup-IsValid now t m v)
]
