-- ===== src/Flow/Ageing.antt =====
-- FlowAgeTimeoutCB: which flows it takes out of the table.
use sec_fw.Common.{
  ℕ, zero, suc, ◌+◌, ◌^◌, ◌≤◌, ◌<◌, ◌≡◌, refl, sym, inl, inr, ap, subst, ◌∙◌, Bool, true, false,
  not, ◌&&◌, Bool-cases, ==_self, ==_of_ne, ◌==◌, if◌then◌else◌, List, [], ◌∷◌, arith, ◌⊎◌, ltb,
  leb, ◌||◌,
}
use sec_fw.Mbuf.{Mbuf}
use sec_fw.Flow.{
  FlowItem, FlowTable, flow_time_out, age_items, AgeContext, age_bucket, age_buckets,
  flow_age_timeout_cb, flow_bucket_num,
}
use sec_fw.Flow.Table.{matching, IsValid, fewer-IsValid}

-- The flows of a list that pass a test, in their order.
unfoldable pub select : (FlowItem → Bool) → List FlowItem → List FlowItem
select test [] = []
select test (f ∷ fs) = let rest = select test fs in if test f then f ∷ rest else rest

-- A flow of bucket `i` goes if neither lock is held by another core, no packet refers to it (its count, with
-- a sign, is not positive), and more than `timeout` cycles have gone by since it was used.
abbrev pub goes : AgeContext → ℕ → FlowItem → Bool
goes c i f =
    not (c.bucket_locked i)
    && not (c.item_locked f.addr)
    && (f.use_cnt == 0 || leb (2 ^ 31) f.use_cnt)
    && ltb (f.cycle + c.timeout) c.now

flow_time_out_lem :
    (timeout : ℕ) (f : FlowItem) (now : ℕ)
    → flow_time_out timeout f now
      ≡ ((f.use_cnt == 0 || leb (2 ^ 31) f.use_cnt) && ltb (f.cycle + timeout) now)
unfolding flow_time_out
flow_time_out_lem timeout f now = ground arith

module _ (c : AgeContext) (i : ℕ) (free : c.bucket_locked i ≡ false) where
  age_items-kept :
      (fs out : List FlowItem)
      → (age_items c.timeout c.item_locked c.now fs out).0 ≡ select (λ f. not (goes c i f)) fs
  unfolding age_items select
  age_items-kept [] out = refl
  age_items-kept (f ∷ fs) out = elim (Bool-cases (c.item_locked f.addr)) [
    | inl l ↦ rw (free, l) (ap (λ fs'. f ∷ fs') (age_items-kept fs out))
    | inr l ↦ elim (Bool-cases (flow_time_out c.timeout f c.now)) [
      | inl o ↦
          let over = sym (flow_time_out_lem c.timeout f c.now) ∙ o in
          rw (free, l, o, over) (age_items-kept fs (f ∷ out))
      | inr o ↦
          let over = sym (flow_time_out_lem c.timeout f c.now) ∙ o in
          rw (free, l, o, over) (ap (λ fs'. f ∷ fs') (age_items-kept fs out))
    ]
  ]

select-all :
    (test : FlowItem → Bool) (fs : List FlowItem)
    → ((f : FlowItem) → test f ≡ true)
    → select test fs ≡ fs
unfolding select
select-all test [] h = refl
select-all test (f ∷ fs) h = rw (h f) (ap (λ fs'. f ∷ fs') (select-all test fs h))

matching-select :
    (m : Mbuf) (test : FlowItem → Bool) (fs : List FlowItem)
    → matching m (select test fs) ≤ matching m fs
unfolding select matching
matching-select m test [] = omega arith
matching-select m test (f ∷ fs) = elim (Bool-cases (test f)) [
  | inl e ↦ rw e (omega (arith, matching-select m test fs))
  | inr e ↦ rw e (omega (arith, matching-select m test fs))
]

-- One turn of the loop.
abbrev survivors : AgeContext → FlowTable → ℕ → List FlowItem
survivors c t i = select (λ f. not (goes c i f)) (t.bucket i)

walked :
    (c : AgeContext) (t : FlowTable) (i : ℕ)
    → c.bucket_locked i ≡ false
    → (age_bucket c t i).0.bucket i ≡ (age_items c.timeout c.item_locked c.now (t.bucket i) []).0
unfolding age_bucket
walked c t i l = rw (l, ==_self i) refl

here : (c : AgeContext) (t : FlowTable) (i : ℕ) → (age_bucket c t i).0.bucket i ≡ survivors c t i
unfolding age_bucket
here c t i = elim (Bool-cases (c.bucket_locked i)) [
  | inl l ↦ rw l (sym (select-all _ (t.bucket i) (λ f. refl)))
  | inr l ↦ walked c t i l ∙ age_items-kept c i l (t.bucket i) []
]

age_bucket-bucket :
    (c : AgeContext) (t : FlowTable) (i j : ℕ)
    → (age_bucket c t i).0.bucket j ≡ (if i == j then survivors c t j else t.bucket j)
unfolding age_bucket
age_bucket-bucket c t i j = elim (Bool-cases (i == j)) [
  | inl e ↦
      let ij : i ≡ j = ground arith in
      rw e (subst (λ k. (age_bucket c t i).0.bucket k ≡ survivors c t k) ij (here c t i))
  | inr e ↦
      rw e (elim (Bool-cases (c.bucket_locked i)) [ inl l ↦ rw l refl | inr l ↦ rw (l, e) refl ])
]

age_bucket-IsValid :
    (c : AgeContext) (t : FlowTable) (i : ℕ) → IsValid t → IsValid (age_bucket c t i).0
unfolding age_bucket
age_bucket-IsValid c t i v = elim (Bool-cases (c.bucket_locked i)) [
  | inl l ↦ rw l v
  | inr l ↦ rw l (
      fewer-IsValid t v i _ t.new_flow _
        (λ q. rw (age_items-kept c i l (t.bucket i) []) (matching-select q _ (t.bucket i))))
]

age_buckets-IsValid :
    (c : AgeContext) (n i : ℕ) (t : FlowTable) → IsValid t → IsValid (age_buckets c n i t).0
unfolding age_buckets
age_buckets-IsValid c zero i t v = v
age_buckets-IsValid c (suc n) i t v =
    age_buckets-IsValid c n (suc i) (age_bucket c t i).0 (age_bucket-IsValid c t i v)

age_buckets-before :
    (c : AgeContext) (n i j : ℕ) (t : FlowTable)
    → j < i
    → (age_buckets c n i t).0.bucket j ≡ t.bucket j
unfolding age_buckets
age_buckets-before c zero i j t h = refl
age_buckets-before c (suc n) i j t h =
    age_buckets-before c n (suc i) j (age_bucket c t i).0 (omega arith)
    ∙ age_bucket-bucket c t i j
    ∙ rw (==_of_ne i j (omega arith)) refl

age_buckets-bucket :
    (c : AgeContext) (n i j : ℕ) (t : FlowTable)
    → i ≤ j
    → j < i + n
    → (age_buckets c n i t).0.bucket j ≡ survivors c t j
unfolding age_buckets
age_buckets-bucket c zero i j t h k = absurd (omega arith)
age_buckets-bucket c (suc n) i j t h k =
    let t' = (age_bucket c t i).0 in
    elim (Bool-cases (i == j)) [
      | inl e ↦
          age_buckets-before c n (suc i) j t' (ground arith) ∙ age_bucket-bucket c t i j ∙ rw e refl
      | inr e ↦
          age_buckets-bucket c n (suc i) j t' (ground arith) (omega arith)
          ∙ ap (select (λ f. not (goes c j f))) (age_bucket-bucket c t i j ∙ rw e refl)
    ]

age_buckets-beyond :
    (c : AgeContext) (n i j : ℕ) (t : FlowTable)
    → i + n ≤ j
    → (age_buckets c n i t).0.bucket j ≡ t.bucket j
unfolding age_buckets
age_buckets-beyond c zero i j t h = refl
age_buckets-beyond c (suc n) i j t h =
    age_buckets-beyond c n (suc i) j (age_bucket c t i).0 (omega arith)
    ∙ age_bucket-bucket c t i j
    ∙ rw (==_of_ne i j (omega arith)) refl

-- What the ageing makes of any bucket.
pub flow_age-either :
    (c : AgeContext) (t : FlowTable) (j : ℕ)
    → ((flow_age_timeout_cb c t).0.bucket j ≡ select (λ f. not (goes c j f)) (t.bucket j))
      ⊎ ((flow_age_timeout_cb c t).0.bucket j ≡ t.bucket j)
unfolding flow_age_timeout_cb
flow_age-either c t j = elim (Bool-cases (ltb j flow_bucket_num)) [
  | inl e ↦ inl (age_buckets-bucket c flow_bucket_num 0 j t (omega arith) (ground arith))
  | inr e ↦ inr (age_buckets-beyond c flow_bucket_num 0 j t (ground arith))
]

-- FlowAgeTimeoutCB takes out of every bucket the flows that no core has locked, alone or with the bucket,
-- whose use count is 0 or has its sign bit set, and whose cycle and the timeout add up to less than now;
-- all others stay, in their order, and the table stays well formed.
pub flow_age_timeout_cb-survivors :
    (c : AgeContext) (t : FlowTable)
    → IsValid t
    → IsValid (flow_age_timeout_cb c t).0
      × ((j : ℕ)
          → j < flow_bucket_num
          → (flow_age_timeout_cb c t).0.bucket j ≡ select (λ f. not (goes c j f)) (t.bucket j))
unfolding flow_age_timeout_cb
flow_age_timeout_cb-survivors c t v = (
  age_buckets-IsValid c flow_bucket_num 0 t v,
  λ j h. age_buckets-bucket c flow_bucket_num 0 j t (omega arith) h,
)

-- A flow that a packet refers to is never over its time.
pub referred-stays :
    (c : AgeContext) (j : ℕ) (f : FlowItem)
    → 0 < f.use_cnt
    → f.use_cnt < 2 ^ 31
    → goes c j f ≡ false
unfolding flow_time_out
referred-stays c j f h k = ground arith
