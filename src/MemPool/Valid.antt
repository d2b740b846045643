-- ===== src/MemPool/Valid.antt =====
-- When the pools of mem_pool.c are well formed, and how a chain reads after a write to one.
use sec_fw.Common.{
  ℕ, ◌+◌, ◌%◌, ◌^◌, ◌≤◌, ◌<◌, ◌≡◌, refl, ◌≢◌, ◌⊎◌, inl, inr, ap, subst, ◌∙◌, Bool-cases, ◌==◌,
  if◌then◌else◌, List, [], ◌∷◌, arith, length, get_or, set, length-set, get_or-set_self,
  get_or-set_ne,
}
use sec_fw.MemPool.{
  SliceCtrl, SliceChain, PoolCfg, Pools, zero_pool, empty_chain, chain_at, set_chain, next_index,
  mem_pool_magic_num,
}

-- How often an address stands in a list.
unfoldable pub occurs : ℕ → List ℕ → ℕ
occurs a [] = 0
occurs a (b ∷ bs) = (if a == b then 1 else 0) + occurs a bs

-- The control block of a free slice of chain `i` of pool `p`.
pub record IsFree (p i : ℕ) (mscb : SliceCtrl) : Type 0 where
  pub magic : mscb.magic ≡ mem_pool_magic_num
  pub pool : mscb.pool_id ≡ p
  pub subpool : mscb.subpool_id ≡ i
  pub unheld : mscb.ref ≡ 0

-- The four pools have four chains. Each counts its slices, modulo 2 ^ 32, has none of them twice, and its
-- slices are marked as free and as its own.
pub record IsValid (s : Pools) : Type 0 where
  pub pools : length s.mem_pool ≡ 4
  pub chains : (p : ℕ) → p < 4 → length (get_or s.mem_pool p zero_pool).msc ≡ 4
  pub counted :
      (p i : ℕ) → p < 4 → i < 4 → (chain_at s p i).freenum ≡ length (chain_at s p i).head % 2 ^ 32
  pub distinct : (p i a : ℕ) → p < 4 → i < 4 → occurs a (chain_at s p i).head ≤ 1
  pub marked :
      (p i a : ℕ) → p < 4 → i < 4 → occurs a (chain_at s p i).head ≢ 0 → IsFree p i (s.memory a)

module _ (s : Pools) (v : IsValid s) (p i : ℕ) (c : SliceChain) (hp : p < 4) (hi : i < 4) where
  set_chain-pool : (f : PoolCfg) → get_or (set s.mem_pool p f) p zero_pool ≡ f
  set_chain-pool f = get_or-set_self s.mem_pool p f zero_pool (omega (arith, v.pools))

  pub set_chain_same : chain_at (set_chain s p i c) p i ≡ c
  set_chain_same =
      ap (λ f. get_or f.msc i empty_chain) (set_chain-pool _)
      ∙ get_or-set_self _ i c empty_chain (omega (arith, v.chains p hp))

  pub set_chain_other :
      (q j : ℕ) → (p ≢ q) ⊎ (i ≢ j) → chain_at (set_chain s p i c) q j ≡ chain_at s q j
  set_chain_other q j n = elim (Bool-cases (p == q)) [
    | inl e ↦
        let pq : p ≡ q = ground arith in
        subst (λ r. chain_at (set_chain s p i c) r j ≡ chain_at s r j) pq
          (ap (λ f. get_or f.msc j empty_chain) (set_chain-pool _)
            ∙ get_or-set_ne _ i j c empty_chain (elim n [ inl np ↦ absurd (np pq) | inr ni ↦ ni ]))
    | inr e ↦
        ap (λ f. get_or f.msc j empty_chain)
          (get_or-set_ne s.mem_pool p q _ zero_pool (ground arith))
  ]

  pub set_chain-pools : length (set_chain s p i c).mem_pool ≡ 4
  set_chain-pools = length-set s.mem_pool p _ ∙ v.pools

  pub set_chain-chains :
      (q : ℕ) → q < 4 → length (get_or (set_chain s p i c).mem_pool q zero_pool).msc ≡ 4
  set_chain-chains q hq = elim (Bool-cases (p == q)) [
    | inl e ↦
        let pq : p ≡ q = ground arith in
        subst (λ r. length (get_or (set_chain s p i c).mem_pool r zero_pool).msc ≡ 4) pq
          (ap (λ f. length f.msc) (set_chain-pool _) ∙ length-set _ i c ∙ v.chains p hp)
    | inr e ↦
        ap (λ f. length f.msc) (get_or-set_ne s.mem_pool p q _ zero_pool (ground arith))
        ∙ v.chains q hq
  ]

-- Only the lists and counters of the chains and the memory matter.
pub congr-IsValid :
    (s t : Pools)
    → IsValid s
    → length t.mem_pool ≡ 4
    → ((q : ℕ) → q < 4 → length (get_or t.mem_pool q zero_pool).msc ≡ 4)
    → ((q j : ℕ) → chain_at t q j ≡ chain_at s q j)
    → ((a : ℕ) → t.memory a ≡ s.memory a)
    → IsValid t
congr-IsValid s t v pools chains same mem = record {
  pools = pools;
  chains = chains;
  counted = λ q j hq hj. rw (same q j) (v.counted q j hq hj);
  distinct = λ q j a hq hj. rw (same q j) (v.distinct q j a hq hj);
  marked = λ q j a hq hj o. rw (mem a) (v.marked q j a hq hj (rw (same q j) at o));
}

module _ (s : Pools) (v : IsValid s) (p : ℕ) (hp : p < 4) where
  pub next_index-chain_at : (q j : ℕ) → chain_at (next_index s p).1 q j ≡ chain_at s q j
  next_index-chain_at q j = elim (Bool-cases (p == q)) [
    | inl e ↦
        let pq : p ≡ q = ground arith in
        subst (λ r. chain_at (next_index s p).1 r j ≡ chain_at s r j) pq
          (ap (λ f. get_or f.msc j empty_chain)
            (get_or-set_self s.mem_pool p _ zero_pool (omega (arith, v.pools))))
    | inr e ↦
        ap (λ f. get_or f.msc j empty_chain)
          (get_or-set_ne s.mem_pool p q _ zero_pool (ground arith))
  ]

  pub next_index-IsValid : IsValid (next_index s p).1
  next_index-IsValid =
      congr-IsValid s (next_index s p).1 v (length-set s.mem_pool p _ ∙ v.pools) msc_length
        next_index-chain_at (λ a. refl)
    where
      msc_length : (q : ℕ) → q < 4 → length (get_or (next_index s p).1.mem_pool q zero_pool).msc ≡ 4
      msc_length q hq = elim (Bool-cases (p == q)) [
        | inl e ↦
            let pq : p ≡ q = ground arith in
            subst (λ r. length (get_or (next_index s p).1.mem_pool r zero_pool).msc ≡ 4) pq
              (ap (λ f. length f.msc)
                  (get_or-set_self s.mem_pool p _ zero_pool (omega (arith, v.pools)))
                ∙ v.chains p hp)
        | inr e ↦
            ap (λ f. length f.msc) (get_or-set_ne s.mem_pool p q _ zero_pool (ground arith))
            ∙ v.chains q hq
      ]
