-- ===== src/MemPool/Start.antt =====
-- The software pools after mem_pool_sw_slice_inject: they are valid, and every chain is full.
use sec_fw.Common.{
  ℕ, zero, suc, ◌+◌, ◌*◌, ◌/◌, ◌%◌, ◌^◌, ◌≤◌, ◌<◌, ◌≡◌, ◌≢◌, refl, sym, subst, ◌⊎◌, inl, inr, ap,
  ◌∙◌, true, false, Bool-cases, ◌==◌, ◌!=◌, [], length, get_or, arith,
}
use sec_fw.MemPool.{SliceCtrl, SliceChain, Pools, zero_pool, chain_at, set_chain}
use sec_fw.MemPool.Valid.{
  occurs, IsFree, IsValid, set_chain_same, set_chain_other, set_chain-pools, set_chain-chains,
}
use sec_fw.MemPool.Steps.{pair-cases}
use sec_fw.MemPool.Inject.{
  inject_chain, inject_chains, mem_pool_sw_slice_inject, IsFilled, inject_chain-Injected,
}

module _ (s : Pools) (v : IsValid s) (p i : ℕ) (c : SliceChain) (memory : ℕ → SliceCtrl)
    (hp : p < 4) (hi : i < 4) where
  abbrev pub rechained : Pools
  rechained = record (set_chain s p i c) { memory = memory }

  -- What the chains of the pools are, one by one.
  rechained-ind :
      (P : ℕ → ℕ → SliceChain → Type 0)
      → P p i c
      → ((q j : ℕ) → q < 4 → j < 4 → (p ≢ q) ⊎ (i ≢ j) → P q j (chain_at s q j))
      → (q j : ℕ) → q < 4
      → j < 4
      → P q j (chain_at rechained q j)
  rechained-ind P here there q j hq hj = elim (pair-cases p i q j) [
    | inl (e, f) ↦ rw (sym e, sym f) (subst (P p i) (sym (set_chain_same s v p i c hp hi)) here)
    | inr n ↦ subst (P q j) (sym (set_chain_other s v p i c hp hi q j n)) (there q j hq hj n)
  ]

  rechained-IsValid :
      c.freenum ≡ length c.head % 2 ^ 32
      → ((a : ℕ) → occurs a c.head ≤ 1)
      → ((a : ℕ) → occurs a c.head ≢ 0 → IsFree p i (memory a))
      → ((q j a : ℕ) → q < 4 → j < 4 → occurs a (chain_at s q j).head ≢ 0 → memory a ≡ s.memory a)
      → IsValid rechained
  rechained-IsValid counted distinct marked same = record {
    pools = set_chain-pools s v p i c hp hi;
    chains = set_chain-chains s v p i c hp hi;
    counted =
        rechained-ind (λ q j k. k.freenum ≡ length k.head % 2 ^ 32) counted
          (λ q j hq hj n. v.counted q j hq hj);
    distinct = λ q j a hq hj.
        rechained-ind (λ q j k. occurs a k.head ≤ 1) (distinct a)
          (λ q j hq hj n. v.distinct q j a hq hj) q j hq hj;
    marked = λ q j a hq hj.
        rechained-ind (λ q j k. occurs a k.head ≢ 0 → IsFree q j (memory a)) (marked a)
          (λ q j hq hj n o. rw (same q j a hq hj o) (v.marked q j a hq hj o)) q j hq hj;
  }

-- No free slice lies from `lo` up to `hi`.
abbrev pub IsApart : Pools → ℕ → ℕ → Type 0
IsApart s lo hi =
    (q j a : ℕ) → q < 4 → j < 4 → occurs a (chain_at s q j).head ≢ 0 → (a < lo) ⊎ (hi ≤ a)

-- The control blocks from `lo` up to `hi` are held by nobody.
abbrev pub IsUnheld : Pools → ℕ → ℕ → Type 0
IsUnheld s lo hi = (a : ℕ) → lo ≤ a → a < hi → (s.memory a).ref ≡ 0

-- Chain after chain, from `i` on.
pub record Started (p k i : ℕ) (before after : Pools) : Type 0 where
  pub valid : IsValid after
  pub kept : (j : ℕ) → j < i → chain_at after p j ≡ chain_at before p j
  pub full :
      (j : ℕ)
      → i ≤ j
      → j < 4
      → ((chain_at after p j).freenum ≡ k) × (length (chain_at after p j).head ≡ k)

empty-IsFilled : (p i addr : ℕ) (memory : ℕ → SliceCtrl) → IsFilled p i addr addr memory []
unfolding occurs
empty-IsFilled p i addr memory = record {
  distinct = λ a. omega arith;
  within = λ a o. absurd (o refl);
  marked = λ a o. absurd (o refl);
}

inject_chains-Started :
    (p size k n i addr stop : ℕ) (s : Pools)
    → p < 4
    → i + n ≡ 4
    → 0 < size
    → k < 2 ^ 32
    → stop ≡ addr + n * (k * size)
    → stop < 2 ^ 64
    → IsValid s
    → IsApart s addr stop
    → IsUnheld s addr stop
    → Started p k i s (inject_chains p size k n i addr s)
unfolding inject_chains
inject_chains-Started p size k zero i addr stop s hp all z few end small v apart unheld = record {
  valid = v;
  kept = λ j h. refl;
  full = λ j low high. absurd (omega arith);
}
inject_chains-Started p size k (suc n) i addr stop s hp all z few end small v apart unheld =
    let mid = addr + k * size in
    let onward : stop ≡ mid + n * (k * size) = end ∙ omega arith in
    let r = inject_chain p i size k addr s.memory [] in
    let inj =
      inject_chain-Injected p i size k addr addr mid s.memory [] z refl (omega (arith, onward))
        (omega arith) (λ a low high. unheld a low (omega (arith, onward)))
        (empty-IsFilled p i addr s.memory) in
    let c : SliceChain = record { freenum = k; head = r.1 } in
    let hi : i < 4 = omega arith in
    let s' = rechained s v p i c r.0 hp hi in
    let valid' =
      rechained-IsValid s v p i c r.0 hp hi (omega (arith, inj.counted)) inj.filled.distinct
        inj.filled.marked
        (λ q j a hq hj o.
          inj.outside a
            (elim (apart q j a hq hj o) [ inl b ↦ inl b | inr b ↦ inr (omega (arith, onward)) ])) in
    let apart' : IsApart s' mid stop = λ q j a hq hj.
      rechained-ind s v p i c r.0 hp hi (λ q j d. occurs a d.head ≢ 0 → (a < mid) ⊎ (stop ≤ a))
        (λ o. inl (inj.filled.within a o).1)
        (λ q j hq hj n o. elim (apart q j a hq hj o) [ inl b ↦ inl (omega arith) | inr b ↦ inr b ])
        q j hq hj in
    let unheld' : IsUnheld s' mid stop =
      λ a low high. ap (λ m. m.ref) (inj.outside a (inr low)) ∙ unheld a (omega arith) high in
    let rest =
      inject_chains-Started p size k n (suc i) mid stop s' hp (omega arith) z few onward small
        valid' apart' unheld' in
    subst (λ b. Started p k i s (inject_chains p size k n (suc i) b s')) (sym inj.next)
      (record {
        valid = rest.valid;
        kept = λ j h.
            rest.kept j (omega arith) ∙ set_chain_other s v p i c hp hi p j (inr (omega arith));
        full = λ j low high. elim (Bool-cases (i == j)) [
          | inl e ↦
              let ij : i ≡ j = ground arith in
              let at_j : chain_at (inject_chains p size k n (suc i) mid s') p j ≡ c =
                rest.kept j (ground arith)
                ∙ subst (λ b. chain_at s' p b ≡ c) ij (set_chain_same s v p i c hp hi) in
              (ap (λ d. d.freenum) at_j, ap (λ d. length d.head) at_j ∙ inj.counted ∙ omega arith)
          | inr e ↦ rest.full j (ground arith) high
        ];
      })

-- For one of the four pools, with slices of at least one byte, in memory that ends below 2 ^ 64, that no
-- free slice lies in and that nobody holds: if the number of slices is a multiple of 4,
-- mem_pool_sw_slice_inject answers SEC_OK, keeps the pools valid, and leaves a quarter of the slices in each
-- chain of the pool; if it is not, it answers SEC_NO and changes nothing.
pub mem_pool_sw_slice_inject-Started :
    (s : Pools) (p stop : ℕ)
    → p < 4
    → IsValid s
    → 0 < (get_or s.mem_pool p zero_pool).slicesize
    → (get_or s.mem_pool p zero_pool).slicenum < 2 ^ 32
    → stop
      ≡ (get_or s.mem_pool p zero_pool).start
        + 4
          * ((get_or s.mem_pool p zero_pool).slicenum
              / 4
              * (get_or s.mem_pool p zero_pool).slicesize)
    → stop < 2 ^ 64
    → IsApart s (get_or s.mem_pool p zero_pool).start stop
    → IsUnheld s (get_or s.mem_pool p zero_pool).start stop
    → (((get_or s.mem_pool p zero_pool).slicenum % 4 ≡ 0)
        × ((mem_pool_sw_slice_inject s p).0 ≡ true)
        × Started p
            ((get_or s.mem_pool p zero_pool).slicenum / 4)
            0
            s
            (mem_pool_sw_slice_inject s p).1)
      ⊎ (((get_or s.mem_pool p zero_pool).slicenum % 4 ≢ 0)
          × (mem_pool_sw_slice_inject s p ≡ (false, s)))
unfolding mem_pool_sw_slice_inject
mem_pool_sw_slice_inject-Started s p stop hp v z few end small apart unheld =
    let mpc = get_or s.mem_pool p zero_pool in
    elim (Bool-cases (mpc.slicenum % 4 != 0)) [
      | inl e ↦ inr (ground arith, rw (mem_pool_sw_slice_inject, e) refl)
      | inr e ↦ inl (
        ground arith,
        rw (mem_pool_sw_slice_inject, e) refl,
        rw (mem_pool_sw_slice_inject, e)
            (inject_chains-Started p mpc.slicesize (mpc.slicenum / 4) 4 0 mpc.start stop s hp refl z
              (omega arith) end small v apart unheld),
      )
    ]
