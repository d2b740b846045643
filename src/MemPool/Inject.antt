-- ===== src/MemPool/Inject.antt =====
-- mem_pool_sw_slice_inject of dataplane/src/platform/mem_pool.c: the slices of a pool go to its chains.
use sec_fw.Common.{
  ℕ, zero, suc, ◌+◌, ◌*◌, ◌/◌, ◌%◌, ◌^◌, ◌≤◌, ◌<◌, ◌≡◌, ◌≢◌, refl, subst, ◌⊎◌, inl, inr, ◌∙◌, Bool,
  true, false, Bool-cases, ==_self, ◌==◌, ◌!=◌, if◌then◌else◌, List, [], ◌∷◌, length, get_or, arith,
}
use sec_fw.MemPool.{
  SliceCtrl, Pools, zero_pool, set_chain, store, mem_pool_internal_num, mem_pool_magic_num,
}
use sec_fw.MemPool.Valid.{occurs, IsFree}
use sec_fw.MemPool.Steps.{store_other}

-- The control block of a slice that is put in chain `i` of pool `p`: `ref` is left as it is.
abbrev pub labelled : ℕ → ℕ → SliceCtrl → SliceCtrl
labelled p i mscb = record mscb { magic = mem_pool_magic_num; pool_id = p; subpool_id = i }

-- The inner loop: `n` slices from `addr` on are put in front of the chain.
unfoldable pub inject_chain :
    ℕ → ℕ → ℕ → ℕ → ℕ → (ℕ → SliceCtrl) → List ℕ → (ℕ → SliceCtrl) × List ℕ × ℕ
inject_chain p i size zero addr memory head = (memory, head, addr)
inject_chain p i size (suc n) addr memory head =
    inject_chain p i size n ((addr + size) % 2 ^ 64)
      (store memory addr (labelled p i (memory addr))) (addr ∷ head)

-- The outer loop, over the chains from `i` on, `n` of them.
unfoldable pub inject_chains : ℕ → ℕ → ℕ → ℕ → ℕ → ℕ → Pools → Pools
inject_chains p size num_perchain zero i addr s = s
inject_chains p size num_perchain (suc n) i addr s =
    let (memory, head, next) = inject_chain p i size num_perchain addr s.memory [] in
    let s' = set_chain s p i (record { freenum = num_perchain; head = head }) in
    inject_chains p size num_perchain n (suc i) next (record s' { memory = memory })

-- SEC_OK is `true`.
unfoldable pub mem_pool_sw_slice_inject : Pools → ℕ → Bool × Pools
mem_pool_sw_slice_inject s p =
    let mpc = get_or s.mem_pool p zero_pool in
    if mpc.slicenum % mem_pool_internal_num != 0 then (false, s) else (
      true,
      inject_chains p mpc.slicesize (mpc.slicenum / mem_pool_internal_num) mem_pool_internal_num 0
          mpc.start s,
    )

-- A chain under construction, whose slices lie from `lo` up to `addr`.
pub record IsFilled (p i lo addr : ℕ) (memory : ℕ → SliceCtrl) (head : List ℕ) : Type 0 where
  pub distinct : (a : ℕ) → occurs a head ≤ 1
  pub within : (a : ℕ) → occurs a head ≢ 0 → (lo ≤ a) × (a < addr)
  pub marked : (a : ℕ) → occurs a head ≢ 0 → IsFree p i (memory a)

put-IsFilled :
    (p i lo addr size : ℕ) (memory : ℕ → SliceCtrl) (head : List ℕ)
    → IsFilled p i lo addr memory head
    → (memory addr).ref ≡ 0
    → lo ≤ addr
    → 0 < size
    → IsFilled p i lo (addr + size) (store memory addr (labelled p i (memory addr))) (addr ∷ head)
unfolding occurs
put-IsFilled p i lo addr size memory head f r l z = record {
  distinct = λ a. elim (Bool-cases (a == addr)) [
    | inl e ↦ elim (Bool-cases (occurs a head == 0)) [
      | inl k ↦ rw e (ground arith)
      | inr k ↦ let (low, high) = f.within a (ground arith) in absurd (ground arith)
    ]
    | inr e ↦ rw e (omega (arith, f.distinct a))
  ];
  within = λ a o. elim (Bool-cases (a == addr)) [
    | inl e ↦ (ground arith, ground arith)
    | inr e ↦
        let (low, high) = f.within a (λ z. (rw e at o) (omega (arith, z))) in (low, omega arith)
  ];
  marked = λ a o. elim (Bool-cases (a == addr)) [
    | inl e ↦
        let at_addr : addr ≡ a = ground arith in
        subst (λ b. IsFree p i (store memory addr (labelled p i (memory addr)) b)) at_addr
          (rw (==_self addr) (record { magic = refl; pool = refl; subpool = refl; unheld = r }))
    | inr e ↦
        rw (store_other memory addr a (labelled p i (memory addr)) (ground arith))
          (f.marked a (λ z. (rw e at o) (omega (arith, z))))
  ];
}

-- What the inner loop leaves: where it stands, a full chain, and the rest of the memory.
pub record Injected (p i lo hi : ℕ) (memory : ℕ → SliceCtrl) (count : ℕ)
    (r : (ℕ → SliceCtrl) × List ℕ × ℕ) : Type 0 where
  pub next : r.2 ≡ hi
  pub filled : IsFilled p i lo hi r.0 r.1
  pub counted : length r.1 ≡ count
  pub outside : (a : ℕ) → (a < lo) ⊎ (hi ≤ a) → r.0 a ≡ memory a

pub inject_chain-Injected :
    (p i size n lo addr hi : ℕ) (memory : ℕ → SliceCtrl) (head : List ℕ)
    → 0 < size
    → hi ≡ addr + n * size
    → hi < 2 ^ 64
    → lo ≤ addr
    → ((a : ℕ) → addr ≤ a → a < hi → (memory a).ref ≡ 0)
    → IsFilled p i lo addr memory head
    → Injected p i lo hi memory (n + length head) (inject_chain p i size n addr memory head)
unfolding inject_chain
inject_chain-Injected p i size zero lo addr hi memory head z end small l refs f =
    let here : addr ≡ hi = omega (arith, end) in
    record {
      next = here;
      filled = subst (λ b. IsFilled p i lo b memory head) here f;
      counted = omega arith;
      outside = λ a o. refl;
    }
inject_chain-Injected p i size (suc n) lo addr hi memory head z end small l refs f =
    let onward : hi ≡ (addr + size) + n * size = end ∙ omega arith in
    let whole : (addr + size) % 2 ^ 64 ≡ addr + size = omega (arith, onward) in
    let here : addr < hi = omega (arith, onward) in
    let new = store memory addr (labelled p i (memory addr)) in
    let rest =
      inject_chain-Injected p i size n lo (addr + size) hi new (addr ∷ head) z onward small
        (omega arith)
        (λ a low high.
          rw (store_other memory addr a (labelled p i (memory addr)) (omega arith))
            (refs a (omega arith) high))
        (put-IsFilled p i lo addr size memory head f (refs addr (omega arith) here) l z) in
    rw whole (record {
      next = rest.next;
      filled = rest.filled;
      counted = rest.counted ∙ omega arith;
      outside = λ a o.
          rest.outside a o
          ∙ store_other memory addr a (labelled p i (memory addr))
              (elim o [ inl k ↦ omega arith | inr k ↦ omega arith ]);
    })
