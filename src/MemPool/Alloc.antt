-- ===== src/MemPool/Alloc.antt =====
-- mem_pool_alloc on well-formed pools.
use sec_fw.Common.{
  ℕ, ◌+◌, ◌%◌, ◌≤◌, ◌<◌, ◌≡◌, refl, sym, ◌≢◌, ◌⊎◌, inl, inr, ap, ◌∙◌, Bool-cases, ◌||◌, ◌==◌, ltb,
  List, [], ◌∷◌, Option, none, some, arith, get_or,
}
use sec_fw.MemPool.{
  Pools, zero_pool, chain_at, next_index, take_slice, alloc_from, mem_pool_alloc,
  mem_pool_slice_ctrl_size, mem_pool_id_small_buffer, mem_pool_id_large_buffer,
}
use sec_fw.MemPool.Valid.{occurs, IsFree, IsValid, next_index-chain_at, next_index-IsValid}
use sec_fw.MemPool.Steps.{Taken, taken, taken-Taken}

-- The chain whose turn it is.
abbrev pub turn : Pools → ℕ → ℕ
turn s p = (get_or s.mem_pool p zero_pool).global_index % 4

-- Why mem_pool_alloc answers NULL.
abbrev pub Refusal : Pools → ℕ → ℕ → Type 0
Refusal s p size =
    ((p ≢ mem_pool_id_small_buffer) × (p ≢ mem_pool_id_large_buffer))
    ⊎ ((get_or s.mem_pool p zero_pool).datasize < size)
    ⊎ ((chain_at s p (turn s p)).head ≡ [])

pub record Refused (s : Pools) (p size : ℕ) (r : Option ℕ × Pools) : Type 0 where
  pub null : r.0 ≡ none
  pub reason : Refusal s p size
  pub valid : IsValid r.1
  pub chains : (q j : ℕ) → chain_at r.1 q j ≡ chain_at s q j
  pub memory : (a : ℕ) → r.1.memory a ≡ s.memory a

abbrev pub AllocAnswer : Pools → ℕ → ℕ → Option ℕ × Pools → Type 0
AllocAnswer s p size r =
    Refused s p size r
    ⊎ ((l : ℕ) × (r.0 ≡ some (l + mem_pool_slice_ctrl_size)) × Taken s p (turn s p) l r.1)

list-cases : (xs : List ℕ) → (xs ≡ []) ⊎ ((y : ℕ) × (ys : List ℕ) × (xs ≡ y ∷ ys))
list-cases [] = inl refl
list-cases (y ∷ ys) = inr (y, ys, refl)

occurs_front : (l : ℕ) (ls : List ℕ) → occurs l (l ∷ ls) ≢ 0
unfolding occurs
occurs_front l ls h = ground arith

alloc_from_nil : (s : Pools) (p i : ℕ) → (chain_at s p i).head ≡ [] → alloc_from s p i ≡ (none, s)
unfolding alloc_from
alloc_from_nil s p i e = rw (e, alloc_from) refl

alloc_from_cons :
    (s : Pools) (p i l : ℕ) (ls : List ℕ)
    → (chain_at s p i).head ≡ l ∷ ls
    → (s.memory l).ref ≡ 0
    → alloc_from s p i ≡ (some (l + mem_pool_slice_ctrl_size), taken s p i l ls)
unfolding take_slice alloc_from
alloc_from_cons s p i l ls e h = rw (e, alloc_from, h) refl

alloc_from-Answer :
    (s : Pools) (p size : ℕ)
    → IsValid s
    → p < 4
    → AllocAnswer s p size (alloc_from (next_index s p).1 p (turn s p))
alloc_from-Answer s p size v hp =
    let t = (next_index s p).1 in
    let i = turn s p in
    let w = next_index-IsValid s v p hp in
    let same = next_index-chain_at s v p hp in
    elim (list-cases (chain_at t p i).head) [
      | inl e ↦ inl (
          rw (alloc_from_nil t p i e) (record {
            null = refl;
            reason = inr (inr (rw (same p i) at e));
            valid = w;
            chains = same;
            memory = λ a. refl;
          }))
      | inr (l, ls, e) ↦
          let f : IsFree p i (s.memory l) =
            w.marked p i l hp (omega arith) (rw e (occurs_front l ls)) in
          let k = taken-Taken t p i l ls w hp (omega arith) e f in
          inr (
            l,
            rw (alloc_from_cons t p i l ls e f.unheld) refl,
            rw (alloc_from_cons t p i l ls e f.unheld) (record {
              pool_range = hp;
              chain_range = k.chain_range;
              valid = k.valid;
              was_free = f;
              front = sym (ap (λ c. c.head) (same p i)) ∙ k.front;
              now_held = k.now_held;
              memory = k.memory;
              others = λ q j n. k.others q j n ∙ same q j;
            }),
          )
    ]

alloc-none :
    (s : Pools) (p size : ℕ)
    → (((p ≢ mem_pool_id_small_buffer) × (p ≢ mem_pool_id_large_buffer))
        ⊎ ((get_or s.mem_pool p zero_pool).datasize < size))
    → mem_pool_alloc s p size ≡ (none, s)
unfolding mem_pool_alloc
alloc-none s p size (inl h) = ground arith
alloc-none s p size (inr h) = ground arith

alloc-from :
    (s : Pools) (p size : ℕ)
    → (p ≡ mem_pool_id_small_buffer) ⊎ (p ≡ mem_pool_id_large_buffer)
    → size ≤ (get_or s.mem_pool p zero_pool).datasize
    → mem_pool_alloc s p size ≡ alloc_from (next_index s p).1 p (turn s p)
unfolding mem_pool_alloc
alloc-from s p size h k = ground arith

-- mem_pool_alloc on well-formed pools leaves them well formed. A request for another pool, for more than
-- the data size, or whose turn falls on a chain that has run out gets NULL and moves no slice. Any other
-- gets the first slice of the chain, which was free, is now held, and is gone from the chain.
pub mem_pool_alloc-Answer :
    (s : Pools) (p size : ℕ) → IsValid s → AllocAnswer s p size (mem_pool_alloc s p size)
mem_pool_alloc-Answer s p size v = elim (Bool-cases (p == 2 || p == 3)) [
  | inl e ↦ elim (Bool-cases (ltb (get_or s.mem_pool p zero_pool).datasize size)) [
    | inl big ↦ rw (alloc-none s p size (inr (ground arith))) (
        inl (record {
          null = refl;
          reason = inr (inl (ground arith));
          valid = v;
          chains = λ q j. refl;
          memory = λ a. refl;
        }))
    | inr fits ↦
        rw (alloc-from s p size (ground arith) (ground arith))
          (alloc_from-Answer s p size v (ground arith))
  ]
  | inr e ↦ rw (alloc-none s p size (inl (ground arith))) (
      inl (record {
        null = refl;
        reason = inl (ground arith);
        valid = v;
        chains = λ q j. refl;
        memory = λ a. refl;
      }))
]
