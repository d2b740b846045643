-- ===== src/MemPool/Steps.antt =====
-- A slice that leaves its chain, or goes back to it, leaves the pools well formed.
use sec_fw.Common.{
  ℕ, ◌+◌, ◌-◌, ◌%◌, ◌^◌, ◌≤◌, ◌<◌, ◌≡◌, refl, sym, ◌≢◌, ◌⊎◌, inl, inr, ap, subst, ◌∙◌, Bool-cases,
  ==_self, ==_of_ne, ◌==◌, List, ◌∷◌, arith, length,
}
use sec_fw.MemPool.{SliceCtrl, SliceChain, Pools, chain_at, set_chain, store}
use sec_fw.MemPool.Valid.{
  occurs, IsFree, IsValid, set_chain_same, set_chain_other, set_chain-pools, set_chain-chains,
}

-- The pools after the first slice of a chain is taken.
abbrev pub taken : Pools → ℕ → ℕ → ℕ → List ℕ → Pools
taken s p i l ls =
    let s' =
      set_chain s p i
        (record { freenum = ((chain_at s p i).freenum + (2 ^ 32 - 1)) % 2 ^ 32; head = ls }) in
    record s' { memory = store s.memory l (record (s.memory l) { ref = 1 }) }

pub store_self : (m : ℕ → SliceCtrl) (a : ℕ) (c : SliceCtrl) → store m a c a ≡ c
store_self m a c = rw (==_self a) refl

pub store_other : (m : ℕ → SliceCtrl) (a b : ℕ) (c : SliceCtrl) → a ≢ b → store m a c b ≡ m b
store_other m a b c h = rw (==_of_ne a b h) refl

pub pair-cases : (p i q j : ℕ) → ((p ≡ q) × (i ≡ j)) ⊎ ((p ≢ q) ⊎ (i ≢ j))
pair-cases p i q j = elim (Bool-cases (p == q)) [
  | inl e ↦ elim (Bool-cases (i == j)) [
    | inl f ↦ inl (ground arith, ground arith)
    | inr f ↦ inr (inr (ground arith))
  ]
  | inr e ↦ inr (inl (ground arith))
]

-- Writing one chain and one control block keeps the pools valid, if the new chain is well formed and the
-- control block belongs to a slice of this chain only.
module _ (s : Pools) (v : IsValid s) (p i : ℕ) (c : SliceChain) (l : ℕ) (m : SliceCtrl) (hp : p < 4)
    (hi : i < 4) where
  abbrev pub written : Pools
  written = record (set_chain s p i c) { memory = store s.memory l m }

  pub written-IsValid :
      c.freenum ≡ length c.head % 2 ^ 32
      → ((a : ℕ) → occurs a c.head ≤ 1)
      → ((a : ℕ) → occurs a c.head ≢ 0 → IsFree p i (store s.memory l m a))
      → ((q j : ℕ) → q < 4 → j < 4 → (p ≢ q) ⊎ (i ≢ j) → occurs l (chain_at s q j).head ≡ 0)
      → IsValid written
  written-IsValid counted distinct marked alone = record {
    pools = set_chain-pools s v p i c hp hi;
    chains = set_chain-chains s v p i c hp hi;
    counted = λ q j hq hj. elim (pair-cases p i q j) [
      | inl (e, f) ↦ subst (λ k. k.freenum ≡ length k.head % 2 ^ 32) (sym (at_pair q j e f)) counted
      | inr n ↦ rw (other q j n) (v.counted q j hq hj)
    ];
    distinct = λ q j a hq hj. elim (pair-cases p i q j) [
      | inl (e, f) ↦ subst (λ k. occurs a k.head ≤ 1) (sym (at_pair q j e f)) (distinct a)
      | inr n ↦ rw (other q j n) (v.distinct q j a hq hj)
    ];
    marked = λ q j a hq hj o. elim (pair-cases p i q j) [
      | inl (e, f) ↦
          rw (sym e, sym f) (marked a (subst (λ k. occurs a k.head ≢ 0) (at_pair q j e f) o))
      | inr n ↦ apart q j a n (v.marked q j a hq hj) (alone q j hq hj n) (rw (other q j n) at o)
    ];
  }
    where
      at_pair : (q j : ℕ) → p ≡ q → i ≡ j → chain_at written q j ≡ c
      at_pair q j e f = rw (sym e, sym f) (set_chain_same s v p i c hp hi)

      other : (q j : ℕ) → (p ≢ q) ⊎ (i ≢ j) → chain_at written q j ≡ chain_at s q j
      other q j n = set_chain_other s v p i c hp hi q j n

      apart :
          (q j a : ℕ)
          → (p ≢ q) ⊎ (i ≢ j)
          → (occurs a (chain_at s q j).head ≢ 0 → IsFree q j (s.memory a))
          → occurs l (chain_at s q j).head ≡ 0
          → occurs a (chain_at s q j).head ≢ 0
          → IsFree q j (store s.memory l m a)
      apart q j a n free none_there o = elim (Bool-cases (l == a)) [
        | inl e ↦
            let la : l ≡ a = ground arith in
            absurd (o (subst (λ b. occurs b (chain_at s q j).head ≡ 0) la none_there))
        | inr e ↦ rw e (free o)
      ]

-- A slice that is free in one chain stands in no other.
pub free_alone :
    (s : Pools) (p i l : ℕ)
    → IsValid s
    → IsFree p i (s.memory l)
    → (q j : ℕ) → q < 4
    → j < 4
    → (p ≢ q) ⊎ (i ≢ j)
    → occurs l (chain_at s q j).head ≡ 0
free_alone s p i l v f q j hq hj n = elim (Bool-cases (occurs l (chain_at s q j).head == 0)) [
  | inl e ↦ ground arith
  | inr e ↦
      let g = v.marked q j l hq hj (ground arith) in
      absurd
        (elim n [ inl np ↦ np (sym f.pool ∙ g.pool) | inr ni ↦ ni (sym f.subpool ∙ g.subpool) ])
]

-- A slice that somebody holds stands in no chain.
pub held_nowhere :
    (s : Pools) (a : ℕ)
    → IsValid s
    → (s.memory a).ref ≡ 1
    → (q j : ℕ) → q < 4
    → j < 4
    → occurs a (chain_at s q j).head ≡ 0
held_nowhere s a v h q j hq hj = elim (Bool-cases (occurs a (chain_at s q j).head == 0)) [
  | inl e ↦ ground arith
  | inr e ↦ absurd (omega (arith, h, (v.marked q j a hq hj (ground arith)).unheld))
]

-- How the pools change when slice `l` leaves chain `i` of pool `p` for a client: the slice was free there,
-- is now held, and nothing else moved.
pub record Taken (s : Pools) (p i l : ℕ) (s' : Pools) : Type 0 where
  pub pool_range : p < 4
  pub chain_range : i < 4
  pub valid : IsValid s'
  pub was_free : IsFree p i (s.memory l)
  pub front : (chain_at s p i).head ≡ l ∷ (chain_at s' p i).head
  pub now_held : s'.memory l ≡ record (s.memory l) { ref = 1 }
  pub memory : (a : ℕ) → a ≢ l → s'.memory a ≡ s.memory a
  pub others : (q j : ℕ) → (p ≢ q) ⊎ (i ≢ j) → chain_at s' q j ≡ chain_at s q j

pub taken-Taken :
    (s : Pools) (p i l : ℕ) (ls : List ℕ)
    → IsValid s
    → p < 4
    → i < 4
    → (chain_at s p i).head ≡ l ∷ ls
    → IsFree p i (s.memory l)
    → Taken s p i l (taken s p i l ls)
unfolding occurs
taken-Taken s p i l ls v hp hi e f =
    let c : SliceChain = record {
      freenum = ((chain_at s p i).freenum + (2 ^ 32 - 1)) % 2 ^ 32;
      head = ls;
    } in
    let once : (a : ℕ) → occurs a (l ∷ ls) ≤ 1 =
      λ a. subst (λ xs. occurs a xs ≤ 1) e (v.distinct p i a hp hi) in
    let still_free : (a : ℕ)
        → occurs a ls ≢ 0
        → IsFree p i (store s.memory l (record (s.memory l) { ref = 1 }) a) =
      λ a o. elim (Bool-cases (l == a)) [
        | inl q ↦ absurd (ground (arith, once a))
        | inr q ↦ rw q (v.marked p i a hp hi (subst (λ xs. occurs a xs ≢ 0) (sym e) (ground arith)))
      ] in
    record {
      pool_range = hp;
      chain_range = hi;
      valid =
          written-IsValid s v p i c l (record (s.memory l) { ref = 1 }) hp hi
            (omega (arith, v.counted p i hp hi, ap length e)) (λ a. ground (arith, once a))
            (λ a o. still_free a o) (free_alone s p i l v f);
      was_free = f;
      front = e ∙ ap (λ k. l ∷ k.head) (sym (set_chain_same s v p i c hp hi));
      now_held = store_self s.memory l _;
      memory = λ a h. store_other s.memory l a _ (λ q. h (sym q));
      others = set_chain_other s v p i c hp hi;
    }
