-- ===== src/MemPool/Free.antt =====
-- mem_pool_free on well-formed pools.
use sec_fw.Common.{
  ℕ, ◌+◌, ◌-◌, ◌%◌, ◌^◌, ◌≤◌, ◌<◌, ◌≡◌, refl, sym, ◌≢◌, ◌⊎◌, inl, inr, ap, subst, ◌∙◌, Bool-cases,
  ==_self, ◌==◌, List, ◌∷◌, none, some, arith,
}
use sec_fw.MemPool.{
  SliceCtrl, SliceChain, Pools, chain_at, store, mem_pool_alloc, put_slice, mem_pool_free,
  mem_pool_magic_num, mem_pool_slice_ctrl_size,
}
use sec_fw.MemPool.Valid.{occurs, IsFree, IsValid, set_chain_same, set_chain_other}
use sec_fw.MemPool.Alloc.{turn, mem_pool_alloc-Answer}
use sec_fw.MemPool.Steps.{Taken, pair-cases, store_self, store_other, held_nowhere, written-IsValid}

-- How the pools change when a held slice goes back to chain `i` of pool `p`: it is free there, in front,
-- and nothing else moved.
pub record Returned (s : Pools) (p i a : ℕ) (s' : Pools) : Type 0 where
  pub valid : IsValid s'
  pub now_free : IsFree p i (s'.memory a)
  pub front : (chain_at s' p i).head ≡ a ∷ (chain_at s p i).head
  pub memory : (b : ℕ) → b ≢ a → s'.memory b ≡ s.memory b
  pub others : (q j : ℕ) → (p ≢ q) ⊎ (i ≢ j) → chain_at s' q j ≡ chain_at s q j

-- The control block of a slice that a client holds.
pub record IsHeld (mscb : SliceCtrl) : Type 0 where
  pub magic : mscb.magic ≡ mem_pool_magic_num
  pub pool : mscb.pool_id < 4
  pub subpool : mscb.subpool_id < 4
  pub held : mscb.ref ≡ 1

once : (a b : ℕ) (xs : List ℕ) → occurs a xs ≡ 0 → occurs b xs ≤ 1 → occurs b (a ∷ xs) ≤ 1
unfolding occurs
once a b xs none_there one = elim (Bool-cases (b == a)) [
  | inl e ↦
      let ba : b ≡ a = ground arith in
      subst (λ x. occurs x (a ∷ xs) ≤ 1) (sym ba) (rw (==_self a) (omega (arith, none_there)))
  | inr e ↦ rw e (omega (arith, one))
]

put_slice-Returned :
    (s : Pools) (a : ℕ)
    → IsValid s
    → IsHeld (s.memory a)
    → Returned s (s.memory a).pool_id (s.memory a).subpool_id a (put_slice s a (s.memory a))
unfolding put_slice occurs
put_slice-Returned s a v h =
    let m = s.memory a in
    let p = m.pool_id in
    let i = m.subpool_id in
    let nowhere = held_nowhere s a v h.held in
    let c : SliceChain = record {
      freenum = ((chain_at s p i).freenum + 1) % 2 ^ 32;
      head = a ∷ (chain_at s p i).head;
    } in
    let here : store s.memory a (record m { ref = 0 }) a ≡ record m { ref = 0 } =
      store_self s.memory a (record m { ref = 0 }) in
    let freed : IsFree p i (store s.memory a (record m { ref = 0 }) a) =
      subst (IsFree p i) (sym here)
        (record { magic = h.magic; pool = refl; subpool = refl; unheld = refl }) in
    let marked : (b : ℕ)
        → occurs b (a ∷ (chain_at s p i).head) ≢ 0
        → IsFree p i (store s.memory a (record m { ref = 0 }) b) =
      λ b o. elim (Bool-cases (a == b)) [
        | inl q ↦
            let ab : a ≡ b = ground arith in
            subst (λ x. IsFree p i (store s.memory a (record m { ref = 0 }) x)) ab freed
        | inr q ↦ rw q (v.marked p i b h.pool h.subpool (ground arith))
      ] in
    record {
      valid =
          written-IsValid s v p i c a (record m { ref = 0 }) h.pool h.subpool
            (omega (arith, v.counted p i h.pool h.subpool))
            (λ b.
              once a b (chain_at s p i).head (nowhere p i h.pool h.subpool)
                (v.distinct p i b h.pool h.subpool))
            marked (λ q j hq hj n. nowhere q j hq hj);
      now_free = freed;
      front = ap (λ k. k.head) (set_chain_same s v p i c h.pool h.subpool);
      memory = λ b n. store_other s.memory a b _ (λ e. n (sym e));
      others = λ q j n. set_chain_other s v p i c h.pool h.subpool q j n;
    }

add-sub : (a : ℕ) → a + mem_pool_slice_ctrl_size - mem_pool_slice_ctrl_size ≡ a
add-sub a = omega arith

put-of-free :
    (s : Pools) (a : ℕ)
    → IsHeld (s.memory a)
    → mem_pool_free s (a + mem_pool_slice_ctrl_size) ≡ put_slice s a (s.memory a)
unfolding mem_pool_free
put-of-free s a h = rw (add-sub a) (ground (arith, h.magic, h.pool, h.subpool, h.held))

unheld-ignored :
    (s : Pools) (a : ℕ) → (s.memory a).ref ≡ 0 → mem_pool_free s (a + mem_pool_slice_ctrl_size) ≡ s
unfolding mem_pool_free
unheld-ignored s a h = rw (add-sub a) (ground (arith, h))

-- mem_pool_free on well-formed pools puts a held slice in front of the chain that it came from, and leaves
-- them well formed.
pub mem_pool_free-Returned :
    (s : Pools) (a : ℕ)
    → IsValid s
    → IsHeld (s.memory a)
    → Returned s
        (s.memory a).pool_id
        (s.memory a).subpool_id
        a
        (mem_pool_free s (a + mem_pool_slice_ctrl_size))
mem_pool_free-Returned s a v h = rw (put-of-free s a h) (put_slice-Returned s a v h)

-- A slice that nobody holds is not put into a chain: a second mem_pool_free changes nothing.
pub mem_pool_free-twice :
    (s : Pools) (a : ℕ)
    → IsValid s
    → IsHeld (s.memory a)
    → let buf = a + mem_pool_slice_ctrl_size in
      mem_pool_free (mem_pool_free s buf) buf ≡ mem_pool_free s buf
mem_pool_free-twice s a v h =
    unheld-ignored (mem_pool_free s (a + mem_pool_slice_ctrl_size)) a
      (mem_pool_free-Returned s a v h).now_free.unheld

IsFree-path : (p i : ℕ) (m n : SliceCtrl) → IsFree p i m → IsFree p i n → m ≡ n
IsFree-path p i m n f g = λ k. record {
  magic = (f.magic ∙ sym g.magic) k;
  pool_id = (f.pool ∙ sym g.pool) k;
  subpool_id = (f.subpool ∙ sym g.subpool) k;
  ref = (f.unheld ∙ sym g.unheld) k;
}

-- What is the same again once a slice was taken and returned.
abbrev pub Restored : Pools → Pools → Type 0
Restored s s' =
    IsValid s'
    × ((q j : ℕ) → q < 4 → j < 4 → (chain_at s' q j).head ≡ (chain_at s q j).head)
    × ((a : ℕ) → s'.memory a ≡ s.memory a)

Taken-Returned : (s t u : Pools) (p i l : ℕ) → Taken s p i l t → Returned t p i l u → Restored s u
Taken-Returned s t u p i l k r = (
  r.valid,
  λ q j hq hj. elim (pair-cases p i q j) [
    | inl (e, f) ↦
        subst (λ x. (chain_at u x j).head ≡ (chain_at s x j).head) e
          (subst (λ y. (chain_at u p y).head ≡ (chain_at s p y).head) f (r.front ∙ sym k.front))
    | inr n ↦ ap (λ c. c.head) (r.others q j n ∙ k.others q j n)
  ],
  λ a. elim (Bool-cases (a == l)) [
    | inl e ↦
        let la : l ≡ a = ground arith in
        subst (λ b. u.memory b ≡ s.memory b) la (IsFree-path p i _ _ r.now_free k.was_free)
    | inr e ↦ r.memory a (ground arith) ∙ k.memory a (ground arith)
  ],
)

Taken-IsHeld :
    (s t : Pools) (p i l : ℕ)
    → Taken s p i l t
    → IsHeld (t.memory l) × ((t.memory l).pool_id ≡ p) × ((t.memory l).subpool_id ≡ i)
Taken-IsHeld s t p i l k =
    subst (λ m. IsHeld m × (m.pool_id ≡ p) × (m.subpool_id ≡ i)) (sym k.now_held)
      (
        record {
          magic = k.was_free.magic;
          pool = rw k.was_free.pool k.pool_range;
          subpool = rw k.was_free.subpool k.chain_range;
          held = refl;
        },
        k.was_free.pool,
        k.was_free.subpool,
      )

-- A buffer that mem_pool_alloc hands out of well-formed pools and that is given back at once leaves the
-- lists of the chains and the memory as they were, and the pools well formed.
pub mem_pool_alloc-free :
    (s : Pools) (p size buf : ℕ)
    → IsValid s
    → (mem_pool_alloc s p size).0 ≡ some buf
    → Restored s (mem_pool_free (mem_pool_alloc s p size).1 buf)
mem_pool_alloc-free s p size buf v e =
    let t = (mem_pool_alloc s p size).1 in
    elim (mem_pool_alloc-Answer s p size v) [
      | inl refused ↦ absurd (not_none (sym refused.null ∙ e))
      | inr (l, found, k) ↦
          let (h, hp, hi) = Taken-IsHeld s t p (turn s p) l k in
          let r = mem_pool_free-Returned t l k.valid h in
          subst (λ b. Restored s (mem_pool_free t b)) (some-inj (sym found ∙ e))
            (Taken-Returned s t _ p (turn s p) l k (rw (hp, hi) at r))
    ]
  where
    not_none : none ≡ some buf → ⊥
    not_none q = cc

    some-inj : {x y : ℕ} → some x ≡ some y → x ≡ y
    some-inj q = cc
