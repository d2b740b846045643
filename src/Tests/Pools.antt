-- ===== src/Tests/Pools.antt =====
-- Runs of the models of the buffer pools.
use sec_fw.Common.{
  ℕ, zero, suc, ◌+◌, ◌/◌, ◌%◌, ◌≡◌, ◌≢◌, ◌⊎◌, refl, inl, inr, true, false, Bool-cases, ◌==◌, [],
  ◌∷◌, some, arith, get_or,
}
use sec_fw.MemPool.{
  PoolCfg, Pools, SliceCtrl, SliceChain, zero_pool, empty_chain, chain_at, mem_pool_magic_num,
  mem_pool_alloc, alloc_from, take_slice, mem_pool_free, mem_pool_slice_ctrl_size,
}
use sec_fw.MemPool.Valid.{IsValid, occurs}
use sec_fw.MemPool.Steps.{written, written-IsValid}
use sec_fw.MemPool.Alloc.{AllocAnswer, mem_pool_alloc-Answer}
use sec_fw.MemPool.Free.{IsHeld, Returned, Restored, mem_pool_free-Returned, mem_pool_alloc-free}
use sec_fw.MemPool.Inject.{mem_pool_sw_slice_inject}
use sec_fw.MemPool.Start.{Started, mem_pool_sw_slice_inject-Started}

-- Four pools of two slices: one of the slices, at 4096, is free in chain 0 of the small buffers, and the
-- other, at 8192, is held.
abbrev sized_pool : ℕ → PoolCfg
sized_pool n = record zero_pool { start = 4096; slicesize = 2048; slicenum = n; datasize = 2024 }

abbrev slice : ℕ → SliceCtrl
slice ref = record { magic = mem_pool_magic_num; pool_id = 2; subpool_id = 0; ref = ref }

-- The pools before any slice is in a chain, with `n` small buffers.
abbrev chainless : ℕ → ℕ → Pools
chainless n ref = record {
  mem_pool = zero_pool ∷ zero_pool ∷ sized_pool n ∷ zero_pool ∷ [];
  memory = λ a. slice ref;
}

abbrev bare : Pools
bare = chainless 2 1

empty_pool : (n ref p : ℕ) → (get_or (chainless n ref).mem_pool p zero_pool).msc ≡ zero_pool.msc
empty_pool n ref zero = refl
empty_pool n ref (suc zero) = refl
empty_pool n ref (suc (suc zero)) = refl
empty_pool n ref (suc (suc (suc zero))) = refl
empty_pool n ref (suc (suc (suc (suc p)))) = refl

empty_chains : (i : ℕ) → get_or zero_pool.msc i empty_chain ≡ empty_chain
empty_chains zero = refl
empty_chains (suc zero) = refl
empty_chains (suc (suc zero)) = refl
empty_chains (suc (suc (suc zero))) = refl
empty_chains (suc (suc (suc (suc i)))) = refl

chainless_chain : (n ref p i : ℕ) → chain_at (chainless n ref) p i ≡ empty_chain
chainless_chain n ref p i = rw (empty_pool n ref p) (empty_chains i)

chainless-IsValid : (n ref : ℕ) → IsValid (chainless n ref)
unfolding occurs
chainless-IsValid n ref = record {
  pools = refl;
  chains = λ p h. rw (empty_pool n ref p) refl;
  counted = λ p i hp hi. rw (chainless_chain n ref p i) refl;
  distinct = λ p i a hp hi. rw (chainless_chain n ref p i) (omega arith);
  marked = λ p i a hp hi o. absurd (o (rw (chainless_chain n ref p i) refl));
}

pub bare-IsValid : IsValid bare
bare-IsValid = chainless-IsValid 2 1

abbrev one_chain : SliceChain
one_chain = record { freenum = 1; head = 4096 ∷ [] }

abbrev pub one_slice : Pools
one_slice = written bare bare-IsValid 2 0 one_chain 4096 (slice 0) (omega arith) (omega arith)

pub one_slice-IsValid : IsValid one_slice
unfolding occurs
one_slice-IsValid =
    written-IsValid bare bare-IsValid 2 0 one_chain 4096 (slice 0) (omega arith) (omega arith) refl
      (λ a. ground arith)
      (λ a o. elim (Bool-cases (4096 == a)) [
        | inl e ↦ rw e (record { magic = refl; pool = refl; subpool = refl; unheld = refl })
        | inr e ↦ absurd (ground arith)
      ])
      (λ q j hq hj n. rw (chainless_chain 2 1 q j) refl)

alloc_example : AllocAnswer one_slice 2 100 (mem_pool_alloc one_slice 2 100)
alloc_example = mem_pool_alloc-Answer one_slice 2 100 one_slice-IsValid

held : IsHeld (one_slice.memory 8192)
held = record { magic = refl; pool = omega arith; subpool = omega arith; held = refl }

free_example :
    Returned one_slice 2 0 8192 (mem_pool_free one_slice (8192 + mem_pool_slice_ctrl_size))
free_example = mem_pool_free-Returned one_slice 8192 one_slice-IsValid held

pub first_alloc : (mem_pool_alloc one_slice 2 100).0 ≡ some 4120
unfolding mem_pool_alloc alloc_from take_slice
first_alloc = refl

restore_example : Restored one_slice (mem_pool_free (mem_pool_alloc one_slice 2 100).1 4120)
restore_example = mem_pool_alloc-free one_slice 2 100 4120 one_slice-IsValid first_alloc

-- Eight slices at the start.
abbrev eight_slices : Pools
eight_slices = chainless 8 0

inject_example :
    ((8 % 4 ≡ 0)
      × ((mem_pool_sw_slice_inject eight_slices 2).0 ≡ true)
      × Started 2 (8 / 4) 0 eight_slices (mem_pool_sw_slice_inject eight_slices 2).1)
    ⊎ ((8 % 4 ≢ 0) × (mem_pool_sw_slice_inject eight_slices 2 ≡ (false, eight_slices)))
unfolding occurs
inject_example =
    mem_pool_sw_slice_inject-Started eight_slices 2 20480 (omega arith) (chainless-IsValid 8 0)
      (omega arith) (omega arith) refl (omega arith)
      (λ q j a hq hj o. absurd (o (rw (chainless_chain 8 0 q j) refl))) (λ a low high. refl)
