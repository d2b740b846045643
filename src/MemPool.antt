-- ===== src/MemPool.antt =====
-- dataplane/src/platform/mem_pool.h and mem_pool.c: the software pools of buffers of 2048 and of 8192
-- bytes. Addresses are numbers; the memory is the control block at the start of each slice.
pub mod Valid
pub mod Steps
pub mod Alloc
pub mod Free
pub mod Inject
pub mod Start
use sec_fw.Common.{
  ℕ, zero, suc, ◌+◌, ◌-◌, ◌*◌, ◌/◌, ◌%◌, ◌^◌, Bool, ◌||◌, ◌==◌, ◌!=◌, ltb, if◌then◌else◌, List, [],
  ◌∷◌, Option, none, some, get_or, set,
}

-- MEM_POOL_INTERNAL_NUM, MEM_POOL_ID_MAX, MEM_POOL_MAGIC_NUM and sizeof(Mem_Slice_Ctrl_B)
abbrev pub mem_pool_internal_num : ℕ
mem_pool_internal_num = 4

abbrev pub mem_pool_id_max : ℕ
mem_pool_id_max = 4

abbrev pub mem_pool_id_small_buffer : ℕ
mem_pool_id_small_buffer = 2

abbrev pub mem_pool_id_large_buffer : ℕ
mem_pool_id_large_buffer = 3

abbrev pub mem_pool_slice_ctrl_size : ℕ
mem_pool_slice_ctrl_size = 24

-- Mem_Slice_Ctrl_B. The links of `list` are the positions in the lists of the chains.
pub record SliceCtrl : Type 0 where
  pub magic : ℕ
  pub pool_id : ℕ
  pub subpool_id : ℕ
  pub ref : ℕ

-- Mem_Slice_Chain: the addresses of the control blocks, first to last.
pub record SliceChain : Type 0 where
  pub freenum : ℕ
  pub head : List ℕ

-- Mem_Pool_Cfg, with the fields of Mem_Pool_Ctrl.
pub record PoolCfg : Type 0 where
  pub start : ℕ
  pub totalsize : ℕ
  pub slicesize : ℕ
  pub slicenum : ℕ
  pub datasize : ℕ
  pub global_index : ℕ
  pub msc : List SliceChain

-- The array mem_pool and the memory.
pub record Pools : Type 0 where
  pub mem_pool : List PoolCfg
  pub memory : ℕ → SliceCtrl

abbrev pub empty_chain : SliceChain
empty_chain = record { freenum = 0; head = [] }

-- What `memset` leaves of a pool.
abbrev pub zero_pool : PoolCfg
zero_pool = record {
  start = 0;
  totalsize = 0;
  slicesize = 0;
  slicenum = 0;
  datasize = 0;
  global_index = 0;
  msc = empty_chain ∷ empty_chain ∷ empty_chain ∷ empty_chain ∷ [];
}

abbrev pub store : (ℕ → SliceCtrl) → ℕ → SliceCtrl → ℕ → SliceCtrl
store memory a v b = if a == b then v else memory b

abbrev pub chain_at : Pools → ℕ → ℕ → SliceChain
chain_at s p i = get_or (get_or s.mem_pool p zero_pool).msc i empty_chain

abbrev pub set_chain : Pools → ℕ → ℕ → SliceChain → Pools
set_chain s p i c =
    let mp = get_or s.mem_pool p zero_pool in
    record s { mem_pool = set s.mem_pool p (record mp { msc = set mp.msc i c }) }

-- `atomic_fetch_and_add(&global_index, 1)`, and what it fetched modulo the number of chains.
abbrev pub next_index : Pools → ℕ → ℕ × Pools
next_index s p =
    let mp = get_or s.mem_pool p zero_pool in
    (
      mp.global_index % mem_pool_internal_num,
      record s {
        mem_pool = set s.mem_pool p (record mp { global_index = (mp.global_index + 1) % 2 ^ 32 });
      },
    )

-- The slice `l`, off its chain, is handed out if nobody holds it, and is lost otherwise.
unfoldable pub take_slice : Pools → ℕ → Option ℕ × Pools
take_slice s l =
    let mscb = s.memory l in
    if mscb.ref != 0 then (none, s) else (
      some (l + mem_pool_slice_ctrl_size),
      record s { memory = store s.memory l (record mscb { ref = 1 }) },
    )

-- The critical section on one chain, and what follows it.
unfoldable pub alloc_from : Pools → ℕ → ℕ → Option ℕ × Pools
alloc_from s p index = elim (chain_at s p index).head [
  | [] ↦ (none, s)
  | l ∷ ls ↦
      take_slice
        (set_chain s p index
          (record { freenum = ((chain_at s p index).freenum + (2 ^ 32 - 1)) % 2 ^ 32; head = ls }))
        l
]

unfoldable pub mem_pool_alloc : Pools → ℕ → ℕ → Option ℕ × Pools
mem_pool_alloc s pool_id alloc_size =
    if pool_id == mem_pool_id_small_buffer || pool_id == mem_pool_id_large_buffer
    then if ltb (get_or s.mem_pool pool_id zero_pool).datasize alloc_size
      then (none, s)
      else alloc_from (next_index s pool_id).1 pool_id (next_index s pool_id).0
    else (none, s)

-- The slice goes back to the chain that its control block names.
unfoldable pub put_slice : Pools → ℕ → SliceCtrl → Pools
put_slice s a mscb =
    let s' = record s { memory = store s.memory a (record mscb { ref = 0 }) } in
    let c = chain_at s' mscb.pool_id mscb.subpool_id in
    set_chain s' mscb.pool_id mscb.subpool_id
      (record { freenum = (c.freenum + 1) % 2 ^ 32; head = a ∷ c.head })

-- MEM_POOL_MAGIC_NUM
abbrev pub mem_pool_magic_num : ℕ
mem_pool_magic_num = 0xab01ab01

unfoldable pub mem_pool_free : Pools → ℕ → Pools
mem_pool_free s buf =
    let a = buf - mem_pool_slice_ctrl_size in
    let mscb = s.memory a in
    if mscb.magic != mem_pool_magic_num
    then s
    else if ltb mscb.pool_id mem_pool_id_max
    then if ltb mscb.subpool_id mem_pool_internal_num
      then if mscb.ref != 1 then s else put_slice s a mscb
      else s
    else s
