-- ===== src/Defrag/Table.antt =====
-- The table of the fragment blocks in dataplane/src/decode/decode-defrag.c: Defrag, Frag_defrag_begin and
-- Frag_defrag_timeout. The hash jhash_3words, the cycle counter, the buckets that another core has locked, and
-- whether there is memory are arguments. Defrag is one step: nothing comes between its two locks.
use sec_fw.Common.{
  ℕ, ◌-◌, ◌*◌, ◌%◌, Bool, not, ◌&&◌, ◌==◌, ltb, if◌then◌else◌, List, [], ◌∷◌, Option, none, some,
}
use sec_fw.Defrag.{Fragment, Fcb, fcb_create, Verdict, frag_defrag_process}

-- What ip4_frag_match compares: the addresses and the identification.
pub record DatagramId : Type 0 where
  pub sip : ℕ
  pub dip : ℕ
  pub id : ℕ

-- A block in its bucket: its datagram, the time of its last fragment, and the rest of fcb_t.
pub record FragItem : Type 0 where
  pub datagram : DatagramId
  pub cycle : ℕ
  pub fcb : Fcb

abbrev pub frag_bucket_num : ℕ
frag_bucket_num = 1024

abbrev pub FragTable : Type 0
FragTable = ℕ → List FragItem

-- ip4_frag_hashfn
abbrev pub ip4_frag_hashfn : (ℕ → ℕ → ℕ → ℕ → ℕ) → DatagramId → ℕ
ip4_frag_hashfn jhash_3words d = jhash_3words d.sip d.dip d.id 0 % frag_bucket_num

-- ip4_frag_match
unfoldable pub ip4_frag_match : DatagramId → DatagramId → Bool
ip4_frag_match d e = d.id == e.id && d.sip == e.sip && d.dip == e.dip

-- FragFind, without the time.
unfoldable pub frag_find : List FragItem → DatagramId → Option FragItem
frag_find [] d = none
frag_find (item ∷ items) d =
    let rest = frag_find items d in if ip4_frag_match item.datagram d then some item else rest

-- A write through the pointer that FragFind gives: the first item that matches.
unfoldable pub write_item : DatagramId → FragItem → List FragItem → List FragItem
write_item d new [] = []
write_item d new (item ∷ items) =
    let rest = write_item d new items in
    if ip4_frag_match item.datagram d then new ∷ items else item ∷ rest

-- What Defrag answers: no memory for a block, no memory to move the packet, or what became of the fragment.
pub data Reply : Type 0 where
  fcb_no : Reply
  hw2sw_err : Reply
  processed : Verdict → Reply

-- The memory that a call finds: for a block, for the packet in PACKET_HW2SW, and for a new packet.
pub record Supply : Type 0 where
  pub block : Bool
  pub packet : Bool
  pub whole : ℕ → Bool

-- The work under the lock of the bucket: the block of the fragment, found or created, and the bucket with it.
unfoldable pub find_or_create :
    Bool → ℕ → List FragItem → DatagramId → Option (FragItem × List FragItem)
find_or_create has_block now items d = elim (frag_find items d) [
  | some item ↦
      let touched = record item { cycle = now } in some (touched, write_item d touched items)
  | none ↦
      let fresh : FragItem = record { datagram = d; cycle = now; fcb = fcb_create } in
      if has_block then some (fresh, fresh ∷ items) else none
]

-- Frag_defrag_begin
unfoldable pub frag_defrag_begin :
    Supply → Fragment → FragItem → List FragItem → Reply × List FragItem
frag_defrag_begin supply m item items =
    let result = frag_defrag_process supply.whole m item.fcb in
    if supply.packet
    then (Reply.processed result.0, write_item item.datagram (record item { fcb = result.1 }) items)
    else (Reply.hw2sw_err, items)

unfoldable pub defrag_bucket :
    Supply → ℕ → DatagramId → Fragment → List FragItem → Reply × List FragItem
defrag_bucket supply now d m items = elim (find_or_create supply.block now items d) [
  | none ↦ (Reply.fcb_no, items)
  | some found ↦ frag_defrag_begin supply m found.0 found.1
]

-- Defrag
unfoldable pub defrag :
    (ℕ → ℕ → ℕ → ℕ → ℕ) → Supply → ℕ → DatagramId → Fragment → FragTable → Reply × FragTable
defrag jhash_3words supply now d m table =
    let hash = ip4_frag_hashfn jhash_3words d in
    let result = defrag_bucket supply now d m (table hash) in
    (result.0, λ i. if i == hash then result.1 else table i)

-- FRAG_MAX_TIMEOUT, 20 seconds of a processor with `oct_cpu_rate` cycles in a second.
unfoldable pub timed_out : ℕ → ℕ → FragItem → Bool
timed_out oct_cpu_rate now item = ltb item.cycle now && ltb (20 * oct_cpu_rate) (now - item.cycle)

-- The items of a bucket that stay.
unfoldable pub keep_items : ℕ → ℕ → List FragItem → List FragItem
keep_items rate now [] = []
keep_items rate now (item ∷ items) =
    let rest = keep_items rate now items in if timed_out rate now item then rest else item ∷ rest

-- Frag_defrag_timeout
unfoldable pub frag_defrag_timeout : ℕ → ℕ → (ℕ → Bool) → FragTable → FragTable
frag_defrag_timeout rate now locked table i =
    if ltb i frag_bucket_num && not (locked i) then keep_items rate now (table i) else table i
