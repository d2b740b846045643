-- ===== src/Acl/Load.antt =====
-- load_rule of dataplane/src/acl/acl.c, up to the call of BuildHSTree: the table of rules becomes the set of
-- rules that the tree is built from. `malloc` is taken to succeed.
use sec_fw.Common.{
  ◌>>=◌, ℕ, suc, ◌+◌, ◌*◌, ◌==◌, ltb, if◌then◌else◌, List, [], ◌∷◌, ◌++◌, Option, none, some,
  length,
}
use sec_fw.RuleTuple.{Mac, RuleTuple}
use sec_fw.Rules.{RuleEntry, free, used, rule_entry_max}
use sec_fw.Acl.{dim_max}
use sec_fw.Acl.Ranges.{read_ip_range}

-- The heap: the number of the next block, and the first word of each block. Nothing here writes a further
-- word.
pub record Heap : Type 0 where
  pub next : ℕ
  pub word : ℕ → ℕ

-- `unsigned int *dim[DIM][2]`, as the numbers of the blocks.
abbrev pub Dims : Type 0
Dims = ℕ → ℕ → ℕ

-- range_alloc: a block for each bound of each dimension.
unfoldable pub range_alloc : Heap → Dims × Heap
range_alloc heap =
    (λ dim bound. heap.next + (dim * 2 + bound), record heap { next = heap.next + dim_max * 2 })

-- `*block = value`
unfoldable pub write : ℕ → ℕ → Heap → Heap
write block value heap = record heap { word = λ b. if b == block then value else heap.word b }

-- struct FILTER
pub record Filter : Type 0 where
  pub action : ℕ
  pub id : ℕ
  pub rule_id : ℕ
  pub dim : Dims

abbrev pub mac_start : Mac → ℕ
mac_start m = m.b0 * 256 + m.b1

abbrev pub mac_end : Mac → ℕ
mac_end m = m.b2 * 16777216 + m.b3 * 65536 + m.b4 * 256 + m.b5

-- The writes for an entry, with the two ranges of addresses that ReadIPRange gives.
unfoldable pub write_tuple : Dims → RuleTuple → ℕ × ℕ → ℕ × ℕ → Heap → Heap
write_tuple dim t sip dip heap =
    let h0 = write (dim 0 1) (mac_end t.smac) (write (dim 0 0) (mac_start t.smac) heap) in
    let h1 = write (dim 1 1) (mac_end t.dmac) (write (dim 1 0) (mac_start t.dmac) h0) in
    let h4 = write (dim 4 1) t.sport_end (write (dim 4 0) t.sport_start h1) in
    let h5 = write (dim 5 1) t.dport_end (write (dim 5 0) t.dport_start h4) in
    let h8 = write (dim 8 1) t.protocol_end (write (dim 8 0) t.protocol_start h5) in
    let h9 = write (dim 9 1) sip.1 (write (dim 9 0) sip.0 h8) in
    write (dim 10 1) dip.1 (write (dim 10 0) dip.0 h9)

-- `none` is a write outside an array in ReadIPRange.
unfoldable pub write_ranges : Dims → RuleTuple → Heap → Option Heap
write_ranges dim t heap = do
  sip ← read_ip_range t.sip t.sip_mask
  dip ← read_ip_range t.dip t.dip_mask
  some (write_tuple dim t sip dip heap)

-- The loop over the entries of the table from the index `i`.
unfoldable pub load_entries : Dims → ℕ → List RuleEntry → Heap → Option (List Filter × Heap)
load_entries dim i [] heap = some ([], heap)
load_entries dim i (e ∷ es) heap = elim e.entry_status [
  | free ↦ load_entries dim (suc i) es heap
  | used ↦ do
    written ← write_ranges dim e.rule_tuple heap
    rest ← load_entries dim (suc i) es written
    some (record { action = e.rule_tuple.action; id = i; rule_id = i; dim = dim } ∷ rest.0, rest.1)
]

-- rule_t, whose `range` points to the bounds.
pub record LoadedRule : Type 0 where
  pub pri : ℕ
  pub action : ℕ
  pub id : ℕ
  pub rule_id : ℕ
  pub range : ℕ → ℕ → Option ℕ

unfoldable pub rule_list_from : ℕ → List Filter → List LoadedRule
rule_list_from i [] = []
rule_list_from i (f ∷ fs) =
    record {
      pri = i;
      action = f.action;
      id = f.id;
      rule_id = f.rule_id;
      range = λ v b. some (f.dim v b);
    }
    ∷ rule_list_from (suc i) fs

-- What `memset` leaves, with the number that the default rule gets.
abbrev pub default_rule : ℕ → LoadedRule
default_rule num = record { pri = num; action = 0; id = 0; rule_id = 0; range = λ v b. none }

-- The default rule at the end, while the set has room for it.
unfoldable pub with_default : List LoadedRule → List LoadedRule
with_default rules =
    if ltb (length rules + 1) rule_entry_max
    then rules ++ (default_rule (length rules) ∷ [])
    else rules

-- The rules that load_rule hands to BuildHSTree.
unfoldable pub load_rule : List RuleEntry → Heap → Option (List LoadedRule × Heap)
load_rule entries heap =
    let alloc = range_alloc heap in
    do
      loaded ← load_entries alloc.0 0 entries alloc.1
      some (with_default (rule_list_from 0 loaded.0), loaded.1)
