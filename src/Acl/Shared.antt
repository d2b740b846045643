-- ===== src/Acl/Shared.antt =====
-- What the rules that load_rule makes have in common.
use sec_fw.Common.{
  subst, All, map, inl, inr, ℕ, ℕ, suc, ◌+◌, ◌-◌, ◌*◌, ◌^◌, ◌<◌, ◌≤◌, ◌≡◌, refl, ap, ◌∙◌, ◌==◌,
  List, [], ◌∷◌, Option, none, some, arith,
}
use sec_fw.RuleTuple.{RuleTuple}
use sec_fw.Rules.{RuleEntry, free, used}
use sec_fw.Rules.Content.{EntryStatus-cases}
use sec_fw.Acl.Prefix.{prefix_range, read_ip_range-prefix}
use sec_fw.Acl.Load.{
  Heap, Dims, write_tuple, range_alloc, write, Filter, mac_start, mac_end, write_ranges,
  load_entries, LoadedRule, rule_list_from, with_default, load_rule,
}

abbrev pub prefix_of : ℕ → ℕ → ℕ × ℕ
prefix_of ip mask = prefix_range ip (2 ^ (32 - mask))

-- The words that the bounds of a rule point to are those of the tuple.
pub record HasWords (word : ℕ → ℕ → ℕ) (t : RuleTuple) : Type 0 where
  pub smac : (word 0 0 ≡ mac_start t.smac) × (word 0 1 ≡ mac_end t.smac)
  pub dmac : (word 1 0 ≡ mac_start t.dmac) × (word 1 1 ≡ mac_end t.dmac)
  pub sport : (word 4 0 ≡ t.sport_start) × (word 4 1 ≡ t.sport_end)
  pub dport : (word 5 0 ≡ t.dport_start) × (word 5 1 ≡ t.dport_end)
  pub protocol : (word 8 0 ≡ t.protocol_start) × (word 8 1 ≡ t.protocol_end)
  pub sip :
      (word 9 0 ≡ (prefix_of t.sip t.sip_mask).0) × (word 9 1 ≡ (prefix_of t.sip t.sip_mask).1)
  pub dip :
      (word 10 0 ≡ (prefix_of t.dip t.dip_mask).0) × (word 10 1 ≡ (prefix_of t.dip t.dip_mask).1)

-- The addresses and masks of a tuple are those of IPv4.
abbrev pub IsAddressed : RuleTuple → Type 0
IsAddressed t = (t.sip < 2 ^ 32) × (t.sip_mask ≤ 32) × (t.dip < 2 ^ 32) × (t.dip_mask ≤ 32)

block_== : (n a b : ℕ) → (n + a == n + b) ≡ (a == b)
block_== n a b = ground arith

abbrev dims_at : ℕ → Dims
dims_at n v b = n + (v * 2 + b)

write_tuple-HasWords :
    (n : ℕ) (t : RuleTuple) (heap : Heap)
    → HasWords
        (λ v b.
          (write_tuple
              (dims_at n)
              t
              (prefix_of t.sip t.sip_mask)
              (prefix_of t.dip t.dip_mask)
              heap).word
            (dims_at n v b))
        t
unfolding write_tuple write
write_tuple-HasWords n t heap = record {
  smac = (simp (block_== n) refl, simp (block_== n) refl);
  dmac = (simp (block_== n) refl, simp (block_== n) refl);
  sport = (simp (block_== n) refl, simp (block_== n) refl);
  dport = (simp (block_== n) refl, simp (block_== n) refl);
  protocol = (simp (block_== n) refl, simp (block_== n) refl);
  sip = (simp (block_== n) refl, simp (block_== n) refl);
  dip = (simp (block_== n) refl, simp (block_== n) refl);
}

write_ranges-HasWords :
    (n : ℕ) (t : RuleTuple) (heap : Heap)
    → IsAddressed t
    → (written : Heap) × (write_ranges (dims_at n) t heap ≡ some written)
      × HasWords (λ v b. written.word (dims_at n v b)) t
unfolding write_ranges
write_ranges-HasWords n t heap (hs, ms, hd, md) = (
  write_tuple (dims_at n) t (prefix_of t.sip t.sip_mask) (prefix_of t.dip t.dip_mask) heap,
  rw (read_ip_range-prefix t.sip t.sip_mask hs ms, read_ip_range-prefix t.dip t.dip_mask hd md)
      refl,
  write_tuple-HasWords n t heap,
)

-- The last used entry from here on, with the one that was last before.
unfoldable pub last_used : Option RuleTuple → List RuleEntry → Option RuleTuple
last_used t [] = t
last_used t (e ∷ es) = last_used (elim e.entry_status [ free ↦ t | used ↦ some e.rule_tuple ]) es

-- The index and the action of each used entry, from the index `i`.
unfoldable pub used_rules : ℕ → List RuleEntry → List (ℕ × ℕ)
used_rules i [] = []
used_rules i (e ∷ es) = elim e.entry_status [
  | free ↦ used_rules (suc i) es
  | used ↦ (i, e.rule_tuple.action) ∷ used_rules (suc i) es
]

abbrev pub UsedAddressed : RuleEntry → Type 0
UsedAddressed e = e.entry_status ≡ used → IsAddressed e.rule_tuple

abbrev filter_name : Filter → ℕ × ℕ
filter_name f = (f.rule_id, f.action)

abbrev pub rule_name : LoadedRule → ℕ × ℕ
rule_name r = (r.rule_id, r.action)

abbrev HoldsLast : Option RuleTuple → (ℕ → ℕ → ℕ) → Type 0
HoldsLast none word = Unit
HoldsLast (some t) word = HasWords word t

record Loaded (n i : ℕ) (last : Option RuleTuple) (entries : List RuleEntry) (heap : Heap)
    : Type 0 where
  filters : List Filter
  written : Heap
  done : load_entries (dims_at n) i entries heap ≡ some (filters, written)
  names : map filter_name filters ≡ used_rules i entries
  shared : All (λ f. f.dim ≡ dims_at n) filters
  last_words : HoldsLast (last_used last entries) (λ v b. written.word (dims_at n v b))

load_entries-Loaded :
    (n i : ℕ) (last : Option RuleTuple) (entries : List RuleEntry) (heap : Heap)
    → All UsedAddressed entries
    → HoldsLast last (λ v b. heap.word (dims_at n v b))
    → Loaded n i last entries heap
unfolding load_entries last_used used_rules
load_entries-Loaded n i last [] heap all held = record {
  filters = [];
  written = heap;
  done = refl;
  names = refl;
  shared = _;
  last_words = held;
}
load_entries-Loaded n i last (e ∷ es) heap (h, all) held = elim (EntryStatus-cases e.entry_status) [
  | inl f ↦
      let rest = load_entries-Loaded n (suc i) last es heap all held in
      record {
        filters = rest.filters;
        written = rest.written;
        done = rw f rest.done;
        names = rw f rest.names;
        shared = rest.shared;
        last_words = rw f rest.last_words;
      }
  | inr u ↦
      let step = write_ranges-HasWords n e.rule_tuple heap (h u) in
      let rest = load_entries-Loaded n (suc i) (some e.rule_tuple) es step.0 all step.2 in
      record {
        filters =
            record { action = e.rule_tuple.action; id = i; rule_id = i; dim = dims_at n }
            ∷ rest.filters;
        written = rest.written;
        done = rw (u, step.1, rest.done) refl;
        names = rw u (ap (λ l. (i, e.rule_tuple.action) ∷ l) rest.names);
        shared = (refl, rest.shared);
        last_words = rw u rest.last_words;
      }
]

-- The bounds of a rule point to the ranges of the tuple.
abbrev pub PointsTo : Heap → RuleTuple → LoadedRule → Type 0
PointsTo heap t r =
    (dim : Dims) × ((v b : ℕ) → r.range v b ≡ some (dim v b))
    × HasWords (λ v b. heap.word (dim v b)) t

rule_list_from-names :
    (i : ℕ) (fs : List Filter) → map rule_name (rule_list_from i fs) ≡ map filter_name fs
unfolding rule_list_from
rule_list_from-names i [] = refl
rule_list_from-names i (f ∷ fs) = ap (λ l. filter_name f ∷ l) (rule_list_from-names (suc i) fs)

rule_list_from-PointsTo :
    (n i : ℕ) (heap : Heap) (t : RuleTuple) (fs : List Filter)
    → All (λ f. f.dim ≡ dims_at n) fs
    → HasWords (λ v b. heap.word (dims_at n v b)) t
    → All (PointsTo heap t) (rule_list_from i fs)
unfolding rule_list_from
rule_list_from-PointsTo n i heap t [] all words = _
rule_list_from-PointsTo n i heap t (f ∷ fs) (h, all) words = (
  (dims_at n, λ v b. ap (λ d. some (d v b)) h, words),
  rule_list_from-PointsTo n (suc i) heap t fs all words,
)

-- load_rule gives the set one rule for each used entry, with the index and the action of that entry, but all
-- rules with the ranges of one entry: if the used entries have addresses and masks of IPv4 and the last used one
-- is the tuple `t`, the bounds of every rule point to words with the ranges of `t`.
pub load_rule-PointsTo :
    (entries : List RuleEntry) (heap : Heap) (t : RuleTuple)
    → All UsedAddressed entries
    → last_used none entries ≡ some t
    → (rules : List LoadedRule) × (after : Heap) × (load_rule entries heap
        ≡ some (with_default rules, after))
      × (map rule_name rules ≡ used_rules 0 entries)
      × All (PointsTo after t) rules
unfolding load_rule range_alloc
load_rule-PointsTo entries heap t all last =
    let n = heap.next in
    let loaded = load_entries-Loaded n 0 none entries (range_alloc heap).1 all _ in
    let words : HasWords (λ v b. loaded.written.word (dims_at n v b)) t =
      subst (λ l. HoldsLast l (λ v b. loaded.written.word (dims_at n v b))) last
        loaded.last_words in
    (
      rule_list_from 0 loaded.filters,
      loaded.written,
      rw loaded.done refl,
      rule_list_from-names 0 loaded.filters ∙ loaded.names,
      rule_list_from-PointsTo n 0 loaded.written t loaded.filters loaded.shared words,
    )
