-- ===== src/Flow.antt =====
-- dataplane/src/flow: the table of flows that the cores share. A flow is found by its address. The time
-- is the cycle counter, and the slices come from the hardware pool: both are arguments.
pub mod Hash
pub mod Match
pub mod Table
pub mod Direction
pub mod Ageing
pub mod Interleaving
pub mod Reference
pub mod InUse
pub mod Uses
pub mod Lives
use sec_fw.Common.{
  ℕ, zero, suc, ◌+◌, ◌-◌, ◌*◌, ◌/◌, ◌%◌, ◌^◌, bit_or, Bool, true, false, ◌&&◌, ◌||◌, ◌==◌, ltb,
  if◌then◌else◌, List, [], ◌∷◌, ◌++◌, map, length, Option, none, some,
}
use sec_fw.Mbuf.{Mbuf}
use Hash.{flow_hashfn}

-- FLOW_BUCKET_NUM
abbrev pub flow_bucket_num : ℕ
flow_bucket_num = 65536

-- flow_item_t at its address, as far as its links and its lock: `use_cnt` is an int32_t as 32 bits.
pub record FlowItem : Type 0 where
  pub addr : ℕ
  pub cycle : ℕ
  pub use_cnt : ℕ
  pub sip : ℕ
  pub dip : ℕ
  pub sport : ℕ
  pub dport : ℕ
  pub protocol : ℕ
  pub input_port : ℕ

-- The buckets, each a list of flows, first to last, and the counters of the cores.
pub record FlowTable : Type 0 where
  pub bucket : ℕ → List FlowItem
  pub new_flow : ℕ → ℕ
  pub del_flow : ℕ → ℕ

-- FlowInit
abbrev pub flow_init : FlowTable
flow_init = record { bucket = λ h. []; new_flow = λ cpu. 0; del_flow = λ cpu. 0 }

-- A write of one element of an array.
abbrev pub update {ℓ} : {A : Type ℓ} → (ℕ → A) → ℕ → A → ℕ → A
update f i v j = if i == j then v else f j

abbrev pub increment : (ℕ → ℕ) → ℕ → ℕ → ℕ
increment f cpu = update f cpu ((f cpu + 1) % 2 ^ 64)

unfoldable pub flowhashfn : ℕ → ℕ → ℕ → ℕ → ℕ → ℕ
flowhashfn saddr daddr sport dport prot = flow_hashfn prot saddr daddr sport dport % flow_bucket_num

-- FlowMatch: the addresses and ports in one direction or in the other.
unfoldable pub flow_match : FlowItem → Mbuf → Bool
flow_match f m =
    (f.sip == m.sip
      && f.dip == m.dip
      && f.sport == m.sport
      && f.dport == m.dport
      && f.protocol == m.proto)
    || (f.sip == m.dip
        && f.dip == m.sip
        && f.sport == m.dport
        && f.dport == m.sport
        && f.protocol == m.proto)

-- FLOW_UPDATE_TIMESTAMP
abbrev pub touched : ℕ → FlowItem → FlowItem
touched now f = record f { cycle = now }

-- FlowFind: the first match, with its time updated, and the list that holds it.
unfoldable pub flow_find : ℕ → List FlowItem → Mbuf → Option FlowItem × List FlowItem
flow_find now [] m = (none, [])
flow_find now (f ∷ fs) m =
    let rest = flow_find now fs m in
    if flow_match f m then (some (touched now f), touched now f ∷ fs) else (rest.0, f ∷ rest.1)

-- The node that FlowAdd fills in.
abbrev pub new_item : ℕ → ℕ → Mbuf → FlowItem
new_item now addr m = record {
  addr = addr;
  cycle = now;
  use_cnt = 0;
  sip = m.sip;
  dip = m.dip;
  sport = m.sport;
  dport = m.dport;
  protocol = m.proto;
  input_port = 0;
}

-- What a lookup comes to: the flow, the table, and the slice given back to the pool.
pub record Lookup : Type 0 where
  pub flow : Option FlowItem
  pub table : FlowTable
  pub freed : Option ℕ

-- FlowAdd, under the lock of the bucket: it looks again, since another core may have added the flow.
unfoldable pub flow_add : ℕ → ℕ → FlowTable → ℕ → Option ℕ → Mbuf → Lookup
flow_add cpu now t hash none m = record { flow = none; table = t; freed = none }
flow_add cpu now t hash (some addr) m =
    let (found, items) = flow_find now (t.bucket hash) m in
    elim found [
      | none ↦ record {
        flow = some (new_item now addr m);
        table = record {
          bucket = update t.bucket hash (new_item now addr m ∷ items);
          new_flow = increment t.new_flow cpu;
          del_flow = t.del_flow;
        };
        freed = none;
      }
      | some f ↦ record {
        flow = some f;
        table = record t { bucket = update t.bucket hash items };
        freed = some addr;
      }
    ]

-- The first critical section of FlowGetFlowFromHash.
unfoldable pub flow_lookup : ℕ → FlowTable → ℕ → Mbuf → Option FlowItem × FlowTable
flow_lookup now t hash m =
    let (found, items) = flow_find now (t.bucket hash) m in
    (found, record t { bucket = update t.bucket hash items })

abbrev pub mbuf_hash : Mbuf → ℕ
mbuf_hash m = flowhashfn m.sip m.dip m.sport m.dport m.proto

-- FlowGetFlowFromHash, when no other core comes between its two sections.
unfoldable pub flow_get_flow_from_hash : ℕ → ℕ → FlowTable → Option ℕ → Mbuf → Lookup
flow_get_flow_from_hash cpu now t slice m =
    let (found, t') = flow_lookup now t (mbuf_hash m) m in
    elim found [
      | some f ↦ record { flow = some f; table = t'; freed = none }
      | none ↦ flow_add cpu now t' (mbuf_hash m) slice m
    ]

-- FlowTimeOut: no packet refers to the flow, and it has not been used for `timeout` cycles.
unfoldable pub flow_time_out : ℕ → FlowItem → ℕ → Bool
flow_time_out timeout f current_cycle =
    if ltb 0 f.use_cnt && ltb f.use_cnt (2 ^ 31)
    then false
    else ltb f.cycle current_cycle && ltb timeout (current_cycle - f.cycle)

-- The walk of FlowAgeTimeoutCB over one bucket: a flow that another core has locked is left alone. It
-- answers what stays, and what goes to the list `timeout`, the last one first.
unfoldable pub age_items :
    ℕ → (ℕ → Bool) → ℕ → List FlowItem → List FlowItem → List FlowItem × List FlowItem
age_items timeout locked now [] out = ([], out)
age_items timeout locked now (f ∷ fs) out =
    let kept = age_items timeout locked now fs out in
    let aged = age_items timeout locked now fs (f ∷ out) in
    if locked f.addr
    then (f ∷ kept.0, kept.1)
    else if flow_time_out timeout f now
    then aged
    else (f ∷ kept.0, kept.1)

-- What FlowAgeTimeoutCB is given: the time and the allowed age, the core, the locks that others hold.
pub record AgeContext : Type 0 where
  pub now : ℕ
  pub timeout : ℕ
  pub cpu : ℕ
  pub bucket_locked : ℕ → Bool
  pub item_locked : ℕ → Bool

-- One turn of its loop: the table, and the addresses of the flows that are freed, in that order.
unfoldable pub age_bucket : AgeContext → FlowTable → ℕ → FlowTable × List ℕ
age_bucket c t i =
    let (kept, out) = age_items c.timeout c.item_locked c.now (t.bucket i) [] in
    if c.bucket_locked i then (t, []) else (
      record {
        bucket = update t.bucket i kept;
        new_flow = t.new_flow;
        del_flow = update t.del_flow c.cpu ((t.del_flow c.cpu + length out) % 2 ^ 64);
      },
      map (λ f. f.addr) out,
    )

-- `n` turns from bucket `i` on.
unfoldable pub age_buckets : AgeContext → ℕ → ℕ → FlowTable → FlowTable × List ℕ
age_buckets c zero i t = (t, [])
age_buckets c (suc n) i t =
    let (t', freed) = age_bucket c t i in
    let (t'', more) = age_buckets c n (suc i) t' in (t'', freed ++ more)

unfoldable pub flow_age_timeout_cb : AgeContext → FlowTable → FlowTable × List ℕ
flow_age_timeout_cb c t = age_buckets c flow_bucket_num 0 t
