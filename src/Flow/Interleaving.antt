-- ===== src/Flow/Interleaving.antt =====
-- The cores at work on one flow table, one critical section after the other in any order.
use sec_fw.Common.{ℕ, ◌≡◌, ◌≢◌, List, [], ◌∷◌, ◌++◌, Option, none}
use sec_fw.Mbuf.{Mbuf}
use sec_fw.Flow.{
  FlowTable, AgeContext, flow_init, flow_lookup, flow_add, mbuf_hash, flow_age_timeout_cb,
}
use sec_fw.Flow.Table.{IsValid, flow_init-IsValid, flow_lookup-IsValid, flow_add-IsValid}
use sec_fw.Flow.Ageing.{flow_age_timeout_cb-survivors}

-- The table, and the packets whose first lookup found nothing and whose FlowAdd is still to come.
pub record World : Type 0 where
  pub table : FlowTable
  pub missed : List Mbuf

-- Between the two critical sections of FlowGetFlowFromHash, which the lock of the bucket keeps apart, other
-- cores may take any step.
pub data Step : World → World → Type 0 where
  hit :
      (w : World) (now : ℕ) (m : Mbuf)
      → (flow_lookup now w.table (mbuf_hash m) m).0 ≢ none
      → Step w (record w { table = (flow_lookup now w.table (mbuf_hash m) m).1 })
  miss :
      (w : World) (now : ℕ) (m : Mbuf)
      → (flow_lookup now w.table (mbuf_hash m) m).0 ≡ none
      → Step w
          (record { table = (flow_lookup now w.table (mbuf_hash m) m).1; missed = m ∷ w.missed })
  add :
      (w : World) (cpu now : ℕ) (slice : Option ℕ) (before : List Mbuf) (m : Mbuf)
      (after : List Mbuf)
      → w.missed ≡ before ++ m ∷ after
      → Step w (record {
        table = (flow_add cpu now w.table (mbuf_hash m) slice m).table;
        missed = before ++ after;
      })
  age :
      (w : World) (c : AgeContext) → Step w (record w { table = (flow_age_timeout_cb c w.table).0 })

pub data Reach : World → Type 0 where
  start : Reach (record { table = flow_init; missed = [] })
  next : {v w : World} → Reach v → Step v w → Reach w

Step-IsValid : {v w : World} → Step v w → IsValid v.table → IsValid w.table
Step-IsValid (hit w now m h) valid = flow_lookup-IsValid now w.table m valid
Step-IsValid (miss w now m h) valid = flow_lookup-IsValid now w.table m valid
Step-IsValid (add w cpu now slice before m after h) valid =
    flow_add-IsValid cpu now w.table slice m valid
Step-IsValid (age w c) valid = (flow_age_timeout_cb-survivors c w.table valid).0

-- However the cores interleave, the table holds at most one flow of each connection, and it lies in the
-- bucket of its hash.
pub reachable-IsValid : (w : World) → Reach w → IsValid w.table
reachable-IsValid w start = flow_init-IsValid
reachable-IsValid w (next r s) = Step-IsValid s (reachable-IsValid _ r)
