-- ===== src/Decode/Kept.antt =====
-- What the table of the fragments keeps when Defrag says that it has kept a fragment.
use sec_fw.Common.{
  ℕ, ◌+◌, ◌||◌, ◌≡◌, refl, sym, subst, inl, inr, Bool, Bool-cases, ◌&&◌, ◌==◌, not, List, [], ◌∷◌,
  ◌++◌, Option, none, some, Option-cases,
}
use sec_fw.Mbuf.{Mbuf}
use sec_fw.Decode.{Memory}
use sec_fw.Decode.Layers.{DefragAnswer, null_read, kept, unmade, freed, whole}
use sec_fw.Decode.Fragments.{FragEnv, packet_fragment, datagram_of, answer_of, defrag_packet}
use sec_fw.Defrag.{
  Fragment, Fcb, fcb_create, Verdict, cached, dropped, failed, reassembled, place, clear_of_prev,
  clear_of_next, note_end, insert_fragment, frag_defrag_process,
}
use sec_fw.Defrag.Collect.{reasm-cases}
use sec_fw.Defrag.Process.{process-noted}
use sec_fw.Defrag.Table.{Reply, Supply, defrag}
use sec_fw.Defrag.Blocks.{block_of, begin_block, defrag_block, defrag-block}

-- The block has the fragment in its list.
pub record IsListed (m : Fragment) (fcb : Fcb) : Type 0 where
  pub before : List Fragment
  pub behind : List Fragment
  pub split : fcb.fragments ≡ before ++ m ∷ behind

-- With a verdict that keeps the fragment, it is in the list.
abbrev KeptIn : Fragment → Verdict × Fcb → Type 0
KeptIn m (cached, fcb) = IsListed m fcb
KeptIn m (dropped, fcb) = Unit
KeptIn m (failed, fcb) = IsListed m fcb
KeptIn m (reassembled bytes, fcb) = Unit

first_and_rest :
    (before : List Fragment) (m : Fragment) (behind : List Fragment)
    → (head : Fragment) × (next : List Fragment) × (before ++ m ∷ behind ≡ head ∷ next)
first_and_rest [] m behind = (m, behind, refl)
first_and_rest (f ∷ fs) m behind = (f, fs ++ m ∷ behind, refl)

insert_fragment-KeptIn :
    (memory : ℕ → Bool) (m : Fragment) (fcb : Fcb) (before behind : List Fragment)
    → KeptIn m (insert_fragment memory m fcb (before, behind))
unfolding insert_fragment
insert_fragment-KeptIn memory m fcb before behind =
    let fcb' : Fcb = record fcb {
      fragments = before ++ m ∷ behind;
      meat = fcb.meat + m.frag_len;
      first_in = m.frag_offset == 0 || fcb.first_in;
    } in
    let listed : IsListed m fcb' = record { before = before; behind = behind; split = refl } in
    elim (Bool-cases (clear_of_prev before m.frag_offset)) [
      | inr p ↦ rw p _
      | inl p ↦ elim (Bool-cases (clear_of_next behind (m.frag_offset + m.frag_len))) [
        | inr q ↦ rw (p, q) _
        | inl q ↦
            elim (Bool-cases (
              fcb'.first_in
              && fcb'.last_in
              && not fcb'.complete_in
              && fcb'.meat == fcb'.total_fraglen)) [
                | inr full ↦ rw (p, q, full) listed
                | inl full ↦
                    let (head, next, all) = first_and_rest before m behind in
                    rw (p, q, full)
                      (elim (reasm-cases memory fcb' head next all) [
                        | inl e ↦ rw e listed
                        | inr e ↦ rw e _
                      ])
              ]
      ]
    ]

frag_defrag_process-KeptIn :
    (memory : ℕ → Bool) (m : Fragment) (fcb : Fcb) → KeptIn m (frag_defrag_process memory m fcb)
unfolding frag_defrag_process
frag_defrag_process-KeptIn memory m fcb = elim (Option-cases (note_end m fcb)) [
  | inl e ↦ rw (frag_defrag_process, e) _
  | inr (g, e) ↦ rw (process-noted memory m fcb g e) (
      insert_fragment-KeptIn memory m g (place m.frag_offset g.fragments).0
        (place m.frag_offset g.fragments).1)
]

-- The block of the datagram, if there is one, has the fragment in its list.
pub data Holds (m : Fragment) : Option Fcb → Type 0 where
  listed : (fcb : Fcb) → IsListed m fcb → Holds m (some fcb)

-- The same of the answer for the table.
abbrev BlockKeeps : Fragment → Reply × Option Fcb → Type 0
BlockKeeps m (Reply.fcb_no, b) = Unit
BlockKeeps m (Reply.hw2sw_err, b) = Unit
BlockKeeps m (Reply.processed cached, b) = Holds m b
BlockKeeps m (Reply.processed dropped, b) = Unit
BlockKeeps m (Reply.processed failed, b) = Holds m b
BlockKeeps m (Reply.processed (reassembled bytes), b) = Unit

processed-BlockKeeps :
    (m : Fragment) (r : Verdict × Fcb) → KeptIn m r → BlockKeeps m (Reply.processed r.0, some r.1)
processed-BlockKeeps m (cached, fcb) k = listed fcb k
processed-BlockKeeps m (dropped, fcb) k = _
processed-BlockKeeps m (failed, fcb) k = listed fcb k
processed-BlockKeeps m (reassembled bytes, fcb) k = _

begin_block-BlockKeeps :
    (supply : Supply) (m : Fragment) (fcb : Fcb) → BlockKeeps m (begin_block supply m fcb)
begin_block-BlockKeeps supply m fcb = elim (Bool-cases supply.packet) [
  | inl p ↦ rw p (
      processed-BlockKeeps m (frag_defrag_process supply.whole m fcb)
        (frag_defrag_process-KeptIn supply.whole m fcb))
  | inr p ↦ rw p _
]

defrag_block-BlockKeeps :
    (supply : Supply) (m : Fragment) (b : Option Fcb) → BlockKeeps m (defrag_block supply m b)
defrag_block-BlockKeeps supply m none = elim (Bool-cases supply.block) [
  | inl p ↦ rw p (begin_block-BlockKeeps supply m fcb_create)
  | inr p ↦ rw p _
]
defrag_block-BlockKeeps supply m (some fcb) = begin_block-BlockKeeps supply m fcb

-- The table that Defrag leaves for a packet with its network header at `h` has the packet in the block of its
-- datagram.
pub record IsKept (env : FragEnv) (mem : Memory) (m : Mbuf) : Type 0 where
  pub h : ℕ
  pub header : m.network_header ≡ some h
  pub held : Holds (packet_fragment mem m h) (
      block_of env.jhash_3words
        (defrag env.jhash_3words env.supply env.now
          (datagram_of m)
          (packet_fragment mem m h)
          env.table).1
        (datagram_of m))

-- An answer that says that the packet is kept is true.
abbrev pub IsTrue : (env : FragEnv) (mem : Memory) (m : Mbuf) → DefragAnswer → Type 0
IsTrue env mem m null_read = Unit
IsTrue env mem m kept = IsKept env mem m
IsTrue env mem m unmade = IsKept env mem m
IsTrue env mem m (freed stat) = Unit
IsTrue env mem m (whole mem' n) = Unit

answer_of-IsTrue :
    (env : FragEnv) (mem : Memory) (m : Mbuf) (f : Fragment) (r : Reply) (b : Option Fcb)
    → BlockKeeps f (r, b)
    → (Holds f b → IsKept env mem m)
    → IsTrue env mem m (answer_of env mem f r)
answer_of-IsTrue env mem m f Reply.fcb_no b k to = _
answer_of-IsTrue env mem m f Reply.hw2sw_err b k to = _
answer_of-IsTrue env mem m f (Reply.processed Verdict.cached) b k to = to k
answer_of-IsTrue env mem m f (Reply.processed Verdict.dropped) b k to = _
answer_of-IsTrue env mem m f (Reply.processed Verdict.failed) b k to = to k
answer_of-IsTrue env mem m f (Reply.processed (Verdict.reassembled bytes)) b k to = _

pub defrag_packet-IsTrue :
    (env : FragEnv) (mem : Memory) (m : Mbuf) → IsTrue env mem m (defrag_packet env mem m)
unfolding defrag_packet
defrag_packet-IsTrue env mem m = elim (Option-cases m.network_header) [
  | inl e ↦ rw (defrag_packet, e) _
  | inr (h, e) ↦
      let f = packet_fragment mem m h in
      let d = datagram_of m in
      let (reply, block, others) = defrag-block env.jhash_3words env.supply env.now d f env.table in
      let before = block_of env.jhash_3words env.table d in
      let keeps =
        subst (λ r. BlockKeeps f (r, (defrag_block env.supply f before).1)) (sym reply)
          (defrag_block-BlockKeeps env.supply f before) in
      let keeps' =
        subst (λ b. BlockKeeps f ((defrag env.jhash_3words env.supply env.now d f env.table).0, b))
          (sym block) keeps in
      simp (defrag_packet, e)
        (answer_of-IsTrue env mem m f _ _ keeps' (λ k. record { h = h; header = e; held = k }))
]
