-- ===== src/Defrag/Process.antt =====
-- Frag_defrag_process on a datagram that is being collected, and on one that was put together.
use sec_fw.Common.{
  ℕ, ◌<◌, ◌≡◌, refl, ◌⊎◌, inl, inr, Bool, true, false, Bool-cases, leb, List, none, some,
  Option-cases, arith,
}
use sec_fw.Defrag.{
  Fragment, Fcb, Verdict, cached, dropped, failed, reassembled, place, clear_of_prev, clear_of_next,
  note_end, insert_fragment, frag_defrag_process,
}
use sec_fw.Defrag.Chain.{end_of, place-append}
use sec_fw.Defrag.Collect.{
  Whole, IsOpen, IsDone, Result, note_end-Noted, insert_fragment-Result, full, inserted,
}

pub insert-dropped :
    (memory : ℕ → Bool) (m : Fragment) (fcb : Fcb) (before behind : List Fragment)
    → (clear_of_prev before m.frag_offset ≡ false) ⊎ (clear_of_next behind (end_of m) ≡ false)
    → insert_fragment memory m fcb (before, behind) ≡ (dropped, fcb)
unfolding insert_fragment
insert-dropped memory m fcb before behind (inl p) = rw p refl
insert-dropped memory m fcb before behind (inr n) = ground (arith, n)

pub process-refused :
    (memory : ℕ → Bool) (m : Fragment) (fcb : Fcb)
    → note_end m fcb ≡ none
    → frag_defrag_process memory m fcb ≡ (dropped, fcb)
unfolding frag_defrag_process
process-refused memory m fcb e = rw (e, frag_defrag_process) refl

pub process-noted :
    (memory : ℕ → Bool) (m : Fragment) (fcb g : Fcb)
    → note_end m fcb ≡ some g
    → frag_defrag_process memory m fcb
      ≡ insert_fragment memory m g (place m.frag_offset g.fragments)
unfolding frag_defrag_process insert_fragment
process-noted memory m fcb g e = rw (e, frag_defrag_process) refl

-- Frag_defrag_process on a datagram that is being collected. Unless it joins the packet, the datagram is
-- still well formed, whatever became of the fragment. If it does, the cached fragments and the new one
-- fill the datagram from 0 to its length without gap or overlap, and the new packet is the first one, the
-- data of the others, and a header with the new length, no fragment field and a new checksum.
pub frag_defrag_process-Result :
    (memory : ℕ → Bool) (m : Fragment) (fcb : Fcb)
    → IsOpen fcb
    → Whole m
    → Result fcb m (frag_defrag_process memory m fcb)
frag_defrag_process-Result memory m fcb o w = elim (Option-cases (note_end m fcb)) [
  | inl e ↦ rw (process-refused memory m fcb e) o
  | inr (g, e) ↦
      let n = note_end-Noted m fcb g o e in
      let before = (place m.frag_offset g.fragments).0 in
      let behind = (place m.frag_offset g.fragments).1 in
      rw (process-noted memory m fcb g e) (elim (Bool-cases (clear_of_prev before m.frag_offset)) [
        | inr p ↦ rw (insert-dropped memory m g before behind (inl p)) n.open_still
        | inl p ↦ elim (Bool-cases (clear_of_next behind (end_of m))) [
          | inr q ↦ rw (insert-dropped memory m g before behind (inr q)) n.open_still
          | inl q ↦
              insert_fragment-Result memory m g before behind n.open_still w n.room
                (place-append m.frag_offset g.fragments) p q fcb n.same
        ]
      ])
]

-- What becomes of a fragment whose datagram was put together before: no packet, and no change of that.
abbrev pub Unjoined : Verdict × Fcb → Type 0
Unjoined (cached, fcb) = IsDone fcb
Unjoined (dropped, fcb) = IsDone fcb
Unjoined (failed, fcb) = ⊥
Unjoined (reassembled bytes, fcb) = ⊥

insert-Unjoined :
    (memory : ℕ → Bool) (m : Fragment) (fcb : Fcb) (before behind : List Fragment)
    → IsDone fcb
    → 0 < m.frag_len
    → Unjoined (insert_fragment memory m fcb (before, behind))
unfolding insert_fragment
insert-Unjoined memory m fcb before behind d len =
    elim (Bool-cases (clear_of_prev before m.frag_offset)) [
      | inr p ↦ rw (insert-dropped memory m fcb before behind (inl p)) d
      | inl p ↦ elim (Bool-cases (clear_of_next behind (end_of m))) [
        | inr q ↦ rw (insert-dropped memory m fcb before behind (inr q)) d
        | inl q ↦
            let over : full (inserted m fcb before behind) ≡ false = ground (arith, d.filled) in
            rw (p, q, over)
              (record { marked = d.marked; ended = d.ended; filled = omega (arith, d.filled) })
      ]
    ]

note_end-ended :
    (m : Fragment) (fcb : Fcb)
    → fcb.last_in ≡ true
    → (note_end m fcb ≡ none) ⊎ (note_end m fcb ≡ some fcb)
unfolding note_end
note_end-ended m fcb l = elim (Bool-cases fcb.complete_in) [
  | inl c ↦ inl (rw c refl)
  | inr c ↦ elim (Bool-cases m.more) [
    | inl k ↦ elim (Bool-cases (leb (end_of m) fcb.total_fraglen)) [
      | inl t ↦ inr (rw (c, k, t) refl)
      | inr t ↦ inl (rw (c, k, t, l) refl)
    ]
    | inr k ↦ inl (ground arith)
  ]
]

-- Once a datagram was put together its block makes no second packet: every further fragment with the same
-- addresses and id is destroyed, or is kept until the block times out.
pub frag_defrag_process-IsDone :
    (memory : ℕ → Bool) (m : Fragment) (fcb : Fcb)
    → IsDone fcb
    → 0 < m.frag_len
    → Unjoined (frag_defrag_process memory m fcb)
frag_defrag_process-IsDone memory m fcb d len = elim (note_end-ended m fcb d.ended) [
  | inl e ↦ rw (process-refused memory m fcb e) d
  | inr e ↦ rw (process-noted memory m fcb fcb e) (insert-Unjoined memory m fcb _ _ d len)
]
