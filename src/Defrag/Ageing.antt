-- ===== src/Defrag/Ageing.antt =====
-- The table of the fragments over time: one block for each datagram, and what Frag_defrag_timeout takes away.
use sec_fw.Common.{
  ℕ, ◌+◌, ◌*◌, ◌≡◌, refl, ap, sym, ◌∙◌, inl, inr, Bool, Bool-cases, true, false, not, ◌&&◌, ◌==◌,
  ltb, if◌then◌else◌, List, [], ◌∷◌, Option, none, some, arith,
}
use sec_fw.Defrag.{Fragment, frag_defrag_process}
use sec_fw.Defrag.Table.{
  DatagramId, FragItem, FragTable, frag_bucket_num, ip4_frag_hashfn, ip4_frag_match, frag_find,
  write_item, Supply, frag_defrag_begin, defrag_bucket, defrag, timed_out, keep_items,
  frag_defrag_timeout,
}
use sec_fw.Defrag.Search.{
  ip4_frag_match_iff, frag_find-match, Option-cases, fresh_item, touched_item, defrag_bucket-found,
  defrag_bucket-fresh, defrag_bucket-refused,
}

-- No datagram has two blocks.
unfoldable pub IsDistinct : List FragItem → Type 0
IsDistinct [] = Unit
IsDistinct (item ∷ items) = (frag_find items item.datagram ≡ none) × IsDistinct items

write_item-none :
    (items : List FragItem) (d d' : DatagramId) (new : FragItem)
    → new.datagram ≡ d
    → frag_find items d' ≡ none
    → frag_find (write_item d new items) d' ≡ none
unfolding frag_find write_item
write_item-none [] d d' new e h = refl
write_item-none (x ∷ xs) d d' new e h = elim (Bool-cases (ip4_frag_match x.datagram d')) [
  | inl s ↦ absurd (cc (simp s at h))
  | inr s ↦ elim (Bool-cases (ip4_frag_match x.datagram d)) [
    | inl t ↦
        let off : ip4_frag_match new.datagram d' ≡ false =
          ap (λ c. ip4_frag_match c d') (e ∙ sym (ip4_frag_match_iff x.datagram d t)) ∙ s in
        simp (t, off) (simp s at h)
    | inr t ↦ simp (t, s) (write_item-none xs d d' new e (simp s at h))
  ]
]

write_item-IsDistinct :
    (items : List FragItem) (d : DatagramId) (new : FragItem)
    → new.datagram ≡ d
    → IsDistinct items
    → IsDistinct (write_item d new items)
unfolding write_item IsDistinct
write_item-IsDistinct [] d new e h = _
write_item-IsDistinct (x ∷ xs) d new e (h, hs) = elim (Bool-cases (ip4_frag_match x.datagram d)) [
  | inl t ↦
      let moved : frag_find xs new.datagram ≡ none =
        ap (frag_find xs) (e ∙ sym (ip4_frag_match_iff x.datagram d t)) ∙ h in
      simp t (moved, hs)
  | inr t ↦ simp t (write_item-none xs d x.datagram new e h, write_item-IsDistinct xs d new e hs)
]

keep_items-none :
    (rate now : ℕ) (items : List FragItem) (d : DatagramId)
    → frag_find items d ≡ none
    → frag_find (keep_items rate now items) d ≡ none
unfolding frag_find keep_items
keep_items-none rate now [] d h = refl
keep_items-none rate now (x ∷ xs) d h = elim (Bool-cases (ip4_frag_match x.datagram d)) [
  | inl s ↦ absurd (cc (simp s at h))
  | inr s ↦
      let rest = keep_items-none rate now xs d (simp s at h) in
      elim (Bool-cases (timed_out rate now x)) [ inl t ↦ simp t rest | inr t ↦ simp (t, s) rest ]
]

keep_items-IsDistinct :
    (rate now : ℕ) (items : List FragItem)
    → IsDistinct items
    → IsDistinct (keep_items rate now items)
unfolding keep_items IsDistinct
keep_items-IsDistinct rate now [] h = _
keep_items-IsDistinct rate now (x ∷ xs) (h, hs) =
    let rest = keep_items-IsDistinct rate now xs hs in
    elim (Bool-cases (timed_out rate now x)) [
      | inl t ↦ simp t rest
      | inr t ↦ simp t (keep_items-none rate now xs x.datagram h, rest)
    ]

timed_out_lem :
    (rate now : ℕ) (item : FragItem) → timed_out rate now item ≡ ltb (item.cycle + 20 * rate) now
unfolding timed_out
timed_out_lem rate now item = ground arith

-- The block of a datagram, unless more than 20 seconds have gone by since the cycle that it holds.
abbrev pub unless_timed_out : ℕ → ℕ → Option FragItem → Option FragItem
unless_timed_out rate now none = none
unless_timed_out rate now (some item) = if ltb (item.cycle + 20 * rate) now then none else some item

keep_items-find :
    (rate now : ℕ) (items : List FragItem) (d : DatagramId)
    → IsDistinct items
    → frag_find (keep_items rate now items) d ≡ unless_timed_out rate now (frag_find items d)
unfolding frag_find keep_items IsDistinct
keep_items-find rate now [] d h = refl
keep_items-find rate now (x ∷ xs) d (h, hs) = elim (Bool-cases (ip4_frag_match x.datagram d)) [
  | inl s ↦
      let gone : frag_find xs d ≡ none =
        ap (frag_find xs) (sym (ip4_frag_match_iff x.datagram d s)) ∙ h in
      elim (Bool-cases (timed_out rate now x)) [
        | inl t ↦
            let over = sym (timed_out_lem rate now x) ∙ t in
            simp (t, s, over) (keep_items-none rate now xs d gone)
        | inr t ↦ let over = sym (timed_out_lem rate now x) ∙ t in simp (t, s, over) refl
      ]
  | inr s ↦ elim (Bool-cases (timed_out rate now x)) [
    | inl t ↦ simp (t, s) (keep_items-find rate now xs d hs)
    | inr t ↦ simp (t, s) (keep_items-find rate now xs d hs)
  ]
]

frag_defrag_begin-IsDistinct :
    (supply : Supply) (m : Fragment) (item : FragItem) (items : List FragItem)
    → IsDistinct items
    → IsDistinct (frag_defrag_begin supply m item items).1
unfolding frag_defrag_begin
frag_defrag_begin-IsDistinct supply m item items h = elim (Bool-cases supply.packet) [
  | inl p ↦ simp p (
      write_item-IsDistinct items item.datagram
        (record item { fcb = (frag_defrag_process supply.whole m item.fcb).1 }) refl h)
  | inr p ↦ simp p h
]

defrag_bucket-IsDistinct :
    (supply : Supply) (now : ℕ) (d : DatagramId) (m : Fragment) (items : List FragItem)
    → IsDistinct items
    → IsDistinct (defrag_bucket supply now d m items).1
unfolding IsDistinct
defrag_bucket-IsDistinct supply now d m items h = elim (Option-cases (frag_find items d)) [
  | inr (item, f) ↦
      let touched = touched_item now item in
      rw (defrag_bucket-found supply now d m items item f) (
        frag_defrag_begin-IsDistinct supply m touched (write_item d touched items)
          (write_item-IsDistinct items d touched (frag_find-match items d item f) h))
  | inl f ↦ elim (Bool-cases supply.block) [
    | inl b ↦
        let fresh = fresh_item now d in
        rw (defrag_bucket-fresh supply now d m items f b)
          (frag_defrag_begin-IsDistinct supply m fresh (fresh ∷ items) (f, h))
    | inr b ↦ rw (defrag_bucket-refused supply now d m items f b) h
  ]
]

-- The tables that come about, from the empty one, by fragments and by the timer.
pub data Reachable (jhash_3words : ℕ → ℕ → ℕ → ℕ → ℕ) : FragTable → Type 0 where
  frag_module_init : Reachable jhash_3words (λ i. [])
  fragment_in :
      {table : FragTable}
      → (supply : Supply) (now : ℕ) (d : DatagramId) (m : Fragment) → Reachable jhash_3words table
      → Reachable jhash_3words (defrag jhash_3words supply now d m table).1
  timer :
      {table : FragTable}
      → (rate now : ℕ) (locked : ℕ → Bool) → Reachable jhash_3words table
      → Reachable jhash_3words (frag_defrag_timeout rate now locked table)

Reachable-IsDistinct :
    (jhash_3words : ℕ → ℕ → ℕ → ℕ → ℕ) (table : FragTable)
    → Reachable jhash_3words table
    → (i : ℕ) → IsDistinct (table i)
unfolding defrag frag_defrag_timeout IsDistinct
Reachable-IsDistinct jhash_3words _ frag_module_init i = _
Reachable-IsDistinct jhash_3words _ (fragment_in {table} supply now d m r) i =
    let hash = ip4_frag_hashfn jhash_3words d in
    let before = Reachable-IsDistinct jhash_3words table r in
    elim (Bool-cases (i == hash)) [
      | inl e ↦ rw e (defrag_bucket-IsDistinct supply now d m (table hash) (before hash))
      | inr e ↦ rw e (before i)
    ]
Reachable-IsDistinct jhash_3words _ (timer {table} rate now locked r) i =
    let before = Reachable-IsDistinct jhash_3words table r i in
    elim (Bool-cases (ltb i frag_bucket_num && not (locked i))) [
      | inl e ↦ rw e (keep_items-IsDistinct rate now (table i) before)
      | inr e ↦ rw e before
    ]

-- In every table that comes about by fragments and by the timer, Frag_defrag_timeout takes away exactly the
-- blocks whose last fragment came more than 20 seconds ago, 20 times the cycles of a second, and whose bucket
-- no other core has locked: of each datagram the table then holds the block that it held before, or none if
-- that was too old and the bucket was free.
pub frag_defrag_timeout-find :
    (jhash_3words : ℕ → ℕ → ℕ → ℕ → ℕ) (table : FragTable) (rate now : ℕ) (locked : ℕ → Bool)
    (d : DatagramId)
    → Reachable jhash_3words table
    → frag_find (frag_defrag_timeout rate now locked table (ip4_frag_hashfn jhash_3words d)) d ≡ (
        if locked (ip4_frag_hashfn jhash_3words d)
        then frag_find (table (ip4_frag_hashfn jhash_3words d)) d
        else unless_timed_out rate now (frag_find (table (ip4_frag_hashfn jhash_3words d)) d))
unfolding frag_defrag_timeout
frag_defrag_timeout-find jhash_3words table rate now locked d r =
    let hash = ip4_frag_hashfn jhash_3words d in
    let below : ltb hash frag_bucket_num ≡ true = ground arith in
    elim (Bool-cases (locked hash)) [
      | inl e ↦ rw (below, e) refl
      | inr e ↦
          rw (below, e)
            (keep_items-find rate now (table hash) d
              (Reachable-IsDistinct jhash_3words table r hash))
    ]
