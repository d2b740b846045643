-- ===== src/Defrag/Blocks.antt =====
-- The table of the fragments is a map from datagrams to blocks.
use sec_fw.Common.{
  ℕ, ◌≡◌, ◌≢◌, refl, ap, ◌∙◌, inl, inr, Bool-cases, true, ◌==◌, if◌then◌else◌, List, ◌∷◌, Option,
  none, some, arith,
}
use sec_fw.Defrag.{Fragment, Fcb, fcb_create, frag_defrag_process}
use sec_fw.Defrag.Table.{
  DatagramId, FragItem, FragTable, ip4_frag_hashfn, frag_find, write_item, Reply, Supply,
  frag_defrag_begin, defrag_bucket, defrag,
}
use sec_fw.Defrag.Search.{
  ip4_frag_match_refl, ip4_frag_match_ne, frag_find-match, frag_find-write_item,
  frag_find-write_other, Option-cases, fresh_item, touched_item, defrag_bucket-found,
  defrag_bucket-fresh, defrag_bucket-refused,
}

-- The block that the table holds for a datagram.
abbrev pub item_fcb : Option FragItem → Option Fcb
item_fcb none = none
item_fcb (some item) = some item.fcb

abbrev pub block_of : (ℕ → ℕ → ℕ → ℕ → ℕ) → FragTable → DatagramId → Option Fcb
block_of jhash_3words table d = item_fcb (frag_find (table (ip4_frag_hashfn jhash_3words d)) d)

-- What Defrag does, on the block of the datagram alone.
abbrev pub begin_block : Supply → Fragment → Fcb → Reply × Option Fcb
begin_block supply m fcb =
    let result = frag_defrag_process supply.whole m fcb in
    if supply.packet then (Reply.processed result.0, some result.1) else (Reply.hw2sw_err, some fcb)

abbrev pub defrag_block : Supply → Fragment → Option Fcb → Reply × Option Fcb
defrag_block supply m none =
    if supply.block then begin_block supply m fcb_create else (Reply.fcb_no, none)
defrag_block supply m (some fcb) = begin_block supply m fcb

-- Defrag on a table is Defrag on the block of the datagram, and leaves the blocks of all others.
record Refined (supply : Supply) (d : DatagramId) (m : Fragment) (items : List FragItem)
    (r : Reply × List FragItem) : Type 0 where
  reply : r.0 ≡ (defrag_block supply m (item_fcb (frag_find items d))).0
  block : item_fcb (frag_find r.1 d) ≡ (defrag_block supply m (item_fcb (frag_find items d))).1
  others : (d' : DatagramId) → d ≢ d' → item_fcb (frag_find r.1 d') ≡ item_fcb (frag_find items d')

begin-Refined :
    (supply : Supply) (d : DatagramId) (m : Fragment) (item : FragItem) (items : List FragItem)
    → item.datagram ≡ d
    → frag_find items d ≡ some item
    → ((frag_defrag_begin supply m item items).0 ≡ (begin_block supply m item.fcb).0)
      × (item_fcb (frag_find (frag_defrag_begin supply m item items).1 d)
          ≡ (begin_block supply m item.fcb).1)
      × ((d' : DatagramId)
          → d ≢ d'
          → frag_find (frag_defrag_begin supply m item items).1 d' ≡ frag_find items d')
unfolding frag_defrag_begin
begin-Refined supply d m item items e h = elim (Bool-cases supply.packet) [
  | inl p ↦
      let new : FragItem = record item { fcb = (frag_defrag_process supply.whole m item.fcb).1 } in
      let at_d : write_item item.datagram new items ≡ write_item d new items =
        ap (λ c. write_item c new items) e in
      (
        simp p refl,
        simp (p, at_d) (ap item_fcb (frag_find-write_item items d item new h e)),
        λ d' ne. simp (p, at_d) (frag_find-write_other items d d' new e ne),
      )
  | inr p ↦ (simp p refl, simp p (ap item_fcb h), λ d' ne. simp p refl)
]

-- The items after the search, with the block of the datagram in them.
found-Refined :
    (supply : Supply) (d : DatagramId) (m : Fragment) (now : ℕ) (items : List FragItem)
    (item : FragItem)
    → frag_find items d ≡ some item
    → Refined supply d m items (defrag_bucket supply now d m items)
found-Refined supply d m now items item h =
    let touched = touched_item now item in
    let at_d = frag_find-match items d item h in
    let begun =
      begin-Refined supply d m touched (write_item d touched items) at_d
        (frag_find-write_item items d item touched h at_d) in
    rw (defrag_bucket-found supply now d m items item h) (record {
      reply = simp h begun.0;
      block = simp h begun.1;
      others =
          λ d' ne. ap item_fcb (begun.2 d' ne ∙ frag_find-write_other items d d' touched at_d ne);
    })

fresh-Refined :
    (supply : Supply) (d : DatagramId) (m : Fragment) (now : ℕ) (items : List FragItem)
    → frag_find items d ≡ none
    → Refined supply d m items (defrag_bucket supply now d m items)
unfolding frag_find
fresh-Refined supply d m now items h = elim (Bool-cases supply.block) [
  | inl b ↦
      let fresh = fresh_item now d in
      let begun =
        begin-Refined supply d m fresh (fresh ∷ items) refl (simp (ip4_frag_match_refl d) refl) in
      rw (defrag_bucket-fresh supply now d m items h b) (record {
        reply = simp (h, b) begun.0;
        block = simp (h, b) begun.1;
        others = λ d' ne. ap item_fcb (begun.2 d' ne) ∙ simp (ip4_frag_match_ne d d' ne) refl;
      })
  | inr b ↦
      rw (defrag_bucket-refused supply now d m items h b)
        (record { reply = simp (h, b) refl; block = simp (h, b) refl; others = λ d' ne. refl })
]

defrag_bucket-Refined :
    (supply : Supply) (d : DatagramId) (m : Fragment) (now : ℕ) (items : List FragItem)
    → Refined supply d m items (defrag_bucket supply now d m items)
defrag_bucket-Refined supply d m now items = elim (Option-cases (frag_find items d)) [
  | inl h ↦ fresh-Refined supply d m now items h
  | inr (item, h) ↦ found-Refined supply d m now items item h
]

-- Defrag keeps one block for each datagram, and works on each as if it were alone: it answers as the processing
-- of the fragment by the block of its datagram, or by a new block if there is none and there is memory for it;
-- this block then stands in the table; and the blocks of all other datagrams stand as they were, also those in
-- the same bucket.
pub defrag-block :
    (jhash_3words : ℕ → ℕ → ℕ → ℕ → ℕ) (supply : Supply) (now : ℕ) (d : DatagramId) (m : Fragment)
    (table : FragTable)
    → ((defrag jhash_3words supply now d m table).0
        ≡ (defrag_block supply m (block_of jhash_3words table d)).0)
      × (block_of jhash_3words (defrag jhash_3words supply now d m table).1 d
          ≡ (defrag_block supply m (block_of jhash_3words table d)).1)
      × ((d' : DatagramId)
          → d ≢ d'
          → block_of jhash_3words (defrag jhash_3words supply now d m table).1 d'
            ≡ block_of jhash_3words table d')
unfolding defrag
defrag-block jhash_3words supply now d m table =
    let hash = ip4_frag_hashfn jhash_3words d in
    let r = defrag_bucket-Refined supply d m now (table hash) in
    let here : (hash == hash) ≡ true = ground arith in
    (
      r.reply,
      rw here r.block,
      λ d' ne. elim (Bool-cases (ip4_frag_hashfn jhash_3words d' == hash)) [
        | inl e ↦
            let bucket : ip4_frag_hashfn jhash_3words d' ≡ hash = ground arith in
            rw (e, bucket) (r.others d' ne)
        | inr e ↦ rw e refl
      ],
    )
