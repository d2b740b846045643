-- ===== src/Defrag/Search.antt =====
-- The search for a block in its bucket, the write through its pointer, and the three ways through the search.
use sec_fw.Common.{
  ℕ, ◌≡◌, ◌≢◌, refl, ap, sym, ◌∙◌, inl, inr, ◌⊎◌, Bool-cases, true, false, List, [], ◌∷◌, Option,
  none, some, arith,
}
use sec_fw.Defrag.{Fragment, fcb_create}
use sec_fw.Defrag.Table.{
  DatagramId, FragItem, ip4_frag_match, frag_find, write_item, fcb_no, Supply, find_or_create,
  frag_defrag_begin, defrag_bucket,
}

pub ip4_frag_match_iff : (d e : DatagramId) → ip4_frag_match d e ≡ true → d ≡ e
unfolding ip4_frag_match
ip4_frag_match_iff d e h =
    let same_id : d.id ≡ e.id = ground arith in
    let same_sip : d.sip ≡ e.sip = ground arith in
    let same_dip : d.dip ≡ e.dip = ground arith in
    λ i. record { sip = same_sip i; dip = same_dip i; id = same_id i }

pub ip4_frag_match_refl : (d : DatagramId) → ip4_frag_match d d ≡ true
unfolding ip4_frag_match
ip4_frag_match_refl d = ground arith

pub ip4_frag_match_ne : (d e : DatagramId) → d ≢ e → ip4_frag_match d e ≡ false
ip4_frag_match_ne d e h = elim (Bool-cases (ip4_frag_match d e)) [
  | inl t ↦ absurd (h (ip4_frag_match_iff d e t))
  | inr f ↦ f
]

pub frag_find-match :
    (items : List FragItem) (d : DatagramId) (item : FragItem)
    → frag_find items d ≡ some item
    → item.datagram ≡ d
unfolding frag_find
frag_find-match [] d item h = absurd (cc h)
frag_find-match (x ∷ xs) d item h = elim (Bool-cases (ip4_frag_match x.datagram d)) [
  | inl t ↦
      let e : x ≡ item = cc (rw t at h) in
      ap (λ i. i.datagram) (sym e) ∙ ip4_frag_match_iff x.datagram d t
  | inr f ↦ frag_find-match xs d item (rw f at h)
]

pub frag_find-write_item :
    (items : List FragItem) (d : DatagramId) (item new : FragItem)
    → frag_find items d ≡ some item
    → new.datagram ≡ d
    → frag_find (write_item d new items) d ≡ some new
unfolding frag_find write_item
frag_find-write_item [] d item new h e = absurd (cc h)
frag_find-write_item (x ∷ xs) d item new h e = elim (Bool-cases (ip4_frag_match x.datagram d)) [
  | inl t ↦ simp (t, e, ip4_frag_match_refl d) refl
  | inr f ↦ simp f (frag_find-write_item xs d item new (simp f at h) e)
]

pub frag_find-write_other :
    (items : List FragItem) (d d' : DatagramId) (new : FragItem)
    → new.datagram ≡ d
    → d ≢ d'
    → frag_find (write_item d new items) d' ≡ frag_find items d'
unfolding frag_find write_item
frag_find-write_other [] d d' new e ne = refl
frag_find-write_other (x ∷ xs) d d' new e ne = elim (Bool-cases (ip4_frag_match x.datagram d)) [
  | inl t ↦
      let off : (c : DatagramId) → c ≡ d → ip4_frag_match c d' ≡ false =
        λ c same. ap (λ b. ip4_frag_match b d') same ∙ ip4_frag_match_ne d d' ne in
      simp (t, off new.datagram e, off x.datagram (ip4_frag_match_iff x.datagram d t)) refl
  | inr f ↦ simp (f, frag_find-write_other xs d d' new e ne) refl
]

pub Option-cases : {A : Type 0} (o : Option A) → (o ≡ none) ⊎ ((a : A) × (o ≡ some a))
Option-cases none = inl refl
Option-cases (some a) = inr (a, refl)

-- The three ways through the search for the block.
abbrev pub fresh_item : ℕ → DatagramId → FragItem
fresh_item now d = record { datagram = d; cycle = now; fcb = fcb_create }

abbrev pub touched_item : ℕ → FragItem → FragItem
touched_item now item = record item { cycle = now }

module _ (supply : Supply) (now : ℕ) (d : DatagramId) (m : Fragment) (items : List FragItem) where
  pub defrag_bucket-found :
      (item : FragItem)
      → frag_find items d ≡ some item
      → defrag_bucket supply now d m items
        ≡ frag_defrag_begin supply m
            (touched_item now item)
            (write_item d (touched_item now item) items)
  unfolding defrag_bucket find_or_create
  defrag_bucket-found item h =
      let created : find_or_create supply.block now items d
          ≡ some (touched_item now item, write_item d (touched_item now item) items) =
        rw (h, find_or_create) refl in
      rw (created, defrag_bucket) refl

  pub defrag_bucket-fresh :
      frag_find items d ≡ none
      → supply.block ≡ true
      → defrag_bucket supply now d m items
        ≡ frag_defrag_begin supply m (fresh_item now d) (fresh_item now d ∷ items)
  unfolding defrag_bucket find_or_create
  defrag_bucket-fresh h b =
      let created : find_or_create supply.block now items d
          ≡ some (fresh_item now d, fresh_item now d ∷ items) =
        rw (h, b, find_or_create) refl in
      rw (created, defrag_bucket) refl

  pub defrag_bucket-refused :
      frag_find items d ≡ none
      → supply.block ≡ false
      → defrag_bucket supply now d m items ≡ (fcb_no, items)
  unfolding defrag_bucket find_or_create
  defrag_bucket-refused h b =
      let created : find_or_create supply.block now items d ≡ none =
        rw (h, b, find_or_create) refl in
      rw (created, defrag_bucket) refl
