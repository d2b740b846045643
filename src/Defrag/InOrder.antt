-- ===== src/Defrag/InOrder.antt =====
-- Fragments that arrive in order make their datagram.
use sec_fw.Common.{
  ℕ, ◌+◌, ◌≤◌, ◌<◌, ◌≡◌, refl, sym, ◌⊎◌, inl, inr, ap, subst, ◌∙◌, Bool, true, false, le→ltb, ◌==◌,
  ◌||◌, ◌&&◌, ltb, leb, List, [], ◌∷◌, ◌++◌, append_assoc, append-nil, some, arith, All,
}
use sec_fw.Defrag.{
  Fragment, Fcb, cached, reassembled, fcb_create, ipv4_get_hlen, ipv4_pktlen_max, after_tail, place,
  clear_of_prev, note_end, insert_fragment, frag_defrag_reasm, frag_defrag_process,
}
use sec_fw.Defrag.Chain.{end_of, Tiles}
use sec_fw.Defrag.Collect.{joined_bytes, ended}
use sec_fw.Defrag.Process.{process-noted}

-- A datagram whose fragments have come in order up to `low`.
abbrev so_far : List Fragment → ℕ → Bool → Fcb
so_far done low first = record fcb_create {
  fragments = done;
  total_fraglen = low;
  meat = low;
  first_in = first;
}

-- The tail of fragments that fill 0 to `low` begins before `low`, and ends there.
Tiles-tail :
    (start : ℕ) (fs : List Fragment) (low : ℕ)
    → Tiles start fs low
    → All (λ f. 0 < f.frag_len) fs
    → (after_tail fs low ≡ true) × (clear_of_prev fs low ≡ true)
unfolding Tiles after_tail clear_of_prev
Tiles-tail start [] low t p = (refl, refl)
Tiles-tail start (f ∷ []) low (t, u) (p, q) = (ground (arith, u), ground (arith, u))
Tiles-tail start (f ∷ g ∷ gs) low (t, u) (p, q) = Tiles-tail (end_of f) (g ∷ gs) low u q

joins :
    (memory : ℕ → Bool) (g : Fcb) (head : Fragment) (next : List Fragment)
    → g.fragments ≡ head ∷ next
    → ipv4_get_hlen head.pkt head.network + g.total_fraglen ≤ ipv4_pktlen_max
    → memory (g.total_fraglen + (head.network + ipv4_get_hlen head.pkt head.network)) ≡ true
    → (frag_defrag_reasm memory g).0 ≡ reassembled (joined_bytes g.total_fraglen head next)
unfolding frag_defrag_reasm
joins memory g head next e short room =
    let fits : ltb ipv4_pktlen_max (ipv4_get_hlen head.pkt head.network + g.total_fraglen) ≡ false =
      le→ltb _ _ short in
    rw (e, fits, room) refl

-- `m` comes next, and goes behind the others.
module _ (memory : ℕ → Bool) (done : List Fragment) (first : Bool) (m : Fragment)
    (t : Tiles 0 done m.frag_offset) (p : All (λ f. 0 < f.frag_len) done)
    (len : 0 < m.frag_len) where
  so_far-place : place m.frag_offset done ≡ (done, [])
  unfolding place
  so_far-place = rw (Tiles-tail 0 done m.frag_offset t p).0 refl

  middle-note :
      m.more ≡ true
      → note_end m (so_far done m.frag_offset first)
        ≡ some (record (so_far done m.frag_offset first) { total_fraglen = end_of m })
  unfolding note_end
  middle-note more =
      let longer : leb (end_of m) m.frag_offset ≡ false = ground arith in rw (more, longer) refl

  middle-cached :
      m.more ≡ true
      → frag_defrag_process memory m (so_far done m.frag_offset first)
        ≡ (cached, so_far (done ++ m ∷ []) (end_of m) (m.frag_offset == 0 || first))
  unfolding insert_fragment
  middle-cached more =
      let open_end : ((m.frag_offset == 0 || first)
            && false
            && true
            && m.frag_offset + m.frag_len == end_of m)
          ≡ false =
        ground arith in
      process-noted memory m _ _ (middle-note more)
      ∙ ap (insert_fragment memory m _) so_far-place
      ∙ rw ((Tiles-tail 0 done m.frag_offset t p).1, open_end) refl

  last-note :
      m.more ≡ false
      → note_end m (so_far done m.frag_offset first)
        ≡ some (ended (so_far done m.frag_offset first) true (end_of m))
  unfolding note_end
  last-note more =
      let longer : (ltb (end_of m) m.frag_offset || false) ≡ false = ground arith in
      rw (more, longer) refl

  joined-last :
      (head : Fragment) (next : List Fragment)
      → m.more ≡ false
      → (m.frag_offset ≡ 0) ⊎ (first ≡ true)
      → done ++ m ∷ [] ≡ head ∷ next
      → ipv4_get_hlen head.pkt head.network + end_of m ≤ ipv4_pktlen_max
      → memory (end_of m + (head.network + ipv4_get_hlen head.pkt head.network)) ≡ true
      → (frag_defrag_process memory m (so_far done m.frag_offset first)).0
        ≡ reassembled (joined_bytes (end_of m) head next)
  unfolding insert_fragment
  joined-last head next more begun all short room =
      let whole : ((m.frag_offset == 0 || first)
            && true
            && true
            && m.frag_offset + m.frag_len == end_of m)
          ≡ true =
        ground arith in
      ap (λ r. r.0)
        (process-noted memory m _ _ (last-note more) ∙ ap (insert_fragment memory m _) so_far-place)
      ∙ rw ((Tiles-tail 0 done m.frag_offset t p).1, whole)
          (joins memory _ head next all short room)

-- The block after some fragments were processed.
pub deliver : (ℕ → Bool) → List Fragment → Fcb → Fcb
deliver memory [] fcb = fcb
deliver memory (m ∷ ms) fcb = deliver memory ms (frag_defrag_process memory m fcb).1

Tiles-snoc :
    (start : ℕ) (fs : List Fragment) (m : Fragment)
    → Tiles start fs m.frag_offset
    → Tiles start (fs ++ m ∷ []) (end_of m)
unfolding Tiles
Tiles-snoc start [] m t = (sym t, refl)
Tiles-snoc start (f ∷ fs) m (t, u) = (t, Tiles-snoc (end_of f) fs m u)

Long : Fragment → Type 0
Long f = 0 < f.frag_len

Long-snoc : (fs : List Fragment) (m : Fragment) → All Long fs → Long m → All Long (fs ++ m ∷ [])
Long-snoc [] m p q = (q, tt)
Long-snoc (f ∷ fs) m (p, ps) q = (p, Long-snoc fs m ps q)

-- What a fragment that is not the last is.
abbrev pub Middle : Fragment → Type 0
Middle f = (0 < f.frag_len) × (f.more ≡ true)

-- The block of a datagram whose fragments `done` came in order.
record IsSoFar (fcb : Fcb) (done : List Fragment) (low : ℕ) : Type 0 where
  first : Bool
  same : fcb ≡ so_far done low first
  tiles : Tiles 0 done low
  long : All Long done
  begun : (low ≡ 0) ⊎ (first ≡ true)

process-IsSoFar :
    (memory : ℕ → Bool) (m : Fragment) (fcb : Fcb) (done : List Fragment)
    → IsSoFar fcb done m.frag_offset
    → Middle m
    → IsSoFar (frag_defrag_process memory m fcb).1 (done ++ m ∷ []) (end_of m)
unfolding Long
process-IsSoFar memory m fcb done s (len, more) = record {
  first = m.frag_offset == 0 || s.first;
  same =
      ap (λ x. (frag_defrag_process memory m x).1) s.same
      ∙ ap (λ r. r.1) (middle-cached memory done s.first m s.tiles s.long len more);
  tiles = Tiles-snoc 0 done m s.tiles;
  long = Long-snoc done m s.long len;
  begun = inr (ground (arith, s.begun));
}

deliver-IsSoFar :
    (memory : ℕ → Bool) (fcb : Fcb) (done ms : List Fragment) (low high : ℕ)
    → IsSoFar fcb done low
    → Tiles low ms high
    → All Middle ms
    → IsSoFar (deliver memory ms fcb) (done ++ ms) high
unfolding deliver Tiles
deliver-IsSoFar memory fcb done [] low high s t q =
    subst (λ fs. IsSoFar fcb fs high) (sym (append-nil done)) (subst (IsSoFar fcb done) t s)
deliver-IsSoFar memory fcb done (m ∷ ms) low high s (t, u) (q, qs) =
    subst (λ fs. IsSoFar (deliver memory (m ∷ ms) fcb) fs high) (append_assoc done (m ∷ []) ms)
      (deliver-IsSoFar memory (frag_defrag_process memory m fcb).1 (done ++ m ∷ []) ms (end_of m)
        high (process-IsSoFar memory m fcb done (subst (IsSoFar fcb done) (sym t) s) q) u qs)

fresh-IsSoFar : IsSoFar fcb_create [] 0
unfolding Tiles
fresh-IsSoFar = record { first = false; same = refl; tiles = refl; long = tt; begun = inl refl }

-- Fragments that fill a datagram and arrive in order, the last one without the flag MF, make a packet when
-- it is not too long and there is memory for it: the last of them answers with the first packet, the data
-- of the others, and a finished header.
pub in_order-reassembled :
    (memory : ℕ → Bool) (front : List Fragment) (m head : Fragment) (next : List Fragment)
    → All Middle front
    → 0 < m.frag_len
    → m.more ≡ false
    → Tiles 0 front m.frag_offset
    → front ++ m ∷ [] ≡ head ∷ next
    → ipv4_get_hlen head.pkt head.network + end_of m ≤ ipv4_pktlen_max
    → memory (end_of m + (head.network + ipv4_get_hlen head.pkt head.network)) ≡ true
    → (frag_defrag_process memory m (deliver memory front fcb_create)).0
      ≡ reassembled (joined_bytes (end_of m) head next)
unfolding Long
in_order-reassembled memory front m head next q len more t all short room =
    let s = deliver-IsSoFar memory fcb_create [] front 0 m.frag_offset fresh-IsSoFar t q in
    ap (λ x. (frag_defrag_process memory m x).0) s.same
    ∙ joined-last memory front s.first m s.tiles s.long len head next more s.begun all short room
