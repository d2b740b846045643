-- ===== src/Defrag/Collect.antt =====
-- A fragment joins the list of a datagram that is being collected.
use sec_fw.Common.{
  ℕ, ◌+◌, ◌≤◌, ◌≡◌, refl, sym, ◌⊎◌, inl, inr, ap, subst, ◌∙◌, Bool, true, false, Bool-cases, not,
  ◌&&◌, ◌||◌, ◌==◌, ltb, leb, List, [], ◌∷◌, ◌++◌, none, some, some-inj, none≢some, arith, length,
  All,
}
use sec_fw.Defrag.{
  Fragment, Fcb, Verdict, cached, dropped, failed, reassembled, copy_rest, ipv4_get_hlen,
  finish_header, ipv4_pktlen_max, frag_defrag_reasm, clear_of_prev, clear_of_next, note_end,
  insert_fragment,
}
use sec_fw.Defrag.Chain.{
  end_of, Apart, Tiles, total_len, total_len-insert, Apart-Tiles, Apart-more, Apart-insert,
}

-- The fragment's data lies in its packet.
abbrev pub Whole : Fragment → Type 0
Whole f = f.frag_len ≤ length f.pkt

-- A datagram that is still being collected: its fragments are in order and do not overlap, none ends
-- behind the total length, and `meat` counts their bytes.
pub record IsOpen (fcb : Fcb) : Type 0 where
  pub apart : Apart 0 fcb.fragments fcb.total_fraglen
  pub counted : fcb.meat ≡ total_len fcb.fragments
  pub whole : All Whole fcb.fragments

-- A datagram that was put together.
pub record IsDone (fcb : Fcb) : Type 0 where
  pub marked : fcb.complete ≡ true
  pub ended : fcb.last_in ≡ true
  pub filled : fcb.total_fraglen ≤ fcb.meat

-- The bytes of the new packet.
abbrev pub joined_bytes : ℕ → Fragment → List Fragment → List ℕ
joined_bytes total head next =
    let ihlen = ipv4_get_hlen head.pkt head.network in
    finish_header (head.pkt ++ copy_rest next) head.network ihlen (ihlen + total)

-- The packet that fragment `m` completes: the cached fragments and `m` fill the datagram without gap or
-- overlap, and its bytes are the first packet, the data of the others, and a finished header.
pub record Joined (fcb : Fcb) (m : Fragment) (bytes : List ℕ) (fcb' : Fcb) : Type 0 where
  pub before : List Fragment
  pub behind : List Fragment
  pub head : Fragment
  pub next : List Fragment
  pub old : before ++ behind ≡ fcb.fragments
  pub all : before ++ m ∷ behind ≡ head ∷ next
  pub whole : All Whole (head ∷ next)
  pub tiles : Tiles 0 (head ∷ next) fcb'.total_fraglen
  pub joined : bytes ≡ joined_bytes fcb'.total_fraglen head next

abbrev pub Result : Fcb → Fragment → Verdict × Fcb → Type 0
Result fcb m (cached, fcb') = IsOpen fcb'
Result fcb m (dropped, fcb') = IsOpen fcb'
Result fcb m (failed, fcb') = IsOpen fcb'
Result fcb m (reassembled bytes, fcb') = Joined fcb m bytes fcb' × IsDone fcb'

All-insert :
    (m : Fragment) (before behind : List Fragment)
    → All Whole (before ++ behind)
    → Whole m
    → All Whole (before ++ m ∷ behind)
All-insert m [] behind a w = (w, a)
All-insert m (f ∷ before) behind (b, a) w = (b, All-insert m before behind a w)

abbrev pub ended : Fcb → Bool → ℕ → Fcb
ended fcb last end = record fcb { last_in = last; total_fraglen = end }

pub note_end-cases :
    (m : Fragment) (fcb : Fcb)
    → (note_end m fcb ≡ none)
      ⊎ ((note_end m fcb ≡ some fcb) × (end_of m ≤ fcb.total_fraglen))
      ⊎ ((last : Bool) × (note_end m fcb ≡ some (ended fcb last (end_of m)))
          × (fcb.total_fraglen ≤ end_of m))
unfolding note_end
note_end-cases m fcb = elim (Bool-cases fcb.complete_in) [
  | inl c ↦ inl (rw c refl)
  | inr c ↦ elim (Bool-cases m.more) [
    | inl k ↦ elim (Bool-cases (leb (end_of m) fcb.total_fraglen)) [
      | inl t ↦ inr (inl (rw (c, k, t) refl, ground arith))
      | inr t ↦ elim (Bool-cases fcb.last_in) [
        | inl l ↦ inl (rw (c, k, t, l) refl)
        | inr l ↦ inr (inr (false, rw (c, k, t, l) refl, ground arith))
      ]
    ]
    | inr k ↦ elim (Bool-cases (ltb (end_of m) fcb.total_fraglen || fcb.last_in)) [
      | inl t ↦ inl (rw (c, k, t) refl)
      | inr t ↦ inr (inr (true, rw (c, k, t) refl, ground arith))
    ]
  ]
]

-- What the tests on the end leave: the fragments, and a total length not less than the end of `m`.
pub record Noted (m : Fragment) (fcb fcb' : Fcb) : Type 0 where
  pub open_still : IsOpen fcb'
  pub room : end_of m ≤ fcb'.total_fraglen
  pub same : fcb'.fragments ≡ fcb.fragments

pub note_end-Noted :
    (m : Fragment) (fcb fcb' : Fcb) → IsOpen fcb → note_end m fcb ≡ some fcb' → Noted m fcb fcb'
note_end-Noted m fcb fcb' o e = elim (note_end-cases m fcb) [
  | inl n ↦ absurd (none≢some (sym n ∙ e))
  | inr (inl (n, r)) ↦
      subst (Noted m fcb) (some-inj (sym n ∙ e)) (record { open_still = o; room = r; same = refl })
  | inr (inr (last, n, r)) ↦ subst (Noted m fcb) (some-inj (sym n ∙ e)) (record {
    open_still = record {
      apart = Apart-more 0 fcb.fragments fcb.total_fraglen (end_of m) r o.apart;
      counted = o.counted;
      whole = o.whole;
    };
    room = omega arith;
    same = refl;
  })
]

-- The block once the fragment stands in its list.
abbrev pub inserted : Fragment → Fcb → List Fragment → List Fragment → Fcb
inserted m fcb before behind = record fcb {
  fragments = before ++ m ∷ behind;
  meat = fcb.meat + m.frag_len;
  first_in = m.frag_offset == 0 || fcb.first_in;
}

abbrev pub full : Fcb → Bool
full fcb = fcb.first_in && fcb.last_in && not fcb.complete_in && fcb.meat == fcb.total_fraglen

pub reasm-cases :
    (memory : ℕ → Bool) (g : Fcb) (head : Fragment) (next : List Fragment)
    → g.fragments ≡ head ∷ next
    → (frag_defrag_reasm memory g ≡ (failed, g))
      ⊎ (frag_defrag_reasm memory g ≡ (
        reassembled (joined_bytes g.total_fraglen head next),
        record g { fragments = []; complete = true },
      ))
unfolding frag_defrag_reasm
reasm-cases memory g head next e =
    let ihlen = ipv4_get_hlen head.pkt head.network in
    elim (Bool-cases (ltb ipv4_pktlen_max (ihlen + g.total_fraglen))) [
      | inl b ↦ inl (rw (e, b) refl)
      | inr b ↦ elim (Bool-cases (memory (g.total_fraglen + (head.network + ihlen)))) [
        | inl k ↦ inr (rw (e, b, k) refl)
        | inr k ↦ inl (rw (e, b, k) refl)
      ]
    ]

first_of :
    (m : Fragment) (before behind : List Fragment)
    → (head : Fragment) × (rest : List Fragment) × (before ++ m ∷ behind ≡ head ∷ rest)
first_of m [] behind = (m, behind, refl)
first_of m (f ∷ before) behind = (f, before ++ m ∷ behind, refl)

module _ (memory : ℕ → Bool) (m : Fragment) (fcb : Fcb) (before behind : List Fragment)
    (o : IsOpen fcb) (w : Whole m) (room : end_of m ≤ fcb.total_fraglen)
    (split : before ++ behind ≡ fcb.fragments) (prev : clear_of_prev before m.frag_offset ≡ true)
    (next : clear_of_next behind (end_of m) ≡ true) where
  inserted-Open : IsOpen (inserted m fcb before behind)
  inserted-Open = record {
    apart =
        Apart-insert m 0 before behind fcb.total_fraglen
          (subst (λ xs. Apart 0 xs fcb.total_fraglen) (sym split) o.apart) (omega arith) room prev
          next;
    counted = omega (arith, o.counted, ap total_len split, total_len-insert m before behind);
    whole = All-insert m before behind (subst (All Whole) (sym split) o.whole) w;
  }

  reasm-Result :
      (old : Fcb) (head : Fragment) (rest : List Fragment)
      → fcb.fragments ≡ old.fragments
      → before ++ m ∷ behind ≡ head ∷ rest
      → full (inserted m fcb before behind) ≡ true
      → Result old m (frag_defrag_reasm memory (inserted m fcb before behind))
  reasm-Result old head rest same all f =
      let g = inserted m fcb before behind in
      let total : total_len (head ∷ rest) ≡ fcb.total_fraglen =
        ap total_len (sym all) ∙ sym inserted-Open.counted ∙ ground arith in
      elim (reasm-cases memory g head rest all) [
        | inl e ↦ rw e inserted-Open
        | inr e ↦ rw e (
          record {
            before = before;
            behind = behind;
            head = head;
            next = rest;
            old = split ∙ same;
            all = all;
            whole = subst (All Whole) all inserted-Open.whole;
            tiles =
                Apart-Tiles 0 (head ∷ rest) fcb.total_fraglen
                  (subst (λ xs. Apart 0 xs fcb.total_fraglen) all inserted-Open.apart)
                  (omega (arith, total));
            joined = refl;
          },
          record { marked = refl; ended = ground arith; filled = ground arith },
        )
      ]

  pub insert_fragment-Result :
      (old : Fcb)
      → fcb.fragments ≡ old.fragments
      → Result old m (insert_fragment memory m fcb (before, behind))
  unfolding insert_fragment
  insert_fragment-Result old same = elim (Bool-cases (full (inserted m fcb before behind))) [
    | inl f ↦
        let (head, rest, all) = first_of m before behind in
        rw (prev, next, f) (reasm-Result old head rest same all f)
    | inr f ↦ rw (prev, next, f) inserted-Open
  ]
