-- ===== src/Defrag/Payload.antt =====
-- The data of the fragments in the packet that they make.
use sec_fw.Common.{
  ℕ, zero, suc, ◌+◌, ◌-◌, ◌/◌, ◌%◌, ◌≤◌, ◌<◌, ◌≡◌, refl, sym, ap, subst, ◌∙◌, inl, inr, Bool,
  Bool-cases, ltb, List, [], ◌∷◌, ◌++◌, arith, length, drop, get_or, set, get_or-append,
  get_or-set_ne, All,
}
use sec_fw.Defrag.{
  Fragment, Fcb, reassembled, fragment_data, copy_rest, set16, finish_header, ipv4_get_hlen,
  ipv4_pktlen_max, frag_defrag_reasm,
}
use sec_fw.Defrag.Chain.{end_of, Tiles}
use sec_fw.Defrag.Collect.{Whole, joined_bytes}

drop_past : (k n : ℕ) (xs ys : List ℕ) → k ≡ length xs + n → drop k (xs ++ ys) ≡ drop n ys
drop_past k n [] ys e = ap (λ j. drop j ys) (omega (arith, e))
drop_past zero n (x ∷ xs) ys e = absurd (omega (arith, e))
drop_past (suc k) n (x ∷ xs) ys e = drop_past k n xs ys (omega (arith, e))

length-drop : (n : ℕ) (xs : List ℕ) → n ≤ length xs → length (drop n xs) ≡ length xs - n
length-drop zero xs h = omega arith
length-drop (suc n) [] h = absurd (omega arith)
length-drop (suc n) (x ∷ xs) h = omega (arith, length-drop n xs (omega arith))

length-fragment_data : (f : Fragment) → Whole f → length (fragment_data f) ≡ f.frag_len
unfolding fragment_data
length-fragment_data f w =
    omega (arith, length-drop (length f.pkt - f.frag_len) f.pkt (omega arith))

Tiles-offset :
    (low : ℕ) (before : List Fragment) (f : Fragment) (behind : List Fragment) (high : ℕ)
    → Tiles low (before ++ f ∷ behind) high
    → low ≤ f.frag_offset
unfolding Tiles
Tiles-offset low [] f behind high (t, ts) = omega (arith, t)
Tiles-offset low (g ∷ gs) f behind high (t, ts) =
    omega (arith, t, Tiles-offset (end_of g) gs f behind high ts)

data_at :
    (low : ℕ) (before : List Fragment) (f : Fragment) (behind : List Fragment) (high : ℕ)
    → Tiles low (before ++ f ∷ behind) high
    → All Whole (before ++ f ∷ behind)
    → drop (f.frag_offset - low) (copy_rest (before ++ f ∷ behind))
      ≡ fragment_data f ++ copy_rest behind
unfolding Tiles copy_rest
data_at low [] f behind high (t, ts) (w, ws) =
    let here : f.frag_offset - low ≡ 0 = omega (arith, t) in
    ap (λ k. drop k (fragment_data f ++ copy_rest behind)) here
data_at low (g ∷ gs) f behind high (t, ts) (w, ws) =
    drop_past (f.frag_offset - low) (f.frag_offset - end_of g) (fragment_data g)
      (copy_rest (gs ++ f ∷ behind))
      (omega (arith, t, length-fragment_data g w, Tiles-offset (end_of g) gs f behind high ts))
    ∙ data_at (end_of g) gs f behind high ts ws

sub_zero : (n : ℕ) → n - 0 ≡ n
sub_zero n = omega arith

Whole-at :
    (before : List Fragment) (f : Fragment) (behind : List Fragment)
    → All Whole (before ++ f ∷ behind)
    → Whole f
Whole-at [] f behind (w, ws) = w
Whole-at (g ∷ gs) f behind (w, ws) = Whole-at gs f behind ws

get_or-drop : (n : ℕ) (xs : List ℕ) (k : ℕ) → get_or (drop n xs) k 0 ≡ get_or xs (n + k) 0
get_or-drop zero xs k = ap (λ i. get_or xs i 0) (omega arith)
get_or-drop (suc n) [] k = refl
get_or-drop (suc n) (x ∷ xs) k =
    let next : suc (n + k) ≡ suc n + k = omega arith in
    get_or-drop n xs k ∙ ap (λ i. get_or (x ∷ xs) i 0) next

drop-append : (n : ℕ) (xs ys : List ℕ) → n ≤ length xs → drop n (xs ++ ys) ≡ drop n xs ++ ys
drop-append zero xs ys h = refl
drop-append (suc n) [] ys h = absurd (omega arith)
drop-append (suc n) (x ∷ xs) ys h = drop-append n xs ys (omega arith)

get_or-set16 : (pkt : List ℕ) (i v j : ℕ) → i + 2 ≤ j → get_or (set16 pkt i v) j 0 ≡ get_or pkt j 0
get_or-set16 pkt i v j h =
    get_or-set_ne (set pkt i (v / 256 % 256)) (i + 1) j (v % 256) 0 (λ e. omega (arith, e))
    ∙ get_or-set_ne pkt i j (v / 256 % 256) 0 (λ e. omega (arith, e))

-- The finished header differs in its first 12 bytes only.
get_or-finish_header :
    (pkt : List ℕ) (network ihlen len j : ℕ)
    → network + 12 ≤ j
    → get_or (finish_header pkt network ihlen len) j 0 ≡ get_or pkt j 0
unfolding finish_header
get_or-finish_header pkt network ihlen len j h =
    get_or-set16 _ (network + 10) _ j (omega arith)
    ∙ get_or-set16 _ (network + 6) 0 j (omega arith)
    ∙ get_or-set16 pkt (network + 2) len j (omega arith)

reasm-bytes :
    (memory : ℕ → Bool) (fcb : Fcb) (head : Fragment) (next : List Fragment) (bytes : List ℕ)
    → fcb.fragments ≡ head ∷ next
    → (frag_defrag_reasm memory fcb).0 ≡ reassembled bytes
    → bytes ≡ joined_bytes fcb.total_fraglen head next
unfolding frag_defrag_reasm
reasm-bytes memory fcb head next bytes e h =
    let ihlen = ipv4_get_hlen head.pkt head.network in
    elim (Bool-cases (ltb ipv4_pktlen_max (ihlen + fcb.total_fraglen))) [
      | inl long ↦ absurd (cc (rw (e, long) at h))
      | inr fits ↦ elim (Bool-cases (memory (fcb.total_fraglen + (head.network + ihlen)))) [
        | inl room ↦ cc (rw (e, fits, room) at h)
        | inr full ↦ absurd (cc (rw (e, fits, full) at h))
      ]
    ]

-- The data of a fragment in the joined data of all.
copy_rest-byte :
    (before : List Fragment) (f : Fragment) (behind : List Fragment) (high k : ℕ)
    → Tiles 0 (before ++ f ∷ behind) high
    → All Whole (before ++ f ∷ behind)
    → k < f.frag_len
    → get_or (copy_rest (before ++ f ∷ behind)) (f.frag_offset + k) 0
      ≡ get_or f.pkt ((length f.pkt - f.frag_len) + k) 0
unfolding fragment_data
copy_rest-byte before f behind high k t w h =
    let all = copy_rest (before ++ f ∷ behind) in
    let at_offset : drop f.frag_offset all ≡ fragment_data f ++ copy_rest behind =
      subst (λ n. drop n all ≡ fragment_data f ++ copy_rest behind) (sub_zero f.frag_offset)
        (data_at 0 before f behind high t w) in
    let long : k < length (fragment_data f) =
      omega (arith, h, length-fragment_data f (Whole-at before f behind w)) in
    sym (get_or-drop f.frag_offset all k)
    ∙ ap (λ l. get_or l k 0) at_offset
    ∙ get_or-append (fragment_data f) (copy_rest behind) k 0 long
    ∙ get_or-drop (length f.pkt - f.frag_len) f.pkt k

-- When Frag_defrag_reasm makes a packet of fragments that fill their datagram from its start on, each no
-- longer than its packet, and the data of the first begin at least 12 bytes behind its IP header, then the
-- new packet holds the last frag_len bytes of each fragment's packet, counted from where the data of the
-- first begin, at the offset of the fragment.
pub frag_defrag_reasm-data :
    (memory : ℕ → Bool) (fcb : Fcb) (head : Fragment) (next before : List Fragment) (f : Fragment)
    (behind : List Fragment) (high k : ℕ) (bytes : List ℕ)
    → fcb.fragments ≡ head ∷ next
    → fcb.fragments ≡ before ++ f ∷ behind
    → Tiles 0 fcb.fragments high
    → All Whole fcb.fragments
    → head.network + 12 ≤ length head.pkt - head.frag_len
    → (frag_defrag_reasm memory fcb).0 ≡ reassembled bytes
    → k < f.frag_len
    → get_or bytes ((length head.pkt - head.frag_len) + (f.frag_offset + k)) 0
      ≡ get_or f.pkt ((length f.pkt - f.frag_len) + k) 0
unfolding copy_rest fragment_data
frag_defrag_reasm-data memory fcb head next before f behind high k bytes e split tiles whole room h
      less =
    let start = length head.pkt - head.frag_len in
    let whole' : All Whole (head ∷ next) = subst (All Whole) e whole in
    let all_data : drop start (head.pkt ++ copy_rest next) ≡ copy_rest (before ++ f ∷ behind) =
      drop-append start head.pkt (copy_rest next) (omega arith) ∙ ap copy_rest (sym e ∙ split) in
    ap (λ b. get_or b (start + (f.frag_offset + k)) 0) (reasm-bytes memory fcb head next bytes e h)
    ∙ get_or-finish_header (head.pkt ++ copy_rest next) head.network _ _ _ (omega (arith, room))
    ∙ sym (get_or-drop start (head.pkt ++ copy_rest next) (f.frag_offset + k))
    ∙ ap (λ l. get_or l (f.frag_offset + k) 0) all_data
    ∙ copy_rest-byte before f behind high k (subst (λ fs. Tiles 0 fs high) split tiles)
        (subst (All Whole) split whole) less
