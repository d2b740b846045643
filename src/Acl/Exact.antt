-- ===== src/Acl/Exact.antt =====
-- The tree finds the rules that a search of all rules finds, for every packet that some rule matches.
use sec_fw.Common.{
  ℕ, zero, suc, ◌+◌, ◌%◌, ◌^◌, ◌≤◌, ◌<◌, ◌≡◌, ◌≢◌, refl, ap, sym, subst, ◌∙◌, inl, inr, true, false,
  Bool-cases, ◌==◌, ==_self, ltb, leb, List, [], ◌∷◌, length, take, All, some, Option-cases,
  none≢some, some-inj, arith,
}
use sec_fw.Acl.{
  Rule, number_bits, low_words, segment_points, split_dim, qsort, dim_max, matched_from, matched,
}
use sec_fw.Acl.Build.{
  HsNode, leaf, node, SubRanges, find_split, reaches, trimmed, child_rules, pri_list, build,
  walk_packet,
}
use sec_fw.Acl.Trim.{matching, matching-child_rules}
use sec_fw.Acl.Marks.{has, starts, finishes}
use sec_fw.Acl.Leaf.{leaf-matching, split_dim-attained}
use sec_fw.Acl.Cut.{FitsBits, IsPoint, IsCut, find_split-IsCut, point-fits}
use sec_fw.Acl.Middle.{or_true}

abbrev pub left_rules : ℕ → SubRanges → List Rule → List Rule
left_rules d2s s rules = child_rules d2s (low_words d2s s.range00) (low_words d2s s.range01) rules

abbrev pub right_rules : ℕ → SubRanges → List Rule → List Rule
right_rules d2s s rules = child_rules d2s (low_words d2s s.range10) (low_words d2s s.range11) rules

-- What a tree that BuildHSTree returns is: a leaf, or a node with the trees of its two parts.
pub data Built (fuel depth : ℕ) (rules : List Rule) (t : HsNode) : Type 0 where
  is_leaf :
      (split_dim rules).1 ≤ 2
      → t ≡ leaf 0 (depth % 256) (length rules % 2 ^ 16) (pri_list rules)
      → Built fuel depth rules t
  is_node :
      (s : SubRanges) (l r : HsNode)
      → 3 ≤ (split_dim rules).1
      → IsCut (split_dim rules).0 rules s
      → build fuel (suc depth) (left_rules (split_dim rules).0 s rules) ≡ some l
      → build fuel (suc depth) (right_rules (split_dim rules).0 s rules) ≡ some r
      → t ≡ node (split_dim rules).0 (depth % 256) (low_words (split_dim rules).0 s.range10) l r
      → Built fuel depth rules t

pub split-IsCut :
    (rules : List Rule)
    → All FitsBits rules
    → 2 < (split_dim rules).1
    → (s : SubRanges) × (find_split
          (qsort (segment_points (split_dim rules).0 rules).0)
          (split_dim rules).1
        ≡ some s)
      × IsCut (split_dim rules).0 rules s
split-IsCut rules fits more =
    let (small, attained) = split_dim-attained rules more in
    let (s, eq, c) =
      find_split-IsCut (split_dim rules).0 rules small fits (omega (arith, attained)) in
    (
      s,
      subst (λ n. find_split (qsort (segment_points (split_dim rules).0 rules).0) n ≡ some s)
          (sym attained) eq,
      c,
    )

pub build-Built :
    (fuel depth : ℕ) (r : Rule) (rs : List Rule) (t : HsNode)
    → All FitsBits (r ∷ rs)
    → build (suc fuel) depth (r ∷ rs) ≡ some t
    → Built fuel depth (r ∷ rs) t
unfolding build
build-Built fuel depth r rs t fits h =
    let rules = r ∷ rs in
    let d2s = (split_dim rules).0 in
    elim (Bool-cases (leb (split_dim rules).1 2)) [
      | inl e ↦ is_leaf (ground arith) (sym (some-inj (rw (build, e) at h)))
      | inr e ↦
          let (s, eq, c) = split-IsCut rules fits (ground arith) in
          elim (Option-cases (build fuel (suc depth) (left_rules d2s s rules))) [
            | inl el ↦ absurd (none≢some (rw (build, e, eq, el) at h))
            | inr (l, el) ↦ elim (Option-cases (build fuel (suc depth) (right_rules d2s s rules))) [
              | inl er ↦ absurd (none≢some (rw (build, e, eq, el, er) at h))
              | inr (r', er) ↦
                  is_node s l r' (ground arith) c el er
                    (sym (some-inj (rw (build, e, eq, el, er) at h)))
            ]
          ]
    ]

module _ (d2s : ℕ) (lo hi : ℕ) where
  trimmed-FitsBits :
      (r : Rule)
      → lo < 2 ^ number_bits d2s
      → hi < 2 ^ number_bits d2s
      → FitsBits r
      → FitsBits (trimmed d2s lo hi r)
  trimmed-FitsBits r small great f dim h =
      let (a, b) = f dim h in
      elim (Bool-cases (dim == d2s)) [
        | inl e ↦
            let same : d2s ≡ dim = ground arith in
            let small' : lo < 2 ^ number_bits dim =
              subst (λ i. lo < 2 ^ number_bits i) same small in
            let great' : hi < 2 ^ number_bits dim =
              subst (λ i. hi < 2 ^ number_bits i) same great in
            (start_fits dim a small', finish_fits dim b great')
        | inr e ↦ (start_kept dim a e, finish_kept dim b e)
      ]
    where
      start_fits :
          (dim : ℕ)
          → r.range0 dim < 2 ^ number_bits dim
          → lo < 2 ^ number_bits dim
          → (trimmed d2s lo hi r).range0 dim < 2 ^ number_bits dim
      start_fits dim a l = elim (Bool-cases (ltb (r.range0 d2s) lo)) [
        | inl e ↦ elim (Bool-cases (dim == d2s)) [ inl k ↦ rw (e, k) l | inr k ↦ rw (e, k) a ]
        | inr e ↦ rw e a
      ]

      finish_fits :
          (dim : ℕ)
          → r.range1 dim < 2 ^ number_bits dim
          → hi < 2 ^ number_bits dim
          → (trimmed d2s lo hi r).range1 dim < 2 ^ number_bits dim
      finish_fits dim a l = elim (Bool-cases (ltb hi (r.range1 d2s))) [
        | inl e ↦ elim (Bool-cases (dim == d2s)) [ inl k ↦ rw (e, k) l | inr k ↦ rw (e, k) a ]
        | inr e ↦ rw e a
      ]

      start_kept :
          (dim : ℕ)
          → r.range0 dim < 2 ^ number_bits dim
          → (dim == d2s) ≡ false
          → (trimmed d2s lo hi r).range0 dim < 2 ^ number_bits dim
      start_kept dim a k = elim (Bool-cases (ltb (r.range0 d2s) lo)) [
        | inl e ↦ rw (e, k) a
        | inr e ↦ rw e a
      ]

      finish_kept :
          (dim : ℕ)
          → r.range1 dim < 2 ^ number_bits dim
          → (dim == d2s) ≡ false
          → (trimmed d2s lo hi r).range1 dim < 2 ^ number_bits dim
      finish_kept dim a k = elim (Bool-cases (ltb hi (r.range1 d2s))) [
        | inl e ↦ rw (e, k) a
        | inr e ↦ rw e a
      ]

  pub child-FitsBits :
      (rules : List Rule)
      → lo < 2 ^ number_bits d2s
      → hi < 2 ^ number_bits d2s
      → All FitsBits rules
      → All FitsBits (child_rules d2s lo hi rules)
  unfolding child_rules
  child-FitsBits [] small great f = _
  child-FitsBits (r ∷ rs) small great (f, fs) = elim (Bool-cases (reaches d2s lo hi r)) [
    | inl e ↦ rw e (trimmed-FitsBits r small great f, child-FitsBits rs small great fs)
    | inr e ↦ rw e (child-FitsBits rs small great fs)
  ]

pub low_words-lt : (dim x : ℕ) → low_words dim x < 2 ^ number_bits dim
unfolding low_words
low_words-lt dim x = elim (Bool-cases (ltb dim 2)) [
  | inl e ↦ rw e (omega arith)
  | inr e ↦ rw e (omega arith)
]

pub low_words_lem : (dim x : ℕ) → x < 2 ^ number_bits dim → low_words dim x ≡ x
unfolding low_words
low_words_lem dim x h = elim (Bool-cases (ltb dim 2)) [
  | inl e ↦ let k : x < 2 ^ 64 = rw e at h in rw e (omega arith)
  | inr e ↦ let k : x < 2 ^ 32 = rw e at h in rw e (omega arith)
]

-- A rule that matches lies around the packet in every dimension.
matched_from-around :
    (r : Rule) (packet : ℕ → ℕ) (n dim j : ℕ)
    → dim ≤ j
    → j < dim + n
    → matched_from n dim r packet ≡ true
    → (r.range0 j ≤ low_words j (packet j)) × (low_words j (packet j) ≤ r.range1 j)
unfolding matched_from
matched_from-around r packet zero dim j a b m = absurd (omega arith)
matched_from-around r packet (suc n) dim j a b m = elim (Bool-cases (dim == j)) [
  | inl e ↦
      let same : dim ≡ j = ground arith in
      subst (λ i. (r.range0 i ≤ low_words i (packet i)) × (low_words i (packet i) ≤ r.range1 i))
        same (ground arith, ground arith)
  | inr e ↦ matched_from-around r packet n (suc dim) j (ground arith) (omega arith) (ground arith)
]

-- If some rule matches, then a start lies below the packet and an end above it.
matching-around :
    (rules : List Rule) (packet : ℕ → ℕ) (j : ℕ)
    → j < dim_max
    → matching rules packet ≢ []
    → (x : ℕ) × (y : ℕ) × IsPoint j rules x
      × IsPoint j rules y
      × (x ≤ low_words j (packet j))
      × (low_words j (packet j) ≤ y)
unfolding matching has starts finishes
matching-around [] packet j h some_one = absurd (some_one refl)
matching-around (r ∷ rs) packet j h some_one = elim (Bool-cases (matched r packet)) [
  | inl e ↦
      let (a, b) = matched_from-around r packet dim_max 0 j (omega arith) (omega arith) e in
      (
        r.range0 j,
        r.range1 j,
        inl (rw (==_self (r.range0 j)) refl),
        inr (rw (==_self (r.range1 j)) refl),
        a,
        b,
      )
  | inr e ↦
      let (x, y, p, q, a, b) = matching-around rs packet j h (λ k. some_one (rw e k)) in
      (x, y, later x p, later y q, a, b)
]
  where
    later : (x : ℕ) → IsPoint j rs x → IsPoint j (r ∷ rs) x
    later x p = elim p [ inl k ↦ inl (rw k (or_true _)) | inr k ↦ inr (rw k (or_true _)) ]

-- The bounds of the parts fit the dimension, and the low words of each are the bound.
pub record CutWords (d2s : ℕ) (s : SubRanges) : Type 0 where
  pub words00 : low_words d2s s.range00 ≡ s.range00
  pub words01 : low_words d2s s.range01 ≡ s.range01
  pub words10 : low_words d2s s.range10 ≡ s.range10
  pub words11 : low_words d2s s.range11 ≡ s.range11
  pub left : s.range00 ≤ s.range01
  pub right : s.range10 ≤ s.range11

pub cut-CutWords :
    (d2s : ℕ) (rules : List Rule) (s : SubRanges)
    → d2s < dim_max
    → All FitsBits rules
    → IsCut d2s rules s
    → CutWords d2s s
cut-CutWords d2s rules s h fits c =
    let top : s.range11 < 2 ^ number_bits d2s = point-fits d2s rules h fits s.range11 c.last in
    let cut_le : s.range10 ≤ s.range11 = elim c.cut [
      | inl (a, b) ↦ c.greatest s.range10 (inl a)
      | inr (a, b) ↦ omega (arith, b, c.meet)
    ] in
    let left_le : s.range00 ≤ s.range01 = elim c.cut [
      | inl (a, b) ↦ omega (arith, b, c.meet)
      | inr (a, b) ↦ c.least s.range01 (inr a)
    ] in
    record {
      words00 = low_words_lem d2s s.range00 (omega (arith, c.least s.range11 c.last, top));
      words01 = low_words_lem d2s s.range01 (omega (arith, c.meet, cut_le, top));
      words10 = low_words_lem d2s s.range10 (omega (arith, cut_le, top));
      words11 = low_words_lem d2s s.range11 top;
      left = left_le;
      right = cut_le;
    }

-- The part that a packet goes to has the same matching rules.
parts-matching :
    (d2s : ℕ) (rules : List Rule) (s : SubRanges) (packet : ℕ → ℕ)
    → d2s < dim_max
    → All FitsBits rules
    → IsCut d2s rules s
    → matching rules packet ≢ []
    → (low_words d2s s.range10 ≡ s.range10)
      × (low_words d2s (packet d2s) < s.range10
          → matching (left_rules d2s s rules) packet ≡ matching rules packet)
      × (s.range10 ≤ low_words d2s (packet d2s)
          → matching (right_rules d2s s rules) packet ≡ matching rules packet)
parts-matching d2s rules s packet h fits c some_one =
    let w = cut-CutWords d2s rules s h fits c in
    let (x, y, px, py, low, high) = matching-around rules packet d2s h some_one in
    (
      w.words10,
      λ k.
          matching-child_rules d2s (low_words d2s s.range00) (low_words d2s s.range01) packet h
            (omega (arith, w.words00, c.least x px, low)) (omega (arith, w.words01, c.meet, k))
            rules,
      λ k.
          matching-child_rules d2s (low_words d2s s.range10) (low_words d2s s.range11) packet h
            (omega (arith, w.words10, k)) (omega (arith, w.words11, c.greatest y py, high)) rules,
    )

-- As many of a list of rules as a count of 16 bits counts.
abbrev pub counted : List ℕ → List ℕ
counted l = take (length l % 2 ^ 16) l

pub length-pri_list : (rules : List Rule) → length (pri_list rules) ≡ length rules
length-pri_list [] = refl
length-pri_list (r ∷ rs) = ap suc (length-pri_list rs)

-- A packet that some rule matches comes to a leaf with exactly the rules that match it, in their order, of
-- which the leaf counts the first.
pub walk_packet-matching :
    (fuel depth : ℕ) (rules : List Rule) (t : HsNode) (packet : ℕ → ℕ)
    → All FitsBits rules
    → build fuel depth rules ≡ some t
    → matching rules packet ≢ []
    → walk_packet t packet ≡ (0, counted (matching rules packet))
unfolding build walk_packet matching
walk_packet-matching zero depth rules t packet fits h some_one = absurd (none≢some h)
walk_packet-matching (suc fuel) depth [] t packet fits h some_one = absurd (some_one refl)
walk_packet-matching (suc fuel) depth (r ∷ rs) t packet fits h some_one =
    let rules = r ∷ rs in
    let d2s = (split_dim rules).0 in
    elim (build-Built fuel depth r rs t fits h) [
      | is_leaf few e ↦
          ap (λ x. walk_packet x packet) e
          ∙ ap (λ n. (0, take (n % 2 ^ 16) (pri_list rules))) (sym (length-pri_list rules))
          ∙ ap (λ l. (0, counted l)) (sym (leaf-matching r rs packet few some_one))
      | is_node s a b more c ea eb e ↦
          let attained = split_dim-attained rules (omega (arith, more)) in
          let (exact, to_left, to_right) =
            parts-matching d2s rules s packet attained.0 fits c some_one in
          let fits0 =
            child-FitsBits d2s (low_words d2s s.range00) (low_words d2s s.range01) rules
              (low_words-lt d2s s.range00) (low_words-lt d2s s.range01) fits in
          let fits1 =
            child-FitsBits d2s (low_words d2s s.range10) (low_words d2s s.range11) rules
              (low_words-lt d2s s.range10) (low_words-lt d2s s.range11) fits in
          ap (λ x. walk_packet x packet) e
          ∙ elim (Bool-cases (ltb (low_words d2s (packet d2s)) (low_words d2s s.range10))) [
            | inl k ↦
                let same = to_left (ground (arith, exact)) in
                rw k (
                  walk_packet-matching fuel (suc depth) (left_rules d2s s rules) a packet fits0 ea
                    (λ z. some_one (sym same ∙ z))
                  ∙ ap (λ l. (0, counted l)) same)
            | inr k ↦
                let same = to_right (ground (arith, exact)) in
                rw k (
                  walk_packet-matching fuel (suc depth) (right_rules d2s s rules) b packet fits1 eb
                    (λ z. some_one (sym same ∙ z))
                  ∙ ap (λ l. (0, counted l)) same)
          ]
    ]
