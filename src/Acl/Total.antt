-- ===== src/Acl/Total.antt =====
-- BuildHSTree ends, and the classifier as a whole finds what a search of all rules finds.
use sec_fw.Common.{
  ℕ, zero, suc, ◌+◌, ◌*◌, ◌%◌, ◌≤◌, ◌<◌, ◌≡◌, ◌≢◌, refl, ap, sym, subst, ◌∙◌, ◌⊎◌, inl, inr,
  Bool-cases, ◌==◌, leb, List, [], ◌∷◌, All, length, get_elem?, none, some, arith, take,
  Option-cases, none≢some, some-inj, ◌^◌,
}
use sec_fw.Acl.{Rule, low_words, split_dim, dim_max, matched}
use sec_fw.Acl.Build.{
  HsNode, leaf, node, child_rules, pri_list, build, search_rules, linear_search, lookup_packet,
}
use sec_fw.Acl.Trim.{matching}
use sec_fw.Acl.Marks.{starts, finishes}
use sec_fw.Acl.Leaf.{split_dim-attained}
use sec_fw.Acl.Cut.{FitsBits}
use sec_fw.Acl.Exact.{
  left_rules, right_rules, split-IsCut, child-FitsBits, low_words-lt, cut-CutWords,
  walk_packet-matching, counted,
}
use sec_fw.Acl.Distinct.{Within-distinct, distinct-length}
use sec_fw.Acl.Shrink.{
  IsFilled, points, left-points, right-points, child-IsFilled, child-starts_other,
  child-finishes_other,
}

-- The points of `n` dimensions from `dim` on.
points_from : ℕ → ℕ → List Rule → ℕ
points_from zero dim rules = 0
points_from (suc n) dim rules = points dim rules + points_from n (suc dim) rules

abbrev all_points : List Rule → ℕ
all_points rules = points_from dim_max 0 rules

module _ (d2s lo hi : ℕ) (rules : List Rule) where
  points_other : (dim : ℕ) → dim ≢ d2s → points dim (child_rules d2s lo hi rules) ≤ points dim rules
  points_other dim n = omega (
    arith,
    Within-distinct _ _ (child-starts_other d2s lo hi dim rules n),
    Within-distinct _ _ (child-finishes_other d2s lo hi dim rules n),
  )

  points_from-le :
      (n dim : ℕ)
      → (d2s < dim) ⊎ (dim + n ≤ d2s)
      → points_from n dim (child_rules d2s lo hi rules) ≤ points_from n dim rules
  unfolding points_from
  points_from-le zero dim o = omega arith
  points_from-le (suc n) dim o = omega (
    arith,
    points_other dim (elim o [ inl a ↦ λ e. omega arith | inr a ↦ λ e. omega arith ]),
    points_from-le n (suc dim) (elim o [ inl a ↦ inl (omega arith) | inr a ↦ inr (omega arith) ]),
  )

  points_from-lt :
      (n dim : ℕ)
      → dim ≤ d2s
      → d2s < dim + n
      → points d2s (child_rules d2s lo hi rules) < points d2s rules
      → points_from n dim (child_rules d2s lo hi rules) < points_from n dim rules
  unfolding points_from
  points_from-lt zero dim a b less = absurd (omega arith)
  points_from-lt (suc n) dim a b less = elim (Bool-cases (d2s == dim)) [
    | inl e ↦
        let same : d2s ≡ dim = ground arith in
        let here : points dim (child_rules d2s lo hi rules) < points dim rules =
          subst (λ i. points i (child_rules d2s lo hi rules) < points i rules) same less in
        omega (arith, here, points_from-le n (suc dim) (inl (omega arith)))
    | inr e ↦ omega (
      arith,
      points_other dim (λ k. ground arith),
      points_from-lt n (suc dim) (ground arith) (omega arith) less,
    )
  ]

length-starts : (dim : ℕ) (rules : List Rule) → length (starts dim rules) ≡ length rules
unfolding starts
length-starts dim [] = refl
length-starts dim (r ∷ rs) = ap suc (length-starts dim rs)

length-finishes : (dim : ℕ) (rules : List Rule) → length (finishes dim rules) ≡ length rules
unfolding finishes
length-finishes dim [] = refl
length-finishes dim (r ∷ rs) = ap suc (length-finishes dim rs)

points_le : (dim : ℕ) (rules : List Rule) → points dim rules ≤ 2 * length rules
points_le dim rules = omega (
  arith,
  distinct-length (starts dim rules),
  distinct-length (finishes dim rules),
  length-starts dim rules,
  length-finishes dim rules,
)

all_points_le : (rules : List Rule) → all_points rules ≤ 22 * length rules
unfolding points_from
all_points_le rules = omega (
  arith,
  points_le 0 rules,
  points_le 1 rules,
  points_le 2 rules,
  points_le 3 rules,
  points_le 4 rules,
  points_le 5 rules,
  points_le 6 rules,
  points_le 7 rules,
  points_le 8 rules,
  points_le 9 rules,
  points_le 10 rules,
)

-- One step of the recursion, for any fuel that serves the parts.
build_step :
    (fuel depth : ℕ) (r : Rule) (rs : List Rule)
    → All FitsBits (r ∷ rs)
    → All IsFilled (r ∷ rs)
    → ((rules : List Rule)
        → All FitsBits rules
        → All IsFilled rules
        → all_points rules < all_points (r ∷ rs)
        → (t : HsNode) × (build fuel (suc depth) rules ≡ some t))
    → (t : HsNode) × (build (suc fuel) depth (r ∷ rs) ≡ some t)
unfolding build
build_step fuel depth r rs fits filled serves =
    let rules = r ∷ rs in
    let d2s = (split_dim rules).0 in
    elim (Bool-cases (leb (split_dim rules).1 2)) [
      | inl e ↦ (leaf 0 (depth % 256) (length rules % 2 ^ 16) (pri_list rules), rw (build, e) refl)
      | inr e ↦
          let (s, eq, c) = split-IsCut rules fits (ground arith) in
          let (small, attained) = split_dim-attained rules (ground arith) in
          let w = cut-CutWords d2s rules s small fits c in
          let (l, el) =
            serves (left_rules d2s s rules)
              (child-FitsBits d2s _ _ rules (low_words-lt d2s s.range00)
                (low_words-lt d2s s.range01) fits)
              (child-IsFilled d2s _ _ rules (omega (arith, w.words00, w.words01, w.left)) filled)
              (rw (w.words00, w.words01)
                (points_from-lt d2s s.range00 s.range01 rules dim_max 0 (omega arith) (omega arith)
                  (left-points d2s rules s small filled c w.left))) in
          let (r', er) =
            serves (right_rules d2s s rules)
              (child-FitsBits d2s _ _ rules (low_words-lt d2s s.range10)
                (low_words-lt d2s s.range11) fits)
              (child-IsFilled d2s _ _ rules (omega (arith, w.words10, w.words11, w.right)) filled)
              (rw (w.words10, w.words11)
                (points_from-lt d2s s.range10 s.range11 rules dim_max 0 (omega arith) (omega arith)
                  (right-points d2s rules s small filled c w.right))) in
          (node d2s (depth % 256) (low_words d2s s.range10) l r', rw (build, e, eq, el, er) refl)
    ]

build_total :
    (fuel depth : ℕ) (rules : List Rule)
    → All FitsBits rules
    → All IsFilled rules
    → all_points rules < fuel
    → (t : HsNode) × (build fuel depth rules ≡ some t)
unfolding build
build_total zero depth rules fits filled enough = absurd (omega arith)
build_total (suc fuel) depth [] fits filled enough = (leaf 1 (depth % 256) 0 [], refl)
build_total (suc fuel) depth (r ∷ rs) fits filled enough =
    build_step fuel depth r rs fits filled
      (λ rules f g less. build_total fuel (suc depth) rules f g (omega arith))

-- For rules whose ranges fit their dimensions and are not empty, the recursion of BuildHSTree ends with a
-- tree: a depth of 22 for each rule, and one more, is never exceeded, and no table of points is overrun.
pub build-terminates :
    (depth : ℕ) (rules : List Rule)
    → All FitsBits rules
    → All IsFilled rules
    → (t : HsNode) × (build (22 * length rules + 1) depth rules ≡ some t)
build-terminates depth rules fits filled =
    build_total (22 * length rules + 1) depth rules fits filled (omega (arith, all_points_le rules))

-- The priority of a rule is its position, as load_rule sets it.
abbrev pub IsNumbered : List Rule → List Rule → Type 0
IsNumbered rule_set rules = All (λ r. get_elem? rule_set r.pri ≡ some r) rules

search_rules-matching :
    (rule_set rules : List Rule) (packet : ℕ → ℕ)
    → IsNumbered rule_set rules
    → search_rules rule_set (pri_list rules) packet ≡ matching rules packet
unfolding search_rules matching
search_rules-matching rule_set [] packet n = refl
search_rules-matching rule_set (r ∷ rs) packet (n, ns) =
    let ih = search_rules-matching rule_set rs packet ns in
    elim (Bool-cases (matched r packet)) [
      | inl e ↦ rw (search_rules, n, e) (ap (λ l. r.pri ∷ l) ih)
      | inr e ↦ rw (search_rules, n, e) ih
    ]

List-cases : (l : List ℕ) → (l ≡ []) ⊎ ((i : ℕ) × (is : List ℕ) × (l ≡ i ∷ is))
List-cases [] = inl refl
List-cases (i ∷ is) = inr (i, is, refl)

take-all : (l : List ℕ) → take (length l) l ≡ l
take-all [] = refl
take-all (i ∷ is) = ap (λ l. i ∷ l) (take-all is)

length-matching :
    (rules : List Rule) (packet : ℕ → ℕ) → length (matching rules packet) ≤ length rules
unfolding matching
length-matching [] packet = omega arith
length-matching (r ∷ rs) packet = elim (Bool-cases (matched r packet)) [
  | inl e ↦ rw e (omega (arith, length-matching rs packet))
  | inr e ↦ rw e (omega (arith, length-matching rs packet))
]

linear_search-matching :
    (rule_set : List Rule) (packet : ℕ → ℕ) (found : List ℕ)
    → IsNumbered rule_set rule_set
    → linear_search rule_set (pri_list rule_set) packet ≡ some found
    → (matching rule_set packet ≡ found) × (found ≢ [])
unfolding linear_search
linear_search-matching rule_set packet found numbered h =
    let same = search_rules-matching rule_set rule_set packet numbered in
    elim (List-cases (matching rule_set packet)) [
      | inl none_left ↦ absurd (none≢some (rw (linear_search, same, none_left) at h))
      | inr (i, is, some_left) ↦
          let answer : i ∷ is ≡ found = some-inj (rw (linear_search, same, some_left) at h) in
          (some_left ∙ answer, λ z. absurd (cc (answer ∙ z)))
    ]

-- For rules whose ranges fit their dimensions and are not empty, in positions that are their priorities,
-- and a packet for which LinearSearch finds n rules among all of them, BuildHSTree makes a tree, and
-- LookupPacket in it answers with the first n modulo 65536 of these rules, which its leaf counts.
pub lookup_packet-counted :
    (rule_set : List Rule) (packet : ℕ → ℕ) (found : List ℕ)
    → All FitsBits rule_set
    → All IsFilled rule_set
    → IsNumbered rule_set rule_set
    → linear_search rule_set (pri_list rule_set) packet ≡ some found
    → (t : HsNode) × (build (22 * length rule_set + 1) 0 rule_set ≡ some t)
      × (lookup_packet rule_set t packet ≡ some (take (length found % 2 ^ 16) found))
unfolding lookup_packet
lookup_packet-counted rule_set packet found fits filled numbered h =
    let (t, e) = build-terminates 0 rule_set fits filled in
    let (same, some_one) = linear_search-matching rule_set packet found numbered h in
    let walk =
      walk_packet-matching (22 * length rule_set + 1) 0 rule_set t packet fits e
        (λ z. some_one (sym same ∙ z)) in
    (t, e, rw (lookup_packet, walk) (ap (λ l. some (counted l)) same))

-- For fewer than 65536 rules whose ranges fit their dimensions and are not empty, in positions that are
-- their priorities, and a packet that some rule matches, BuildHSTree makes a tree, and LookupPacket in it
-- answers with the rules that LinearSearch finds among all of them.
pub lookup_packet-linear_search :
    (rule_set : List Rule) (packet : ℕ → ℕ)
    → length rule_set < 2 ^ 16
    → All FitsBits rule_set
    → All IsFilled rule_set
    → IsNumbered rule_set rule_set
    → linear_search rule_set (pri_list rule_set) packet ≢ none
    → (t : HsNode) × (build (22 * length rule_set + 1) 0 rule_set ≡ some t)
      × (lookup_packet rule_set t packet ≡ linear_search rule_set (pri_list rule_set) packet)
lookup_packet-linear_search rule_set packet few fits filled numbered found =
    elim (Option-cases (linear_search rule_set (pri_list rule_set) packet)) [
      | inl nothing ↦ absurd (found nothing)
      | inr (l, e) ↦
          let (t, built, answer) = lookup_packet-counted rule_set packet l fits filled numbered e in
          let (same, some_one) = linear_search-matching rule_set packet l numbered e in
          let short : length l < 2 ^ 16 =
            subst (λ k. length k < 2 ^ 16) same
              (omega (arith, length-matching rule_set packet, few)) in
          let whole : length l % 2 ^ 16 ≡ length l = omega (arith, short) in
          (t, built, answer ∙ ap some (ap (λ n. take n l) whole ∙ take-all l) ∙ sym e)
    ]
