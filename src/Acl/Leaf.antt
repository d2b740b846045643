-- ===== src/Acl/Leaf.antt =====
-- The rules of a leaf, with at most two points in each dimension, are one box: all match a packet, or none.
use sec_fw.Common.{
  ℕ, zero, suc, ◌+◌, ◌≤◌, ◌<◌, ◌≡◌, ◌≢◌, refl, ap, ◌∙◌, ◌⊎◌, inl, inr, true, Bool-cases, ◌==◌,
  ==_self, ltb, if◌then◌else◌, List, [], ◌∷◌, All, arith,
}
use sec_fw.Acl.{Rule, segment_points, find_dim, split_dim, dim_max, matched_from, matched}
use sec_fw.Acl.Build.{pri_list}
use sec_fw.Acl.Trim.{matching}
use sec_fw.Acl.Marks.{
  has, starts, finishes, marks, segment_points-has_start, segment_points-has_finish,
  segment_points-marks, one_start, one_finish,
}

-- What `find_dim` answers is the most points of a dimension.
find_dim-most :
    (rules : List Rule) (n dim d2s max_all : ℕ)
    → (max_all ≤ (find_dim rules n dim d2s max_all).1)
      × ((j : ℕ)
          → dim ≤ j
          → j < dim + n
          → (segment_points j rules).1 ≤ (find_dim rules n dim d2s max_all).1)
unfolding find_dim
find_dim-most rules zero dim d2s max_all = (omega arith, λ j a b. absurd (omega arith))
find_dim-most rules (suc n) dim d2s max_all =
    let all = (segment_points dim rules).1 in
    let rest =
      find_dim-most rules n (suc dim) (if ltb max_all all then dim else d2s)
        (if ltb max_all all then all else max_all) in
    (
      ground (arith, rest.0),
      λ j a b. elim (Bool-cases (j == dim)) [
        | inl e ↦
            let at_dim : j ≡ dim = ground arith in
            ground (arith, rest.0, ap (λ i. (segment_points i rules).1) at_dim)
        | inr e ↦ rest.1 j (ground arith) (omega arith)
      ],
    )

pub split_dim-most :
    (rules : List Rule) (j : ℕ) → j < dim_max → (segment_points j rules).1 ≤ (split_dim rules).1
split_dim-most rules j h = (find_dim-most rules dim_max 0 0 1).1 j (omega arith) (omega arith)

-- It is the number of points of the dimension that it answers with, or 1.
abbrev Attained : List Rule → ℕ × ℕ → Type 0
Attained rules p = ((p.0 < dim_max) × (p.1 ≡ (segment_points p.0 rules).1)) ⊎ (p.1 ≡ 1)

find_dim-Attained :
    (rules : List Rule) (n dim d2s max_all : ℕ)
    → dim + n ≤ dim_max
    → Attained rules (d2s, max_all)
    → Attained rules (find_dim rules n dim d2s max_all)
unfolding find_dim
find_dim-Attained rules zero dim d2s max_all h a = a
find_dim-Attained rules (suc n) dim d2s max_all h a =
    find_dim-Attained rules n (suc dim) _ _ (omega arith)
      (elim (Bool-cases (ltb max_all (segment_points dim rules).1)) [
        | inl e ↦ rw e (inl (omega arith, refl))
        | inr e ↦ rw e a
      ])

pub split_dim-attained :
    (rules : List Rule)
    → 2 < (split_dim rules).1
    → ((split_dim rules).0 < dim_max)
      × ((split_dim rules).1 ≡ (segment_points (split_dim rules).0 rules).1)
split_dim-attained rules h = elim (find_dim-Attained rules dim_max 0 0 1 (omega arith) (inr refl)) [
  | inl r ↦ r
  | inr e ↦ absurd (omega (arith, h, e))
]

-- If all starts of a dimension are one number, they are so rule by rule.
starts-All :
    (dim a : ℕ) (rules : List Rule)
    → ((x : ℕ) → has x (starts dim rules) ≡ true → x ≡ a)
    → All (λ q. q.range0 dim ≡ a) rules
unfolding has starts
starts-All dim a [] h = _
starts-All dim a (r ∷ rs) h = (
  h (r.range0 dim) (rw (==_self (r.range0 dim)) refl),
  starts-All dim a rs (λ x k. h x (ground arith)),
)

finishes-All :
    (dim a : ℕ) (rules : List Rule)
    → ((x : ℕ) → has x (finishes dim rules) ≡ true → x ≡ a)
    → All (λ q. q.range1 dim ≡ a) rules
unfolding has finishes
finishes-All dim a [] h = _
finishes-All dim a (r ∷ rs) h = (
  h (r.range1 dim) (rw (==_self (r.range1 dim)) refl),
  finishes-All dim a rs (λ x k. h x (ground arith)),
)

-- The ranges of two rules are the same in every dimension.
abbrev SameBox : Rule → Rule → Type 0
SameBox r q =
    (dim : ℕ) → dim < dim_max → (q.range0 dim ≡ r.range0 dim) × (q.range1 dim ≡ r.range1 dim)

All-SameBox :
    (r : Rule) (rules : List Rule)
    → ((dim : ℕ) → dim < dim_max → All (λ q. q.range0 dim ≡ r.range0 dim) rules)
    → ((dim : ℕ) → dim < dim_max → All (λ q. q.range1 dim ≡ r.range1 dim) rules)
    → All (SameBox r) rules
All-SameBox r [] a b = _
All-SameBox r (q ∷ qs) a b = (
  λ dim h. ((a dim h).0, (b dim h).0),
  All-SameBox r qs (λ dim h. (a dim h).1) (λ dim h. (b dim h).1),
)

leaf-SameBox : (r : Rule) (rs : List Rule) → (split_dim (r ∷ rs)).1 ≤ 2 → All (SameBox r) (r ∷ rs)
unfolding has starts finishes
leaf-SameBox r rs few =
    let rules = r ∷ rs in
    let first_start : (dim : ℕ) → has (r.range0 dim) (starts dim rules) ≡ true =
      λ dim. rw (==_self (r.range0 dim)) refl in
    let first_finish : (dim : ℕ) → has (r.range1 dim) (finishes dim rules) ≡ true =
      λ dim. rw (==_self (r.range1 dim)) refl in
    let two : (dim : ℕ) → dim < dim_max → marks (segment_points dim rules).0 ≤ 2 =
      λ dim h. omega (arith, few, split_dim-most rules dim h, segment_points-marks dim rules) in
    All-SameBox r rules
      (λ dim h. starts-All dim (r.range0 dim) rules (λ x k.
        one_start x (r.range0 dim) (r.range1 dim) (segment_points dim rules).0 (two dim h)
          (segment_points-has_start dim rules x ∙ k)
          (segment_points-has_start dim rules (r.range0 dim) ∙ first_start dim)
          (segment_points-has_finish dim rules (r.range1 dim) ∙ first_finish dim)))
      (λ dim h. finishes-All dim (r.range1 dim) rules (λ x k.
        one_finish x (r.range1 dim) (r.range0 dim) (segment_points dim rules).0 (two dim h)
          (segment_points-has_finish dim rules x ∙ k)
          (segment_points-has_finish dim rules (r.range1 dim) ∙ first_finish dim)
          (segment_points-has_start dim rules (r.range0 dim) ∙ first_start dim)))

SameBox-matched_from :
    (r q : Rule) (packet : ℕ → ℕ) (n dim : ℕ)
    → SameBox r q
    → dim + n ≤ dim_max
    → matched_from n dim q packet ≡ matched_from n dim r packet
unfolding matched_from
SameBox-matched_from r q packet zero dim s h = refl
SameBox-matched_from r q packet (suc n) dim s h =
    let (a, b) = s dim (omega arith) in
    rw (a, b) (rw (SameBox-matched_from r q packet n (suc dim) s (omega arith)) refl)

-- One box: what matches one rule matches all.
box-matching :
    (r : Rule) (rules : List Rule) (packet : ℕ → ℕ)
    → All (SameBox r) rules
    → matching rules packet ≡ (if matched r packet then pri_list rules else [])
unfolding matching
box-matching r [] packet s = ground arith
box-matching r (q ∷ qs) packet (s, ss) =
    let same = SameBox-matched_from r q packet dim_max 0 s (omega arith) in
    let ih = box-matching r qs packet ss in
    elim (Bool-cases (matched r packet)) [
      | inl e ↦ rw (same, ih, e) refl
      | inr e ↦ rw (same, ih, e) refl
    ]

pub leaf-matching :
    (r : Rule) (rs : List Rule) (packet : ℕ → ℕ)
    → (split_dim (r ∷ rs)).1 ≤ 2
    → matching (r ∷ rs) packet ≢ []
    → matching (r ∷ rs) packet ≡ pri_list (r ∷ rs)
leaf-matching r rs packet few some_one =
    let box = box-matching r (r ∷ rs) packet (leaf-SameBox r rs few) in
    elim (Bool-cases (matched r packet)) [
      | inl e ↦ rw e at box
      | inr e ↦ absurd (some_one (rw e at box))
    ]
