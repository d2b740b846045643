-- ===== src/Acl/Shrink.antt =====
-- Each part of a cut has fewer different starts and ends than the rules that are cut.
use sec_fw.Common.{
  ℕ, ◌+◌, ◌≤◌, ◌<◌, ◌≡◌, ◌≢◌, refl, ap, sym, subst, ◌⊎◌, inl, inr, true, false, Bool-cases, ◌==◌,
  ==_self, ltb, List, [], ◌∷◌, All, arith,
}
use sec_fw.Acl.{Rule, dim_max}
use sec_fw.Acl.Build.{SubRanges, reaches, trimmed, child_rules}
use sec_fw.Acl.Marks.{has, starts, finishes}
use sec_fw.Acl.Middle.{or_true}
use sec_fw.Acl.Cut.{IsCut}
use sec_fw.Acl.Distinct.{distinct, Within, Within-distinct, Within-distinct_lt, exchange-distinct}

-- No range is empty.
abbrev pub IsFilled : Rule → Type 0
IsFilled r = (dim : ℕ) → dim < dim_max → r.range0 dim ≤ r.range1 dim

pub start-finish :
    (dim x : ℕ) (rules : List Rule)
    → dim < dim_max
    → All IsFilled rules
    → has x (starts dim rules) ≡ true
    → (y : ℕ) × (has y (finishes dim rules) ≡ true) × (x ≤ y)
unfolding has starts finishes
start-finish dim x [] h f k = absurd (cc k)
start-finish dim x (r ∷ rs) h (f, fs) k = elim (Bool-cases (r.range0 dim == x)) [
  | inl e ↦ (r.range1 dim, rw (==_self (r.range1 dim)) refl, ground (arith, f dim h))
  | inr e ↦
      let (y, inside, le) = start-finish dim x rs h fs (rw e at k) in (y, rw inside (or_true _), le)
]

pub finish-start :
    (dim x : ℕ) (rules : List Rule)
    → dim < dim_max
    → All IsFilled rules
    → has x (finishes dim rules) ≡ true
    → (y : ℕ) × (has y (starts dim rules) ≡ true) × (y ≤ x)
unfolding has starts finishes
finish-start dim x [] h f k = absurd (cc k)
finish-start dim x (r ∷ rs) h (f, fs) k = elim (Bool-cases (r.range1 dim == x)) [
  | inl e ↦ (r.range0 dim, rw (==_self (r.range0 dim)) refl, ground (arith, f dim h))
  | inr e ↦
      let (y, inside, le) = finish-start dim x rs h fs (rw e at k) in (y, rw inside (or_true _), le)
]

module _ (d2s lo hi : ℕ) where
  pub child-IsFilled :
      (rules : List Rule)
      → lo ≤ hi
      → All IsFilled rules
      → All IsFilled (child_rules d2s lo hi rules)
  unfolding child_rules
  child-IsFilled [] o f = _
  child-IsFilled (r ∷ rs) o (f, fs) = elim (Bool-cases (reaches d2s lo hi r)) [
    | inl e ↦ rw e ((λ dim h. trimmed_le dim (f dim h) e), child-IsFilled rs o fs)
    | inr e ↦ rw e (child-IsFilled rs o fs)
  ]
    where
      trimmed_le :
          (dim : ℕ)
          → r.range0 dim ≤ r.range1 dim
          → reaches d2s lo hi r ≡ true
          → (trimmed d2s lo hi r).range0 dim ≤ (trimmed d2s lo hi r).range1 dim
      trimmed_le dim a e = elim (Bool-cases (dim == d2s)) [
        | inl k ↦
            let same : d2s ≡ dim = ground arith in
            ground (arith, ap r.range0 same, ap r.range1 same)
        | inr k ↦ ground arith
      ]

  -- In the other dimensions a part has no new points.
  pub child-starts_other :
      (dim : ℕ) (rules : List Rule)
      → dim ≢ d2s
      → Within (starts dim (child_rules d2s lo hi rules)) (starts dim rules)
  unfolding has starts child_rules
  child-starts_other dim [] n x k = k
  child-starts_other dim (r ∷ rs) n x k = elim (Bool-cases (reaches d2s lo hi r)) [
    | inl e ↦ ground (arith, child-starts_other dim rs n x, rw e at k)
    | inr e ↦ rw (child-starts_other dim rs n x (rw e at k)) (or_true _)
  ]

  pub child-finishes_other :
      (dim : ℕ) (rules : List Rule)
      → dim ≢ d2s
      → Within (finishes dim (child_rules d2s lo hi rules)) (finishes dim rules)
  unfolding has finishes child_rules
  child-finishes_other dim [] n x k = k
  child-finishes_other dim (r ∷ rs) n x k = elim (Bool-cases (reaches d2s lo hi r)) [
    | inl e ↦ ground (arith, child-finishes_other dim rs n x, rw e at k)
    | inr e ↦ rw (child-finishes_other dim rs n x (rw e at k)) (or_true _)
  ]

  -- In the dimension of the cut a start is an old one, or the lower bound in place of a smaller one.
  abbrev pub StartOf : List Rule → ℕ → Type 0
  StartOf rules x =
      (((y : ℕ) × (has y (starts d2s rules) ≡ true) × (y < lo) × (x ≡ lo))
        ⊎ ((has x (starts d2s rules) ≡ true) × (lo ≤ x)))
      × (x ≤ hi)

  abbrev pub FinishOf : List Rule → ℕ → Type 0
  FinishOf rules x =
      (((y : ℕ) × (has y (finishes d2s rules) ≡ true) × (hi < y) × (x ≡ hi))
        ⊎ ((has x (finishes d2s rules) ≡ true) × (x ≤ hi)))
      × (lo ≤ x)

  pub child-StartOf :
      (rules : List Rule)
      → lo ≤ hi
      → (x : ℕ) → has x (starts d2s (child_rules d2s lo hi rules)) ≡ true
      → StartOf rules x
  unfolding has starts child_rules
  child-StartOf [] o x k = absurd (cc k)
  child-StartOf (r ∷ rs) o x k = elim (Bool-cases (reaches d2s lo hi r)) [
    | inl e ↦ elim (Bool-cases ((trimmed d2s lo hi r).range0 d2s == x)) [
      | inl g ↦ elim (Bool-cases (ltb (r.range0 d2s) lo)) [
        | inl b ↦ (
          inl (r.range0 d2s, rw (==_self (r.range0 d2s)) refl, ground arith, ground arith),
          ground arith,
        )
        | inr b ↦ (inr (ground arith, ground arith), ground arith)
      ]
      | inr g ↦ later (child-StartOf rs o x (rw (e, g) at k))
    ]
    | inr e ↦ later (child-StartOf rs o x (rw e at k))
  ]
    where
      later : StartOf rs x → StartOf (r ∷ rs) x
      later (inl (y, i, a, b), h) = (inl (y, rw i (or_true _), a, b), h)
      later (inr (i, a), h) = (inr (rw i (or_true _), a), h)

  pub child-FinishOf :
      (rules : List Rule)
      → lo ≤ hi
      → (x : ℕ) → has x (finishes d2s (child_rules d2s lo hi rules)) ≡ true
      → FinishOf rules x
  unfolding has finishes child_rules
  child-FinishOf [] o x k = absurd (cc k)
  child-FinishOf (r ∷ rs) o x k = elim (Bool-cases (reaches d2s lo hi r)) [
    | inl e ↦ elim (Bool-cases ((trimmed d2s lo hi r).range1 d2s == x)) [
      | inl g ↦ elim (Bool-cases (ltb hi (r.range1 d2s))) [
        | inl b ↦ (
          inl (r.range1 d2s, rw (==_self (r.range1 d2s)) refl, ground arith, ground arith),
          ground arith,
        )
        | inr b ↦ (inr (ground arith, ground arith), ground arith)
      ]
      | inr g ↦ later (child-FinishOf rs o x (rw (e, g) at k))
    ]
    | inr e ↦ later (child-FinishOf rs o x (rw e at k))
  ]
    where
      later : FinishOf rs x → FinishOf (r ∷ rs) x
      later (inl (y, i, a, b), h) = (inl (y, rw i (or_true _), a, b), h)
      later (inr (i, a), h) = (inr (rw i (or_true _), a), h)

  not-has : (x : ℕ) (xs : List ℕ) → (has x xs ≡ true → ⊥) → has x xs ≡ false
  not-has x xs n = elim (Bool-cases (has x xs)) [ inl e ↦ absurd (n e) | inr e ↦ e ]

  module _ (rules : List Rule) (o : lo ≤ hi) where
    -- With no start below the lower bound, the starts are old ones; one above the upper bound is lost.
    old_starts :
        ((y : ℕ) → has y (starts d2s rules) ≡ true → lo ≤ y)
        → Within (starts d2s (child_rules d2s lo hi rules)) (starts d2s rules)
    old_starts least x k = elim (child-StartOf rules o x k).0 [
      | inl (y, i, a, b) ↦ absurd (omega (arith, least y i, a))
      | inr (i, a) ↦ i
    ]

    old_finishes :
        ((y : ℕ) → has y (finishes d2s rules) ≡ true → y ≤ hi)
        → Within (finishes d2s (child_rules d2s lo hi rules)) (finishes d2s rules)
    old_finishes greatest x k = elim (child-FinishOf rules o x k).0 [
      | inl (y, i, a, b) ↦ absurd (omega (arith, greatest y i, a))
      | inr (i, a) ↦ i
    ]

    -- The lower bound is itself a start, and a smaller one is lost.
    pub cut_starts :
        (z : ℕ)
        → (has lo (starts d2s rules) ≡ true) ⊎ ((y : ℕ) → has y (starts d2s rules) ≡ true → lo ≤ y)
        → has z (starts d2s rules) ≡ true
        → (z < lo) ⊎ (hi < z)
        → distinct (starts d2s (child_rules d2s lo hi rules)) < distinct (starts d2s rules)
    cut_starts z own inside out =
        Within-distinct_lt z _ _
          (elim own [
            | inl i ↦ λ x k. elim (child-StartOf rules o x k).0 [
              | inl (y, j, a, b) ↦ subst (λ n. has n (starts d2s rules) ≡ true) (sym b) i
              | inr (j, a) ↦ j
            ]
            | inr least ↦ old_starts least
          ])
          inside (not-has z _ (λ k. beyond z out (child-StartOf rules o z k)))
      where
        beyond : (z : ℕ) → (z < lo) ⊎ (hi < z) → StartOf rules z → ⊥
        beyond z (inl a) (inl (y, i, b, e), h) = omega (arith, a, e)
        beyond z (inl a) (inr (i, b), h) = omega (arith, a, b)
        beyond z (inr a) (s, h) = omega (arith, a, h)

    pub cut_finishes :
        (z : ℕ)
        → (has hi (finishes d2s rules) ≡ true)
          ⊎ ((y : ℕ) → has y (finishes d2s rules) ≡ true → y ≤ hi)
        → has z (finishes d2s rules) ≡ true
        → (z < lo) ⊎ (hi < z)
        → distinct (finishes d2s (child_rules d2s lo hi rules)) < distinct (finishes d2s rules)
    cut_finishes z own inside out =
        Within-distinct_lt z _ _
          (elim own [
            | inl i ↦ λ x k. elim (child-FinishOf rules o x k).0 [
              | inl (y, j, a, b) ↦ subst (λ n. has n (finishes d2s rules) ≡ true) (sym b) i
              | inr (j, a) ↦ j
            ]
            | inr greatest ↦ old_finishes greatest
          ])
          inside (not-has z _ (λ k. beyond z out (child-FinishOf rules o z k)))
      where
        beyond : (z : ℕ) → (z < lo) ⊎ (hi < z) → FinishOf rules z → ⊥
        beyond z (inr a) (inl (y, i, b, e), h) = omega (arith, a, e)
        beyond z (inr a) (inr (i, b), h) = omega (arith, a, b)
        beyond z (inl a) (s, h) = omega (arith, a, h)

    pub kept_starts :
        ((y : ℕ) → has y (starts d2s rules) ≡ true → lo ≤ y)
        → distinct (starts d2s (child_rules d2s lo hi rules)) ≤ distinct (starts d2s rules)
    kept_starts least = Within-distinct _ _ (old_starts least)

    pub kept_finishes :
        ((y : ℕ) → has y (finishes d2s rules) ≡ true → y ≤ hi)
        → distinct (finishes d2s (child_rules d2s lo hi rules)) ≤ distinct (finishes d2s rules)
    kept_finishes greatest = Within-distinct _ _ (old_finishes greatest)

    -- The bound comes in exchange for one that is lost.
    pub new_start :
        (z : ℕ)
        → has z (starts d2s rules) ≡ true
        → z < lo
        → distinct (starts d2s (child_rules d2s lo hi rules)) ≤ distinct (starts d2s rules)
    new_start z inside out =
        exchange-distinct z lo _ _
          (λ x k. elim (child-StartOf rules o x k).0 [
            | inl (y, i, a, b) ↦ inl b
            | inr (i, a) ↦ inr (i, λ e. omega (arith, out, a, e))
          ])
          inside

    pub new_finish :
        (z : ℕ)
        → has z (finishes d2s rules) ≡ true
        → hi < z
        → distinct (finishes d2s (child_rules d2s lo hi rules)) ≤ distinct (finishes d2s rules)
    new_finish z inside out =
        exchange-distinct z hi _ _
          (λ x k. elim (child-FinishOf rules o x k).0 [
            | inl (y, i, a, b) ↦ inl b
            | inr (i, a) ↦ inr (i, λ e. omega (arith, out, a, e))
          ])
          inside

-- The number of different starts and ends of a dimension.
abbrev pub points : ℕ → List Rule → ℕ
points dim rules = distinct (starts dim rules) + distinct (finishes dim rules)

module _ (d2s : ℕ) (rules : List Rule) (s : SubRanges) (h : d2s < dim_max)
    (filled : All IsFilled rules) (c : IsCut d2s rules s) where
  start_at_least : (y : ℕ) → has y (starts d2s rules) ≡ true → s.range00 ≤ y
  start_at_least y k = c.least y (inl k)

  finish_at_most : (y : ℕ) → has y (finishes d2s rules) ≡ true → y ≤ s.range11
  finish_at_most y k = c.greatest y (inr k)

  first_start : (y : ℕ) × (has y (starts d2s rules) ≡ true) × (y ≤ s.range00)
  first_start = elim c.first [
    | inl k ↦ (s.range00, k, omega arith)
    | inr k ↦ finish-start d2s s.range00 rules h filled k
  ]

  last_finish : (y : ℕ) × (has y (finishes d2s rules) ≡ true) × (s.range11 ≤ y)
  last_finish = elim c.last [
    | inl k ↦ start-finish d2s s.range11 rules h filled k
    | inr k ↦ (s.range11, k, omega arith)
  ]

  pub left-points :
      s.range00 ≤ s.range01
      → points d2s (child_rules d2s s.range00 s.range01 rules) < points d2s rules
  left-points o = elim c.cut [
    | inl (a, b) ↦
        let (y, i, le) = start-finish d2s s.range10 rules h filled a in
        omega (
          arith,
          cut_starts d2s s.range00 s.range01 rules o s.range10 (inr start_at_least) a
              (inr (omega (arith, c.meet))),
          new_finish d2s s.range00 s.range01 rules o y i (omega (arith, c.meet, le)),
        )
    | inr (a, b) ↦
        let (y, i, le) = last_finish in
        omega (
          arith,
          kept_starts d2s s.range00 s.range01 rules o start_at_least,
          cut_finishes d2s s.range00 s.range01 rules o y (inl a) i (inr (omega (arith, b, le))),
        )
  ]

  pub right-points :
      s.range10 ≤ s.range11
      → points d2s (child_rules d2s s.range10 s.range11 rules) < points d2s rules
  right-points o = elim c.cut [
    | inl (a, b) ↦
        let (y, i, le) = first_start in
        omega (
          arith,
          cut_starts d2s s.range10 s.range11 rules o y (inl a) i (inl (omega (arith, b, le))),
          kept_finishes d2s s.range10 s.range11 rules o finish_at_most,
        )
    | inr (a, b) ↦
        let (y, i, le) = finish-start d2s s.range01 rules h filled a in
        omega (
          arith,
          new_start d2s s.range10 s.range11 rules o y i (omega (arith, c.meet, le)),
          cut_finishes d2s s.range10 s.range11 rules o s.range01 (inr finish_at_most) a
              (inl (omega (arith, c.meet))),
        )
  ]
