-- ===== src/Acl/Cut.antt =====
-- Where BuildHSTree cuts a dimension with three points or more.
use sec_fw.Common.{
  ℕ, suc, ◌/◌, ◌^◌, ◌≤◌, ◌<◌, ◌≡◌, refl, sym, subst, ◌∙◌, ◌⊎◌, inl, inr, Bool, true, Bool-cases,
  ◌==◌, ==_self, ==_iff, ltb, List, [], ◌∷◌, All, some, arith,
}
use sec_fw.Acl.{Rule, SegmentPt, number_bits, segment_points, qsort, dim_max}
use sec_fw.Acl.Build.{SubRanges, splits_below, sub_ranges, subtract, add, last_point, find_split}
use sec_fw.Acl.Marks.{
  has_start, has_finish, marks, has, starts, finishes, segment_points-has_start,
  segment_points-has_finish, segment_points-marks,
}
use sec_fw.Acl.Middle.{
  IsSorted, points-IsSorted, Found, root-Found, flag-cases, or_true, qsort-has_start,
  qsort-has_finish, qsort-marks,
}

-- Every bound of a range fits its dimension.
abbrev pub FitsBits : Rule → Type 0
FitsBits r =
    (dim : ℕ)
    → dim < dim_max
    → (r.range0 dim < 2 ^ number_bits dim) × (r.range1 dim < 2 ^ number_bits dim)

-- A number is the start or the end of a rule.
abbrev pub IsPoint : ℕ → List Rule → ℕ → Type 0
IsPoint dim rules x = (has x (starts dim rules) ≡ true) ⊎ (has x (finishes dim rules) ≡ true)

abbrev IsMark : List SegmentPt → ℕ → Type 0
IsMark qs x = (has_start x qs ≡ true) ⊎ (has_finish x qs ≡ true)

has_start-All :
    (P : ℕ → Type 0) (x : ℕ) (qs : List SegmentPt)
    → All (λ q. P q.segmentpoint) qs
    → has_start x qs ≡ true
    → P x
unfolding has_start
has_start-All P x [] l h = absurd (cc h)
has_start-All P x (q ∷ qs) (l, ls) h = elim (Bool-cases (q.segmentpoint == x)) [
  | inl e ↦ subst P ((==_iff q.segmentpoint x).0 e) l
  | inr e ↦ has_start-All P x qs ls (rw e at h)
]

has_finish-All :
    (P : ℕ → Type 0) (x : ℕ) (qs : List SegmentPt)
    → All (λ q. P q.segmentpoint) qs
    → has_finish x qs ≡ true
    → P x
unfolding has_finish
has_finish-All P x [] l h = absurd (cc h)
has_finish-All P x (q ∷ qs) (l, ls) h = elim (Bool-cases (q.segmentpoint == x)) [
  | inl e ↦ subst P ((==_iff q.segmentpoint x).0 e) l
  | inr e ↦ has_finish-All P x qs ls (rw e at h)
]

IsMark-All :
    (P : ℕ → Type 0) (x : ℕ) (qs : List SegmentPt)
    → All (λ q. P q.segmentpoint) qs
    → IsMark qs x
    → P x
IsMark-All P x qs l (inl h) = has_start-All P x qs l h
IsMark-All P x qs l (inr h) = has_finish-All P x qs l h

head-IsMark : (q : SegmentPt) (qs : List SegmentPt) → IsMark (q ∷ qs) q.segmentpoint
unfolding has_start has_finish
head-IsMark q qs = elim (flag-cases q.flag) [
  | inl k ↦ inl (rw (==_self q.segmentpoint, k) refl)
  | inr (inl k) ↦ inr (rw (==_self q.segmentpoint, k) refl)
  | inr (inr k) ↦ inl (rw (==_self q.segmentpoint, k) refl)
]

tail-IsMark : (q : SegmentPt) (qs : List SegmentPt) (x : ℕ) → IsMark qs x → IsMark (q ∷ qs) x
unfolding has_start has_finish
tail-IsMark q qs x (inl h) = inl (rw h (or_true _))
tail-IsMark q qs x (inr h) = inr (rw h (or_true _))

last-IsMark : (q : SegmentPt) (qs : List SegmentPt) → IsMark (q ∷ qs) (last_point (q ∷ qs))
unfolding last_point
last-IsMark q [] = head-IsMark q []
last-IsMark q (r ∷ rs) = tail-IsMark q (r ∷ rs) _ (last-IsMark r rs)

All-le-last :
    (q : SegmentPt) (qs : List SegmentPt)
    → IsSorted (q ∷ qs)
    → All (λ x. x.segmentpoint ≤ last_point (q ∷ qs)) (q ∷ qs)
unfolding last_point
All-le-last q [] s = (omega arith, _)
All-le-last q (r ∷ rs) (l, s) =
    let rest = All-le-last r rs s in
    let less : q.segmentpoint < r.segmentpoint = l.0 in
    let below : r.segmentpoint ≤ last_point (r ∷ rs) = rest.0 in (omega arith, rest)

All-first-le :
    (a : ℕ) (qs : List SegmentPt)
    → All (λ x. a < x.segmentpoint) qs
    → All (λ x. a ≤ x.segmentpoint) qs
All-first-le a [] l = _
All-first-le a (q ∷ qs) (l, ls) = (omega arith, All-first-le a qs ls)

-- The two parts: they meet between two points, or above an end, and all points lie in them.
pub record IsCut (dim : ℕ) (rules : List Rule) (s : SubRanges) : Type 0 where
  pub first : IsPoint dim rules s.range00
  pub last : IsPoint dim rules s.range11
  pub least : (x : ℕ) → IsPoint dim rules x → s.range00 ≤ x
  pub greatest : (x : ℕ) → IsPoint dim rules x → x ≤ s.range11
  pub meet : suc s.range01 ≡ s.range10
  pub cut :
      ((has s.range10 (starts dim rules) ≡ true) × (s.range00 < s.range10))
      ⊎ ((has s.range01 (finishes dim rules) ≡ true) × (s.range01 < s.range11))

-- A cut of a sorted table of points.
record TableCut (qs : List SegmentPt) (s : SubRanges) : Type 0 where
  pub first : IsMark qs s.range00
  pub last : IsMark qs s.range11
  pub least : (x : ℕ) → IsMark qs x → s.range00 ≤ x
  pub greatest : (x : ℕ) → IsMark qs x → x ≤ s.range11
  pub meet : suc s.range01 ≡ s.range10
  pub cut :
      ((has_start s.range10 qs ≡ true) × (s.range00 < s.range10))
      ⊎ ((has_finish s.range01 qs ≡ true) × (s.range01 < s.range11))

sub_ranges-TableCut :
    (q : SegmentPt) (qs : List SegmentPt) (p : SegmentPt) (flag_pos : Bool)
    → IsSorted (q ∷ qs)
    → ((x : ℕ) → IsMark (q ∷ qs) x → x < 2 ^ 64)
    → Found (q ∷ qs) p flag_pos
    → (splits_below p.flag flag_pos ≡ true → q.segmentpoint < p.segmentpoint)
    → TableCut (q ∷ qs) (sub_ranges q.segmentpoint (last_point (q ∷ qs)) p flag_pos)
unfolding sub_ranges
sub_ranges-TableCut q qs p flag_pos (l, s) fits f after =
    let least : (x : ℕ) → IsMark (q ∷ qs) x → q.segmentpoint ≤ x = λ x.
      IsMark-All (λ y. q.segmentpoint ≤ y) x (q ∷ qs)
        (omega arith, All-first-le q.segmentpoint qs l) in
    let greatest : (x : ℕ) → IsMark (q ∷ qs) x → x ≤ last_point (q ∷ qs) =
      λ x. IsMark-All (λ y. y ≤ last_point (q ∷ qs)) x (q ∷ qs) (All-le-last q qs (l, s)) in
    elim (Bool-cases (splits_below p.flag flag_pos)) [
      | inl e ↦
          let small : p.segmentpoint < 2 ^ 64 = fits p.segmentpoint (inl (f.below e)) in
          let low : q.segmentpoint < p.segmentpoint = after e in
          let back : add (subtract p.segmentpoint) ≡ p.segmentpoint = omega arith in
          rw e (record {
            first = head-IsMark q qs;
            last = last-IsMark q qs;
            least = least;
            greatest = greatest;
            meet = omega arith;
            cut = inl (rw back (f.below e), omega arith);
          })
      | inr e ↦
          let small : p.segmentpoint < 2 ^ 64 = fits p.segmentpoint (inr (f.above e).0) in
          rw e (record {
            first = head-IsMark q qs;
            last = last-IsMark q qs;
            least = least;
            greatest = greatest;
            meet = omega arith;
            cut = inr (f.above e);
          })
    ]

table-TableCut :
    (qs : List SegmentPt) (all : ℕ)
    → IsSorted qs
    → ((x : ℕ) → IsMark qs x → x < 2 ^ 64)
    → all ≡ marks qs
    → 3 ≤ all
    → (s : SubRanges) × (find_split qs all ≡ some s) × TableCut qs s
unfolding find_split marks
table-TableCut [] all s fits e h = absurd (omega (arith, e))
table-TableCut (q ∷ qs) all s fits e h =
    let (p, f, eq, found, after) = root-Found (all / 2) q qs s (omega arith) (omega (arith, e)) in
    (
      sub_ranges q.segmentpoint (last_point (q ∷ qs)) p f,
      rw (find_split, eq) refl,
      sub_ranges-TableCut q qs p f s fits found after,
    )

has-All :
    (P : ℕ → Type 0) (dim : ℕ) (rules : List Rule)
    → All (λ r. P (r.range0 dim) × P (r.range1 dim)) rules
    → (x : ℕ) → IsPoint dim rules x
    → P x
unfolding has starts finishes
has-All P dim [] a x (inl h) = absurd (cc h)
has-All P dim [] a x (inr h) = absurd (cc h)
has-All P dim (r ∷ rs) ((b, c), a) x (inl h) = elim (Bool-cases (r.range0 dim == x)) [
  | inl e ↦ subst P ((==_iff (r.range0 dim) x).0 e) b
  | inr e ↦ has-All P dim rs a x (inl (rw e at h))
]
has-All P dim (r ∷ rs) ((b, c), a) x (inr h) = elim (Bool-cases (r.range1 dim == x)) [
  | inl e ↦ subst P ((==_iff (r.range1 dim) x).0 e) c
  | inr e ↦ has-All P dim rs a x (inr (rw e at h))
]

-- All points of rules that fit their bits do.
pub point-fits :
    (dim : ℕ) (rules : List Rule)
    → dim < dim_max
    → All FitsBits rules
    → (x : ℕ) → IsPoint dim rules x
    → x < 2 ^ number_bits dim
point-fits dim rules h fits = has-All (λ x. x < 2 ^ number_bits dim) dim rules (each rules fits)
  where
    each :
        (l : List Rule)
        → All FitsBits l
        → All (λ r. (r.range0 dim < 2 ^ number_bits dim) × (r.range1 dim < 2 ^ number_bits dim)) l
    each [] f = _
    each (r ∷ rs) (f, fs) = (f dim h, each rs fs)

pub number_bits_le : (dim x : ℕ) → x < 2 ^ number_bits dim → x < 2 ^ 64
number_bits_le dim x h = elim (Bool-cases (ltb dim 2)) [
  | inl e ↦ let k : x < 2 ^ 64 = rw e at h in k
  | inr e ↦ let k : x < 2 ^ 32 = rw e at h in omega arith
]

pub find_split-IsCut :
    (dim : ℕ) (rules : List Rule)
    → dim < dim_max
    → All FitsBits rules
    → 3 ≤ (segment_points dim rules).1
    → (s : SubRanges) × (find_split
          (qsort (segment_points dim rules).0)
          (segment_points dim rules).1
        ≡ some s)
      × IsCut dim rules s
find_split-IsCut dim rules h fits more =
    let t = (segment_points dim rules).0 in
    let to_point : (x : ℕ) → IsMark (qsort t) x → IsPoint dim rules x = λ x m. elim m [
      | inl a ↦ inl (sym (segment_points-has_start dim rules x) ∙ sym (qsort-has_start x t) ∙ a)
      | inr a ↦ inr (sym (segment_points-has_finish dim rules x) ∙ sym (qsort-has_finish x t) ∙ a)
    ] in
    let to_mark : (x : ℕ) → IsPoint dim rules x → IsMark (qsort t) x = λ x m. elim m [
      | inl a ↦ inl (qsort-has_start x t ∙ segment_points-has_start dim rules x ∙ a)
      | inr a ↦ inr (qsort-has_finish x t ∙ segment_points-has_finish dim rules x ∙ a)
    ] in
    let (s, eq, c) =
      table-TableCut (qsort t) (segment_points dim rules).1 (points-IsSorted dim rules)
        (λ x m. number_bits_le dim x (point-fits dim rules h fits x (to_point x m)))
        (segment_points-marks dim rules ∙ sym (qsort-marks t)) more in
    (
      s,
      eq,
      record {
        first = to_point s.range00 c.first;
        last = to_point s.range11 c.last;
        least = λ x k. c.least x (to_mark x k);
        greatest = λ x k. c.greatest x (to_mark x k);
        meet = c.meet;
        cut = elim c.cut [
          | inl (a, b) ↦ inl (
            sym (segment_points-has_start dim rules s.range10)
                ∙ sym (qsort-has_start s.range10 t)
                ∙ a,
            b,
          )
          | inr (a, b) ↦ inr (
            sym (segment_points-has_finish dim rules s.range01)
                ∙ sym (qsort-has_finish s.range01 t)
                ∙ a,
            b,
          )
        ];
      },
    )
