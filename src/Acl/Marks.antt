-- ===== src/Acl/Marks.antt =====
-- What the table of points says: which numbers it marks as starts and as ends, and how many marks it has.
use sec_fw.Common.{
  ℕ, ◌+◌, ◌≤◌, ◌≡◌, ◌≢◌, refl, ap, ◌∙◌, inl, inr, Bool, true, false, ◌&&◌, ◌||◌, Bool-cases, ◌==◌,
  if◌then◌else◌, List, [], ◌∷◌, arith,
}
use sec_fw.Acl.{Rule, SegFlag, SegmentPt, add_point, count_points, segment_points}

abbrev pub is_start : SegFlag → Bool
is_start SegFlag.start = true
is_start SegFlag.finish = false
is_start SegFlag.both = true

abbrev pub is_finish : SegFlag → Bool
is_finish SegFlag.start = false
is_finish SegFlag.finish = true
is_finish SegFlag.both = true

abbrev pub weight : SegFlag → ℕ
weight SegFlag.start = 1
weight SegFlag.finish = 1
weight SegFlag.both = 2

unfoldable pub has_start : ℕ → List SegmentPt → Bool
has_start x [] = false
has_start x (p ∷ ps) = (p.segmentpoint == x && is_start p.flag) || has_start x ps

unfoldable pub has_finish : ℕ → List SegmentPt → Bool
has_finish x [] = false
has_finish x (p ∷ ps) = (p.segmentpoint == x && is_finish p.flag) || has_finish x ps

unfoldable pub marks : List SegmentPt → ℕ
marks [] = 0
marks (p ∷ ps) = weight p.flag + marks ps

-- A number among those of a list.
unfoldable pub has : ℕ → List ℕ → Bool
has x [] = false
has x (y ∷ ys) = y == x || has x ys

unfoldable pub starts : ℕ → List Rule → List ℕ
starts dim [] = []
starts dim (r ∷ rs) = r.range0 dim ∷ starts dim rs

unfoldable pub finishes : ℕ → List Rule → List ℕ
finishes dim [] = []
finishes dim (r ∷ rs) = r.range1 dim ∷ finishes dim rs

add_start-has_start :
    (x y : ℕ) (t : List SegmentPt)
    → has_start y (add_point x SegFlag.start t).0 ≡ (x == y || has_start y t)
unfolding add_point has_start
add_start-has_start x y [] = ground arith
add_start-has_start x y (p ∷ ps) = ground (arith, add_start-has_start x y ps)

add_start-has_finish :
    (x y : ℕ) (t : List SegmentPt) → has_finish y (add_point x SegFlag.start t).0 ≡ has_finish y t
unfolding add_point has_finish
add_start-has_finish x y [] = ground arith
add_start-has_finish x y (p ∷ ps) = ground (arith, add_start-has_finish x y ps)

add_point-marks :
    (x : ℕ) (k : SegFlag) (t : List SegmentPt)
    → k ≢ SegFlag.both
    → marks (add_point x k t).0 ≡ marks t + (add_point x k t).1
unfolding add_point marks
add_point-marks x SegFlag.start [] n = refl
add_point-marks x SegFlag.finish [] n = refl
add_point-marks x SegFlag.both [] n = absurd (n refl)
add_point-marks x SegFlag.start (p ∷ ps) n = ground (arith, add_point-marks x SegFlag.start ps n)
add_point-marks x SegFlag.finish (p ∷ ps) n = ground (arith, add_point-marks x SegFlag.finish ps n)
add_point-marks x SegFlag.both (p ∷ ps) n = absurd (n refl)

add_finish-has_start :
    (x y : ℕ) (t : List SegmentPt) → has_start y (add_point x SegFlag.finish t).0 ≡ has_start y t
unfolding add_point has_start
add_finish-has_start x y [] = ground arith
add_finish-has_start x y (p ∷ ps) = ground (arith, add_finish-has_start x y ps)

add_finish-has_finish :
    (x y : ℕ) (t : List SegmentPt)
    → has_finish y (add_point x SegFlag.finish t).0 ≡ (x == y || has_finish y t)
unfolding add_point has_finish
add_finish-has_finish x y [] = ground arith
add_finish-has_finish x y (p ∷ ps) = ground (arith, add_finish-has_finish x y ps)

or_false : (a : Bool) → (a || false) ≡ a
or_false true = refl
or_false false = refl

or_swap : (a b c : Bool) → (a || (b || c)) ≡ ((b || a) || c)
or_swap true true c = refl
or_swap true false c = refl
or_swap false true c = refl
or_swap false false c = refl

-- The table of points of a set of rules marks their starts and their ends, and nothing else.
count_points-has_start :
    (dim y : ℕ) (rules : List Rule) (t : List SegmentPt) (all : ℕ)
    → has_start y (count_points dim rules t all).0 ≡ (has y (starts dim rules) || has_start y t)
unfolding count_points has starts
count_points-has_start dim y [] t all = refl
count_points-has_start dim y (r ∷ rs) t all =
    let s1 = add_point (r.range0 dim) SegFlag.start t in
    let s2 = add_point (r.range1 dim) SegFlag.finish s1.0 in
    count_points-has_start dim y rs s2.0 (all + s1.1 + s2.1)
    ∙ ap (λ b. has y (starts dim rs) || b)
        (add_finish-has_start (r.range1 dim) y s1.0 ∙ add_start-has_start (r.range0 dim) y t)
    ∙ or_swap (has y (starts dim rs)) (r.range0 dim == y) (has_start y t)

count_points-has_finish :
    (dim y : ℕ) (rules : List Rule) (t : List SegmentPt) (all : ℕ)
    → has_finish y (count_points dim rules t all).0 ≡ (has y (finishes dim rules) || has_finish y t)
unfolding count_points has finishes
count_points-has_finish dim y [] t all = refl
count_points-has_finish dim y (r ∷ rs) t all =
    let s1 = add_point (r.range0 dim) SegFlag.start t in
    let s2 = add_point (r.range1 dim) SegFlag.finish s1.0 in
    count_points-has_finish dim y rs s2.0 (all + s1.1 + s2.1)
    ∙ ap (λ b. has y (finishes dim rs) || b)
        (add_finish-has_finish (r.range1 dim) y s1.0
          ∙ ap (λ b. r.range1 dim == y || b) (add_start-has_finish (r.range0 dim) y t))
    ∙ or_swap (has y (finishes dim rs)) (r.range1 dim == y) (has_finish y t)

-- The count is that of the marks.
count_points-marks :
    (dim : ℕ) (rules : List Rule) (t : List SegmentPt) (all : ℕ)
    → all ≡ marks t
    → (count_points dim rules t all).1 ≡ marks (count_points dim rules t all).0
unfolding count_points
count_points-marks dim [] t all e = e
count_points-marks dim (r ∷ rs) t all e =
    let s1 = add_point (r.range0 dim) SegFlag.start t in
    let s2 = add_point (r.range1 dim) SegFlag.finish s1.0 in
    count_points-marks dim rs s2.0 (all + s1.1 + s2.1) (
      omega (
        arith,
        e,
        add_point-marks (r.range0 dim) SegFlag.start t (λ k. cc),
        add_point-marks (r.range1 dim) SegFlag.finish s1.0 (λ k. cc),
      ))

module _ (dim : ℕ) (rules : List Rule) where
  pub segment_points-has_start :
      (y : ℕ) → has_start y (segment_points dim rules).0 ≡ has y (starts dim rules)
  unfolding has_start
  segment_points-has_start y =
      count_points-has_start dim y rules [] 0 ∙ or_false (has y (starts dim rules))

  pub segment_points-has_finish :
      (y : ℕ) → has_finish y (segment_points dim rules).0 ≡ has y (finishes dim rules)
  unfolding has_finish
  segment_points-has_finish y =
      count_points-has_finish dim y rules [] 0 ∙ or_false (has y (finishes dim rules))

  pub segment_points-marks : (segment_points dim rules).1 ≡ marks (segment_points dim rules).0
  unfolding marks
  segment_points-marks = count_points-marks dim rules [] 0 refl

unfoldable pub start_marks : List SegmentPt → ℕ
start_marks [] = 0
start_marks (p ∷ ps) = (if is_start p.flag then 1 else 0) + start_marks ps

unfoldable pub finish_marks : List SegmentPt → ℕ
finish_marks [] = 0
finish_marks (p ∷ ps) = (if is_finish p.flag then 1 else 0) + finish_marks ps

marks-sum : (t : List SegmentPt) → marks t ≡ start_marks t + finish_marks t
unfolding marks start_marks finish_marks
marks-sum [] = refl
marks-sum (p ∷ ps) = ground (arith, marks-sum ps)

start_marks_one : (x : ℕ) (t : List SegmentPt) → has_start x t ≡ true → 1 ≤ start_marks t
unfolding has_start start_marks
start_marks_one x [] h = cc
start_marks_one x (p ∷ ps) h = ground (arith, start_marks_one x ps)

finish_marks_one : (x : ℕ) (t : List SegmentPt) → has_finish x t ≡ true → 1 ≤ finish_marks t
unfolding has_finish finish_marks
finish_marks_one x [] h = cc
finish_marks_one x (p ∷ ps) h = ground (arith, finish_marks_one x ps)

start_marks_two :
    (x y : ℕ) (t : List SegmentPt)
    → x ≢ y
    → has_start x t ≡ true
    → has_start y t ≡ true
    → 2 ≤ start_marks t
unfolding has_start start_marks
start_marks_two x y [] n a b = cc
start_marks_two x y (p ∷ ps) n a b =
    ground (arith, start_marks_two x y ps n, start_marks_one x ps, start_marks_one y ps)

finish_marks_two :
    (x y : ℕ) (t : List SegmentPt)
    → x ≢ y
    → has_finish x t ≡ true
    → has_finish y t ≡ true
    → 2 ≤ finish_marks t
unfolding has_finish finish_marks
finish_marks_two x y [] n a b = cc
finish_marks_two x y (p ∷ ps) n a b =
    ground (arith, finish_marks_two x y ps n, finish_marks_one x ps, finish_marks_one y ps)

-- With at most two marks, one of them an end, all starts are one number; likewise for the ends.
pub one_start :
    (x y z : ℕ) (t : List SegmentPt)
    → marks t ≤ 2
    → has_start x t ≡ true
    → has_start y t ≡ true
    → has_finish z t ≡ true
    → x ≡ y
one_start x y z t few a b c = elim (Bool-cases (x == y)) [
  | inl e ↦ ground arith
  | inr e ↦ absurd (
      omega
        (arith, marks-sum t, start_marks_two x y t (λ k. ground arith) a b, finish_marks_one z t c))
]

pub one_finish :
    (x y z : ℕ) (t : List SegmentPt)
    → marks t ≤ 2
    → has_finish x t ≡ true
    → has_finish y t ≡ true
    → has_start z t ≡ true
    → x ≡ y
one_finish x y z t few a b c = elim (Bool-cases (x == y)) [
  | inl e ↦ ground arith
  | inr e ↦ absurd (
      omega
        (arith, marks-sum t, finish_marks_two x y t (λ k. ground arith) a b, start_marks_one z t c))
]
