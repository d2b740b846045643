-- ===== src/Acl/Middle.antt =====
-- The middle of the sorted table: the walk ends inside it, and both parts get points.
use sec_fw.Common.{
  ℕ, ◌+◌, ◌≤◌, ◌<◌, ◌≡◌, refl, ap, ◌∙◌, ◌⊎◌, inl, inr, Bool, true, false, ◌&&◌, ◌||◌, Bool-cases,
  ◌==◌, ==_self, ==_iff, ltb, leb, List, [], ◌∷◌, All, some, arith,
}
use sec_fw.Acl.{
  Rule, SegFlag, SegmentPt, add_point, count_points, segment_points, insert_sorted, qsort, middle,
}
use sec_fw.Acl.Build.{splits_below, last_point}
use sec_fw.Acl.Marks.{is_start, is_finish, weight, has_start, has_finish, marks}

pub or_true : (a : Bool) → (a || true) ≡ true
or_true true = refl
or_true false = refl

has_point : ℕ → List SegmentPt → Bool
has_point x [] = false
has_point x (p ∷ ps) = p.segmentpoint == x || has_point x ps

abbrev IsUnique : List SegmentPt → Type 0
IsUnique [] = Unit
IsUnique (p ∷ ps) = (has_point p.segmentpoint ps ≡ false) × IsUnique ps

add_point-has_point :
    (x y : ℕ) (k : SegFlag) (t : List SegmentPt)
    → has_point y (add_point x k t).0 ≡ (x == y || has_point y t)
unfolding add_point has_point
add_point-has_point x y k [] = refl
add_point-has_point x y k (p ∷ ps) = ground (arith, add_point-has_point x y k ps)

add_point-IsUnique :
    (x : ℕ) (k : SegFlag) (t : List SegmentPt) → IsUnique t → IsUnique (add_point x k t).0
unfolding add_point has_point
add_point-IsUnique x k [] u = (refl, _)
add_point-IsUnique x k (p ∷ ps) (n, u) = elim (Bool-cases (x == p.segmentpoint)) [
  | inl e ↦ rw e (n, u)
  | inr e ↦ rw e (add_point-has_point x p.segmentpoint k ps ∙ rw e n, add_point-IsUnique x k ps u)
]

count_points-IsUnique :
    (dim : ℕ) (rules : List Rule) (t : List SegmentPt) (all : ℕ)
    → IsUnique t
    → IsUnique (count_points dim rules t all).0
unfolding count_points
count_points-IsUnique dim [] t all u = u
count_points-IsUnique dim (r ∷ rs) t all u = count_points-IsUnique dim rs _ _ (
    add_point-IsUnique (r.range1 dim) SegFlag.finish _
      (add_point-IsUnique (r.range0 dim) SegFlag.start t u))

-- Sorted, with no two points the same.
abbrev pub IsSorted : List SegmentPt → Type 0
IsSorted [] = Unit
IsSorted (p ∷ ps) = All (λ q. p.segmentpoint < q.segmentpoint) ps × IsSorted ps

All-lt :
    (a b : ℕ) (qs : List SegmentPt)
    → a < b
    → All (λ q. b < q.segmentpoint) qs
    → All (λ q. a < q.segmentpoint) qs
All-lt a b [] h l = _
All-lt a b (q ∷ qs) h (l, ls) = (omega arith, All-lt a b qs h ls)

All-insert_sorted :
    (P : SegmentPt → Type 0) (p : SegmentPt) (qs : List SegmentPt)
    → P p
    → All P qs
    → All P (insert_sorted p qs)
unfolding insert_sorted
All-insert_sorted P p [] a l = (a, l)
All-insert_sorted P p (q ∷ qs) a (l, ls) = elim (Bool-cases (leb p.segmentpoint q.segmentpoint)) [
  | inl e ↦ rw e (a, (l, ls))
  | inr e ↦ rw e (l, All-insert_sorted P p qs a ls)
]

insert_sorted-IsSorted :
    (p : SegmentPt) (qs : List SegmentPt)
    → has_point p.segmentpoint qs ≡ false
    → IsSorted qs
    → IsSorted (insert_sorted p qs)
unfolding insert_sorted has_point
insert_sorted-IsSorted p [] n s = (_, _)
insert_sorted-IsSorted p (q ∷ qs) n (l, s) = elim (Bool-cases (leb p.segmentpoint q.segmentpoint)) [
  | inl e ↦
      let less : p.segmentpoint < q.segmentpoint = ground arith in
      rw e ((less, All-lt p.segmentpoint q.segmentpoint qs less l), (l, s))
  | inr e ↦ rw e (
    All-insert_sorted (λ x. q.segmentpoint < x.segmentpoint) p qs (ground arith) l,
    insert_sorted-IsSorted p qs (ground arith) s,
  )
]

insert_sorted-has_point :
    (x : ℕ) (p : SegmentPt) (qs : List SegmentPt)
    → has_point x (insert_sorted p qs) ≡ (p.segmentpoint == x || has_point x qs)
unfolding insert_sorted has_point
insert_sorted-has_point x p [] = refl
insert_sorted-has_point x p (q ∷ qs) = ground (arith, insert_sorted-has_point x p qs)

insert_sorted-has_start :
    (x : ℕ) (p : SegmentPt) (qs : List SegmentPt)
    → has_start x (insert_sorted p qs)
      ≡ ((p.segmentpoint == x && is_start p.flag) || has_start x qs)
unfolding insert_sorted has_start
insert_sorted-has_start x p [] = refl
insert_sorted-has_start x p (q ∷ qs) = ground (arith, insert_sorted-has_start x p qs)

insert_sorted-has_finish :
    (x : ℕ) (p : SegmentPt) (qs : List SegmentPt)
    → has_finish x (insert_sorted p qs)
      ≡ ((p.segmentpoint == x && is_finish p.flag) || has_finish x qs)
unfolding insert_sorted has_finish
insert_sorted-has_finish x p [] = refl
insert_sorted-has_finish x p (q ∷ qs) = ground (arith, insert_sorted-has_finish x p qs)

insert_sorted-marks :
    (p : SegmentPt) (qs : List SegmentPt) → marks (insert_sorted p qs) ≡ weight p.flag + marks qs
unfolding insert_sorted marks
insert_sorted-marks p [] = refl
insert_sorted-marks p (q ∷ qs) = elim (Bool-cases (leb p.segmentpoint q.segmentpoint)) [
  | inl e ↦ rw e refl
  | inr e ↦ rw e (omega (arith, insert_sorted-marks p qs))
]

-- `qsort` keeps the marks.
qsort-has_point : (x : ℕ) (t : List SegmentPt) → has_point x (qsort t) ≡ has_point x t
unfolding qsort has_point
qsort-has_point x [] = refl
qsort-has_point x (p ∷ ps) =
    insert_sorted-has_point x p (qsort ps)
    ∙ ap (λ b. p.segmentpoint == x || b) (qsort-has_point x ps)

pub qsort-has_start : (x : ℕ) (t : List SegmentPt) → has_start x (qsort t) ≡ has_start x t
unfolding qsort has_start
qsort-has_start x [] = refl
qsort-has_start x (p ∷ ps) =
    insert_sorted-has_start x p (qsort ps)
    ∙ ap (λ b. (p.segmentpoint == x && is_start p.flag) || b) (qsort-has_start x ps)

pub qsort-has_finish : (x : ℕ) (t : List SegmentPt) → has_finish x (qsort t) ≡ has_finish x t
unfolding qsort has_finish
qsort-has_finish x [] = refl
qsort-has_finish x (p ∷ ps) =
    insert_sorted-has_finish x p (qsort ps)
    ∙ ap (λ b. (p.segmentpoint == x && is_finish p.flag) || b) (qsort-has_finish x ps)

pub qsort-marks : (t : List SegmentPt) → marks (qsort t) ≡ marks t
unfolding qsort marks
qsort-marks [] = refl
qsort-marks (p ∷ ps) = omega (arith, insert_sorted-marks p (qsort ps), qsort-marks ps)

qsort-IsSorted : (t : List SegmentPt) → IsUnique t → IsSorted (qsort t)
unfolding qsort
qsort-IsSorted [] u = _
qsort-IsSorted (p ∷ ps) (n, u) =
    insert_sorted-IsSorted p (qsort ps) (qsort-has_point p.segmentpoint ps ∙ n)
      (qsort-IsSorted ps u)

pub points-IsSorted : (dim : ℕ) (rules : List Rule) → IsSorted (qsort (segment_points dim rules).0)
points-IsSorted dim rules =
    qsort-IsSorted (segment_points dim rules).0 (count_points-IsUnique dim rules [] 0 _)

-- The point that the walk finds: a point of the table, a start if the split is below it, and an end with
-- points after it if the split is above it.
pub record Found (qs : List SegmentPt) (p : SegmentPt) (flag_pos : Bool) : Type 1 where
  pub one_of : (P : SegmentPt → Type 0) → All P qs → P p
  pub below : splits_below p.flag flag_pos ≡ true → has_start p.segmentpoint qs ≡ true
  pub above :
      splits_below p.flag flag_pos ≡ false
      → (has_finish p.segmentpoint qs ≡ true) × (p.segmentpoint < last_point qs)

pub last_point-All :
    (P : ℕ → Type 0) (q : SegmentPt) (qs : List SegmentPt)
    → All (λ x. P x.segmentpoint) (q ∷ qs)
    → P (last_point (q ∷ qs))
unfolding last_point
last_point-All P q [] (a, rest) = a
last_point-All P q (r ∷ rs) (a, rest) = last_point-All P r rs rest

pub later-Found :
    (p : SegmentPt) (qs : List SegmentPt) (q : SegmentPt) (flag_pos : Bool)
    → Found qs q flag_pos
    → Found (p ∷ qs) q flag_pos
unfolding has_start has_finish last_point
later-Found p [] q flag_pos f = absurd (f.one_of (λ x. ⊥) _)
later-Found p (r ∷ rs) q flag_pos f = record {
  one_of = λ P l. f.one_of P l.1;
  below = λ e. rw (f.below e) (or_true _);
  above = λ e. (rw (f.above e).0 (or_true _), (f.above e).1);
}

pub last-lt :
    (p : SegmentPt) (ps : List SegmentPt)
    → All (λ q. p.segmentpoint < q.segmentpoint) ps
    → 1 ≤ marks ps
    → p.segmentpoint < last_point (p ∷ ps)
unfolding marks last_point
last-lt p [] l m = absurd (omega arith)
last-lt p (q ∷ qs) l m = last_point-All (λ x. p.segmentpoint < x) q qs l

pub here-Found :
    (p : SegmentPt) (ps : List SegmentPt) (flag_pos : Bool)
    → (splits_below p.flag flag_pos ≡ true → is_start p.flag ≡ true)
    → (splits_below p.flag flag_pos ≡ false
        → (is_finish p.flag ≡ true) × (p.segmentpoint < last_point (p ∷ ps)))
    → Found (p ∷ ps) p flag_pos
unfolding has_start has_finish
here-Found p ps flag_pos b a = record {
  one_of = λ P l. l.0;
  below = λ e. rw (==_self p.segmentpoint, b e) refl;
  above = λ e. (rw (==_self p.segmentpoint, (a e).0) refl, (a e).1);
}

pub flag-cases : (f : SegFlag) → (f ≡ SegFlag.start) ⊎ ((f ≡ SegFlag.finish) ⊎ (f ≡ SegFlag.both))
flag-cases SegFlag.start = inl refl
flag-cases SegFlag.finish = inr (inl refl)
flag-cases SegFlag.both = inr (inr refl)

pub middle-Found :
    (temp_pos pos_all : ℕ) (qs : List SegmentPt)
    → IsSorted qs
    → pos_all ≤ temp_pos
    → temp_pos + 2 ≤ pos_all + marks qs
    → (p : SegmentPt) × (flag_pos : Bool) × (middle temp_pos pos_all qs ≡ some (p, flag_pos))
      × Found qs p flag_pos
unfolding middle marks
middle-Found temp_pos pos_all [] s low more = absurd (omega arith)
middle-Found temp_pos pos_all (p ∷ ps) (l, s) low more = elim (Bool-cases (ltb pos_all temp_pos)) [
  | inr e ↦ (
    p,
    false,
    rw (middle, e) refl,
    here-Found p ps false (λ b. ground (arith, flag-cases p.flag))
        (λ b. (ground (arith, flag-cases p.flag), last-lt p ps l (one_more e b))),
  )
  | inl e ↦ elim (flag-cases p.flag) [
    | inl k ↦
        let (q, f, eq, found) =
          middle-Found temp_pos (pos_all + 1) ps s (ground arith) (omega (arith, ap weight k)) in
        (q, f, ground (arith, eq), later-Found p ps q f found)
    | inr (inl k) ↦
        let (q, f, eq, found) =
          middle-Found temp_pos (pos_all + 1) ps s (ground arith) (omega (arith, ap weight k)) in
        (q, f, ground (arith, eq), later-Found p ps q f found)
    | inr (inr k) ↦ elim (Bool-cases (pos_all + 1 == temp_pos)) [
      | inl g ↦ (
        p,
        true,
        ground (arith, e, k, g),
        here-Found p ps true (λ b. absurd (cc (ap (λ x. splits_below x true) k)))
            (λ b. (
              ap is_finish k,
              last-lt p ps l (omega (arith, ap weight k, (==_iff (pos_all + 1) temp_pos).0 g)),
            )),
      )
      | inr g ↦
          let (q, f, eq, found) =
            middle-Found temp_pos (pos_all + 2) ps s (ground arith) (omega (arith, ap weight k)) in
          (q, f, ground (arith, eq), later-Found p ps q f found)
    ]
  ]
]
  where
    one_more : ltb pos_all temp_pos ≡ false → splits_below p.flag false ≡ false → 1 ≤ marks ps
    one_more e b = ground (arith, flag-cases p.flag)

-- From the front of the table the walk passes the first point before it splits below one.
pub root-Found :
    (temp_pos : ℕ) (q : SegmentPt) (qs : List SegmentPt)
    → IsSorted (q ∷ qs)
    → 1 ≤ temp_pos
    → temp_pos + 2 ≤ marks (q ∷ qs)
    → (p : SegmentPt) × (flag_pos : Bool) × (middle temp_pos 0 (q ∷ qs) ≡ some (p, flag_pos))
      × Found (q ∷ qs) p flag_pos
      × (splits_below p.flag flag_pos ≡ true → q.segmentpoint < p.segmentpoint)
unfolding middle marks
root-Found temp_pos q qs (l, s) low more = elim (flag-cases q.flag) [
  | inl k ↦
      let (p, f, eq, found) = middle-Found temp_pos 1 qs s low (omega (arith, ap weight k)) in
      (
        p,
        f,
        ground (arith, eq),
        later-Found q qs p f found,
        λ b. found.one_of (λ x. q.segmentpoint < x.segmentpoint) l,
      )
  | inr (inl k) ↦
      let (p, f, eq, found) = middle-Found temp_pos 1 qs s low (omega (arith, ap weight k)) in
      (
        p,
        f,
        ground (arith, eq),
        later-Found q qs p f found,
        λ b. found.one_of (λ x. q.segmentpoint < x.segmentpoint) l,
      )
  | inr (inr k) ↦ elim (Bool-cases (1 == temp_pos)) [
    | inl g ↦ (
      q,
      true,
      ground (arith, k, g),
      here-Found q qs true (λ b. absurd (cc (ap (λ x. splits_below x true) k)))
          (λ b.
            (ap is_finish k, last-lt q qs l (omega (arith, ap weight k, (==_iff 1 temp_pos).0 g)))),
      λ b. absurd (cc (ap (λ x. splits_below x true) k)),
    )
    | inr g ↦
        let (p, f, eq, found) =
          middle-Found temp_pos 2 qs s (ground arith) (omega (arith, ap weight k)) in
        (
          p,
          f,
          ground (arith, eq),
          later-Found q qs p f found,
          λ b. found.one_of (λ x. q.segmentpoint < x.segmentpoint) l,
        )
  ]
]
