-- ===== src/Acl.antt =====
-- dataplane/src/acl: the rules of the classifier, and the points at which it can split them.
-- A range of a rule is a pair of numbers: an array of 32-bit words is the number that it stands for.
pub mod Build
pub mod Trim
pub mod Marks
pub mod Middle
pub mod Leaf
pub mod Cut
pub mod Exact
pub mod Distinct
pub mod Shrink
pub mod Total
pub mod Shift
pub mod Words
pub mod Ranges
pub mod Prefix
pub mod Load
pub mod Shared
use sec_fw.Common.{
  ℕ, zero, suc, ◌+◌, ◌%◌, ◌^◌, Bool, true, false, ◌&&◌, ◌==◌, ltb, leb, if◌then◌else◌, List, [],
  ◌∷◌, Option, none, some,
}

-- DIM
abbrev pub dim_max : ℕ
dim_max = 11

-- BITNUMBER[FLAG[dim]]
abbrev pub number_bits : ℕ → ℕ
number_bits dim = if ltb dim 2 then 64 else 32

-- The last words of an array of 128 bits, as `&x[4 - number_bits / 32]` takes them.
unfoldable pub low_words : ℕ → ℕ → ℕ
low_words dim x = x % 2 ^ number_bits dim

-- rule_t: `range0 dim` is range[dim][0] and `range1 dim` is range[dim][1].
pub record Rule : Type 0 where
  pub pri : ℕ
  pub action : ℕ
  pub range0 : ℕ → ℕ
  pub range1 : ℕ → ℕ
  pub id : ℕ
  pub rule_id : ℕ

-- What the flag of a point says: 1, 2 or 3.
pub data SegFlag : Type 0 where
  start finish both : SegFlag

-- segmentpt32_t, segmentpt64_t and segmentpt128_t
pub record SegmentPt : Type 0 where
  pub segmentpoint : ℕ
  pub flag : SegFlag

-- The flag of a point that stands in the table, when it comes again with the flag `start` or `finish`, and
-- what this adds to the number of points.
abbrev pub join_flag : SegFlag → SegFlag → SegFlag × ℕ
join_flag start start = (start, 0)
join_flag start finish = (both, 1)
join_flag finish finish = (finish, 0)
join_flag finish start = (both, 1)
join_flag k both = (both, 0)
join_flag both f = (both, 0)

-- The search for a point in the table, one position after the other.
unfoldable pub add_point : ℕ → SegFlag → List SegmentPt → List SegmentPt × ℕ
add_point x k [] = (record { segmentpoint = x; flag = k } ∷ [], 1)
add_point x k (p ∷ ps) =
    let rest = add_point x k ps in
    if x == p.segmentpoint
    then (record p { flag = (join_flag k p.flag).0 } ∷ ps, (join_flag k p.flag).1)
    else (p ∷ rest.0, rest.1)

-- The two points of every rule in a dimension, its start before its end: the table and `diffSegPts_All`.
unfoldable pub count_points : ℕ → List Rule → List SegmentPt → ℕ → List SegmentPt × ℕ
count_points dim [] table all = (table, all)
count_points dim (r ∷ rs) table all =
    let (table1, n1) = add_point (r.range0 dim) start table in
    let (table2, n2) = add_point (r.range1 dim) finish table1 in
    count_points dim rs table2 (all + n1 + n2)

abbrev pub segment_points : ℕ → List Rule → List SegmentPt × ℕ
segment_points dim rules = count_points dim rules [] 0

-- The dimension with the most points: the first of those, and `maxDiffSegPts_All`.
unfoldable pub find_dim : List Rule → ℕ → ℕ → ℕ → ℕ → ℕ × ℕ
find_dim rules zero dim d2s max_all = (d2s, max_all)
find_dim rules (suc n) dim d2s max_all =
    let all = (segment_points dim rules).1 in
    find_dim rules n (suc dim) (if ltb max_all all then dim else d2s)
      (if ltb max_all all then all else max_all)

abbrev pub split_dim : List Rule → ℕ × ℕ
split_dim rules = find_dim rules dim_max 0 0 1

-- qsort with TempSegPointCompare32, TempSegPointCompare64 or TempSegPointCompare128
unfoldable pub insert_sorted : SegmentPt → List SegmentPt → List SegmentPt
insert_sorted p [] = p ∷ []
insert_sorted p (q ∷ qs) =
    let rest = insert_sorted p qs in
    if leb p.segmentpoint q.segmentpoint then p ∷ q ∷ qs else q ∷ rest

unfoldable pub qsort : List SegmentPt → List SegmentPt
qsort [] = []
qsort (p ∷ ps) = insert_sorted p (qsort ps)

-- The walk to the middle: the point, and `flag_pos`. `none` is a read past the table.
unfoldable pub middle : ℕ → ℕ → List SegmentPt → Option (SegmentPt × Bool)
middle temp_pos pos_all [] = none
middle temp_pos pos_all (p ∷ ps) =
    if ltb pos_all temp_pos
    then elim p.flag [
      | both ↦ if pos_all + 1 == temp_pos then some (p, true) else middle temp_pos (pos_all + 2) ps
      | start ↦ middle temp_pos (pos_all + 1) ps
      | finish ↦ middle temp_pos (pos_all + 1) ps
    ]
    else some (p, false)

-- Matched
unfoldable pub matched_from : ℕ → ℕ → Rule → (ℕ → ℕ) → Bool
matched_from zero dim r packet = true
matched_from (suc n) dim r packet =
    leb (r.range0 dim) (low_words dim (packet dim))
    && leb (low_words dim (packet dim)) (r.range1 dim)
    && matched_from n (suc dim) r packet

abbrev pub matched : Rule → (ℕ → ℕ) → Bool
matched r packet = matched_from dim_max 0 r packet
