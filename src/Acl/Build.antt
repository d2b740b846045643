-- ===== src/Acl/Build.antt =====
-- BuildHSTree of dataplane/src/acl/acl.c, and the walks down the tree. The debug output, the statistics
-- and the worst-case range, which only the output reads, are left out.
use sec_fw.Common.{
  ℕ, zero, suc, ◌+◌, ◌-◌, ◌/◌, ◌%◌, ◌^◌, Bool, true, false, ◌&&◌, ◌==◌, ltb, leb, if◌then◌else◌,
  List, [], ◌∷◌, get_elem?, length, take, Option, none, some,
}
use sec_fw.Acl.{
  Rule, SegFlag, SegmentPt, low_words, segment_points, split_dim, qsort, middle, matched,
}

-- hs_node_t: a leaf, whose children are NULL, or a node with two children. num_rule has 16 bits, and `rule` is
-- the array that was allocated, whose length the code does not keep elsewhere.
pub data HsNode : Type 0 where
  leaf : (flag depth num_rule : ℕ) → (rule : List ℕ) → HsNode
  node : (d2s depth p2s : ℕ) → (child0 child1 : HsNode) → HsNode

-- range[0][0], range[0][1], range[1][0] and range[1][1]
pub record SubRanges : Type 0 where
  pub range00 : ℕ
  pub range01 : ℕ
  pub range10 : ℕ
  pub range11 : ℕ

-- Subtract and Add on an array of 128 bits
abbrev pub subtract : ℕ → ℕ
subtract x = (x + (2 ^ 128 - 1)) % 2 ^ 128

abbrev pub add : ℕ → ℕ
add x = (x + 1) % 2 ^ 128

-- Whether the split is below the point, which is then the first of the right part, or above it.
abbrev pub splits_below : SegFlag → Bool → Bool
splits_below SegFlag.start flag_pos = true
splits_below SegFlag.finish flag_pos = false
splits_below SegFlag.both false = true
splits_below SegFlag.both true = false

unfoldable pub sub_ranges : ℕ → ℕ → SegmentPt → Bool → SubRanges
sub_ranges first last p flag_pos =
    if splits_below p.flag flag_pos
    then record {
      range00 = first;
      range01 = subtract p.segmentpoint;
      range10 = add (subtract p.segmentpoint);
      range11 = last;
    }
    else record {
      range00 = first;
      range01 = p.segmentpoint;
      range10 = add p.segmentpoint;
      range11 = last;
    }

-- The first and the last point of the sorted table.
abbrev pub first_point : List SegmentPt → ℕ
first_point [] = 0
first_point (p ∷ ps) = p.segmentpoint

unfoldable pub last_point : List SegmentPt → ℕ
last_point [] = 0
last_point (p ∷ []) = p.segmentpoint
last_point (p ∷ q ∷ qs) = last_point (q ∷ qs)

unfoldable pub find_split : List SegmentPt → ℕ → Option SubRanges
find_split sorted max_all = elim (middle (max_all / 2) 0 sorted) [
  | none ↦ none
  | some (p, flag_pos) ↦ some (sub_ranges (first_point sorted) (last_point sorted) p flag_pos)
]

-- Whether a rule goes to the child with the range from `lo` to `hi`, and the rule trimmed to it.
abbrev pub reaches : ℕ → ℕ → ℕ → Rule → Bool
reaches d2s lo hi r = leb (r.range0 d2s) hi && leb lo (r.range1 d2s)

abbrev pub replace : (ℕ → ℕ) → ℕ → ℕ → ℕ → ℕ
replace f dim x i = if i == dim then x else f i

-- Assign_RuleList. The action and the id of the copy are left unset, and nothing reads them: they stand as 0.
abbrev pub assign_rule_list : Rule → Rule
assign_rule_list r = record {
  pri = r.pri;
  action = 0;
  range0 = r.range0;
  range1 = r.range1;
  id = 0;
  rule_id = r.rule_id;
}

abbrev pub trimmed : ℕ → ℕ → ℕ → Rule → Rule
trimmed d2s lo hi r = record (assign_rule_list r) {
  range0 = if ltb (r.range0 d2s) lo then replace r.range0 d2s lo else r.range0;
  range1 = if ltb hi (r.range1 d2s) then replace r.range1 d2s hi else r.range1;
}

unfoldable pub child_rules : ℕ → ℕ → ℕ → List Rule → List Rule
child_rules d2s lo hi [] = []
child_rules d2s lo hi (r ∷ rs) =
    let rest = child_rules d2s lo hi rs in
    if reaches d2s lo hi r then trimmed d2s lo hi r ∷ rest else rest

abbrev pub pri_list : List Rule → List ℕ
pri_list [] = []
pri_list (r ∷ rs) = r.pri ∷ pri_list rs

-- BuildHSTree with fuel: `none` is a recursion that goes too deep, or a read past the table of points.
unfoldable pub build : ℕ → ℕ → List Rule → Option HsNode
build zero depth rules = none
build (suc fuel) depth [] = some (leaf 1 (depth % 256) 0 [])
build (suc fuel) depth (r ∷ rs) =
    let rules = r ∷ rs in
    let d2s = (split_dim rules).0 in
    elim (leb (split_dim rules).1 2) [
      | true ↦ some (leaf 0 (depth % 256) (length rules % 2 ^ 16) (pri_list rules))
      | false ↦ elim (find_split (qsort (segment_points d2s rules).0) (split_dim rules).1) [
        | none ↦ none
        | some s ↦
            elim (build fuel (suc depth)
              (child_rules d2s (low_words d2s s.range00) (low_words d2s s.range01) rules)) [
                | none ↦ none
                | some left ↦
                    elim (build fuel (suc depth)
                      (child_rules d2s (low_words d2s s.range10) (low_words d2s s.range11) rules)) [
                        | none ↦ none
                        | some right ↦
                            some (node d2s (depth % 256) (low_words d2s s.range10) left right)
                      ]
              ]
      ]
    ]

-- LinearSearch: the rules of a list of positions that match, and `none` for the exit of the program if there
-- are none. A position beyond the rules is passed over.
unfoldable pub search_rules : List Rule → List ℕ → (ℕ → ℕ) → List ℕ
search_rules rule_set [] packet = []
search_rules rule_set (i ∷ is) packet =
    let rest = search_rules rule_set is packet in
    elim (get_elem? rule_set i) [
      | none ↦ rest
      | some r ↦ if matched r packet then i ∷ rest else rest
    ]

unfoldable pub linear_search : List Rule → List ℕ → (ℕ → ℕ) → Option (List ℕ)
linear_search rule_set rule_pri packet = elim (search_rules rule_set rule_pri packet) [
  | [] ↦ none
  | i ∷ is ↦ some (i ∷ is)
]

-- The walk of LookupPacket to a leaf, and the rules that its num_rule counts.
unfoldable pub walk_packet : HsNode → (ℕ → ℕ) → ℕ × List ℕ
walk_packet (leaf flag depth num_rule rule) packet = (flag, take num_rule rule)
walk_packet (node d2s depth p2s child0 child1) packet =
    if ltb (low_words d2s (packet d2s)) p2s
    then walk_packet child0 packet
    else walk_packet child1 packet

-- LookupPacket: the rules of the leaf that is hit; a leaf with the flag 1 is searched first.
unfoldable pub lookup_packet : List Rule → HsNode → (ℕ → ℕ) → Option (List ℕ)
lookup_packet rule_set root packet =
    let (flag, rule) = walk_packet root packet in
    if flag == 1
    then elim (linear_search rule_set rule packet) [ none ↦ none | some l ↦ some rule ]
    else some rule

-- The walk of LookupHSTree to a leaf, and the rules that its num_rule counts.
unfoldable pub walk_hs_tree : HsNode → (ℕ → ℕ) → ℕ × List ℕ
walk_hs_tree (leaf flag depth num_rule rule) packet = (flag, take num_rule rule)
walk_hs_tree (node d2s depth p2s child0 child1) packet =
    if leb (low_words d2s (packet d2s)) p2s
    then walk_hs_tree child0 packet
    else walk_hs_tree child1 packet

-- LookupHSTree: `none` is the answer 0 for a set with no rules.
unfoldable pub lookup_hs_tree : List Rule → HsNode → (ℕ → ℕ) → Option (List ℕ)
lookup_hs_tree [] root packet = none
lookup_hs_tree (r ∷ rs) root packet = some (walk_hs_tree root packet).1
