-- ===== src/Tests/Classifier.antt =====
-- Runs of the model of the classifier.
use sec_fw.Common.{
  ℕ, ◌+◌, ◌*◌, ◌^◌, ◌%◌, ◌≤◌, ◌<◌, ◌≡◌, refl, Bool-cases, ◌==◌, ltb, if◌then◌else◌, inl, inr, List,
  [], ◌∷◌, All, length, some, arith,
}
use sec_fw.Acl.{
  Rule, low_words, find_dim, count_points, add_point, qsort, insert_sorted, middle, matched_from,
}
use sec_fw.Acl.Build.{
  HsNode, leaf, node, build, find_split, sub_ranges, last_point, child_rules, pri_list, walk_packet,
  walk_hs_tree, lookup_packet, lookup_hs_tree, linear_search, search_rules,
}
use sec_fw.Acl.Trim.{matching}
use sec_fw.Acl.Words.{
  value, beyond, Compares, seg_point_compare, add_words, subtract_words, assign_diffbits,
  words-numbers,
}
use sec_fw.Acl.Cut.{FitsBits}
use sec_fw.Acl.Shrink.{IsFilled}
use sec_fw.Acl.Total.{build-terminates, lookup_packet-linear_search, lookup_packet-counted}
use sec_fw.Acl.Exact.{counted}
use sec_fw.Acl.Shift.{lowered, lookup_hs_tree-lowered}

-- A rule on the source port, dimension 4, with 0 to 255 in the other dimensions.
abbrev port_rule : ℕ → ℕ → ℕ → Rule
port_rule pri from to = record {
  pri = pri;
  action = 1;
  range0 = λ dim. if dim == 4 then from else 0;
  range1 = λ dim. if dim == 4 then to else 255;
  id = pri;
  rule_id = pri;
}

-- Ports 10 to 19, 20 to 29, and all.
abbrev port_rules : List Rule
port_rules = port_rule 0 10 19 ∷ port_rule 1 20 29 ∷ port_rule 2 0 65535 ∷ []

port_rule-FitsBits :
    (pri from to : ℕ) → from < 2 ^ 32 → to < 2 ^ 32 → FitsBits (port_rule pri from to)
port_rule-FitsBits pri from to a b dim h = elim (Bool-cases (dim == 4)) [
  | inl e ↦ elim (Bool-cases (ltb dim 2)) [
    | inl k ↦ absurd (ground arith)
    | inr k ↦ rw (e, k) (a, b)
  ]
  | inr e ↦ elim (Bool-cases (ltb dim 2)) [
    | inl k ↦ rw (e, k) (omega arith, omega arith)
    | inr k ↦ rw (e, k) (omega arith, omega arith)
  ]
]

port_rule-IsFilled : (pri from to : ℕ) → from ≤ to → IsFilled (port_rule pri from to)
port_rule-IsFilled pri from to a dim h = ground arith

ports-FitsBits : All FitsBits port_rules
ports-FitsBits = (
  port_rule-FitsBits 0 10 19 (omega arith) (omega arith),
  (
    port_rule-FitsBits 1 20 29 (omega arith) (omega arith),
    (port_rule-FitsBits 2 0 65535 (omega arith) (omega arith), _),
  ),
)

ports-IsFilled : All IsFilled port_rules
ports-IsFilled = (
  port_rule-IsFilled 0 10 19 (omega arith),
  (port_rule-IsFilled 1 20 29 (omega arith), (port_rule-IsFilled 2 0 65535 (omega arith), _)),
)

-- A packet from a port.
abbrev port_packet : ℕ → ℕ → ℕ
port_packet port dim = if dim == 4 then port else 7

port_search : linear_search port_rules (pri_list port_rules) (port_packet 20) ≡ some (1 ∷ 2 ∷ [])
unfolding linear_search search_rules matched_from low_words
port_search = refl

terminates_example : (t : HsNode) × (build (22 * length port_rules + 1) 0 port_rules ≡ some t)
terminates_example = build-terminates 0 port_rules ports-FitsBits ports-IsFilled

classifier_example :
    (t : HsNode) × (build (22 * length port_rules + 1) 0 port_rules ≡ some t)
    × (lookup_packet port_rules t (port_packet 20)
        ≡ linear_search port_rules (pri_list port_rules) (port_packet 20))
unfolding linear_search search_rules matched_from low_words
classifier_example =
    lookup_packet-linear_search port_rules (port_packet 20) (omega arith) ports-FitsBits
      ports-IsFilled (refl, (refl, (refl, _))) (λ h. cc h)

counted_example :
    (t : HsNode) × (build (22 * length port_rules + 1) 0 port_rules ≡ some t)
    × (lookup_packet port_rules t (port_packet 20) ≡ some (1 ∷ 2 ∷ []))
counted_example =
    lookup_packet-counted port_rules (port_packet 20) (1 ∷ 2 ∷ []) ports-FitsBits ports-IsFilled
      (refl, (refl, (refl, _))) port_search

-- A leaf of 65538 rules, which counts two.
crowded_leaf :
    lookup_packet [] (leaf 0 0 (65538 % 2 ^ 16) (4 ∷ 5 ∷ 6 ∷ [])) (port_packet 20)
    ≡ some (4 ∷ 5 ∷ [])
unfolding lookup_packet walk_packet
crowded_leaf = refl

-- The tree of the three rules.
abbrev port_tree : HsNode
port_tree =
    node 4 0 20 (node 4 1 10 (leaf 0 2 1 (2 ∷ [])) (leaf 0 2 2 (0 ∷ 2 ∷ [])))
      (node 4 1 30 (leaf 0 2 2 (1 ∷ 2 ∷ [])) (leaf 0 2 1 (2 ∷ [])))

port_build : build 67 0 port_rules ≡ some port_tree
unfolding build find_dim count_points add_point find_split middle qsort insert_sorted child_rules
    low_words sub_ranges last_point
port_build = refl

packet_hit : lookup_packet port_rules port_tree (port_packet 20) ≡ some (1 ∷ 2 ∷ [])
unfolding lookup_packet walk_packet low_words
packet_hit = refl

-- The packet from port 20 comes to the rule on ports 10 to 19.
tree_miss : lookup_hs_tree port_rules port_tree (port_packet 20) ≡ some (0 ∷ 2 ∷ [])
unfolding lookup_hs_tree walk_hs_tree low_words
tree_miss = refl

lowered_example :
    lookup_hs_tree port_rules port_tree (port_packet 20)
    ≡ some (counted (matching port_rules (lowered (port_packet 20))))
unfolding matching matched_from low_words
lowered_example =
    lookup_hs_tree-lowered 67 0 (port_rule 0 10 19) (port_rule 1 20 29 ∷ port_rule 2 0 65535 ∷ [])
      port_tree (port_packet 20) ports-FitsBits port_build (λ h. cc h)

-- 2 ^ 32 - 1 and 2 ^ 32, in two words.
abbrev low_word : List ℕ
low_word = 0 ∷ 4294967295 ∷ []

abbrev high_word : List ℕ
high_word = 1 ∷ 0 ∷ []

add_carries : (add_words low_word).0 ≡ high_word
unfolding add_words
add_carries = refl

subtract_borrows : (subtract_words high_word).0 ≡ low_word
unfolding subtract_words
subtract_borrows = refl

words_example :
    Compares (value low_word) (value high_word) (seg_point_compare low_word high_word)
    × (value (add_words low_word).0 + (if (add_words low_word).1 then beyond low_word else 0)
        ≡ value low_word + 1)
    × (value (subtract_words low_word).0 + 1
        ≡ value low_word + (if (subtract_words low_word).1 then beyond low_word else 0))
    × (value (assign_diffbits 4 low_word) ≡ value low_word)
    × (length (assign_diffbits 4 low_word) ≡ 4)
words_example = words-numbers low_word high_word 4 (omega arith) (omega arith) refl (omega arith)
