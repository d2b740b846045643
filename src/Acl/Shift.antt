-- ===== src/Acl/Shift.antt =====
-- LookupHSTree goes left also at the threshold, which is the first number of the right part.
use sec_fw.Common.{
  ℕ, zero, suc, ◌-◌, ◌≤◌, ◌≡◌, ◌≢◌, refl, ap, sym, subst, ◌∙◌, inl, inr, true, false, Bool-cases,
  ltb, leb, List, [], ◌∷◌, All, some, none≢some, some-inj, arith,
}
use sec_fw.Acl.{Rule, low_words, split_dim}
use sec_fw.Acl.Build.{HsNode, leaf, node, build, walk_packet, walk_hs_tree, lookup_hs_tree}
use sec_fw.Acl.Trim.{matching}
use sec_fw.Acl.Leaf.{split_dim-attained}
use sec_fw.Acl.Cut.{FitsBits}
use sec_fw.Acl.Exact.{
  left_rules, right_rules, is_leaf, is_node, build-Built, child-FitsBits, low_words-lt,
  low_words_lem, cut-CutWords, walk_packet-matching, counted,
}

-- The packet with one taken from each field that is not 0.
abbrev pub lowered : (ℕ → ℕ) → ℕ → ℕ
lowered packet dim = low_words dim (packet dim) - 1

-- Every threshold is positive.
abbrev IsPositive : HsNode → Type 0
IsPositive (leaf flag depth num_rule rule) = Unit
IsPositive (node d2s depth p2s child0 child1) = (1 ≤ p2s) × IsPositive child0 × IsPositive child1

build-IsPositive :
    (fuel depth : ℕ) (rules : List Rule) (t : HsNode)
    → All FitsBits rules
    → build fuel depth rules ≡ some t
    → IsPositive t
unfolding build
build-IsPositive zero depth rules t fits h = absurd (none≢some h)
build-IsPositive (suc fuel) depth [] t fits h = subst IsPositive (some-inj h) _
build-IsPositive (suc fuel) depth (r ∷ rs) t fits h =
    let rules = r ∷ rs in
    let d2s = (split_dim rules).0 in
    elim (build-Built fuel depth r rs t fits h) [
      | is_leaf few e ↦ subst IsPositive (sym e) _
      | is_node s a b more c ea eb e ↦
          let attained = split_dim-attained rules (omega (arith, more)) in
          let w = cut-CutWords d2s rules s attained.0 fits c in
          let left =
            build-IsPositive fuel (suc depth) (left_rules d2s s rules) a
              (child-FitsBits d2s _ _ rules (low_words-lt d2s s.range00)
                (low_words-lt d2s s.range01) fits)
              ea in
          let right =
            build-IsPositive fuel (suc depth) (right_rules d2s s rules) b
              (child-FitsBits d2s _ _ rules (low_words-lt d2s s.range10)
                (low_words-lt d2s s.range11) fits)
              eb in
          subst IsPositive (sym e) (omega (arith, w.words10, c.meet), left, right)
    ]

walk_hs_tree-lowered :
    (t : HsNode) (packet : ℕ → ℕ)
    → IsPositive t
    → walk_hs_tree t packet ≡ walk_packet t (lowered packet)
unfolding walk_hs_tree walk_packet
walk_hs_tree-lowered (leaf flag depth num_rule rule) packet p = refl
walk_hs_tree-lowered (node d2s depth p2s child0 child1) packet (p, p0, p1) =
    let less = low_words-lt d2s (packet d2s) in
    let same : low_words d2s (lowered packet d2s) ≡ low_words d2s (packet d2s) - 1 =
      low_words_lem d2s (lowered packet d2s) (omega (arith, less)) in
    elim (Bool-cases (leb (low_words d2s (packet d2s)) p2s)) [
      | inl e ↦
          let e' : ltb (low_words d2s (packet d2s) - 1) p2s ≡ true = ground arith in
          rw (e, same, e') (walk_hs_tree-lowered child0 packet p0)
      | inr e ↦
          let e' : ltb (low_words d2s (packet d2s) - 1) p2s ≡ false = ground arith in
          rw (e, same, e') (walk_hs_tree-lowered child1 packet p1)
    ]

-- For a set of rules whose ranges fit their dimensions, and the tree of BuildHSTree, LookupHSTree answers
-- with the rules that match not the packet, but the packet with one taken from each field that is not 0,
-- if some rule matches that: with all of them, or, of 65536 or more, with as many of the first as their number
-- modulo 65536.
pub lookup_hs_tree-lowered :
    (fuel depth : ℕ) (r : Rule) (rs : List Rule) (t : HsNode) (packet : ℕ → ℕ)
    → All FitsBits (r ∷ rs)
    → build fuel depth (r ∷ rs) ≡ some t
    → matching (r ∷ rs) (lowered packet) ≢ []
    → lookup_hs_tree (r ∷ rs) t packet ≡ some (counted (matching (r ∷ rs) (lowered packet)))
unfolding lookup_hs_tree
lookup_hs_tree-lowered fuel depth r rs t packet fits h some_one =
    ap (λ p. some p.1)
      (walk_hs_tree-lowered t packet (build-IsPositive fuel depth (r ∷ rs) t fits h)
        ∙ walk_packet-matching fuel depth (r ∷ rs) t (lowered packet) fits h some_one)
