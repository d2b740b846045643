-- ===== src/Rules/Refinement.antt =====
-- The table of srv_rule.c against an abstract set of rules of bounded size.
use sec_fw.Common.{
  ℕ, ◌+◌, ◌-◌, ◌≤◌, ◌≡◌, refl, ◌≢◌, inl, inr, ap₂, ◌∙◌, Bool-cases, Bool, true, false, ◌==◌, ltb,
  if◌then◌else◌, List, [], ◌∷◌, some, arith, length, set, get_elem?, length-set, length-replicate,
  get_elem?-past, none,
}
use sec_fw.RuleTuple.{RuleTuple, rule_compare, is_zero}
use sec_fw.Rules.{
  RuleList, RuleEntry, uncommit, RuleResult, rule_ok, rule_full, rule_exist, rule_not_exist, used,
  rule_entry_max, zero_tuple, rule_list_init, find_first_free, release_match, rule_add, rule_del,
  rule_del_all, rule_del_by_id,
}
use sec_fw.Rules.Content.{
  used_count, count, freed, rule_duplicate_check-count, find_first_free-Filled, Filled, Released,
  used_with, count_congr, release_match-none, release_match-Released, release_all-counts,
  replicate-counts, set-freed-used_count, set-freed-count,
}

-- The counter agrees with the entries, and no rule stands in two of them.
pub record IsValid (l : RuleList) : Type 0 where
  pub size : length l.rule_entry ≡ rule_entry_max
  pub counted : l.rule_entry_free + used_count l.rule_entry ≡ rule_entry_max
  pub distinct : (q : RuleTuple) → count q l.rule_entry ≤ 1

-- A set of rules, up to Rule_compare, and its size.
pub record RuleSet : Type 0 where
  pub member : RuleTuple → Bool
  pub size : ℕ

pub view : RuleList → RuleSet
view l = record { member = λ q. ltb 0 (count q l.rule_entry); size = used_count l.rule_entry }

pub data Request : Type 0 where
  add del : RuleTuple → Request
  del_all : Request

pub set_step : RuleSet → Request → RuleResult × RuleSet
set_step s (add r) =
    if s.size == rule_entry_max then (rule_full, s) else if s.member r then (rule_exist, s) else (
      rule_ok,
      record {
        member = λ q. if is_zero (rule_compare q r) then true else s.member q;
        size = s.size + 1;
      },
    )
set_step s (del r) =
    if s.member r
    then (
      rule_ok,
      record {
        member = λ q. if is_zero (rule_compare q r) then false else s.member q;
        size = s.size - 1;
      },
    )
    else (rule_not_exist, s)
set_step s del_all = (rule_ok, record { member = λ q. false; size = 0 })

pub step : RuleList → Request → RuleResult × RuleList
step l (add r) = rule_add l r
step l (del r) = rule_del l r
step l del_all = rule_del_all l

pub run : RuleList → List Request → List RuleResult × RuleList
run l [] = ([], l)
run l (q ∷ qs) = let (r, l') = step l q in let (rs, l'') = run l' qs in (r ∷ rs, l'')

pub set_run : RuleSet → List Request → List RuleResult × RuleSet
set_run s [] = ([], s)
set_run s (q ∷ qs) = let (r, s') = set_step s q in let (rs, s'') = set_run s' qs in (r ∷ rs, s'')

-- The fresh table is valid and holds no rule.
pub rule_list_init-IsValid : IsValid rule_list_init
unfolding rule_list_init
rule_list_init-IsValid =
    let (u, c) = replicate-counts rule_entry_max zero_tuple in
    record {
      size = length-replicate rule_entry_max _;
      counted = omega (arith, u);
      distinct = λ q. omega (arith, c q);
    }

pub record Refines (s : RuleSet) (q : Request) (r : RuleResult × RuleList) : Type 0 where
  pub valid : IsValid r.1
  pub answer : r.0 ≡ (set_step s q).0
  pub members : (t : RuleTuple) → (view r.1).member t ≡ (set_step s q).1.member t
  pub size : (view r.1).size ≡ (set_step s q).1.size

-- The table that a successful Rule_add leaves.
abbrev added : RuleList → RuleTuple → ℕ → RuleList
added l r i = record {
  rule_entry_free = l.rule_entry_free - 1;
  build_status = uncommit;
  rule_entry = set l.rule_entry i (used_with r);
}

rule_add_full :
    (l : RuleList) (r : RuleTuple) → l.rule_entry_free ≡ 0 → rule_add l r ≡ (rule_full, l)
unfolding rule_add
rule_add_full l r h = ground arith

rule_add_exist :
    (l : RuleList) (r : RuleTuple)
    → l.rule_entry_free ≢ 0
    → count r l.rule_entry ≢ 0
    → rule_add l r ≡ (rule_exist, l)
unfolding rule_add
rule_add_exist l r h c = ground (arith, rule_duplicate_check-count l.rule_entry r)

rule_add_ok :
    (l : RuleList) (r : RuleTuple) (i : ℕ)
    → l.rule_entry_free ≢ 0
    → count r l.rule_entry ≡ 0
    → find_first_free l.rule_entry ≡ some i
    → rule_add l r ≡ (rule_ok, added l r i)
unfolding rule_add
rule_add_ok l r i h c e = ground (arith, rule_duplicate_check-count l.rule_entry r)

added-Refines :
    (l : RuleList) (r : RuleTuple) (i : ℕ)
    → IsValid l
    → l.rule_entry_free ≢ 0
    → count r l.rule_entry ≡ 0
    → Filled l.rule_entry r i
    → Refines (view l) (add r) (rule_ok, added l r i)
unfolding view set_step
added-Refines l r i v room absent f = record {
  valid = record {
    size = length-set l.rule_entry i (used_with r) ∙ v.size;
    counted = omega (arith, f.used_more, v.counted);
    distinct = λ q. ground (arith, f.counts q, v.distinct q, count_congr q r l.rule_entry);
  };
  answer = ground (arith, v.counted);
  members = λ t. ground (arith, f.counts t, v.counted);
  size = ground (arith, f.used_more, v.counted);
}

add-Refines : (l : RuleList) (r : RuleTuple) → IsValid l → Refines (view l) (add r) (rule_add l r)
add-Refines l r v = elim (Bool-cases (l.rule_entry_free == 0)) [
  | inl full ↦ rw (rule_add_full l r (ground arith)) (
      unfold view set_step in
      record { valid = v; answer = ground arith; members = λ t. ground arith; size = ground arith })
  | inr room ↦ elim (Bool-cases (count r l.rule_entry == 0)) [
    | inl absent ↦
        let (i, f) = find_first_free-Filled l.rule_entry r (ground (arith, v.counted, v.size)) in
        rw (rule_add_ok l r i (ground arith) (ground arith) f.found)
          (added-Refines l r i v (ground arith) (ground arith) f)
    | inr present ↦ rw (rule_add_exist l r (ground arith) (ground arith)) (
        unfold view set_step in
        record {
          valid = v;
          answer = ground arith;
          members = λ t. ground arith;
          size = ground arith;
        })
  ]
]

rule_del_ok :
    (l : RuleList) (r : RuleTuple) (es : List RuleEntry)
    → l.rule_entry_free ≢ rule_entry_max
    → release_match l.rule_entry r ≡ some es
    → rule_del l r ≡ (
      rule_ok,
      record { rule_entry_free = l.rule_entry_free + 1; build_status = uncommit; rule_entry = es },
    )
unfolding rule_del
rule_del_ok l r es h e = ground arith

rule_del_missing :
    (l : RuleList) (r : RuleTuple) → count r l.rule_entry ≡ 0 → rule_del l r ≡ (rule_not_exist, l)
unfolding rule_del
rule_del_missing l r h = ground (arith, release_match-none l.rule_entry r)

deleted-Refines :
    (l : RuleList) (r : RuleTuple) (es : List RuleEntry)
    → IsValid l
    → count r l.rule_entry ≢ 0
    → Released l.rule_entry r es
    → Refines (view l) (del r) (
      rule_ok,
      record { rule_entry_free = l.rule_entry_free + 1; build_status = uncommit; rule_entry = es },
    )
unfolding view set_step
deleted-Refines l r es v present f = record {
  valid = record {
    size = f.same_length ∙ v.size;
    counted = omega (arith, f.used_less, v.counted);
    distinct = λ q. omega (arith, f.counts q, v.distinct q);
  };
  answer = ground arith;
  members = λ t. ground (arith, f.counts t, v.distinct t);
  size = ground (arith, f.used_less);
}

del-Refines : (l : RuleList) (r : RuleTuple) → IsValid l → Refines (view l) (del r) (rule_del l r)
del-Refines l r v = elim (Bool-cases (count r l.rule_entry == 0)) [
  | inl absent ↦ rw (rule_del_missing l r (ground arith)) (
      unfold view set_step in
      record { valid = v; answer = ground arith; members = λ t. ground arith; size = ground arith })
  | inr present ↦
      let (es, f) = release_match-Released l.rule_entry r (ground arith) in
      rw (rule_del_ok l r es (omega (arith, f.used_less, v.counted)) f.found)
        (deleted-Refines l r es v (ground arith) f)
]

del_all-Refines : (l : RuleList) → IsValid l → Refines (view l) del_all (rule_del_all l)
unfolding rule_del_all view set_step
del_all-Refines l v =
    let (n, u, c) = release_all-counts l.rule_entry in
    record {
      valid = record {
        size = n ∙ v.size;
        counted = omega (arith, u);
        distinct = λ q. omega (arith, c q);
      };
      answer = refl;
      members = λ t. rw (c t);
      size = u;
    }

-- Each request answers as the abstract set does, and leaves a valid table that reads as the set.
pub step-Refines : (l : RuleList) (q : Request) → IsValid l → Refines (view l) q (step l q)
unfolding step
step-Refines l (add r) v = add-Refines l r v
step-Refines l (del r) v = del-Refines l r v
step-Refines l del_all v = del_all-Refines l v

RuleSet-path :
    (s t : RuleSet) → ((q : RuleTuple) → s.member q ≡ t.member q) → s.size ≡ t.size → s ≡ t
RuleSet-path s t m n = λ i. record { member = λ q. m q i; size = n i }

-- On a valid table, a whole session of requests to add a rule, to delete one, and to delete all answers as
-- the abstract set of at most 100000 rules does, and leaves a valid table that reads as that set.
pub run-Refines :
    (l : RuleList) (qs : List Request)
    → IsValid l
    → IsValid (run l qs).1
      × ((run l qs).0 ≡ (set_run (view l) qs).0)
      × (view (run l qs).1 ≡ (set_run (view l) qs).1)
unfolding run set_run
run-Refines l [] v = (v, refl, refl)
run-Refines l (q ∷ qs) v =
    let f = step-Refines l q v in
    let after : view (step l q).1 ≡ (set_step (view l) q).1 =
      RuleSet-path (view (step l q).1) (set_step (view l) q).1 f.members f.size in
    let (valid, answers, content) = run-Refines (step l q).1 qs f.valid in
    (valid, ap₂ ◌∷◌ f.answer (rw after at answers), rw after at content)

-- On a valid table, deletion by the index of a used entry succeeds: the table stays valid, and the rule of
-- that entry, and no other, is gone from the set.
pub rule_del_by_id-effect :
    (l : RuleList) (i : ℕ) (e : RuleEntry)
    → IsValid l
    → get_elem? l.rule_entry i ≡ some e
    → e.entry_status ≡ used
    → (l' : RuleList) × (rule_del_by_id l i ≡ some (rule_ok, l'))
      × IsValid l'
      × ((q : RuleTuple)
          → (view l').member q
            ≡ (if is_zero (rule_compare q e.rule_tuple) then false else (view l).member q))
unfolding rule_del_by_id view
rule_del_by_id-effect l i e v at_i is_used =
    let n = set-freed-used_count l.rule_entry i e at_i in
    (
      record {
        rule_entry_free = l.rule_entry_free + 1;
        build_status = uncommit;
        rule_entry = set l.rule_entry i (freed e);
      },
      ground (arith, n, v.counted),
      record {
        size = length-set l.rule_entry i (freed e) ∙ v.size;
        counted = ground (arith, n, v.counted);
        distinct = λ q. omega (arith, set-freed-count q l.rule_entry i e at_i, v.distinct q);
      },
      λ q. ground (arith, set-freed-count q l.rule_entry i e at_i, v.distinct q),
    )

-- Deletion by an index outside the array reads there, unless the table is empty.
pub rule_del_by_id-fault :
    (l : RuleList) (i : ℕ)
    → IsValid l
    → used_count l.rule_entry ≢ 0
    → rule_entry_max ≤ i
    → rule_del_by_id l i ≡ none
unfolding rule_del_by_id
rule_del_by_id-fault l i v some_used past =
    ground (arith, get_elem?-past l.rule_entry i (omega (arith, v.size)), v.counted)
