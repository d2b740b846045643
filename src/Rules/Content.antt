-- ===== src/Rules/Content.antt =====
-- What a rule table holds: how many entries are used, and how often each rule stands in them.
use sec_fw.Common.{
  ℕ, zero, suc, ◌+◌, ◌≤◌, ◌<◌, ◌≡◌, refl, ◌≢◌, ◌⊎◌, inl, inr, Bool-cases, true, false, ◌==◌,
  if◌then◌else◌, List, [], ◌∷◌, none, some, arith, length, set, get_elem?, replicate,
}
use sec_fw.RuleTuple.{RuleTuple, rule_compare, is_zero}
use sec_fw.RuleTuple.Laws.{rule_compare_congr_left, rule_compare_congr_right, rule_compare_symm}
use sec_fw.Rules.{
  RuleEntry, rule_ok, rule_exist, EntryStatus, free, used, find_first_free, rule_duplicate_check,
  release_match, release_all,
}

abbrev pub used_entry : EntryStatus → ℕ
used_entry free = 0
used_entry used = 1

unfoldable pub used_count : List RuleEntry → ℕ
used_count [] = 0
used_count (e ∷ es) = used_entry e.entry_status + used_count es

-- 1 if the entry is used and holds a rule equal to `q`.
abbrev pub holds : RuleTuple → RuleEntry → ℕ
holds q e = elim e.entry_status [
  | free ↦ 0
  | used ↦ if is_zero (rule_compare q e.rule_tuple) then 1 else 0
]

unfoldable pub count : RuleTuple → List RuleEntry → ℕ
count q [] = 0
count q (e ∷ es) = holds q e + count q es

abbrev pub used_with : RuleTuple → RuleEntry
used_with rule = record { entry_status = used; rule_tuple = rule }

abbrev pub freed : RuleEntry → RuleEntry
freed e = record e { entry_status = free }

pub EntryStatus-cases : (s : EntryStatus) → (s ≡ free) ⊎ (s ≡ used)
EntryStatus-cases free = inl refl
EntryStatus-cases used = inr refl

-- The test of Rule_del at one entry.
holds-cases :
    (rule : RuleTuple) (e : RuleEntry)
    → ((e.entry_status ≡ used) × (is_zero (rule_compare e.rule_tuple rule) ≡ true))
      ⊎ ((holds rule e ≡ 0)
          × (e.entry_status ≡ used → is_zero (rule_compare e.rule_tuple rule) ≡ false))
holds-cases rule e = elim (EntryStatus-cases e.entry_status) [
  | inl f ↦ inr (ground arith, λ u. cc)
  | inr u ↦ elim (Bool-cases (is_zero (rule_compare e.rule_tuple rule))) [
    | inl m ↦ inl (u, m)
    | inr m ↦ inr (ground (arith, rule_compare_symm rule e.rule_tuple), λ u'. m)
  ]
]

-- The duplicate check reads the count.
pub rule_duplicate_check-count :
    (es : List RuleEntry) (rule : RuleTuple)
    → rule_duplicate_check es rule ≡ (if count rule es == 0 then rule_ok else rule_exist)
unfolding rule_duplicate_check count
rule_duplicate_check-count [] rule = refl
rule_duplicate_check-count (e ∷ es) rule = ground (arith, rule_duplicate_check-count es rule)

pub used_count-le : (es : List RuleEntry) → used_count es ≤ length es
unfolding used_count
used_count-le [] = omega arith
used_count-le (e ∷ es) = ground (arith, used_count-le es)

pub count-le-used_count : (q : RuleTuple) (es : List RuleEntry) → count q es ≤ used_count es
unfolding count used_count
count-le-used_count q [] = omega arith
count-le-used_count q (e ∷ es) = ground (arith, count-le-used_count q es)

-- With an entry to spare, the first free one is found, and writing to it adds one rule.
pub record Filled (es : List RuleEntry) (rule : RuleTuple) (index : ℕ) : Type 0 where
  pub found : find_first_free es ≡ some index
  pub in_range : index < length es
  pub used_more : used_count (set es index (used_with rule)) ≡ used_count es + 1
  pub counts :
      (q : RuleTuple)
      → count q (set es index (used_with rule))
        ≡ (if is_zero (rule_compare q rule) then 1 else 0) + count q es

pub find_first_free-Filled :
    (es : List RuleEntry) (rule : RuleTuple)
    → used_count es < length es
    → (index : ℕ) × Filled es rule index
unfolding find_first_free used_count count
find_first_free-Filled [] rule h = absurd (omega arith)
find_first_free-Filled (e ∷ es) rule h = elim (EntryStatus-cases e.entry_status) [
  | inl f ↦ (
    0,
    record {
      found = ground arith;
      in_range = omega arith;
      used_more = ground arith;
      counts = λ q. ground arith;
    },
  )
  | inr u ↦
      let (i, r) = find_first_free-Filled es rule (ground arith) in
      (
        suc i,
        record {
          found = ground (arith, r.found);
          in_range = omega (arith, r.in_range);
          used_more = omega (arith, r.used_more);
          counts = λ q. ground (arith, r.counts q);
        },
      )
]

pub find_first_free-none :
    (es : List RuleEntry) → used_count es ≡ length es → find_first_free es ≡ none
unfolding find_first_free used_count
find_first_free-none [] h = refl
find_first_free-none (e ∷ es) h = ground (arith, find_first_free-none es, used_count-le es)

-- Freeing the first match takes away one rule, if there is one.
pub release_match-none :
    (es : List RuleEntry) (rule : RuleTuple) → count rule es ≡ 0 → release_match es rule ≡ none
unfolding release_match count
release_match-none [] rule h = refl
release_match-none (e ∷ es) rule h =
    ground (arith, release_match-none es rule, rule_compare_symm rule e.rule_tuple)

pub record Released (es : List RuleEntry) (rule : RuleTuple) (es' : List RuleEntry) : Type 0 where
  pub found : release_match es rule ≡ some es'
  pub same_length : length es' ≡ length es
  pub used_less : used_count es' + 1 ≡ used_count es
  pub counts :
      (q : RuleTuple) → count q es' + (if is_zero (rule_compare q rule) then 1 else 0) ≡ count q es

pub release_match-Released :
    (es : List RuleEntry) (rule : RuleTuple)
    → count rule es ≢ 0
    → (es' : List RuleEntry) × Released es rule es'
unfolding release_match used_count count
release_match-Released [] rule h = absurd (h refl)
release_match-Released (e ∷ es) rule h = elim (holds-cases rule e) [
  | inl (u, m) ↦ (
    freed e ∷ es,
    record {
      found = ground arith;
      same_length = refl;
      used_less = ground arith;
      counts = λ q. ground (arith, rule_compare_congr_right q e.rule_tuple rule);
    },
  )
  | inr (miss, skip) ↦
      let (es', r) = release_match-Released es rule (omega arith) in
      (
        e ∷ es',
        record {
          found = ground (arith, r.found, skip);
          same_length = omega (arith, r.same_length);
          used_less = omega (arith, r.used_less);
          counts = λ q. omega (arith, r.counts q);
        },
      )
]

pub release_all-counts :
    (es : List RuleEntry)
    → (length (release_all es) ≡ length es)
      × (used_count (release_all es) ≡ 0)
      × ((q : RuleTuple) → count q (release_all es) ≡ 0)
unfolding release_all used_count count
release_all-counts [] = (refl, refl, λ q. refl)
release_all-counts (e ∷ es) =
    let (l, u, c) = release_all-counts es in (omega arith, omega arith, λ q. omega (arith, c q))

pub replicate-counts :
    (n : ℕ) (rule : RuleTuple)
    → let es = replicate n (freed (used_with rule)) in
      (used_count es ≡ 0) × ((q : RuleTuple) → count q es ≡ 0)
unfolding replicate used_count count
replicate-counts zero rule = (refl, λ q. refl)
replicate-counts (suc n) rule =
    let (u, c) = replicate-counts n rule in (omega arith, λ q. omega (arith, c q))

-- Freeing the entry at an index takes away the rule that it held.
pub set-freed-used_count :
    (es : List RuleEntry) (i : ℕ) (e : RuleEntry)
    → get_elem? es i ≡ some e
    → used_count (set es i (freed e)) + used_entry e.entry_status ≡ used_count es
unfolding used_count
set-freed-used_count [] i e h = cc
set-freed-used_count (x ∷ es) zero e h = ground arith
set-freed-used_count (x ∷ es) (suc i) e h = omega (arith, set-freed-used_count es i e h)

pub set-freed-count :
    (q : RuleTuple) (es : List RuleEntry) (i : ℕ) (e : RuleEntry)
    → get_elem? es i ≡ some e
    → count q (set es i (freed e)) + holds q e ≡ count q es
unfolding count
set-freed-count q [] i e h = cc
set-freed-count q (x ∷ es) zero e h = ground arith
set-freed-count q (x ∷ es) (suc i) e h = ground (arith, set-freed-count q es i e h)

-- Equal rules are counted alike.
pub count_congr :
    (a b : RuleTuple) (es : List RuleEntry)
    → is_zero (rule_compare a b) ≡ true
    → count a es ≡ count b es
unfolding count
count_congr a b [] h = refl
count_congr a b (e ∷ es) h =
    ground (arith, count_congr a b es, rule_compare_congr_left a b e.rule_tuple)
