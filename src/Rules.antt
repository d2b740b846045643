-- ===== src/Rules.antt =====
-- include/acl_rule.h and mgrplane/src/srv/srvnet/srv_rule.c: the table of ACL rules that the
-- manager edits and the data plane reads.
pub mod Content
pub mod Refinement
use sec_fw.Common.{
  ℕ, suc, ◌+◌, ◌-◌, ◌==◌, if◌then◌else◌, List, [], ◌∷◌, Option, none, some, set, replicate,
  get_elem?,
}
use sec_fw.RuleTuple.{Mac, RuleTuple, rule_compare, is_zero}

-- RULE_ENTRY_MAX
abbrev pub rule_entry_max : ℕ
rule_entry_max = 100000

-- RULE_ENTRY_STATUS_FREE and RULE_ENTRY_STATUS_USED
pub data EntryStatus : Type 0 where
  free used : EntryStatus

-- RULE_BUILD_UNCOMMIT and RULE_BUILD_COMMIT
pub data BuildStatus : Type 0 where
  uncommit commit : BuildStatus

-- RULE_OK, RULE_FULL, RULE_EXIST and RULE_NOT_EXIST
pub data RuleResult : Type 0 where
  rule_ok rule_full rule_exist rule_not_exist : RuleResult

pub record RuleEntry : Type 0 where
  pub entry_status : EntryStatus
  pub rule_tuple : RuleTuple

pub record RuleList : Type 0 where
  pub rule_entry_free : ℕ
  pub build_status : BuildStatus
  pub rule_entry : List RuleEntry

-- What `memset` leaves in an entry.
abbrev pub zero_mac : Mac
zero_mac = record { b0 = 0; b1 = 0; b2 = 0; b3 = 0; b4 = 0; b5 = 0 }

abbrev pub zero_tuple : RuleTuple
zero_tuple = record {
  smac = zero_mac;
  dmac = zero_mac;
  sip = 0;
  sip_mask = 0;
  dip = 0;
  dip_mask = 0;
  sport_start = 0;
  sport_end = 0;
  dport_start = 0;
  dport_end = 0;
  protocol_start = 0;
  protocol_end = 0;
  action = 0;
}

-- Rule_list_init, once the shared memory is mapped.
unfoldable pub rule_list_init : RuleList
rule_list_init = record {
  rule_entry_free = rule_entry_max;
  build_status = uncommit;
  rule_entry = replicate rule_entry_max (record { entry_status = free; rule_tuple = zero_tuple });
}

-- `none` is the index -1.
unfoldable pub find_first_free : List RuleEntry → Option ℕ
find_first_free [] = none
find_first_free (e ∷ es) =
    let rest = find_first_free es in
    elim e.entry_status [ free ↦ some 0 | used ↦ elim rest [ none ↦ none | some i ↦ some (suc i) ] ]

unfoldable pub rule_duplicate_check : List RuleEntry → RuleTuple → RuleResult
rule_duplicate_check [] rule = rule_ok
rule_duplicate_check (e ∷ es) rule =
    let rest = rule_duplicate_check es rule in
    elim e.entry_status [
      | free ↦ rest
      | used ↦ if is_zero (rule_compare rule e.rule_tuple) then rule_exist else rest
    ]

store_at : RuleList → RuleTuple → Option ℕ → RuleResult × RuleList
store_at l rule none = (rule_full, l)
store_at l rule (some index) = (
  rule_ok,
  record {
    rule_entry_free = l.rule_entry_free - 1;
    build_status = uncommit;
    rule_entry = set l.rule_entry index (record { entry_status = used; rule_tuple = rule });
  },
)

unfoldable pub rule_add : RuleList → RuleTuple → RuleResult × RuleList
unfolding store_at
rule_add l rule =
    if l.rule_entry_free == 0
    then (rule_full, l)
    else elim (rule_duplicate_check l.rule_entry rule) [
      | rule_exist ↦ (rule_exist, l)
      | _ ↦ store_at l rule (find_first_free l.rule_entry)
    ]

-- The loop of Rule_del: the entries with the first match freed.
unfoldable pub release_match : List RuleEntry → RuleTuple → Option (List RuleEntry)
release_match [] rule = none
release_match (e ∷ es) rule =
    let rest : Option (List RuleEntry) = elim (release_match es rule) [
      | none ↦ none
      | some es' ↦ some (e ∷ es')
    ] in
    elim e.entry_status [
      | free ↦ rest
      | used ↦
          if is_zero (rule_compare e.rule_tuple rule)
          then some (record e { entry_status = free } ∷ es)
          else rest
    ]

unfoldable pub rule_del : RuleList → RuleTuple → RuleResult × RuleList
rule_del l rule =
    if l.rule_entry_free == rule_entry_max
    then (rule_not_exist, l)
    else elim (release_match l.rule_entry rule) [
      | none ↦ (rule_not_exist, l)
      | some es ↦ (
        rule_ok,
        record {
          rule_entry_free = l.rule_entry_free + 1;
          build_status = uncommit;
          rule_entry = es;
        },
      )
    ]

-- The index comes from the message unchecked: `none` is an access outside the array.
unfoldable pub rule_del_by_id : RuleList → ℕ → Option (RuleResult × RuleList)
rule_del_by_id l rule_id =
    if l.rule_entry_free == rule_entry_max
    then some (rule_not_exist, l)
    else elim (get_elem? l.rule_entry rule_id) [
      | none ↦ none
      | some e ↦ elim e.entry_status [
        | free ↦ some (rule_not_exist, l)
        | used ↦ some (
          rule_ok,
          record {
            rule_entry_free = l.rule_entry_free + 1;
            build_status = uncommit;
            rule_entry = set l.rule_entry rule_id (record e { entry_status = free });
          },
        )
      ]
    ]

unfoldable pub release_all : List RuleEntry → List RuleEntry
release_all [] = []
release_all (e ∷ es) = record e { entry_status = free } ∷ release_all es

unfoldable pub rule_del_all : RuleList → RuleResult × RuleList
unfolding release_all
rule_del_all l = (
  rule_ok,
  record {
    rule_entry_free = rule_entry_max;
    build_status = uncommit;
    rule_entry = release_all l.rule_entry;
  },
)
