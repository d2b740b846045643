-- ===== src/Tests/Loading.antt =====
-- Runs of the model of the loading of the rules.
use sec_fw.Common.{ℕ, ◌*◌, ◌+◌, ◌^◌, ◌≡◌, refl, List, [], ◌∷◌, All, map, none, some, arith}
use sec_fw.RuleTuple.{RuleTuple}
use sec_fw.Rules.{RuleEntry, free, used, zero_tuple}
use sec_fw.Acl.Ranges.{read_ip_range, fill_octets}
use sec_fw.Acl.Prefix.{read_ip_range-prefix}
use sec_fw.Acl.Load.{Heap, LoadedRule, load_rule, with_default}
use sec_fw.Acl.Shared.{PointsTo, last_used, used_rules, rule_name, load_rule-PointsTo}

-- The prefix 10.1.20.0/22.
network_range :
    read_ip_range (10 * 2 ^ 24 + 1 * 2 ^ 16 + 22 * 256 + 9) 22
    ≡ some (10 * 2 ^ 24 + 1 * 2 ^ 16 + 20 * 256, 10 * 2 ^ 24 + 1 * 2 ^ 16 + 23 * 256 + 255)
unfolding read_ip_range fill_octets
network_range = refl

-- A mask of 33 bits.
long_mask : read_ip_range 5 33 ≡ none
unfolding read_ip_range
long_mask = refl

prefix_example : read_ip_range (10 * 2 ^ 24 + 9) 24 ≡ some (10 * 2 ^ 24, 10 * 2 ^ 24 + 255)
prefix_example = read_ip_range-prefix (10 * 2 ^ 24 + 9) 24 (omega arith) (omega arith)

abbrev tuple_on : ℕ → RuleTuple
tuple_on port = record zero_tuple {
  sport_start = port;
  sport_end = port;
  sip = 10 * 2 ^ 24;
  sip_mask = 8;
  action = port;
}

abbrev three_entries : List RuleEntry
three_entries =
    record { entry_status = used; rule_tuple = tuple_on 5 }
    ∷ record { entry_status = free; rule_tuple = zero_tuple }
    ∷ record { entry_status = used; rule_tuple = tuple_on 7 }
    ∷ []

abbrev empty_heap : Heap
empty_heap = record { next = 0; word = λ b. 0 }

shared_example :
    (rules : List LoadedRule) × (after : Heap) × (load_rule three_entries empty_heap
      ≡ some (with_default rules, after))
    × (map rule_name rules ≡ used_rules 0 three_entries)
    × All (PointsTo after (tuple_on 7)) rules
unfolding last_used
shared_example =
    load_rule-PointsTo three_entries empty_heap (tuple_on 7)
      (
        λ u. (omega arith, omega arith, omega arith, omega arith),
        (
          λ u. (omega arith, omega arith, omega arith, omega arith),
          (λ u. (omega arith, omega arith, omega arith, omega arith), _),
        ),
      )
      refl

-- The rules on the ports 5 and 7 are the entries 0 and 2.
shared_names : used_rules 0 three_entries ≡ (0, 5) ∷ (2, 7) ∷ []
unfolding used_rules
shared_names = refl
