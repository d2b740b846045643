-- ===== src/Tests/Manager.antt =====
-- Runs of the manager's model on small tables and requests.
use sec_fw.Common.{
  ◌≡◌, refl, List, [], ◌∷◌, none, some, arith, replicate, get_elem?, true, false, length-replicate,
  if◌then◌else◌,
}
use sec_fw.RuleTuple.{RuleTuple, rule_compare, is_zero}
use sec_fw.RuleTuple.Laws.{IsTuple}
use sec_fw.Rules.{
  RuleList, RuleResult, rule_ok, uncommit, zero_tuple, zero_mac, rule_list_init, rule_add, rule_del,
  rule_del_by_id,
}
use sec_fw.Rules.Content.{used_count, count, freed, used_with, replicate-counts}
use sec_fw.Rules.Refinement.{
  IsValid, view, Request, add, del, del_all, run, set_run, rule_list_init-IsValid, run-Refines,
  rule_del_by_id-effect,
}
use sec_fw.Message.{init_msg_header}
use sec_fw.Message.Commands.{show_mem_pool_ack}
use sec_fw.Message.Framing.{Framed, param_to_pkt-Framed}
use sec_fw.Message.Pack.{Packet, zero_params, init_msg_pack_handle, param_to_pkt}
use sec_fw.Server.{Env}
use sec_fw.Server.Dispatch.{mgmt_process_cmd}
use sec_fw.Cli.{RuleArgs, fw, check_rule, add_rule, delete_rule, delete_rule_id, args_tuple}
use sec_fw.Cli.Session.{Session, add_rule-Session, delete_rule-Session}
use sec_fw.Cli.Deletion.{id_request, delete_rule_id-Session, delete_rule_id-fault}

-- Traffic to port 80 of 10.0.0.1.
abbrev web_rule : RuleTuple
web_rule = record zero_tuple {
  dip = 0x0a000001;
  dip_mask = 32;
  sport_end = 0xffff;
  dport_start = 80;
  dport_end = 80;
  protocol_start = 6;
  protocol_end = 6;
}

abbrev web_args : RuleArgs
web_args = record {
  smac = zero_mac;
  dmac = zero_mac;
  sip = 0;
  sip_mask = 0;
  dip = 0x0a000001;
  dip_mask = 32;
  sport_start = 0;
  sport_end = 0xffff;
  dport_start = 80;
  dport_end = 80;
  proto_start = 6;
  proto_end = 6;
  action = fw;
}

web_rule-IsTuple : IsTuple web_rule
web_rule-IsTuple = omega arith

-- A table whose first entry holds that rule.
abbrev one_rule : RuleList
one_rule = record {
  rule_entry_free = 99999;
  build_status = uncommit;
  rule_entry = used_with web_rule ∷ replicate 99999 (freed (used_with zero_tuple));
}

one_rule-IsValid : IsValid one_rule
unfolding used_count count
one_rule-IsValid =
    let (u, c) = replicate-counts 99999 zero_tuple in
    record {
      size = omega (arith, length-replicate 99999 (freed (used_with zero_tuple)));
      counted = omega (arith, u);
      distinct = λ q. ground (arith, c q);
    }

abbrev session : List Request
session = add web_rule ∷ add web_rule ∷ del zero_tuple ∷ del_all ∷ []

run_example :
    IsValid (run rule_list_init session).1
    × ((run rule_list_init session).0 ≡ (set_run (view rule_list_init) session).0)
    × (view (run rule_list_init session).1 ≡ (set_run (view rule_list_init) session).1)
run_example = run-Refines rule_list_init session rule_list_init-IsValid

abbrev quiet : Env
quiet = record { fopen_ok = true; dataplane = λ opcode. none }

web_checked : check_rule web_args ≡ some web_rule
unfolding check_rule args_tuple
web_checked = refl

add_example :
    (request : Packet) × (add_rule 7 web_args ≡ some request)
    × Session quiet rule_list_init (rule_add rule_list_init web_rule) request
add_example = add_rule-Session quiet rule_list_init 7 web_args web_rule (omega arith) web_checked

delete_example :
    (request : Packet) × (delete_rule 7 web_args ≡ some request)
    × Session quiet rule_list_init (rule_del rule_list_init web_rule) request
delete_example =
    delete_rule-Session quiet rule_list_init 7 web_args web_rule (omega arith) web_checked

framing_example : Framed (
    param_to_pkt init_msg_header init_msg_pack_handle show_mem_pool_ack []
      (record zero_params { info_len = 8 }))
framing_example =
    param_to_pkt-Framed show_mem_pool_ack [] (record zero_params { info_len = 8 }) (omega arith)
      (omega arith)

first_used : get_elem? one_rule.rule_entry 0 ≡ some (used_with web_rule)
first_used = refl

by_id_example :
    (l' : RuleList) × (rule_del_by_id one_rule 0 ≡ some (rule_ok, l'))
    × IsValid l'
    × ((q : RuleTuple)
        → (view l').member q
          ≡ (if is_zero (rule_compare q web_rule) then false else (view one_rule).member q))
by_id_example =
    rule_del_by_id-effect one_rule 0 (used_with web_rule) one_rule-IsValid first_used refl

one_rule-used : used_count one_rule.rule_entry ≡ 1
unfolding used_count
one_rule-used = omega (arith, (replicate-counts 99999 zero_tuple).0)

absent_id : rule_del_by_id rule_list_init 3 ≡ some (RuleResult.rule_not_exist, rule_list_init)
unfolding rule_del_by_id rule_list_init
absent_id = ground arith

delete_id_example :
    (delete_rule_id 7 3 ≡ some (id_request 7 3))
    × Session quiet rule_list_init (RuleResult.rule_not_exist, rule_list_init) (id_request 7 3)
delete_id_example =
    delete_rule_id-Session quiet rule_list_init 7 3 (RuleResult.rule_not_exist, rule_list_init)
      (omega arith) (omega arith) absent_id

fault_example :
    (delete_rule_id 7 100000 ≡ some (id_request 7 100000))
    × (mgmt_process_cmd quiet one_rule (id_request 7 100000).bytes ≡ none)
fault_example =
    delete_rule_id-fault quiet one_rule 7 (omega arith) one_rule-IsValid
      (omega (arith, one_rule-used))
