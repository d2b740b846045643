-- ===== src/Cli.antt =====
-- mgrplane/src/client/cli_rule.c: what the command line makes of a rule that the user types, and what it
-- reads from the reply.
pub mod Requests
pub mod Session
pub mod Deletion
use sec_fw.Common.{
  ℕ, ◌%◌, ◌^◌, ◌&&◌, ◌||◌, ◌==◌, ◌!=◌, ltb, if◌then◌else◌, List, Option, none, some, drop,
}
use sec_fw.RuleTuple.{Mac, RuleTuple, tuple_bytes, read32}
use sec_fw.Message.{init_msg_header}
use sec_fw.Message.Commands.{
  add_acl_rule, del_acl_rule, del_acl_rule_id, del_acl_rule_all, commit_acl_rule, show_acl_rule,
}
use sec_fw.RuleTuple.{bytes32}
use sec_fw.Message.Pack.{
  RcpMsgParams, zero_params, Packet, pack_acl_rule, pack_acl_rule_id, pack_null,
}

-- The word after `action`: the comparison with "fw" and with "drop" is all that is made of it.
pub data ActionWord : Type 0 where
  fw drop_packet other : ActionWord

-- The arguments of `add rule` and of `delete rule`, each an uint32_t as the parser delivers it.
pub record RuleArgs : Type 0 where
  pub smac : Mac
  pub dmac : Mac
  pub sip : ℕ
  pub sip_mask : ℕ
  pub dip : ℕ
  pub dip_mask : ℕ
  pub sport_start : ℕ
  pub sport_end : ℕ
  pub dport_start : ℕ
  pub dport_end : ℕ
  pub proto_start : ℕ
  pub proto_end : ℕ
  pub action : ActionWord

-- ACL_RULE_ACTION_FW and ACL_RULE_ACTION_DROP. The block was cleared, so another word leaves 0.
abbrev pub action_code : ActionWord → ℕ
action_code fw = 0
action_code drop_packet = 1
action_code other = 0

-- The block that the assignments fill, each to the width of its field.
unfoldable pub args_tuple : RuleArgs → RuleTuple
args_tuple a = record {
  smac = a.smac;
  dmac = a.dmac;
  sip = a.sip % 2 ^ 32;
  sip_mask = a.sip_mask % 2 ^ 32;
  dip = a.dip % 2 ^ 32;
  dip_mask = a.dip_mask % 2 ^ 32;
  sport_start = a.sport_start % 2 ^ 16;
  sport_end = a.sport_end % 2 ^ 16;
  dport_start = a.dport_start % 2 ^ 16;
  dport_end = a.dport_end % 2 ^ 16;
  protocol_start = a.proto_start % 2 ^ 8;
  protocol_end = a.proto_end % 2 ^ 8;
  action = action_code a.action;
}

-- The checks on the way; `none` is CPARSER_NOT_OK.
unfoldable pub check_rule : RuleArgs → Option RuleTuple
check_rule a =
    if 0 == a.sip && 0 != a.sip_mask
    then none
    else if 0 != a.sip && ltb 32 a.sip_mask
    then none
    else if 0 == a.dip && 0 != a.dip_mask
    then none
    else if 0 != a.dip && ltb 32 a.dip_mask
    then none
    else if ltb a.sport_end a.sport_start || ltb 0xffff a.sport_end
    then none
    else if ltb a.dport_end a.dport_start || ltb 0xffff a.dport_end
    then none
    else if ltb a.proto_end a.proto_start || ltb 0xff a.proto_end
    then none
    else some (args_tuple a)

rule_request : ℕ → ℕ → RuleArgs → Option Packet
rule_request cmd msg_id a = elim (check_rule a) [
  | none ↦ none
  | some r ↦
      pack_acl_rule init_msg_header cmd
        (record zero_params { msg_id = msg_id; nparam = 1; params_list = tuple_bytes r })
]

-- cparser_cmd_add_rule_… and cparser_cmd_delete_rule_…, up to the call of process_message.
unfoldable pub add_rule : ℕ → RuleArgs → Option Packet
unfolding rule_request
add_rule msg_id a = rule_request add_acl_rule msg_id a

unfoldable pub delete_rule : ℕ → RuleArgs → Option Packet
unfolding rule_request
delete_rule msg_id a = rule_request del_acl_rule msg_id a

-- cparser_cmd_delete_rule_id
unfoldable pub delete_rule_id : ℕ → ℕ → Option Packet
delete_rule_id msg_id rule_id =
    if ltb 100000 rule_id
    then none
    else pack_acl_rule_id init_msg_header del_acl_rule_id
        (record zero_params { msg_id = msg_id; nparam = 1; params_list = bytes32 rule_id })

bare_request : ℕ → ℕ → Option Packet
bare_request cmd msg_id = pack_null init_msg_header cmd (record zero_params { msg_id = msg_id })

unfoldable pub delete_rule_all : ℕ → Option Packet
unfolding bare_request
delete_rule_all msg_id = bare_request del_acl_rule_all msg_id

unfoldable pub commit_rule : ℕ → Option Packet
unfolding bare_request
commit_rule msg_id = bare_request commit_acl_rule msg_id

-- `blocks[0].result_code` of recv_buf, which was cleared.
unfoldable pub reply_code : List ℕ → ℕ
reply_code recv_buf = read32 (drop 12 recv_buf) 0
