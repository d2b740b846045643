-- ===== src/Server/Dispatch.antt =====
-- mgrplane/src/srv/srvnet/cmdproc.c and mgmt_process_cmd: which handler a message reaches.
use sec_fw.Common.{ℕ, if◌then◌else◌, List, Option, none, some, get_or, set, replicate}
use sec_fw.Rules.{RuleList}
use sec_fw.Message.{head_at, cmd_is_valid, get_cmd_type, init_msg_header}
use sec_fw.Message.Commands.{
  test_command, show_dp_build_time, show_dp_build_time_ack, show_dp_pkt_stat, show_dp_pkt_stat_ack,
  show_mem_pool, show_mem_pool_ack, show_acl_rule, add_acl_rule, del_acl_rule, del_acl_rule_id,
  del_acl_rule_all, commit_acl_rule,
}
use sec_fw.Server.{
  Env, Outcome, silent, rule_add_acl_rule, rule_del_acl_rule, rule_del_acl_rule_id,
  rule_del_acl_rule_all, rule_commit_acl_rule, rule_show_acl_rule, octeon_rpccall,
  octeon_show_test_command,
}

-- The functions process_... of cmdproc.c. Each clears the parameters and calls one handler.
pub data CmdProcess : Type 0 where
  process_test_command process_show_dp_build_time process_show_dp_pkt_stat : CmdProcess
  process_show_mem_pool process_show_acl_rule process_add_acl_rule : CmdProcess
  process_del_acl_rule process_del_acl_rule_id process_del_acl_rule_all : CmdProcess
  process_commit_acl_rule : CmdProcess

abbrev pub ProcessTable : Type 0
ProcessTable = List (Option CmdProcess)

unfoldable pub register_cmd_process_handle : ℕ → CmdProcess → ProcessTable → ProcessTable
unfolding cmd_is_valid
register_cmd_process_handle cmd handle handles =
    if cmd_is_valid cmd then set handles cmd (some handle) else handles

unfoldable pub init_cmd_process_handle : ProcessTable
unfolding register_cmd_process_handle replicate
init_cmd_process_handle =
    let h0 = replicate 21 none in
    let h1 = register_cmd_process_handle test_command process_test_command h0 in
    let h2 = register_cmd_process_handle show_dp_build_time process_show_dp_build_time h1 in
    let h3 = register_cmd_process_handle show_dp_pkt_stat process_show_dp_pkt_stat h2 in
    let h4 = register_cmd_process_handle show_mem_pool process_show_mem_pool h3 in
    let h5 = register_cmd_process_handle show_acl_rule process_show_acl_rule h4 in
    let h6 = register_cmd_process_handle add_acl_rule process_add_acl_rule h5 in
    let h7 = register_cmd_process_handle del_acl_rule process_del_acl_rule h6 in
    let h8 = register_cmd_process_handle del_acl_rule_id process_del_acl_rule_id h7 in
    let h9 = register_cmd_process_handle del_acl_rule_all process_del_acl_rule_all h8 in
    register_cmd_process_handle commit_acl_rule process_commit_acl_rule h9

abbrev rpc : RuleList → Option (List ℕ) → Option Outcome
rpc l reply = some (record { rules = l; reply = reply; file = none })

-- `none` is an access outside the rule table.
unfoldable pub process : CmdProcess → Env → RuleList → List ℕ → Option Outcome
process process_test_command env l from = rpc l (octeon_show_test_command from)
process process_show_dp_build_time env l from =
    rpc l (octeon_rpccall env from show_dp_build_time_ack 0xa001)
process process_show_dp_pkt_stat env l from =
    rpc l (octeon_rpccall env from show_dp_pkt_stat_ack 0xa002)
process process_show_mem_pool env l from = rpc l (octeon_rpccall env from show_mem_pool_ack 0xa003)
process process_show_acl_rule env l from = some (rule_show_acl_rule env l from)
process process_add_acl_rule env l from = some (rule_add_acl_rule l from)
process process_del_acl_rule env l from = some (rule_del_acl_rule l from)
process process_del_acl_rule_id env l from = rule_del_acl_rule_id l from
process process_del_acl_rule_all env l from = some (rule_del_acl_rule_all l from)
process process_commit_acl_rule env l from = some (rule_commit_acl_rule l from)

-- The handler that mgmt_process_cmd calls for a message, if it calls one.
unfoldable pub handler_of : List ℕ → Option CmdProcess
handler_of from = elim (get_cmd_type init_msg_header (head_at from)) [
  | none ↦ none
  | some cmd ↦ if cmd_is_valid cmd then get_or init_cmd_process_handle cmd none else none
]

-- An unknown command, or one with no handler, changes nothing and sends nothing.
unfoldable pub mgmt_process_cmd : Env → RuleList → List ℕ → Option Outcome
mgmt_process_cmd env l from = elim (handler_of from) [
  | none ↦ some (silent l)
  | some handle ↦ process handle env l from
]
