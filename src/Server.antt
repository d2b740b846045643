-- ===== src/Server.antt =====
-- mgrplane/src/srv/srvnet: cmdproc.c, srv_rule.c and srv_octeon.c, with mgmt_process_cmd of
-- mgrplane/src/common/message.c and send_rcp_res of mgrplane/src/srv/srvcore/trans.c: what the manager
-- does with one message. The file system and the socket to the data plane enter as an environment.
pub mod Dispatch
pub mod Replies
use sec_fw.Common.{
  ℕ, ◌+◌, ◌-◌, ◌*◌, ◌/◌, ◌%◌, ◌^◌, Bool, true, false, ◌==◌, if◌then◌else◌, List, [], ◌∷◌, ◌++◌,
  Option, none, some, get_or, set, replicate, drop, length,
}
use sec_fw.RuleTuple.{RuleTuple, bytes32, read16, read32, tuple_at}
use sec_fw.Rules.{
  RuleList, RuleEntry, RuleResult, rule_ok, rule_full, rule_exist, rule_not_exist, EntryStatus,
  free, used, rule_add, rule_del, rule_del_by_id, rule_del_all,
}
use sec_fw.Message.{MessageHead, head_at, cmd_is_valid, get_cmd_type, init_msg_header}
use sec_fw.Message.Commands.{
  test_command, test_command_ack, show_dp_build_time, show_dp_build_time_ack, show_dp_pkt_stat,
  show_dp_pkt_stat_ack, show_mem_pool, show_mem_pool_ack, show_acl_rule, show_acl_rule_ack,
  add_acl_rule, add_acl_rule_ack, del_acl_rule, del_acl_rule_ack, del_acl_rule_id,
  del_acl_rule_id_ack, del_acl_rule_all, del_acl_rule_all_ack, commit_acl_rule, commit_acl_rule_ack,
  result_ok, result_rule_full, result_rule_exist, result_rule_not_exist, result_file_err,
}
use sec_fw.Message.Pack.{
  RcpMsgParams, zero_params, copy, Packet, init_msg_pack_handle, param_to_pkt,
}

-- What the manager asks of the outside: whether /tmp/tmp_rule can be opened, and the answer of the
-- data plane to an opcode, as pow_rpc_syncall2dp delivers it (`none` on an error).
pub record Env : Type 0 where
  pub fopen_ok : Bool
  pub dataplane : ℕ → Option (List ℕ)

-- A line of Rule_Save_File: the values that it prints.
pub record SavedRule : Type 0 where
  pub index : ℕ
  pub sip : ℕ
  pub sip_mask : ℕ
  pub dip : ℕ
  pub dip_mask : ℕ
  pub sport_start : ℕ
  pub sport_end : ℕ

-- What one message does: the table after it, the bytes sent back, and the file written.
pub record Outcome : Type 0 where
  pub rules : RuleList
  pub reply : Option (List ℕ)
  pub file : Option (List SavedRule)

abbrev pub silent : RuleList → Outcome
silent l = record { rules = l; reply = none; file = none }

-- send_rcp_res: `none` if the message could not be made.
unfoldable pub send_rcp_res : ℕ → List ℕ → RcpMsgParams → ℕ → Option (List ℕ)
send_rcp_res cmd_ack from p more_flag =
    let align_show = p.info_len % 4 in
    let info_len =
      if align_show == 0 then p.info_len else (p.info_len + (4 - align_show)) % 2 ^ 16 in
    let q = record p { more_flag = more_flag; info_len = info_len } in
    elim (param_to_pkt init_msg_header init_msg_pack_handle cmd_ack from q) [
      | none ↦ none
      | some packet ↦ some (copy packet.bytes 0 packet.len)
    ]

-- The parameters after `params[0].CliResultCode.result_code = code; nparam = 1`.
abbrev pub with_code : ℕ → RcpMsgParams
with_code code = record zero_params { nparam = 1; params_list = bytes32 code }

-- The code that a handler stores for the answer of the rule table.
abbrev pub result_code : RuleResult → ℕ
result_code rule_ok = result_ok
result_code rule_full = result_rule_full
result_code rule_exist = result_rule_exist
result_code rule_not_exist = result_rule_not_exist

unfoldable pub answer : ℕ → List ℕ → RuleResult × RuleList → Outcome
answer cmd_ack from (r, l) = record {
  rules = l;
  reply = send_rcp_res cmd_ack from (with_code (result_code r)) 0;
  file = none;
}

unfoldable pub rule_add_acl_rule : RuleList → List ℕ → Outcome
rule_add_acl_rule l from = answer add_acl_rule_ack from (rule_add l (tuple_at (drop 12 from)))

unfoldable pub rule_del_acl_rule : RuleList → List ℕ → Outcome
rule_del_acl_rule l from = answer del_acl_rule_ack from (rule_del l (tuple_at (drop 12 from)))

-- `none` is an access outside the table.
unfoldable pub rule_del_acl_rule_id : RuleList → List ℕ → Option Outcome
rule_del_acl_rule_id l from = elim (rule_del_by_id l (read32 (drop 12 from) 0)) [
  | none ↦ none
  | some r ↦ some (answer del_acl_rule_id_ack from r)
]

unfoldable pub rule_del_acl_rule_all : RuleList → List ℕ → Outcome
rule_del_acl_rule_all l from = answer del_acl_rule_all_ack from (rule_del_all l)

-- Rule_commit_acl_rule answers, and leaves the table and its build status alone.
unfoldable pub rule_commit_acl_rule : RuleList → List ℕ → Outcome
rule_commit_acl_rule l from = answer commit_acl_rule_ack from (rule_ok, l)

-- Rule_Save_File, from index `i` on.
unfoldable pub rule_save_file : ℕ → List RuleEntry → List SavedRule
rule_save_file i [] = []
rule_save_file i (e ∷ es) =
    let rest = rule_save_file (i + 1) es in
    elim e.entry_status [
      | free ↦ rest
      | used ↦
          record {
            index = i;
            sip = e.rule_tuple.sip;
            sip_mask = e.rule_tuple.sip_mask;
            dip = e.rule_tuple.dip;
            dip_mask = e.rule_tuple.dip_mask;
            sport_start = e.rule_tuple.sport_start;
            sport_end = e.rule_tuple.sport_end;
          }
          ∷ rest
    ]

-- The code is stored in the parameters, but the function that packs this reply reads `info_len`.
unfoldable pub rule_show_acl_rule : Env → RuleList → List ℕ → Outcome
rule_show_acl_rule env l from = record {
  rules = l;
  reply =
      send_rcp_res show_acl_rule_ack from
        (with_code (if env.fopen_ok then result_ok else result_file_err)) 0;
  file = if env.fopen_ok then some (rule_save_file 0 l.rule_entry) else none;
}

-- octeon_rpccall: `info_len` must fill what was received after the four bytes of the rpc header.
unfoldable pub octeon_rpccall : Env → List ℕ → ℕ → ℕ → Option (List ℕ)
octeon_rpccall env from cmd_ack opcode = elim (env.dataplane opcode) [
  | none ↦ none
  | some recv_buf ↦
      let info_len = read16 recv_buf 2 in
      if info_len + 4 == length recv_buf
      then send_rcp_res cmd_ack from
          (record zero_params { info_len = info_len; params_list = copy recv_buf 4 info_len }) 0
      else none
]

-- "show test command.\n"
abbrev test_text : List ℕ
test_text =
    0x73 ∷ 0x68 ∷ 0x6f ∷ 0x77 ∷ 0x20 ∷ 0x74 ∷ 0x65 ∷ 0x73 ∷ 0x74 ∷ 0x20 ∷ 0x63 ∷ 0x6f ∷ 0x6d ∷ 0x6d
    ∷ 0x61 ∷ 0x6e ∷ 0x64 ∷ 0x2e ∷ 0x0a ∷ []

unfoldable pub octeon_show_test_command : List ℕ → Option (List ℕ)
octeon_show_test_command from =
    send_rcp_res test_command_ack from
      (record zero_params { info_len = 19; params_list = test_text }) 0
