-- ===== src/Message.antt =====
-- mgrplane/src/common/include/message.h and mgrplane/src/common/message.c: the messages between the
-- command line and the manager. This file has the header with its table and lookup; `Pack` has the
-- functions that write messages and the table of these. C's `-1` of `get_cmd_type` is `none`, and a
-- command is a number, since it indexes the tables.
pub mod Commands
pub mod Pack
pub mod Headers
pub mod Blocks
pub mod Framing
use sec_fw.Common.{
  ℕ, suc, ◌+◌, ◌*◌, ◌/◌, ◌%◌, Bool, ◌&&◌, ◌==◌, ltb, if◌then◌else◌, List, [], ◌∷◌, ◌++◌, Option,
  none, some, get_or, set, replicate,
}
use sec_fw.RuleTuple.{bytes16, bytes32, read16, read32}
use Commands.{
  test_command, test_command_ack, show_dp_build_time, show_dp_build_time_ack, show_dp_pkt_stat,
  show_dp_pkt_stat_ack, show_mem_pool, show_mem_pool_ack, show_acl_rule, show_acl_rule_ack,
  add_acl_rule, add_acl_rule_ack, del_acl_rule, del_acl_rule_ack, del_acl_rule_id,
  del_acl_rule_id_ack, del_acl_rule_all, del_acl_rule_all_ack, commit_acl_rule, commit_acl_rule_ack,
  max_command_type, block_type_start, block_ipv4_five_tuple, block_acl_rule_tuple,
  block_result_code, block_acl_rule_id, msg_valid_flag, msg_type_cli_octeon,
}

-- MESSAGE_HEAD
pub record MessageHead : Type 0 where
  pub flag : ℕ
  pub msg_type : ℕ
  pub msg_code : ℕ
  pub msg_id : ℕ
  pub more_flag : ℕ
  pub length : ℕ
  pub blocktype : ℕ
  pub data_block_num : ℕ

-- The 12 bytes of the header. The fields need no padding.
unfoldable pub head_bytes : MessageHead → List ℕ
head_bytes h =
    h.flag ∷ h.msg_type ∷ bytes16 h.msg_code
    ++ bytes32 h.msg_id
    ++ (h.more_flag ∷ h.length ∷ h.blocktype ∷ h.data_block_num ∷ [])

-- `(MESSAGE_HEAD *) from`
unfoldable pub head_at : List ℕ → MessageHead
head_at bs = record {
  flag = get_or bs 0 0;
  msg_type = get_or bs 1 0;
  msg_code = read16 bs 2;
  msg_id = read32 bs 4;
  more_flag = get_or bs 8 0;
  length = get_or bs 9 0;
  blocktype = get_or bs 10 0;
  data_block_num = get_or bs 11 0;
}

-- struct msg_header_info_s
pub record MsgHeaderInfo : Type 0 where
  pub cmd : ℕ
  pub flag : ℕ
  pub msg_type : ℕ
  pub msg_code : ℕ
  pub msg_block_type : ℕ

abbrev pub zero_info : MsgHeaderInfo
zero_info = record { cmd = 0; flag = 0; msg_type = 0; msg_code = 0; msg_block_type = 0 }

abbrev pub HeaderTable : Type 0
HeaderTable = List MsgHeaderInfo

-- __cmd_is_valid, which answers 0 for a valid command.
unfoldable pub cmd_is_valid : ℕ → Bool
cmd_is_valid cmd = ltb cmd max_command_type

-- __get_data_block_length
unfoldable pub get_data_block_length : ℕ → ℕ
get_data_block_length block_type =
    if block_type == block_ipv4_five_tuple
    then 13
    else if block_type == block_acl_rule_tuple
    then 40
    else if block_type == block_result_code
    then 4
    else if block_type == block_acl_rule_id
    then 4
    else 0

unfoldable pub matches : MessageHead → MsgHeaderInfo → Bool
matches h i =
    h.flag == i.flag
    && h.msg_type == i.msg_type
    && h.msg_code == i.msg_code
    && h.blocktype == i.msg_block_type

-- The loop of get_cmd_type, from index `i` on.
unfoldable pub get_cmd_type_from : ℕ → HeaderTable → MessageHead → Option ℕ
unfolding matches
get_cmd_type_from i [] h = none
get_cmd_type_from i (e ∷ es) h =
    let rest = get_cmd_type_from (suc i) es h in if matches h e then some i else rest

unfoldable pub get_cmd_type : HeaderTable → MessageHead → Option ℕ
unfolding get_cmd_type_from
get_cmd_type headers h = get_cmd_type_from 0 headers h

unfoldable pub register_msg_header : ℕ → ℕ → ℕ → ℕ → ℕ → HeaderTable → HeaderTable
unfolding cmd_is_valid
register_msg_header flag cmd msg_type msg_code msg_block_type headers =
    if cmd_is_valid cmd
    then set headers cmd (record {
      cmd = cmd;
      flag = flag;
      msg_type = msg_type;
      msg_code = msg_code;
      msg_block_type = msg_block_type;
    })
    else headers

register_octeon : ℕ → ℕ → ℕ → HeaderTable → HeaderTable
unfolding register_msg_header
register_octeon cmd msg_code msg_block_type =
    register_msg_header msg_valid_flag cmd msg_type_cli_octeon msg_code msg_block_type

-- The array has one entry more than there are commands.
unfoldable pub init_msg_header : HeaderTable
unfolding register_octeon replicate
init_msg_header =
    let h = replicate 21 zero_info in
    let h0 = register_octeon test_command 0x101 block_type_start h in
    let h1 = register_octeon test_command_ack 0x102 block_type_start h0 in
    let h2 = register_octeon show_dp_build_time 0x103 block_type_start h1 in
    let h3 = register_octeon show_dp_build_time_ack 0x104 block_type_start h2 in
    let h4 = register_octeon show_dp_pkt_stat 0x105 block_type_start h3 in
    let h5 = register_octeon show_dp_pkt_stat_ack 0x106 block_type_start h4 in
    let h6 = register_octeon show_mem_pool 0x107 block_type_start h5 in
    let h7 = register_octeon show_mem_pool_ack 0x108 block_type_start h6 in
    let h8 = register_octeon show_acl_rule 0x109 block_type_start h7 in
    let h9 = register_octeon show_acl_rule_ack 0x10a block_result_code h8 in
    let h10 = register_octeon add_acl_rule 0x10b block_acl_rule_tuple h9 in
    let h11 = register_octeon add_acl_rule_ack 0x10c block_result_code h10 in
    let h12 = register_octeon del_acl_rule 0x10d block_acl_rule_tuple h11 in
    let h13 = register_octeon del_acl_rule_ack 0x10e block_result_code h12 in
    let h14 = register_octeon del_acl_rule_id 0x10f block_acl_rule_id h13 in
    let h15 = register_octeon del_acl_rule_id_ack 0x110 block_result_code h14 in
    let h16 = register_octeon del_acl_rule_all 0x111 block_type_start h15 in
    let h17 = register_octeon del_acl_rule_all_ack 0x112 block_result_code h16 in
    let h18 = register_octeon commit_acl_rule 0x113 block_type_start h17 in
    register_octeon commit_acl_rule_ack 0x114 block_result_code h18
