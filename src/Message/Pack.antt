-- ===== src/Message/Pack.antt =====
-- mgrplane/src/common/message.c: the functions that write a message, and the table that names the
-- one for each command. A message's parameters are the struct with its union as bytes.
use sec_fw.Common.{
  ℕ, zero, suc, ◌+◌, ◌*◌, ◌/◌, ◌%◌, if◌then◌else◌, List, [], ◌∷◌, ◌++◌, Option, none, some, get_or,
  set, replicate,
}
use sec_fw.Message.{
  MessageHead, head_bytes, head_at, HeaderTable, zero_info, cmd_is_valid, get_data_block_length,
}
use sec_fw.Message.Commands.{
  test_command, test_command_ack, show_dp_build_time, show_dp_build_time_ack, show_dp_pkt_stat,
  show_dp_pkt_stat_ack, show_mem_pool, show_mem_pool_ack, show_acl_rule, show_acl_rule_ack,
  add_acl_rule, add_acl_rule_ack, del_acl_rule, del_acl_rule_ack, del_acl_rule_id,
  del_acl_rule_id_ack, del_acl_rule_all, del_acl_rule_all_ack, commit_acl_rule, commit_acl_rule_ack,
}

-- struct rcp_msg_params_s. `params_list` is the memory of the union: block `i` starts at byte 40 * i,
-- and info_buf at byte 0.
pub record RcpMsgParams : Type 0 where
  pub msg_id : ℕ
  pub more_flag : ℕ
  pub nparam : ℕ
  pub info_len : ℕ
  pub params_list : List ℕ

-- What `memset` leaves.
abbrev pub zero_params : RcpMsgParams
zero_params = record { msg_id = 0; more_flag = 0; nparam = 0; info_len = 0; params_list = [] }

-- `memcpy(ptr, mem + off, n)`. Memory past the list is zero.
unfoldable pub copy : List ℕ → ℕ → ℕ → List ℕ
copy mem off zero = []
copy mem off (suc n) = get_or mem off 0 ∷ copy mem (suc off) n

-- encap_msg_header. The `length` field is one byte.
unfoldable pub encap_msg_header : HeaderTable → ℕ → RcpMsgParams → MessageHead
encap_msg_header headers cmd p =
    let info = get_or headers cmd zero_info in
    record {
      flag = info.flag;
      msg_type = info.msg_type;
      msg_code = info.msg_code;
      msg_id = p.msg_id;
      more_flag = p.more_flag;
      length = (p.nparam * get_data_block_length info.msg_block_type + 12) / 4 % 256;
      blocktype = info.msg_block_type;
      data_block_num = p.nparam;
    }

-- The loop over the data blocks: `n` blocks from number `i` on, `block_length` bytes of each.
unfoldable pub pack_blocks : ℕ → ℕ → List ℕ → ℕ → List ℕ
pack_blocks zero i mem block_length = []
pack_blocks (suc n) i mem block_length =
    copy mem (40 * i) block_length ++ pack_blocks n (suc i) mem block_length

-- What a pack function puts into `sbuf`, and `*len_p` when it sets that.
pub record Packet : Type 0 where
  pub bytes : List ℕ
  pub len : ℕ

-- `none` is the answer 1 for a command that is not valid.
abbrev pub PackHandle : Type 0
PackHandle = HeaderTable → ℕ → RcpMsgParams → Option Packet

unfoldable pub pack_data : ℕ → PackHandle
pack_data block_length headers cmd p =
    if cmd_is_valid cmd
    then some (record {
      bytes =
          head_bytes (encap_msg_header headers cmd p)
          ++ pack_blocks p.nparam 0 p.params_list block_length;
      len = 12 + p.nparam * block_length;
    })
    else none

unfoldable pub pack_acl_rule_id : PackHandle
pack_acl_rule_id = pack_data 4

unfoldable pub pack_acl_rule : PackHandle
pack_acl_rule = pack_data 40

unfoldable pub pack_result_code : PackHandle
pack_result_code = pack_data 4

unfoldable pub pack_null : PackHandle
pack_null headers cmd p =
    if cmd_is_valid cmd
    then some (record { bytes = head_bytes (encap_msg_header headers cmd p); len = 12 })
    else none

unfoldable pub pack_show_info : PackHandle
pack_show_info headers cmd p =
    if cmd_is_valid cmd
    then some (record {
      bytes =
          head_bytes
            (record (encap_msg_header headers cmd p) { length = (12 + p.info_len) / 4 % 256 })
          ++ copy p.params_list 0 p.info_len;
      len = 12 + p.info_len;
    })
    else none

abbrev pub PackTable : Type 0
PackTable = List (Option PackHandle)

unfoldable pub register_msg_pack_handle : ℕ → PackHandle → PackTable → PackTable
unfolding cmd_is_valid
register_msg_pack_handle cmd pack handles =
    if cmd_is_valid cmd then set handles cmd (some pack) else handles

unfoldable pub init_msg_pack_handle : PackTable
unfolding register_msg_pack_handle replicate
init_msg_pack_handle =
    let h = replicate 21 none in
    let h0 = register_msg_pack_handle test_command pack_null h in
    let h1 = register_msg_pack_handle test_command_ack pack_show_info h0 in
    let h2 = register_msg_pack_handle show_dp_build_time pack_null h1 in
    let h3 = register_msg_pack_handle show_dp_build_time_ack pack_show_info h2 in
    let h4 = register_msg_pack_handle show_dp_pkt_stat pack_null h3 in
    let h5 = register_msg_pack_handle show_dp_pkt_stat_ack pack_show_info h4 in
    let h6 = register_msg_pack_handle show_mem_pool pack_null h5 in
    let h7 = register_msg_pack_handle show_mem_pool_ack pack_show_info h6 in
    let h8 = register_msg_pack_handle show_acl_rule pack_null h7 in
    let h9 = register_msg_pack_handle show_acl_rule_ack pack_show_info h8 in
    let h10 = register_msg_pack_handle add_acl_rule pack_acl_rule h9 in
    let h11 = register_msg_pack_handle add_acl_rule_ack pack_result_code h10 in
    let h12 = register_msg_pack_handle del_acl_rule pack_acl_rule h11 in
    let h13 = register_msg_pack_handle del_acl_rule_ack pack_result_code h12 in
    let h14 = register_msg_pack_handle del_acl_rule_id pack_acl_rule_id h13 in
    let h15 = register_msg_pack_handle del_acl_rule_id_ack pack_result_code h14 in
    let h16 = register_msg_pack_handle del_acl_rule_all pack_null h15 in
    let h17 = register_msg_pack_handle del_acl_rule_all_ack pack_result_code h16 in
    let h18 = register_msg_pack_handle commit_acl_rule pack_null h17 in
    register_msg_pack_handle commit_acl_rule_ack pack_result_code h18

-- param_to_pkt: the reply carries the id of the request. A command with no pack function would be a
-- call through a null pointer, `none` of the inner option.
unfoldable pub param_to_pkt : HeaderTable → PackTable → ℕ → List ℕ → RcpMsgParams → Option Packet
param_to_pkt headers handles cmd from p =
    if cmd_is_valid cmd
    then elim (get_or handles cmd none) [
      | none ↦ none
      | some pack ↦ pack headers cmd (record p { msg_id = (head_at from).msg_id })
    ]
    else none
