-- ===== src/Message/Commands.antt =====
-- mgrplane/src/common/include/message.h: the numbers of the commands, of the block types and of the
-- result codes.
use sec_fw.Common.{ℕ}

-- cmd_type_t
abbrev pub test_command : ℕ
test_command = 0

abbrev pub test_command_ack : ℕ
test_command_ack = 1

abbrev pub show_dp_build_time : ℕ
show_dp_build_time = 2

abbrev pub show_dp_build_time_ack : ℕ
show_dp_build_time_ack = 3

abbrev pub show_dp_pkt_stat : ℕ
show_dp_pkt_stat = 4

abbrev pub show_dp_pkt_stat_ack : ℕ
show_dp_pkt_stat_ack = 5

abbrev pub show_mem_pool : ℕ
show_mem_pool = 6

abbrev pub show_mem_pool_ack : ℕ
show_mem_pool_ack = 7

abbrev pub show_acl_rule : ℕ
show_acl_rule = 8

abbrev pub show_acl_rule_ack : ℕ
show_acl_rule_ack = 9

abbrev pub add_acl_rule : ℕ
add_acl_rule = 10

abbrev pub add_acl_rule_ack : ℕ
add_acl_rule_ack = 11

abbrev pub del_acl_rule : ℕ
del_acl_rule = 12

abbrev pub del_acl_rule_ack : ℕ
del_acl_rule_ack = 13

abbrev pub del_acl_rule_id : ℕ
del_acl_rule_id = 14

abbrev pub del_acl_rule_id_ack : ℕ
del_acl_rule_id_ack = 15

abbrev pub del_acl_rule_all : ℕ
del_acl_rule_all = 16

abbrev pub del_acl_rule_all_ack : ℕ
del_acl_rule_all_ack = 17

abbrev pub commit_acl_rule : ℕ
commit_acl_rule = 18

abbrev pub commit_acl_rule_ack : ℕ
commit_acl_rule_ack = 19

abbrev pub max_command_type : ℕ
max_command_type = 20

-- msg_block_type_e
abbrev pub block_type_start : ℕ
block_type_start = 0

abbrev pub block_ipv4_five_tuple : ℕ
block_ipv4_five_tuple = 1

abbrev pub block_acl_rule_tuple : ℕ
block_acl_rule_tuple = 2

abbrev pub block_result_code : ℕ
block_result_code = 3

abbrev pub block_acl_rule_id : ℕ
block_acl_rule_id = 4

-- RCP_NISAC_RESULT_CODE, as far as the manager sends it
abbrev pub result_ok : ℕ
result_ok = 0

abbrev pub result_rule_full : ℕ
result_rule_full = 1

abbrev pub result_rule_exist : ℕ
result_rule_exist = 2

abbrev pub result_rule_not_exist : ℕ
result_rule_not_exist = 3

abbrev pub result_file_err : ℕ
result_file_err = 6

-- MSG_VALID_FLAG and MSG_TYPE_CLI_OCTEON
abbrev pub msg_valid_flag : ℕ
msg_valid_flag = 0x88

abbrev pub msg_type_cli_octeon : ℕ
msg_type_cli_octeon = 1
