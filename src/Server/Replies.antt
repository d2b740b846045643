-- ===== src/Server/Replies.antt =====
-- The replies of the handlers: the code that a client reads, and the id of its request.
use sec_fw.Common.{ℕ, ◌^◌, ◌<◌, ◌≡◌, lt→ltb, List, ◌++◌, none, some, get_or, drop}
use sec_fw.RuleTuple.{bytes32, read32}
use sec_fw.RuleTuple.Laws.{read32-bytes32}
use sec_fw.Message.{MessageHead, head_at, head_bytes, cmd_is_valid, init_msg_header}
use sec_fw.Message.Commands.{max_command_type}
use sec_fw.Message.Pack.{
  copy, pack_blocks, pack_data, pack_result_code, init_msg_pack_handle, param_to_pkt,
  encap_msg_header,
}
use sec_fw.Server.{send_rcp_res, with_code}

-- The reply with one code: the header for the command, and the four bytes of the code.
abbrev reply_head : ℕ → List ℕ → ℕ → MessageHead
reply_head cmd from code =
    encap_msg_header init_msg_header cmd
      (record (with_code code) { msg_id = (head_at from).msg_id; more_flag = 0; info_len = 0 })

pub code_reply : ℕ → List ℕ → ℕ → List ℕ
code_reply cmd from code = head_bytes (reply_head cmd from code) ++ bytes32 code

-- send_rcp_res sends the code for each acknowledgement that is packed as a code.
pub send_rcp_res-code_reply :
    (cmd : ℕ) (from : List ℕ) (code : ℕ)
    → cmd < max_command_type
    → get_or init_msg_pack_handle cmd none ≡ some pack_result_code
    → send_rcp_res cmd from (with_code code) 0 ≡ some (code_reply cmd from code)
unfolding send_rcp_res param_to_pkt cmd_is_valid pack_result_code pack_data pack_blocks copy
    head_bytes code_reply
send_rcp_res-code_reply cmd from code c e =
    rw (lt→ltb cmd 20 c, e, lt→ltb cmd 20 c, send_rcp_res, param_to_pkt)

-- A client reads the code back, under the id of its request.
pub code_reply-reads :
    (cmd : ℕ) (from : List ℕ) (code : ℕ)
    → code < 2 ^ 32
    → (head_at from).msg_id < 2 ^ 32
    → (read32 (drop 12 (code_reply cmd from code)) 0 ≡ code)
      × ((head_at (code_reply cmd from code)).msg_id ≡ (head_at from).msg_id)
unfolding code_reply head_bytes head_at encap_msg_header
code_reply-reads cmd from code small id =
    (read32-bytes32 code small, read32-bytes32 (head_at from).msg_id id)
