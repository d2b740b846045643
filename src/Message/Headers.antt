-- ===== src/Message/Headers.antt =====
-- The table of headers of message.c: every command is recognised from the header that is written for it.
use sec_fw.Common.{
  ℕ, suc, ◌^◌, ◌<◌, ◌≡◌, refl, ◌∙◌, Bool, true, false, ◌==◌, List, [], ◌∷◌, ◌++◌, Option, none,
  some, arith, length, holds_below, holds_below_sound,
}
use sec_fw.Message.{
  get_data_block_length, MessageHead, head_bytes, head_at, HeaderTable, get_cmd_type_from,
  get_cmd_type, init_msg_header,
}
use sec_fw.RuleTuple.Laws.{read16-bytes16, read32-bytes32}
use sec_fw.Message.Commands.{max_command_type}
use sec_fw.Message.Pack.{RcpMsgParams, zero_params, encap_msg_header}

-- Each field holds a value of its C type.
pub record IsHead (h : MessageHead) : Type 0 where
  pub flag_range : h.flag < 2 ^ 8
  pub type_range : h.msg_type < 2 ^ 8
  pub code_range : h.msg_code < 2 ^ 16
  pub id_range : h.msg_id < 2 ^ 32
  pub more_range : h.more_flag < 2 ^ 8
  pub length_range : h.length < 2 ^ 8
  pub block_range : h.blocktype < 2 ^ 8
  pub num_range : h.data_block_num < 2 ^ 8

-- The header that is read is the header that was written.
pub head_at-head_bytes :
    (h : MessageHead) (rest : List ℕ) → IsHead h → head_at (head_bytes h ++ rest) ≡ h
unfolding head_at head_bytes
head_at-head_bytes h rest r = λ i. record {
  flag = h.flag;
  msg_type = h.msg_type;
  msg_code = read16-bytes16 h.msg_code r.code_range i;
  msg_id = read32-bytes32 h.msg_id r.id_range i;
  more_flag = h.more_flag;
  length = h.length;
  blocktype = h.blocktype;
  data_block_num = h.data_block_num;
}

pub length-head_bytes : (h : MessageHead) → length (head_bytes h) ≡ 12
unfolding head_bytes
length-head_bytes h = refl

-- The lookup reads four fields of the header.
get_cmd_type_congr :
    (i : ℕ) (es : HeaderTable) (g h : MessageHead)
    → g.flag ≡ h.flag
    → g.msg_type ≡ h.msg_type
    → g.msg_code ≡ h.msg_code
    → g.blocktype ≡ h.blocktype
    → get_cmd_type_from i es g ≡ get_cmd_type_from i es h
unfolding get_cmd_type_from
get_cmd_type_congr i [] g h a b c d = refl
get_cmd_type_congr i (e ∷ es) g h a b c d =
    rw (get_cmd_type_congr (suc i) es g h a b c d, a, b, c, d)

answers : Option ℕ → ℕ → Bool
answers none cmd = false
answers (some c) cmd = c == cmd

answers→eq : (o : Option ℕ) (cmd : ℕ) → answers o cmd ≡ true → o ≡ some cmd
unfolding answers
answers→eq none cmd h = cc
answers→eq (some c) cmd h = ground arith

recognised : ℕ → Bool
unfolding answers get_cmd_type init_msg_header encap_msg_header get_data_block_length
recognised cmd =
    answers (get_cmd_type init_msg_header (encap_msg_header init_msg_header cmd zero_params)) cmd

recognised_table : holds_below recognised max_command_type ≡ true
unfolding recognised holds_below
recognised_table = refl

-- The header that encap_msg_header writes for a command is recognised by get_cmd_type as that command.
pub get_cmd_type-encap_msg_header :
    (cmd : ℕ) (p : RcpMsgParams)
    → cmd < max_command_type
    → get_cmd_type init_msg_header (encap_msg_header init_msg_header cmd p) ≡ some cmd
unfolding get_cmd_type encap_msg_header
get_cmd_type-encap_msg_header cmd p h =
    get_cmd_type_congr 0 init_msg_header (encap_msg_header init_msg_header cmd p)
      (encap_msg_header init_msg_header cmd zero_params) refl refl refl refl
    ∙ unfold recognised in
      answers→eq _ cmd (holds_below_sound recognised max_command_type cmd recognised_table h)
