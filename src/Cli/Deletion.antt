-- ===== src/Cli/Deletion.antt =====
-- `delete rule id` of cli_rule.c from end to end: the check on the id admits one id too many.
use sec_fw.Common.{
  ℕ, ◌^◌, ◌≤◌, ◌<◌, ◌≡◌, refl, ◌≢◌, ap, ◌∙◌, List, ◌++◌, Option, none, some, arith, drop,
}
use sec_fw.RuleTuple.{bytes32, read32}
use sec_fw.RuleTuple.Laws.{read32-bytes32}
use sec_fw.Rules.{RuleList, RuleResult, rule_del_by_id}
use sec_fw.Rules.Content.{used_count}
use sec_fw.Rules.Refinement.{IsValid, rule_del_by_id-fault}
use sec_fw.Message.{
  MessageHead, head_at, head_bytes, cmd_is_valid, init_msg_header, get_data_block_length,
}
use sec_fw.Message.Commands.{del_acl_rule_id, del_acl_rule_id_ack}
use sec_fw.Message.Headers.{head_at-head_bytes, get_cmd_type-encap_msg_header}
use sec_fw.Message.Pack.{
  Packet, zero_params, copy, pack_blocks, pack_data, pack_acl_rule_id, encap_msg_header,
  init_msg_pack_handle,
}
use sec_fw.Server.{Env, Outcome, answer, rule_del_acl_rule_id}
use sec_fw.Server.Dispatch.{
  handler_of, init_cmd_process_handle, mgmt_process_cmd, process, process_del_acl_rule_id,
}
use sec_fw.Cli.{delete_rule_id}
use sec_fw.Cli.Session.{Session, answer-answered, answered-Session}

abbrev id_head : ℕ → ℕ → MessageHead
id_head msg_id i =
    encap_msg_header init_msg_header del_acl_rule_id
      (record zero_params { msg_id = msg_id; nparam = 1; params_list = bytes32 i })

abbrev id_bytes : ℕ → ℕ → List ℕ
id_bytes msg_id i = head_bytes (id_head msg_id i) ++ bytes32 i

-- The request that the command line sends.
abbrev pub id_request : ℕ → ℕ → Packet
id_request msg_id i = record { bytes = id_bytes msg_id i; len = 16 }

delete_rule_id-request :
    (msg_id i : ℕ) → i ≤ 100000 → delete_rule_id msg_id i ≡ some (id_request msg_id i)
unfolding delete_rule_id pack_acl_rule_id pack_data pack_blocks copy cmd_is_valid
delete_rule_id-request msg_id i h = ground arith

id-head_at : (msg_id i : ℕ) → msg_id < 2 ^ 32 → head_at (id_bytes msg_id i) ≡ id_head msg_id i
unfolding encap_msg_header init_msg_header get_data_block_length
id-head_at msg_id i h = head_at-head_bytes _ (bytes32 i) (omega arith)

id-handler :
    (msg_id i : ℕ) → msg_id < 2 ^ 32 → handler_of (id_bytes msg_id i) ≡ some process_del_acl_rule_id
unfolding handler_of cmd_is_valid init_cmd_process_handle
id-handler msg_id i h =
    rw
      (
        id-head_at msg_id i h,
        get_cmd_type-encap_msg_header del_acl_rule_id _ (omega arith),
        handler_of,
      )
      refl

id-read32 : (msg_id i : ℕ) → i < 2 ^ 32 → read32 (drop 12 (id_bytes msg_id i)) 0 ≡ i
unfolding head_bytes
id-read32 msg_id i h = read32-bytes32 i h

-- What the manager does for the answer of the table.
abbrev deletion : List ℕ → Option (RuleResult × RuleList) → Option Outcome
deletion from none = none
deletion from (some x) = some (answer del_acl_rule_id_ack from x)

rule_del_acl_rule_id-deletion :
    (l : RuleList) (from : List ℕ)
    → rule_del_acl_rule_id l from ≡ deletion from (rule_del_by_id l (read32 (drop 12 from) 0))
unfolding rule_del_acl_rule_id
rule_del_acl_rule_id-deletion l from = elim (rule_del_by_id l (read32 (drop 12 from) 0)) [
  | none ↦ refl
  | some x ↦ refl
]

id-process :
    (env : Env) (l : RuleList) (msg_id i : ℕ)
    → msg_id < 2 ^ 32
    → i < 2 ^ 32
    → mgmt_process_cmd env l (id_bytes msg_id i) ≡ deletion (id_bytes msg_id i) (rule_del_by_id l i)
unfolding mgmt_process_cmd process
id-process env l msg_id i h k =
    rw (id-handler msg_id i h, mgmt_process_cmd)
      (rule_del_acl_rule_id-deletion l (id_bytes msg_id i)
        ∙ ap (λ j. deletion (id_bytes msg_id i) (rule_del_by_id l j)) (id-read32 msg_id i k))

-- `delete rule id` with an id of at most 100000 sends a request, and if the table of the manager has an
-- answer then the table is as that leaves it and the user is shown the code of the answer.
pub delete_rule_id-Session :
    (env : Env) (l : RuleList) (msg_id i : ℕ) (x : RuleResult × RuleList)
    → msg_id < 2 ^ 32
    → i ≤ 100000
    → rule_del_by_id l i ≡ some x
    → (delete_rule_id msg_id i ≡ some (id_request msg_id i)) × Session env l x (id_request msg_id i)
unfolding init_msg_pack_handle encap_msg_header
delete_rule_id-Session env l msg_id i x h k e = (
  delete_rule_id-request msg_id i k,
  answered-Session env l x del_acl_rule_id_ack 16 _ (rw (id-head_at msg_id i h) h) (
      id-process env l msg_id i h (omega arith)
      ∙ ap (deletion (id_bytes msg_id i)) e
      ∙ ap some (answer-answered del_acl_rule_id_ack (id_bytes msg_id i) x (omega arith) refl)),
)

-- `delete rule id 100000` passes the check of the command line, and its request makes a manager that
-- holds any rule read outside its table.
pub delete_rule_id-fault :
    (env : Env) (l : RuleList) (msg_id : ℕ)
    → msg_id < 2 ^ 32
    → IsValid l
    → used_count l.rule_entry ≢ 0
    → (delete_rule_id msg_id 100000 ≡ some (id_request msg_id 100000))
      × (mgmt_process_cmd env l (id_request msg_id 100000).bytes ≡ none)
delete_rule_id-fault env l msg_id h v some_used = (
  delete_rule_id-request msg_id 100000 (omega arith),
  id-process env l msg_id 100000 h (omega arith)
      ∙ ap (deletion (id_bytes msg_id 100000))
          (rule_del_by_id-fault l 100000 v some_used (omega arith)),
)
