-- ===== src/Cli/Requests.antt =====
-- The requests of cli_rule.c that carry a rule: their bytes, and what the manager reads in them.
use sec_fw.Common.{
  ℕ, ◌^◌, ◌<◌, ◌≡◌, sym, ap, subst, ◌⊎◌, inl, inr, ◌∙◌, if◌then◌else◌, lt→ltb, List, [], ◌++◌, none,
  some, arith, get_or, drop, append-nil,
}
use sec_fw.RuleTuple.{RuleTuple, tuple_bytes, tuple_at}
use sec_fw.RuleTuple.Laws.{IsTuple, tuple_at-tuple_bytes, length-tuple_bytes}
use sec_fw.Message.{
  MessageHead, head_at, head_bytes, cmd_is_valid, init_msg_header, get_data_block_length,
}
use sec_fw.Message.Commands.{max_command_type, add_acl_rule, del_acl_rule}
use sec_fw.Message.Headers.{IsHead, head_at-head_bytes, get_cmd_type-encap_msg_header}
use sec_fw.Message.Blocks.{copy_self}
use sec_fw.Message.Pack.{zero_params, copy, pack_blocks, pack_data, pack_acl_rule, encap_msg_header}
use sec_fw.Server.Dispatch.{handler_of, init_cmd_process_handle}
use sec_fw.Cli.{RuleArgs, args_tuple, check_rule}

-- Whatever the user types, the block that is sent holds values of the C types.
args_tuple-IsTuple : (a : RuleArgs) → IsTuple (args_tuple a)
unfolding args_tuple
args_tuple-IsTuple a = ground arith

check_rule-eq : (a : RuleArgs) (r : RuleTuple) → check_rule a ≡ some r → args_tuple a ≡ r
unfolding check_rule
check_rule-eq a r h = ground arith

pub check_rule-IsTuple : (a : RuleArgs) (r : RuleTuple) → check_rule a ≡ some r → IsTuple r
check_rule-IsTuple a r h = subst IsTuple (check_rule-eq a r h) (args_tuple-IsTuple a)

-- The bytes of a request that carries one rule.
abbrev pub request_head : ℕ → ℕ → RuleTuple → MessageHead
request_head cmd id r =
    encap_msg_header init_msg_header cmd
      (record zero_params { msg_id = id; nparam = 1; params_list = tuple_bytes r })

abbrev pub request_bytes : ℕ → ℕ → RuleTuple → List ℕ
request_bytes cmd id r = head_bytes (request_head cmd id r) ++ tuple_bytes r

pub pack_acl_rule-request :
    (cmd id : ℕ) (r : RuleTuple)
    → cmd < max_command_type
    → pack_acl_rule init_msg_header cmd
        (record zero_params { msg_id = id; nparam = 1; params_list = tuple_bytes r })
      ≡ some (record { bytes = request_bytes cmd id r; len = 52 })
unfolding pack_acl_rule pack_data pack_blocks cmd_is_valid
pack_acl_rule-request cmd id r c =
    let block : copy (tuple_bytes r) 0 40 ++ [] ≡ tuple_bytes r =
      append-nil (copy (tuple_bytes r) 0 40)
      ∙ subst (λ n. copy (tuple_bytes r) 0 n ≡ tuple_bytes r) (length-tuple_bytes r)
          (copy_self (tuple_bytes r)) in
    rw (lt→ltb cmd 20 c, block)

request_head-IsHead :
    (cmd id : ℕ) (r : RuleTuple)
    → (cmd ≡ add_acl_rule) ⊎ (cmd ≡ del_acl_rule)
    → id < 2 ^ 32
    → IsHead (request_head cmd id r)
unfolding encap_msg_header init_msg_header get_data_block_length
request_head-IsHead cmd id r (inl e) h = rw e (omega arith)
request_head-IsHead cmd id r (inr e) h = rw e (omega arith)

pub request-head_at :
    (cmd id : ℕ) (r : RuleTuple)
    → (cmd ≡ add_acl_rule) ⊎ (cmd ≡ del_acl_rule)
    → id < 2 ^ 32
    → head_at (request_bytes cmd id r) ≡ request_head cmd id r
request-head_at cmd id r k h =
    head_at-head_bytes _ (tuple_bytes r) (request_head-IsHead cmd id r k h)

pub request-tuple_at :
    (cmd id : ℕ) (r : RuleTuple) → IsTuple r → tuple_at (drop 12 (request_bytes cmd id r)) ≡ r
unfolding head_bytes
request-tuple_at cmd id r t =
    ap tuple_at (sym (append-nil (tuple_bytes r))) ∙ tuple_at-tuple_bytes r [] t

pub request-handler :
    (cmd id : ℕ) (r : RuleTuple)
    → (cmd ≡ add_acl_rule) ⊎ (cmd ≡ del_acl_rule)
    → id < 2 ^ 32
    → handler_of (request_bytes cmd id r)
      ≡ (if cmd_is_valid cmd then get_or init_cmd_process_handle cmd none else none)
unfolding handler_of
request-handler cmd id r k h =
    rw (request-head_at cmd id r k h, get_cmd_type-encap_msg_header cmd _ (below k), handler_of)
  where
    below : (cmd ≡ add_acl_rule) ⊎ (cmd ≡ del_acl_rule) → cmd < max_command_type
    below (inl e) = omega arith
    below (inr e) = omega arith
