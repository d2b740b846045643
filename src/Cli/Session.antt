-- ===== src/Cli/Session.antt =====
-- Request and reply from end to end: the rule that a user types reaches the table of the manager, and
-- the answer of the table reaches the user.
use sec_fw.Common.{ℕ, ◌^◌, ◌<◌, ◌≡◌, refl, ap, ◌⊎◌, inl, inr, List, none, some, arith, get_or}
use sec_fw.RuleTuple.{RuleTuple}
use sec_fw.RuleTuple.Laws.{IsTuple}
use sec_fw.Rules.{
  RuleList, RuleResult, rule_ok, rule_full, rule_exist, rule_not_exist, rule_add, rule_del,
}
use sec_fw.Message.{head_at, cmd_is_valid}
use sec_fw.Message.Commands.{
  max_command_type, add_acl_rule, del_acl_rule, add_acl_rule_ack, del_acl_rule_ack,
}
use sec_fw.Message.Pack.{Packet, encap_msg_header, init_msg_pack_handle, pack_result_code}
use sec_fw.Server.{Env, Outcome, answer, result_code, rule_add_acl_rule, rule_del_acl_rule}
use sec_fw.Server.Dispatch.{mgmt_process_cmd, process, init_cmd_process_handle}
use sec_fw.Server.Replies.{code_reply, send_rcp_res-code_reply, code_reply-reads}
use sec_fw.Cli.{RuleArgs, check_rule, rule_request, add_rule, delete_rule, reply_code}
use sec_fw.Cli.Requests.{
  check_rule-IsTuple, request_bytes, pack_acl_rule-request, request-head_at, request-tuple_at,
  request-handler,
}

-- What a session with the manager comes to.
pub record Session (env : Env) (l : RuleList) (result : RuleResult × RuleList) (request : Packet)
    : Type 0 where
  pub outcome : Outcome
  pub handled : mgmt_process_cmd env l request.bytes ≡ some outcome
  pub rules : outcome.rules ≡ result.1
  pub reply : List ℕ
  pub sent : outcome.reply ≡ some reply
  pub code : reply_code reply ≡ result_code result.0

pub result_code-lt : (x : RuleResult) → result_code x < 2 ^ 32
result_code-lt rule_ok = omega arith
result_code-lt rule_full = omega arith
result_code-lt rule_exist = omega arith
result_code-lt rule_not_exist = omega arith

-- The outcome of a handler that answers with the code of a table operation.
abbrev pub answered : ℕ → List ℕ → RuleResult × RuleList → Outcome
answered cmd from x = record {
  rules = x.1;
  reply = some (code_reply cmd from (result_code x.0));
  file = none;
}

pub answer-answered :
    (cmd : ℕ) (from : List ℕ) (x : RuleResult × RuleList)
    → cmd < max_command_type
    → get_or init_msg_pack_handle cmd none ≡ some pack_result_code
    → answer cmd from x ≡ answered cmd from x
unfolding answer
answer-answered cmd from x c e = rw (send_rcp_res-code_reply cmd from (result_code x.0) c e)

request_id :
    (cmd id : ℕ) (r : RuleTuple)
    → (cmd ≡ add_acl_rule) ⊎ (cmd ≡ del_acl_rule)
    → id < 2 ^ 32
    → (head_at (request_bytes cmd id r)).msg_id < 2 ^ 32
unfolding encap_msg_header
request_id cmd id r k h = rw (request-head_at cmd id r k h) h

pub answered-Session :
    (env : Env) (l : RuleList) (x : RuleResult × RuleList) (ack len : ℕ) (from : List ℕ)
    → (head_at from).msg_id < 2 ^ 32
    → mgmt_process_cmd env l from ≡ some (answered ack from x)
    → Session env l x (record { bytes = from; len = len })
unfolding reply_code
answered-Session env l x ack len from h e = record {
  outcome = answered ack from x;
  handled = e;
  rules = refl;
  reply = code_reply ack from (result_code x.0);
  sent = refl;
  code = (code_reply-reads ack from (result_code x.0) (result_code-lt x.0) h).0;
}

add_handled :
    (env : Env) (l : RuleList) (id : ℕ) (r : RuleTuple)
    → IsTuple r
    → id < 2 ^ 32
    → mgmt_process_cmd env l (request_bytes add_acl_rule id r)
      ≡ some (answered add_acl_rule_ack (request_bytes add_acl_rule id r) (rule_add l r))
unfolding init_msg_pack_handle mgmt_process_cmd process rule_add_acl_rule init_cmd_process_handle
    cmd_is_valid
add_handled env l id r t h =
    rw (request-handler add_acl_rule id r (inl refl) h, mgmt_process_cmd)
      (rw (request-tuple_at add_acl_rule id r t)
        (ap some (answer-answered add_acl_rule_ack _ (rule_add l r) (omega arith) refl)))

del_handled :
    (env : Env) (l : RuleList) (id : ℕ) (r : RuleTuple)
    → IsTuple r
    → id < 2 ^ 32
    → mgmt_process_cmd env l (request_bytes del_acl_rule id r)
      ≡ some (answered del_acl_rule_ack (request_bytes del_acl_rule id r) (rule_del l r))
unfolding init_msg_pack_handle mgmt_process_cmd process rule_del_acl_rule init_cmd_process_handle
    cmd_is_valid
del_handled env l id r t h =
    rw (request-handler del_acl_rule id r (inr refl) h, mgmt_process_cmd)
      (rw (request-tuple_at del_acl_rule id r t)
        (ap some (answer-answered del_acl_rule_ack _ (rule_del l r) (omega arith) refl)))

-- `add rule`, with a number of the message that fits 32 bits: a rule that passes the checks is sent, the
-- manager adds exactly that rule, and the code that the user is shown is the answer of the table.
pub add_rule-Session :
    (env : Env) (l : RuleList) (id : ℕ) (a : RuleArgs) (r : RuleTuple)
    → id < 2 ^ 32
    → check_rule a ≡ some r
    → (request : Packet) × (add_rule id a ≡ some request) × Session env l (rule_add l r) request
unfolding add_rule
add_rule-Session env l id a r h e = (
  record { bytes = request_bytes add_acl_rule id r; len = 52 },
  rw (e, rule_request) (pack_acl_rule-request add_acl_rule id r (omega arith)),
  answered-Session env l (rule_add l r) add_acl_rule_ack 52 _
      (request_id add_acl_rule id r (inl refl) h)
      (add_handled env l id r (check_rule-IsTuple a r e) h),
)

-- `delete rule`, with a number of the message that fits 32 bits: a rule that passes the checks is sent, the
-- manager deletes exactly that rule, and the code that the user is shown is the answer of the table.
pub delete_rule-Session :
    (env : Env) (l : RuleList) (id : ℕ) (a : RuleArgs) (r : RuleTuple)
    → id < 2 ^ 32
    → check_rule a ≡ some r
    → (request : Packet) × (delete_rule id a ≡ some request) × Session env l (rule_del l r) request
unfolding delete_rule
delete_rule-Session env l id a r h e = (
  record { bytes = request_bytes del_acl_rule id r; len = 52 },
  rw (e, rule_request) (pack_acl_rule-request del_acl_rule id r (omega arith)),
  answered-Session env l (rule_del l r) del_acl_rule_ack 52 _
      (request_id del_acl_rule id r (inr refl) h)
      (del_handled env l id r (check_rule-IsTuple a r e) h),
)
