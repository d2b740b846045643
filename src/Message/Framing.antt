-- ===== src/Message/Framing.antt =====
-- Every message that message.c writes is framed by the length byte of its header.
use sec_fw.Common.{
  ℕ, zero, suc, ◌+◌, ◌*◌, ◌/◌, ◌%◌, ◌<◌, ◌≤◌, ◌≡◌, refl, sym, ap, ◌∙◌, List, ◌++◌, Option, none,
  some, arith, lt→ltb, length, get_or,
}
use sec_fw.Message.{
  head_bytes, head_at, cmd_is_valid, init_msg_header, zero_info, get_data_block_length, MessageHead,
}
use sec_fw.Message.Commands.{max_command_type}
use sec_fw.Message.Blocks.{length-copy, length-pack_blocks}
use sec_fw.Message.Pack.{
  RcpMsgParams, copy, pack_blocks, Packet, encap_msg_header, pack_data, PackHandle, pack_acl_rule,
  pack_acl_rule_id, pack_result_code, pack_null, pack_show_info, init_msg_pack_handle, param_to_pkt,
}

-- The packet is there, is as long as it says, has from 12 to 1023 bytes, and its length byte counts it
-- in units of four bytes.
abbrev pub Framed : Option Packet → Type 0
Framed none = ⊥
Framed (some packet) =
    (length packet.bytes ≡ packet.len)
    × (4 * (head_at packet.bytes).length ≡ packet.len)
    × (12 ≤ packet.len)
    × (packet.len < 1024)

-- The parameters fit a message of at most 255 units, and the text is padded as send_rcp_res does.
pub record IsSmall (p : RcpMsgParams) : Type 0 where
  pub blocks : p.nparam * 40 + 12 < 1024
  pub text : p.info_len + 12 < 1024
  pub padded : p.info_len % 4 ≡ 0

length_field :
    (h : MessageHead) (rest : List ℕ) → (head_at (head_bytes h ++ rest)).length ≡ h.length
unfolding head_at head_bytes
length_field h rest = refl

length_whole : (h : MessageHead) (rest : List ℕ) → length (head_bytes h ++ rest) ≡ 12 + length rest
unfolding head_bytes
length_whole h rest = omega arith

block_length : ℕ → ℕ
unfolding get_data_block_length
block_length cmd = get_data_block_length (get_or init_msg_header cmd zero_info).msg_block_type

head-Framed :
    (h : MessageHead) (rest : List ℕ) (n : ℕ)
    → n ≡ 12 + length rest
    → 4 * h.length ≡ n
    → h.length < 256
    → Framed (some (record { bytes = head_bytes h ++ rest; len = n }))
head-Framed h rest n e f b = (
  length_whole h rest ∙ sym e,
  ap (λ k. 4 * k) (length_field h rest) ∙ f,
  omega (arith, e),
  omega (arith, f),
)

data-Framed :
    (cmd n : ℕ) (p : RcpMsgParams)
    → cmd < max_command_type
    → block_length cmd ≡ n
    → p.nparam * n + 12 < 1024
    → (p.nparam * n) % 4 ≡ 0
    → Framed (pack_data n init_msg_header cmd p)
unfolding pack_data cmd_is_valid block_length encap_msg_header
data-Framed cmd n p c e small four = rw (lt→ltb cmd 20 c) (
    head-Framed (encap_msg_header init_msg_header cmd p) (pack_blocks p.nparam 0 p.params_list n) _
      (ap (λ k. 12 + k) (sym (length-pack_blocks p.nparam 0 p.params_list n))) (rw e (omega arith))
      (omega arith))

null-Framed :
    (cmd : ℕ) (p : RcpMsgParams)
    → cmd < max_command_type
    → block_length cmd ≡ 0
    → Framed (pack_null init_msg_header cmd p)
unfolding pack_null cmd_is_valid block_length encap_msg_header head_bytes head_at
null-Framed cmd p c e = rw (lt→ltb cmd 20 c) (refl, rw e (omega arith), omega arith, omega arith)

info-Framed :
    (cmd : ℕ) (p : RcpMsgParams)
    → cmd < max_command_type
    → IsSmall p
    → Framed (pack_show_info init_msg_header cmd p)
unfolding pack_show_info cmd_is_valid
info-Framed cmd p c s = rw (lt→ltb cmd 20 c) (
    head-Framed
      (record (encap_msg_header init_msg_header cmd p) { length = (12 + p.info_len) / 4 % 256 })
      (copy p.params_list 0 p.info_len) _
      (ap (λ k. 12 + k) (sym (length-copy p.params_list 0 p.info_len)))
      (omega (arith, s.text, s.padded)) (omega arith))

-- The text of a show reply, the blocks of a request for one rule or of a reply with one code, or the
-- bare header: each command's own function writes a framed message.
packed-Framed :
    (cmd : ℕ) (p : RcpMsgParams)
    → cmd < max_command_type
    → IsSmall p
    → (pack : PackHandle) × (get_or init_msg_pack_handle cmd none ≡ some pack)
      × Framed (pack init_msg_header cmd p)
unfolding init_msg_pack_handle block_length init_msg_header pack_acl_rule pack_acl_rule_id
    pack_result_code
packed-Framed zero p c s = (pack_null, refl, null-Framed 0 p c refl)
packed-Framed (suc zero) p c s = (pack_show_info, refl, info-Framed 1 p c s)
packed-Framed (suc (suc zero)) p c s = (pack_null, refl, null-Framed 2 p c refl)
packed-Framed (suc (suc (suc zero))) p c s = (pack_show_info, refl, info-Framed 3 p c s)
packed-Framed (suc (suc (suc (suc zero)))) p c s = (pack_null, refl, null-Framed 4 p c refl)
packed-Framed (suc (suc (suc (suc (suc zero))))) p c s = (pack_show_info, refl, info-Framed 5 p c s)
packed-Framed (suc (suc (suc (suc (suc (suc zero)))))) p c s =
    (pack_null, refl, null-Framed 6 p c refl)
packed-Framed (suc (suc (suc (suc (suc (suc (suc zero))))))) p c s =
    (pack_show_info, refl, info-Framed 7 p c s)
packed-Framed (suc (suc (suc (suc (suc (suc (suc (suc zero)))))))) p c s =
    (pack_null, refl, null-Framed 8 p c refl)
packed-Framed (suc (suc (suc (suc (suc (suc (suc (suc (suc zero))))))))) p c s =
    (pack_show_info, refl, info-Framed 9 p c s)
packed-Framed (suc (suc (suc (suc (suc (suc (suc (suc (suc (suc zero)))))))))) p c s =
    (pack_acl_rule, refl, data-Framed 10 40 p c refl (omega (arith, s.blocks)) (omega arith))
packed-Framed (suc (suc (suc (suc (suc (suc (suc (suc (suc (suc (suc zero))))))))))) p c s =
    (pack_result_code, refl, data-Framed 11 4 p c refl (omega (arith, s.blocks)) (omega arith))
packed-Framed (suc (suc (suc (suc (suc (suc (suc (suc (suc (suc (suc (suc zero)))))))))))) p c s =
    (pack_acl_rule, refl, data-Framed 12 40 p c refl (omega (arith, s.blocks)) (omega arith))
packed-Framed (suc (suc (suc (suc (suc (suc (suc (suc (suc (suc (suc (suc (suc zero))))))))))))) p c
      s =
    (pack_result_code, refl, data-Framed 13 4 p c refl (omega (arith, s.blocks)) (omega arith))
packed-Framed
      (suc (suc (suc (suc (suc (suc (suc (suc (suc (suc (suc (suc (suc (suc zero)))))))))))))) p c
      s =
    (pack_acl_rule_id, refl, data-Framed 14 4 p c refl (omega (arith, s.blocks)) (omega arith))
packed-Framed
      (suc (suc (suc (suc (suc (suc (suc (suc (suc (suc (suc (suc (suc (suc (suc zero)))))))))))))))
      p c s =
    (pack_result_code, refl, data-Framed 15 4 p c refl (omega (arith, s.blocks)) (omega arith))
packed-Framed
      (suc (
        suc
          (suc (suc (suc (suc (suc (suc (suc (suc (suc (suc (suc (suc (suc (suc zero))))))))))))))))
      p c s =
    (pack_null, refl, null-Framed 16 p c refl)
packed-Framed
      (suc (
        suc (
          suc (
            suc
              (suc (suc (suc (suc (suc (suc (suc (suc (suc (suc (suc (suc (suc zero)))))))))))))))))
      p c s =
    (pack_result_code, refl, data-Framed 17 4 p c refl (omega (arith, s.blocks)) (omega arith))
packed-Framed
      (suc (
        suc (
          suc (
            suc (
              suc (
                suc
                  (suc (suc (suc (suc (suc (suc (suc (suc (suc (suc (suc (suc zero))))))))))))))))))
      p c s =
    (pack_null, refl, null-Framed 18 p c refl)
packed-Framed
      (suc (
        suc (
          suc (
            suc (
              suc (
                suc (
                  suc (
                    suc
                      (suc (suc (suc (suc (suc (suc (suc (suc (suc (suc (suc zero)))))))))))))))))))
      p c s =
    (pack_result_code, refl, data-Framed 19 4 p c refl (omega (arith, s.blocks)) (omega arith))
packed-Framed
      (suc (
        suc (
          suc (
            suc (
              suc (
                suc (
                  suc (
                    suc (
                      suc
                        (suc (suc (suc (suc (suc (suc (suc (suc (suc (suc (suc n))))))))))))))))))))
      p c s =
    absurd (omega arith)

-- param_to_pkt with small parameters makes a message for every command, as long as it says, of 12 to 1023
-- bytes, whose length byte times four is that length.
pub param_to_pkt-Framed :
    (cmd : ℕ) (from : List ℕ) (p : RcpMsgParams)
    → cmd < max_command_type
    → IsSmall p
    → Framed (param_to_pkt init_msg_header init_msg_pack_handle cmd from p)
unfolding param_to_pkt cmd_is_valid
param_to_pkt-Framed cmd from p c s =
    let q = record p { msg_id = (head_at from).msg_id } in
    let (pack, e, f) =
      packed-Framed cmd q c (record { blocks = s.blocks; text = s.text; padded = s.padded }) in
    rw (lt→ltb cmd 20 c, e, param_to_pkt) f
