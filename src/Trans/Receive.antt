-- ===== src/Trans/Receive.antt =====
-- recv_tcp_client_packet on a stream that holds a message.
use sec_fw.Common.{
  ℕ, ◌+◌, ◌-◌, ◌*◌, ◌%◌, ◌^◌, ◌≤◌, ◌<◌, ◌≡◌, refl, sym, ap, subst, ◌∙◌, inl, inr, true, false,
  Bool-cases, Option-cases, ◌==◌, leb, List, ◌++◌, Option, none, some, arith, length, take, drop,
  length-take, get_or-take, get_or-append, take-drop, append-nil, length-append,
}
use sec_fw.Message.{head_at, init_msg_header}
use sec_fw.Message.Commands.{max_command_type}
use sec_fw.Message.Pack.{RcpMsgParams, Packet, init_msg_pack_handle, param_to_pkt}
use sec_fw.Message.Framing.{Framed, IsSmall, param_to_pkt-Framed}
use sec_fw.Trans.{Received, message_header_length, recv_tcp_client_packet}

-- `recv` on a stream in which the rest of the message has arrived.
abbrev pub receive : List ℕ → Received
receive stream =
    recv_tcp_client_packet (λ n. some (take n stream)) (λ n. some (take n (drop 12 stream)))

-- The message is taken whole, and no more.
pub record Taken (bytes : List ℕ) (r : Received) : Type 0 where
  pub ok : r.ok ≡ true
  pub rbuf : r.rbuf ≡ bytes
  pub rlen : r.rlen ≡ length bytes

length_byte :
    (bytes rest : List ℕ)
    → 12 ≤ length bytes
    → (head_at (take 12 (bytes ++ rest))).length ≡ (head_at bytes).length
unfolding head_at
length_byte bytes rest h =
    get_or-take 12 9 (bytes ++ rest) 0 (omega arith) ∙ get_or-append bytes rest 9 0 (omega arith)

receive-Taken :
    (packet : Packet) (rest : List ℕ)
    → Framed (some packet)
    → Taken packet.bytes (receive (packet.bytes ++ rest))
unfolding recv_tcp_client_packet
receive-Taken packet rest (whole, counted, head, small) =
    let stream = packet.bytes ++ rest in
    let enough : 12 ≤ length stream = omega (arith, length-append packet.bytes rest, whole) in
    let header : (length (take 12 stream) == 12) ≡ true =
      subst (λ n. (n == 12) ≡ true) (sym (length-take 12 stream enough)) refl in
    let total : 4 * (head_at (take 12 stream)).length ≡ packet.len =
      ap (λ n. 4 * n) (length_byte packet.bytes rest (omega (arith, whole))) ∙ counted in
    let left : (packet.len + (2 ^ 64 - 12)) % 2 ^ 64 ≡ packet.len - 12 = omega arith in
    let joined : take 12 stream ++ take (packet.len - 12) (drop 12 stream) ≡ packet.bytes =
      take-drop 12 (packet.len - 12) packet.bytes rest (omega (arith, whole)) in
    let block : length (take (packet.len - 12) (drop 12 stream)) ≡ packet.len - 12 = omega (
      arith,
      length-append (take 12 stream) (take (packet.len - 12) (drop 12 stream)),
      ap length joined,
      whole,
      length-take 12 stream enough,
    ) in
    elim (Bool-cases (packet.len == 12)) [
      | inl e ↦
          rw (header, total, e)
            (record {
              ok = refl;
              rbuf = sym (append-nil _) ∙ take-drop 12 0 packet.bytes rest (ground (arith, whole));
              rlen = sym whole;
            })
      | inr e ↦
          rw (header, total, e, left)
            (record {
              ok = ground (arith, block);
              rbuf = joined;
              rlen = omega (arith, block, whole);
            })
    ]

some-Framed :
    (o : Option Packet) → Framed o → (packet : Packet) × (o ≡ some packet) × Framed (some packet)
some-Framed none f = absurd f
some-Framed (some packet) f = (packet, refl, f)

-- Every message that is made with small parameters is taken from the stream whole, whatever follows it.
pub param_to_pkt-Taken :
    (cmd : ℕ) (from : List ℕ) (p : RcpMsgParams)
    → cmd < max_command_type
    → IsSmall p
    → (packet : Packet) × (param_to_pkt init_msg_header init_msg_pack_handle cmd from p
        ≡ some packet)
      × ((rest : List ℕ) → Taken packet.bytes (receive (packet.bytes ++ rest)))
param_to_pkt-Taken cmd from p c s =
    let (packet, e, f) = some-Framed _ (param_to_pkt-Framed cmd from p c s) in
    (packet, e, λ rest. receive-Taken packet rest f)

-- A header whose length byte is less than 3 is refused, but only after `recv` was asked for nearly 2 ^ 64
-- bytes, whatever the size of the buffer.
pub short_length-overrun :
    (first second : ℕ → Option (List ℕ)) (header : List ℕ)
    → first message_header_length ≡ some header
    → length header ≡ 12
    → (head_at header).length < 3
    → ((recv_tcp_client_packet first second).ok ≡ false)
      × ((n : ℕ) × ((recv_tcp_client_packet first second).asked ≡ some n) × (2 ^ 64 - 12 ≤ n))
unfolding recv_tcp_client_packet
short_length-overrun first second header e h short =
    let full_header : (length header == 12) ≡ true = ground (arith, h) in
    let other : (4 * (head_at header).length == 12) ≡ false = ground arith in
    let small : leb 12 (4 * (head_at header).length) ≡ false = ground arith in
    elim (Option-cases (second ((4 * (head_at header).length + (2 ^ 64 - 12)) % 2 ^ 64))) [
      | inl none_back ↦
          rw (recv_tcp_client_packet, e, full_header, other, none_back)
            (refl, (_, refl, omega arith))
      | inr (block, back) ↦
          rw (recv_tcp_client_packet, e, full_header, other, back, small)
            (refl, (_, refl, omega arith))
    ]
