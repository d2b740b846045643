-- ===== src/Tests/Transport.antt =====
-- Runs of the manager's transport.
use sec_fw.Common.{
  ℕ, ◌-◌, ◌^◌, ◌≤◌, ◌≡◌, refl, false, List, [], ◌∷◌, ◌++◌, Option, some, none, arith,
}
use sec_fw.Message.{head_at, init_msg_header}
use sec_fw.Message.Commands.{show_mem_pool_ack}
use sec_fw.Message.Pack.{Packet, zero_params, init_msg_pack_handle, param_to_pkt}
use sec_fw.Trans.{tcp_server, sock_map_init, add_fd, accept_client, recv_tcp_client_packet}
use sec_fw.Trans.Receive.{Taken, receive, param_to_pkt-Taken, short_length-overrun}
use sec_fw.Trans.Watch.{Served, Event, accepted, closed, serve, server_init-Served}

taken_example :
    (packet : Packet) × (param_to_pkt init_msg_header init_msg_pack_handle show_mem_pool_ack []
        (record zero_params { info_len = 8 })
      ≡ some packet)
    × ((rest : List ℕ) → Taken packet.bytes (receive (packet.bytes ++ rest)))
taken_example =
    param_to_pkt-Taken show_mem_pool_ack [] (record zero_params { info_len = 8 }) (omega arith)
      (omega arith)

-- A header with the length byte 2.
abbrev short_header : List ℕ
short_header = 0x88 ∷ 1 ∷ 1 ∷ 9 ∷ 0 ∷ 0 ∷ 0 ∷ 1 ∷ 0 ∷ 2 ∷ 0 ∷ 0 ∷ []

abbrev first : ℕ → Option (List ℕ)
first n = some short_header

abbrev second : ℕ → Option (List ℕ)
second n = none

overrun_example :
    ((recv_tcp_client_packet first second).ok ≡ false)
    × ((n : ℕ) × ((recv_tcp_client_packet first second).asked ≡ some n) × (2 ^ 64 - 12 ≤ n))
unfolding head_at
overrun_example = short_length-overrun first second short_header refl refl (omega arith)

abbrev visits : List Event
visits = accepted 5 ∷ accepted 7 ∷ closed 7 ∷ []

watch_example : Served visits (serve (add_fd tcp_server 3 sock_map_init) visits)
watch_example = server_init-Served 3 visits (omega arith)

-- A descriptor that sock_map has room for.
abbrev crowded : List Event
crowded = accepted 1024 ∷ []

crowd_writes_behind : serve (add_fd tcp_server 3 sock_map_init) crowded ≡ none
unfolding serve add_fd accept_client
crowd_writes_behind = refl
