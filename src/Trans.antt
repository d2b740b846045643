-- ===== src/Trans.antt =====
-- mgrplane/include/trans.h and mgrplane/src/srv/srvcore/trans.c: the descriptors that the manager listens
-- on, and how it takes a message from the stream of a client.
pub mod Receive
pub mod Watch
use sec_fw.Common.{
  ℕ, zero, suc, ◌+◌, ◌-◌, ◌*◌, ◌%◌, ◌^◌, Bool, true, false, ◌&&◌, ◌==◌, ltb, leb, if◌then◌else◌,
  List, ◌++◌, Option, none, some, length,
}
use sec_fw.Message.{head_at}

-- SOCK_MAX
abbrev pub sock_max : ℕ
sock_max = 1027

-- FD_SETSIZE: the bits of an fd_set.
abbrev pub fd_setsize : ℕ
fd_setsize = 1024

-- SOCK_TYPE_T and SOCK_STATUS_T
pub data SockType : Type 0 where
  tcp_server tcp_client udp_client udp_server : SockType

pub data SockStatus : Type 0 where
  invalid initialized connected operational : SockStatus

-- SOCK_MAP, without the fields that only clearing touches.
pub record SockMap : Type 0 where
  pub status : SockStatus
  pub sock_type : SockType

-- The globals: sock_map, rfds, maxfd, and g_client_connect_num as 32 bits. The operations touch no element
-- of sock_map and no bit of rfds beyond their ends: where the code does, they answer with `none`.
pub record Descriptors : Type 0 where
  pub sock_map : ℕ → SockMap
  pub rfds : ℕ → Bool
  pub maxfd : ℕ
  pub g_client_connect_num : ℕ

-- What `memset` and the status INVALID leave.
abbrev pub unused : SockMap
unused = record { status = invalid; sock_type = tcp_server }

-- FD_ZERO and sock_map_init
abbrev pub sock_map_init : Descriptors
sock_map_init = record {
  sock_map = λ fd. unused;
  rfds = λ fd. false;
  maxfd = 0;
  g_client_connect_num = 0;
}

abbrev pub write {ℓ} : {A : Type ℓ} → (ℕ → A) → ℕ → A → ℕ → A
write f i v j = if i == j then v else f j

abbrev pub status_of : SockType → SockStatus
status_of tcp_server = operational
status_of tcp_client = connected
status_of udp_client = operational
status_of udp_server = operational

-- add_fd: `none` is a descriptor that has no bit in rfds, where FD_SET writes behind it. All others have an
-- element in sock_map.
unfoldable pub add_fd : SockType → ℕ → Descriptors → Option Descriptors
add_fd sock_type fd d =
    if ltb fd fd_setsize
    then some (record d {
      sock_map =
          write d.sock_map fd (record { status = status_of sock_type; sock_type = sock_type });
      rfds = write d.rfds fd true;
      maxfd = if leb fd d.maxfd then d.maxfd else fd;
    })
    else none

abbrev pub is_open : SockStatus → Bool
is_open invalid = false
is_open initialized = true
is_open connected = true
is_open operational = true

-- The loop of del_fd: `n` turns from index `i` on.
unfoldable pub highest : (ℕ → SockMap) → ℕ → ℕ → ℕ → ℕ
highest sock_map zero i maxfd = maxfd
highest sock_map (suc n) i maxfd =
    highest sock_map n (suc i) (if is_open (sock_map i).status && ltb maxfd i then i else maxfd)

-- del_fd: `none` is a descriptor that has no bit in rfds, where FD_CLR writes behind it.
unfoldable pub del_fd : ℕ → Descriptors → Option Descriptors
del_fd fd d =
    let sock_map = write d.sock_map fd unused in
    if ltb fd fd_setsize
    then some (record {
      sock_map = sock_map;
      rfds = write d.rfds fd false;
      maxfd = if fd == d.maxfd then highest sock_map sock_max 0 0 else d.maxfd;
      g_client_connect_num = (d.g_client_connect_num + (2 ^ 32 - 1)) % 2 ^ 32;
    })
    else none

-- A new client, as server_run takes it from `accept`.
unfoldable pub accept_client : ℕ → Descriptors → Option Descriptors
accept_client conn_fd d = elim (add_fd SockType.tcp_client conn_fd d) [
  | none ↦ none
  | some d' ↦ some (record d' { g_client_connect_num = (d'.g_client_connect_num + 1) % 2 ^ 32 })
]

-- MESSAGE_HEADER_LENGTH
abbrev pub message_header_length : ℕ
message_header_length = 12

-- What recv_tcp_client_packet leaves: its answer, whether 0, what stands in `rbuf`, and `*rlen_p`.
pub record Received : Type 0 where
  pub ok : Bool
  pub rbuf : List ℕ
  pub rlen : ℕ
  pub asked : Option ℕ

-- recv_tcp_client_packet. `recv` answers a first and a second call, each for a number of bytes: `none` is
-- -1. `asked` is the number that the second call was made with: for a length byte of 0, 1 or 2 the
-- difference is negative, and as a size_t it is huge.
unfoldable pub recv_tcp_client_packet : (ℕ → Option (List ℕ)) → (ℕ → Option (List ℕ)) → Received
recv_tcp_client_packet first second = elim (first message_header_length) [
  | none ↦ record { ok = false; rbuf = List.[]; rlen = 0; asked = none }
  | some header ↦
      let total_len = 4 * (head_at header).length in
      let data_len = (total_len + (2 ^ 64 - message_header_length)) % 2 ^ 64 in
      if length header == message_header_length
      then if total_len == message_header_length
        then record { ok = true; rbuf = header; rlen = total_len; asked = none }
        else elim (second data_len) [
          | none ↦ record {
            ok = false;
            rbuf = header;
            rlen = message_header_length - 1;
            asked = some data_len;
          }
          | some block ↦ record {
            ok = leb message_header_length total_len && length block == data_len;
            rbuf = header ++ block;
            rlen = (message_header_length + length block) % 2 ^ 32;
            asked = some data_len;
          }
        ]
      else record { ok = false; rbuf = header; rlen = 0; asked = none }
]
