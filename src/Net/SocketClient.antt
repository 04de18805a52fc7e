-- ===== src/Net/SocketClient.antt =====
-- src/net/socket_client.cc: a client that connects to a server, without blocking, and tries again.
pub mod States
pub mod Descriptors
pub mod Runs
pub mod Ports
use cdroid_demo.Common.{
  ℕ, zero, suc, ◌+◌, ◌-◌, ◌%◌, Bool, true, false, List, [], ◌∷◌, Option, none, some, ltb, leb, ◌==◌,
  if◌then◌else◌,
}
use cdroid_demo.UartClient.{Status, st_connecting, st_connected, st_disconnect}
use cdroid_demo.Net.{
  Client, Call, opened, closed, init_data, set_fd, is_conn, is_timeout, Incoming, disconnect,
  read_loop,
}

pub record SocketClient : Type 0 where
  pub client : Client
  pub is_init : Bool
  pub ip : List ℕ
  pub port : ℕ
  pub r_port : ℕ
  pub last_conn_time : ℕ
  pub sock_id : Option ℕ

abbrev pub rport_len : ℕ
rport_len = 0

abbrev pub conn_timeout : ℕ
conn_timeout = 5

abbrev pub conn_space : ℕ
conn_space = 5

-- "127.0.0.1".
abbrev local_host : List ℕ
local_host = 49 ∷ 50 ∷ 55 ∷ 46 ∷ 48 ∷ 46 ∷ 48 ∷ 46 ∷ 49 ∷ []

unfoldable pub create : SocketClient
create = record {
  client = init_data;
  is_init = false;
  ip = local_host;
  port = 19090;
  r_port = 19090 + rport_len;
  last_conn_time = 0;
  sock_id = none;
}

-- A null `ip` is `none`; a port is a 16-bit number.
unfoldable pub init : SocketClient → Option (List ℕ) → ℕ → SocketClient
init s ip port =
    if s.is_init
    then s
    else let chosen = if ltb 0 port then port else s.port in
      record s {
        ip = elim ip [ none ↦ s.ip | some given ↦ given ];
        port = chosen;
        r_port = (chosen + rport_len) % 65536;
        is_init = true;
      }

-- if (++mPort > mRPort) { mPort = mRPort - RPORT_LEN; }
unfoldable pub next_port : SocketClient → SocketClient
next_port s =
    let next = (s.port + 1) % 65536 in
    record s { port = if ltb s.r_port next then s.r_port - rport_len else next }

unfoldable pub log : SocketClient → Call → SocketClient
log s call = record s { client = record (s.client) { calls = call ∷ s.client.calls } }

pub data ConnectResult : Type 0 where
  -- connect gives 0; it gives -1 with EINPROGRESS; it gives -1 with another error.
  connect_ok connect_in_progress connect_error : ConnectResult

-- What the system answers while a connection is made: socket, fcntl, the clock in seconds, connect.
pub record Connecting : Type 0 where
  pub socket : Option ℕ
  pub is_nonblock : Bool
  pub seconds : ℕ
  pub result : ConnectResult

unfoldable pub start_connect : SocketClient → Connecting → ℕ → ℕ → SocketClient × Bool
unfolding log next_port
start_connect s os sockfd now = elim os.result [
  | connect_ok ↦ (record s { client = set_fd s.client sockfd now }, true)
  | connect_in_progress ↦ (
    record s { sock_id = some sockfd; client = record (s.client) { status = st_connecting } },
    true,
  )
  | connect_error ↦ (next_port (log s (closed sockfd)), false)
]

unfoldable pub connect_server : SocketClient → Connecting → ℕ → SocketClient × Bool
unfolding start_connect log
connect_server s os now = elim s.client.status [
  | st_disconnect ↦ (elim os.socket [
    | none ↦ (s, false)
    | some sockfd ↦
        (if os.is_nonblock
          then start_connect (record (log s (opened sockfd)) { last_conn_time = os.seconds }) os
              sockfd now
          else (log (log s (opened sockfd)) (closed sockfd), false))
  ])
  | _ ↦ (s, true)
]

-- What the system answers when the connection is looked at: the clock in seconds, whether select
-- gives a positive number, whether getsockopt succeeds, and SO_ERROR.
pub record Checking : Type 0 where
  pub seconds : ℕ
  pub is_selected : Bool
  pub has_option : Bool
  pub so_error : ℕ

-- connect_over, after an error.
unfoldable pub connect_over : SocketClient → ℕ → SocketClient
unfolding log next_port
connect_over s fd = next_port (record (log s (closed fd)) {
  sock_id = none;
  client = record ((log s (closed fd)).client) { status = st_disconnect };
})

unfoldable pub check_socket : SocketClient → Checking → ℕ → ℕ → SocketClient
unfolding connect_over
check_socket s os fd now =
    if ltb (s.last_conn_time + conn_timeout) os.seconds
    then connect_over s fd
    else if os.is_selected
    then (if os.has_option
        then (if os.so_error == 0
            then record s { client = set_fd s.client fd now }
            else connect_over s fd)
        else connect_over s fd)
    else connect_over s fd

unfoldable pub on_check_connecting : SocketClient → Checking → ℕ → SocketClient × Bool
unfolding check_socket
on_check_connecting s os now = elim s.client.status [
  | st_connecting ↦ (elim s.sock_id [
    | none ↦ (s, false)
    | some zero ↦ (s, false)
    | some (suc n) ↦ (check_socket s os (suc n) now, true)
  ])
  | _ ↦ (s, false)
]

-- SocketClient::onStatusChange, after mStatus = ST_DISCONNECT.
unfoldable pub drop_connection : SocketClient → SocketClient
drop_connection s = record s { sock_id = none; client = disconnect s.client }

unfoldable pub on_tick : SocketClient → Connecting → Checking → ℕ → ℕ → SocketClient
unfolding drop_connection on_check_connecting connect_server
on_tick s connecting checking seconds now =
    if s.is_init
    then elim s.client.status [
      | st_connected ↦ (if is_timeout s.client 0 now then drop_connection s else s)
      | st_connecting ↦ (on_check_connecting s checking now).0
      | _ ↦
          (if leb (s.last_conn_time + conn_space) seconds
            then (connect_server (record s { last_conn_time = seconds }) connecting now).0
            else s)
    ]
    else s

unfoldable pub on_recv_data : Client → Client × Option ℕ
on_recv_data c = (c, some 0)

-- Client::handleEvent for this class, on an input event.
unfoldable pub handle_event : ℕ → SocketClient → (ℕ → Incoming) → ℕ → Option SocketClient
unfolding on_recv_data
handle_event fuel s incoming now = elim (read_loop on_recv_data incoming now fuel 0 s.client) [
  | none ↦ none
  | some (c, true) ↦ some (record s { client = c })
  | some (c, false) ↦ some (record s { client = c; sock_id = none })
]
