-- ===== src/Net/SocketClient/States.antt =====
-- The states of the socket client, and the steps between them.
use cdroid_demo.Common.{ℕ, zero, suc, ◌<◌, ◌≡◌, Option, none, some, arith}
use cdroid_demo.UartClient.{Status, st_connecting, st_connected, st_disconnect, st_null}
use cdroid_demo.Net.{opened, close_fd, on_status_change, set_fd, disconnect}
use cdroid_demo.Net.SocketClient.{
  SocketClient, next_port, log, Connecting, start_connect, connect_server, Checking, connect_over,
  check_socket, on_check_connecting, drop_connection, on_tick,
}

-- A descriptor that is held; that of a socket is not 0, the standard input.
abbrev pub IsHeld : Option ℕ → Type 0
IsHeld none = ⊥
IsHeld (some n) = 0 < n

abbrev pub IsFree : Option ℕ → Type 0
IsFree fd = fd ≡ none

-- The three states, with the descriptor that each holds.
abbrev pub IsShape : Status → Option ℕ → Option ℕ → Type 0
IsShape st_disconnect fd sock_id = IsFree fd × IsFree sock_id
IsShape st_connecting fd sock_id = IsFree fd × IsHeld sock_id
IsShape st_connected fd sock_id = IsHeld fd
IsShape st_null fd sock_id = ⊥

abbrev pub IsState : SocketClient → Type 0
IsState s = IsShape s.client.status s.client.fd s.sock_id

abbrev pub IsSocket : Option ℕ → Type 0
IsSocket none = Unit
IsSocket (some n) = 0 < n

abbrev pub IsPositive : Connecting → Type 0
IsPositive os = IsSocket os.socket

pub drop_connection-IsState : (s : SocketClient) → IsState (drop_connection s)
unfolding drop_connection disconnect on_status_change close_fd
drop_connection-IsState s = ground arith

connect_over-IsState :
    (s : SocketClient) (fd : ℕ) → IsFree s.client.fd → IsState (connect_over s fd)
unfolding connect_over log next_port
connect_over-IsState s fd h = ground arith

set_fd-IsState :
    (s : SocketClient) (fd now : ℕ)
    → 0 < fd
    → IsState (record s { client = set_fd s.client fd now })
unfolding set_fd on_status_change
set_fd-IsState s zero now h = absurd (omega arith)
set_fd-IsState s (suc n) now h = ground arith

start_connect-IsState :
    (s : SocketClient) (os : Connecting) (fd now : ℕ)
    → 0 < fd
    → s.client.status ≡ st_disconnect
    → IsState s
    → IsState (start_connect s os fd now).0
unfolding start_connect next_port log
start_connect-IsState s os n now p e h = ground (arith, set_fd-IsState s n now p)

-- The socket, where there is one.
abbrev pub number : Connecting → ℕ
number os = elim os.socket [ none ↦ 0 | some fd ↦ fd ]

connect_server-IsState :
    (s : SocketClient) (os : Connecting) (now : ℕ)
    → IsPositive os
    → IsState s
    → IsState (connect_server s os now).0
unfolding connect_server log
connect_server-IsState s os now p h = grind (
  arith,
  start_connect-IsState (record (log s (opened (number os))) { last_conn_time = os.seconds }) os
      (number os) now,
)

check_socket-IsState :
    (s : SocketClient) (os : Checking) (fd now : ℕ)
    → 0 < fd
    → IsFree s.client.fd
    → IsState (check_socket s os fd now)
unfolding check_socket
check_socket-IsState s os fd now p h =
    ground (arith, connect_over-IsState s fd h, set_fd-IsState s fd now p)

-- The socket that is being connected, where there is one.
abbrev pub socket_number : SocketClient → ℕ
socket_number s = elim s.sock_id [ none ↦ 0 | some fd ↦ fd ]

on_check_connecting-IsState :
    (s : SocketClient) (os : Checking) (now : ℕ)
    → IsState s
    → IsState (on_check_connecting s os now).0
unfolding on_check_connecting
on_check_connecting-IsState s os now h =
    ground (arith, check_socket-IsState s os (socket_number s) now)

-- A tick leaves a state of the three, whatever the system answers.
pub on_tick-IsState :
    (s : SocketClient) (os : Connecting) (os' : Checking) (seconds now : ℕ)
    → IsPositive os
    → IsState s
    → IsState (on_tick s os os' seconds now)
unfolding on_tick
on_tick-IsState s os os' seconds now p h = ground (
  arith,
  drop_connection-IsState s,
  on_check_connecting-IsState s os' now h,
  connect_server-IsState (record s { last_conn_time = seconds }) os now p h,
)
