-- ===== src/Net/SocketClient/Descriptors.antt =====
-- The descriptors that the socket client opens, closes, and has the looper watch.
use cdroid_demo.Common.{
  ℕ, zero, suc, ◌+◌, ◌<◌, ◌≡◌, List, [], ◌∷◌, Option, none, some, arith, ◌==◌, if◌then◌else◌,
}
use cdroid_demo.UartClient.{Status, st_connecting, st_connected, st_disconnect, st_null}
use cdroid_demo.Net.{
  Client, Call, opened, closed, add_fd, remove_fd, close_fd, on_status_change, set_fd, disconnect,
}
use cdroid_demo.Net.SocketClient.{
  SocketClient, next_port, log, Connecting, start_connect, connect_server, Checking, connect_over,
  check_socket, on_check_connecting, drop_connection, on_tick,
}
use cdroid_demo.Net.SocketClient.States.{IsState, IsPositive, IsFree, number, socket_number}
use cdroid_demo.Net.Reading.{IsSame}

abbrev pub opened_count : ℕ → List Call → ℕ
opened_count a [] = 0
opened_count a (opened n ∷ calls) = (if n == a then 1 else 0) + opened_count a calls
opened_count a (_ ∷ calls) = opened_count a calls

abbrev pub closed_count : ℕ → List Call → ℕ
closed_count a [] = 0
closed_count a (closed n ∷ calls) = (if n == a then 1 else 0) + closed_count a calls
closed_count a (_ ∷ calls) = closed_count a calls

abbrev pub added_count : ℕ → List Call → ℕ
added_count a [] = 0
added_count a (add_fd n ∷ calls) = (if n == a then 1 else 0) + added_count a calls
added_count a (_ ∷ calls) = added_count a calls

abbrev pub removed_count : ℕ → List Call → ℕ
removed_count a [] = 0
removed_count a (remove_fd n ∷ calls) = (if n == a then 1 else 0) + removed_count a calls
removed_count a (_ ∷ calls) = removed_count a calls

abbrev pub held : ℕ → Option ℕ → ℕ
held a none = 0
held a (some n) = if n == a then 1 else 0

-- The descriptor that belongs to the state.
abbrev pub owned : Status → Option ℕ → Option ℕ → Option ℕ
owned st_connected fd sock_id = fd
owned st_connecting fd sock_id = sock_id
owned st_disconnect fd sock_id = none
owned st_null fd sock_id = none

-- What was opened is closed, or it is the one that the state owns; what the looper was given is taken
-- back, or it is the descriptor of the connection.
abbrev pub IsSettled : SocketClient → ℕ → Type 0
IsSettled s a =
    (opened_count a s.client.calls
      ≡ closed_count a s.client.calls + held a (owned s.client.status s.client.fd s.sock_id))
    × (added_count a s.client.calls ≡ removed_count a s.client.calls + held a s.client.fd)

module _ (a : ℕ) where
  drop_connection-IsSettled :
      (s : SocketClient)
      → s.client.status ≡ st_connected
      → IsSettled s a
      → IsSettled (drop_connection s) a
  unfolding drop_connection disconnect on_status_change close_fd
  drop_connection-IsSettled s e h = ground arith

  connect_over-IsSettled :
      (s : SocketClient) (fd : ℕ)
      → s.client.status ≡ st_connecting
      → IsFree s.client.fd
      → s.sock_id ≡ some fd
      → IsSettled s a
      → IsSettled (connect_over s fd) a
  unfolding connect_over log next_port
  connect_over-IsSettled s fd e f g h = ground arith

  set_fd-IsSettled :
      (s : SocketClient) (fd now : ℕ)
      → 0 < fd
      → IsFree s.client.fd
      → opened_count a s.client.calls ≡ closed_count a s.client.calls + held a (some fd)
      → added_count a s.client.calls ≡ removed_count a s.client.calls
      → IsSettled (record s { client = set_fd s.client fd now }) a
  unfolding set_fd on_status_change
  set_fd-IsSettled s zero now p f g h = absurd (omega arith)
  set_fd-IsSettled s (suc n) now p f g h = ground arith

  start_connect-IsSettled :
      (s : SocketClient) (os : Connecting) (fd now : ℕ)
      → 0 < fd
      → s.client.status ≡ st_disconnect
      → IsFree s.client.fd
      → opened_count a s.client.calls ≡ closed_count a s.client.calls + held a (some fd)
      → added_count a s.client.calls ≡ removed_count a s.client.calls
      → IsSettled (start_connect s os fd now).0 a
  unfolding start_connect next_port log
  start_connect-IsSettled s os fd now p e f g h = ground (arith, set_fd-IsSettled s fd now p f g h)

  connect_server-IsSettled :
      (s : SocketClient) (os : Connecting) (now : ℕ)
      → IsPositive os
      → IsState s
      → IsSettled s a
      → IsSettled (connect_server s os now).0 a
  unfolding connect_server log
  connect_server-IsSettled s os now p i h = grind (
    arith,
    start_connect-IsSettled (record (log s (opened (number os))) { last_conn_time = os.seconds }) os
        (number os) now,
  )

  check_socket-IsSettled :
      (s : SocketClient) (os : Checking) (fd now : ℕ)
      → 0 < fd
      → s.client.status ≡ st_connecting
      → IsFree s.client.fd
      → s.sock_id ≡ some fd
      → IsSettled s a
      → IsSettled (check_socket s os fd now) a
  unfolding check_socket
  check_socket-IsSettled s os fd now p e f g h =
      grind (arith, connect_over-IsSettled s fd e f g h, set_fd-IsSettled s fd now p f)

  on_check_connecting-IsSettled :
      (s : SocketClient) (os : Checking) (now : ℕ)
      → IsState s
      → IsSettled s a
      → IsSettled (on_check_connecting s os now).0 a
  unfolding on_check_connecting
  on_check_connecting-IsSettled s os now i h =
      grind (arith, check_socket-IsSettled s os (socket_number s) now)

  pub on_tick-IsSettled :
      (s : SocketClient) (os : Connecting) (os' : Checking) (seconds now : ℕ)
      → IsPositive os
      → IsState s
      → IsSettled s a
      → IsSettled (on_tick s os os' seconds now) a
  unfolding on_tick
  on_tick-IsSettled s os os' seconds now p i h = grind (
    arith,
    drop_connection-IsSettled s,
    on_check_connecting-IsSettled s os' now i h,
    connect_server-IsSettled (record s { last_conn_time = seconds }) os now p i h,
  )

  pub drops-IsSettled :
      (s : SocketClient) (d : Client)
      → s.client.status ≡ st_connected
      → IsSame s.client d
      → IsSettled s a
      → IsSettled (record s { client = disconnect d; sock_id = none }) a
  unfolding disconnect on_status_change close_fd
  drops-IsSettled s d e p h = ground arith
