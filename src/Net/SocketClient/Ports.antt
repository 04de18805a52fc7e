-- ===== src/Net/SocketClient/Ports.antt =====
-- The port and the waits of the socket client.
use cdroid_demo.Common.{
  ℕ, suc, ◌+◌, ◌<◌, ◌≡◌, refl, Bool, Bool-cases, inl, inr, true, false, none, some, arith, ltb, leb,
  ◌==◌, ◌&&◌, not, ◌∷◌, if◌then◌else◌,
}
use cdroid_demo.UartClient.{st_connecting, st_connected, st_disconnect}
use cdroid_demo.Net.{opened, closed, add_fd, set_fd, on_status_change}
use cdroid_demo.Net.SocketClient.{
  SocketClient, next_port, log, Connecting, ConnectResult, connect_ok, connect_error, start_connect,
  connect_server, Checking, connect_over, check_socket, on_check_connecting, drop_connection,
  on_tick, connect_in_progress, conn_timeout, conn_space,
}

abbrev pub IsPort : SocketClient → ℕ → Type 0
IsPort s p = (s.port ≡ p) × (s.r_port ≡ p)

-- However often connecting fails, a tick keeps the port, if it is below 65535.
pub on_tick-IsPort :
    (s : SocketClient) (os : Connecting) (os' : Checking) (seconds now p : ℕ)
    → p < 65535
    → IsPort s p
    → IsPort (on_tick s os os' seconds now) p
unfolding on_tick on_check_connecting check_socket connect_over connect_server start_connect
    next_port log drop_connection
on_tick-IsPort s os os' seconds now p h e = ground arith

-- Five seconds have not passed, and the socket is writable and has no error.
abbrev pub is_ready : SocketClient → Checking → Bool
is_ready s os =
    not (ltb (s.last_conn_time + conn_timeout) os.seconds)
    && (os.is_selected && (os.has_option && os.so_error == 0))

-- A tick ends an attempt to connect. If five seconds have not passed and the socket is writable and
-- has no error, the client is connected through it; in all other cases, a select that sees nothing
-- yet included, the attempt is dropped, the socket is closed, and the client is disconnected.
pub on_tick-connecting :
    (s : SocketClient) (os : Connecting) (os' : Checking) (seconds now n : ℕ)
    → s.is_init ≡ true
    → s.client.status ≡ st_connecting
    → s.client.fd ≡ none
    → s.sock_id ≡ some (suc n)
    → let t = on_tick s os os' seconds now in
      if is_ready s os'
      then (t.client.status ≡ st_connected) × (t.client.fd ≡ some (suc n))
      else (t.client.status ≡ st_disconnect)
        × (t.sock_id ≡ none)
        × (t.client.calls ≡ closed (suc n) ∷ s.client.calls)
unfolding on_tick on_check_connecting check_socket connect_over next_port log set_fd
    on_status_change
on_tick-connecting s os os' seconds now n i e g f = ground arith

-- The socket was closed again, and the client is disconnected as before.
abbrev pub GaveUp : SocketClient → ℕ → SocketClient → Type 0
GaveUp s n t =
    (t.client.status ≡ st_disconnect)
    × (t.client.fd ≡ s.client.fd)
    × (t.sock_id ≡ s.sock_id)
    × (t.client.calls ≡ closed (suc n) ∷ opened (suc n) ∷ s.client.calls)

-- What an attempt leads to, by whether the socket can be set not to block and what connect gives.
abbrev pub Tried : SocketClient → ℕ → ℕ → ℕ → Bool → ConnectResult → SocketClient → Type 0
Tried s n seconds now false r t = GaveUp s n t
Tried s n seconds now true connect_error t = GaveUp s n t
Tried s n seconds now true connect_in_progress t =
    (t.client.status ≡ st_connecting)
    × (t.client.fd ≡ s.client.fd)
    × (t.sock_id ≡ some (suc n))
    × (t.last_conn_time ≡ seconds)
    × (t.client.calls ≡ opened (suc n) ∷ s.client.calls)
Tried s n seconds now true connect_ok t =
    (t.client.status ≡ st_connected)
    × (t.client.fd ≡ some (suc n))
    × (t.client.last_rcv_time ≡ now)
    × (t.client.calls ≡ add_fd (suc n) ∷ opened (suc n) ∷ s.client.calls)

-- What connect_server does for a disconnected client.
tried :
    (s : SocketClient) (os : Connecting) (now n : ℕ)
    → s.client.status ≡ st_disconnect
    → os.socket ≡ some (suc n)
    → Tried s n os.seconds now os.is_nonblock os.result (connect_server s os now).0
unfolding connect_server start_connect log next_port set_fd on_status_change
tried s os now n d e = go os.is_nonblock os.result refl refl
  where
    go :
        (b : Bool) (r : ConnectResult)
        → os.is_nonblock ≡ b
        → os.result ≡ r
        → Tried s n os.seconds now b r (connect_server s os now).0
    go false r p q = ground (arith, d, e, p)
    go true connect_ok p q = ground (arith, d, e, p, q)
    go true connect_in_progress p q = ground (arith, d, e, p, q)
    go true connect_error p q = ground (arith, d, e, p, q)

-- A tick of a client that is disconnected and has been set up. Before five seconds have passed since the
-- last attempt nothing changes. Then it tries, with a socket above 0: the socket is closed again and
-- the client stays disconnected where the socket cannot be set not to block or connect fails; it is
-- the client's socket, and the client is connecting, where connect goes on; and it is the client's
-- connection, given to the looper and with its time set, where connect is done.
pub on_tick-disconnected :
    (s : SocketClient) (os : Connecting) (os' : Checking) (seconds now n : ℕ)
    → s.is_init ≡ true
    → s.client.status ≡ st_disconnect
    → os.socket ≡ some (suc n)
    → let t = on_tick s os os' seconds now in
      if leb (s.last_conn_time + conn_space) seconds
      then Tried s n os.seconds now os.is_nonblock os.result t
      else t ≡ s
unfolding on_tick
on_tick-disconnected s os os' seconds now n i d e =
    elim (Bool-cases (leb (s.last_conn_time + conn_space) seconds)) [
      | inr early ↦ ground (arith, early, i, d)
      | inl due ↦
          ground (arith, due, i, d, tried (record s { last_conn_time = seconds }) os now n d e)
    ]
