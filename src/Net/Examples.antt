-- ===== src/Net/Examples.antt =====
-- Runs of the sockets on small inputs.
use cdroid_demo.Common.{
  ℕ, ◌≤◌, ◌+◌, leb, ◌≡◌, refl, true, false, [], ◌∷◌, none, some, arith, if◌then◌else◌, length,
}
use cdroid_demo.UartClient.{st_connected, st_disconnect}
use cdroid_demo.Net.{opened, closed, add_fd, Incoming, init_data, set_fd, on_status_change, len_4k}
use cdroid_demo.Net.SocketClient.{
  SocketClient, create, init, next_port, log, Connecting, Checking, connect_in_progress,
  connect_error, start_connect, connect_server, check_socket, on_check_connecting, on_tick,
  handle_event, conn_space,
}
use cdroid_demo.Net.SocketClient.States.{IsState}
use cdroid_demo.Net.SocketClient.Descriptors.{IsSettled}
use cdroid_demo.Net.SocketClient.Runs.{
  Reach, start, next, tick, run-IsSettled, run-IsState, run-handle_event,
}
use cdroid_demo.Net.SocketClient.Ports.{is_ready, Tried, on_tick-connecting, on_tick-disconnected}

abbrev opening : Connecting
opening = record {
  socket = some 7;
  is_nonblock = true;
  seconds = 100;
  result = connect_in_progress;
}

abbrev ready : Checking
ready = record { seconds = 101; is_selected = true; has_option = true; so_error = 0 }

abbrev began : SocketClient
began = on_tick (init create none 8080) opening ready 100 5000

abbrev joined : SocketClient
joined = on_tick began opening ready 101 6000

abbrev began_run : Reach (init create none 8080) began
began_run = next start (tick opening ready 100 5000 (omega arith))

abbrev joined_run : Reach (init create none 8080) joined
joined_run = next began_run (tick opening ready 101 6000 (omega arith))

joined_calls : joined.client.calls ≡ add_fd 7 ∷ opened 7 ∷ []
unfolding init create init_data on_tick connect_server start_connect log on_check_connecting
    check_socket set_fd on_status_change
joined_calls = refl

-- A port of 65535 goes on with 0 after an error.
next_port_wraps : (next_port (init create none 65535)).port ≡ 0
unfolding init create init_data next_port
next_port_wraps = refl

run-IsSettled_example : IsSettled joined 7 × (length joined.client.recv_bytes ≤ len_4k)
run-IsSettled_example = run-IsSettled none 8080 7 joined_run

run-IsState_example : IsState joined
run-IsState_example = run-IsState none 8080 joined_run

abbrev hello : ℕ → Incoming
hello round = record { bytes = 104 ∷ 105 ∷ []; is_enoent = false }

run-handle_event_example :
    (t : SocketClient) × (handle_event 2 joined hello 6100 ≡ some t) × IsState t
unfolding init create init_data on_tick connect_server start_connect log on_check_connecting
    check_socket set_fd on_status_change
run-handle_event_example = run-handle_event none 8080 hello 6100 joined_run refl

abbrev refused : Connecting
refused = record { socket = some 7; is_nonblock = true; seconds = 100; result = connect_error }

-- The socket is not ready yet.
abbrev pending : Checking
pending = record { seconds = 101; is_selected = false; has_option = true; so_error = 0 }

on_tick-connecting_example :
    let t = on_tick began opening pending 101 6000 in
    if is_ready began pending
    then (t.client.status ≡ st_connected) × (t.client.fd ≡ some 7)
    else (t.client.status ≡ st_disconnect)
      × (t.sock_id ≡ none)
      × (t.client.calls ≡ closed 7 ∷ began.client.calls)
unfolding init create init_data on_tick connect_server start_connect log
on_tick-connecting_example = on_tick-connecting began opening pending 101 6000 6 refl refl refl refl

on_tick-disconnected_example :
    let s = init create none 8080 in
    let t = on_tick s opening ready 100 5000 in
    if leb (s.last_conn_time + conn_space) 100
    then Tried s 6 100 5000 true connect_in_progress t
    else t ≡ s
unfolding init create init_data
on_tick-disconnected_example =
    on_tick-disconnected (init create none 8080) opening ready 100 5000 6 refl refl refl
