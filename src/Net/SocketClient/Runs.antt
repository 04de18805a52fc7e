-- ===== src/Net/SocketClient/Runs.antt =====
-- Runs of the socket client: its ticks, the bytes that come, and what is sent.
use cdroid_demo.Common.{
  ℕ, suc, ◌≡◌, refl, subst, sym, ◌∙◌, true, false, List, Option, none, some, arith,
}
use cdroid_demo.UartClient.{st_connected}
use cdroid_demo.Net.{
  Client, Incoming, init_data, close_fd, on_status_change, set_fd, disconnect, send_data,
}
use cdroid_demo.Net.Reading.{IsBounded, IsSame, stays, drops, Ends, read_loop-Ends}
use cdroid_demo.Net.SocketClient.{
  SocketClient, create, init, Connecting, Checking, on_tick, on_recv_data, handle_event, next_port,
  log, start_connect, connect_server, connect_over, check_socket, on_check_connecting,
  drop_connection,
}
use cdroid_demo.Net.SocketClient.States.{
  IsState, IsPositive, drop_connection-IsState, on_tick-IsState,
}
use cdroid_demo.Net.SocketClient.Descriptors.{IsSettled, on_tick-IsSettled, drops-IsSettled}

-- What each state of a run satisfies.
pub record IsSound (s : SocketClient) : Type 0 where
  pub in_state : IsState s
  pub in_bounds : IsBounded s.client
  pub settled : (a : ℕ) → IsSettled s a

-- A tick, an input event of a connection, a message.
pub data Step (s : SocketClient) : SocketClient → Type 0 where
  tick :
      (os : Connecting) (os' : Checking) (seconds now : ℕ)
      → IsPositive os
      → Step s (on_tick s os os' seconds now)
  input :
      (incoming : ℕ → Incoming) (now : ℕ) (t : SocketClient)
      → s.client.status ≡ st_connected
      → handle_event 2 s incoming now ≡ some t
      → Step s t
  sends :
      (bytes : List ℕ) (now : ℕ) → Step s (record s { client = (send_data s.client bytes now).0 })

pub data Reach (s : SocketClient) : SocketClient → Type 0 where
  start : Reach s s
  next : {t u : SocketClient} → Reach s t → Step t u → Reach s u

-- The buffer is only touched by a drop.
on_tick-IsBounded :
    (s : SocketClient) (os : Connecting) (os' : Checking) (seconds now : ℕ)
    → IsBounded s.client
    → IsBounded (on_tick s os os' seconds now).client
unfolding on_tick on_check_connecting check_socket connect_over connect_server start_connect
    next_port log set_fd on_status_change close_fd drop_connection disconnect
on_tick-IsBounded s os os' seconds now h = ground arith

on_tick-IsSound :
    {s : SocketClient} (os : Connecting) (os' : Checking) (seconds now : ℕ)
    → IsPositive os
    → IsSound s
    → IsSound (on_tick s os os' seconds now)
on_tick-IsSound {s} os os' seconds now p i = record {
  in_state = on_tick-IsState s os os' seconds now p i.in_state;
  in_bounds = on_tick-IsBounded s os os' seconds now i.in_bounds;
  settled = λ a. on_tick-IsSettled a s os os' seconds now p i.in_state (i.settled a);
}

stays-IsSound :
    (s : SocketClient) (d : Client)
    → IsSame s.client d
    → IsBounded d
    → IsSound s
    → IsSound (record s { client = d })
stays-IsSound s d p b i = record {
  in_state = rw (p.0, p.1) i.in_state;
  in_bounds = b;
  settled = λ a. rw (p.0, p.1, p.2) (i.settled a);
}

disconnect-IsBounded : (d : Client) → IsBounded (disconnect d)
unfolding disconnect on_status_change close_fd
disconnect-IsBounded d = ground arith

drops-IsSound :
    (s : SocketClient) (d : Client)
    → s.client.status ≡ st_connected
    → IsSame s.client d
    → IsSound s
    → IsSound (record s { client = disconnect d; sock_id = none })
unfolding drop_connection
drops-IsSound s d e p i = record {
  in_state = drop_connection-IsState (record s { client = d });
  in_bounds = disconnect-IsBounded d;
  settled = λ a. drops-IsSettled a s d e p (i.settled a);
}

-- An input event on a connection ends within two rounds of its loop, and its state is sound.
handle_event-IsSound :
    (s : SocketClient) (incoming : ℕ → Incoming) (fuel now : ℕ)
    → s.client.status ≡ st_connected
    → IsSound s
    → (t : SocketClient) × (handle_event (suc (suc fuel)) s incoming now ≡ some t) × IsSound t
unfolding handle_event Ends
handle_event-IsSound s incoming fuel now e i = go (
    read_loop-Ends on_recv_data (λ c. (refl, refl, refl)) (λ c. refl) incoming now fuel 0 s.client
      i.in_bounds)
  where
    go :
        Ends on_recv_data
          (λ c. (refl, refl, refl))
          (λ c. refl)
          incoming
          now
          (suc (suc fuel))
          0
          s.client
        → (t : SocketClient) × (handle_event (suc (suc fuel)) s incoming now ≡ some t) × IsSound t
    go (f, true, p, stays _ q b) =
        (record s { client = f }, rw (handle_event, p) refl, stays-IsSound s f q b i)
    go (f, false, p, drops d q) = (
      record s { client = disconnect d; sock_id = none },
      rw (handle_event, p) refl,
      drops-IsSound s d e q i,
    )

-- A message changes the calls only by what it sends.
send_data-IsSound :
    (s : SocketClient) (bytes : List ℕ) (now : ℕ)
    → IsSound s
    → IsSound (record s { client = (send_data s.client bytes now).0 })
unfolding send_data
send_data-IsSound s bytes now i = record {
  in_state = ground (arith, i.in_state);
  in_bounds = ground (arith, i.in_bounds);
  settled = λ a. ground (arith, i.settled a);
}

some-injective : {t u : SocketClient} → some t ≡ some u → t ≡ u
some-injective e = cc

Step-IsSound : {s t : SocketClient} → Step s t → IsSound s → IsSound t
Step-IsSound (tick os os' seconds now p) i = on_tick-IsSound os os' seconds now p i
Step-IsSound {s} {t} (input incoming now _ e f) i = go (handle_event-IsSound s incoming 0 now e i)
  where
    go : (u : SocketClient) × (handle_event 2 s incoming now ≡ some u) × IsSound u → IsSound t
    go (u, g, h) = subst IsSound (some-injective (sym g ∙ f)) h
Step-IsSound {s} (sends bytes now) i = send_data-IsSound s bytes now i

-- A run from a sound state stays sound.
Reach-IsSound : {s t : SocketClient} → IsSound s → Reach s t → IsSound t
Reach-IsSound i start = i
Reach-IsSound i (next r st) = Step-IsSound st (Reach-IsSound i r)

init-IsSound : (ip : Option (List ℕ)) (port : ℕ) → IsSound (init create ip port)
unfolding init create init_data
init-IsSound ip port = record {
  in_state = ground arith;
  in_bounds = ground arith;
  settled = λ a. ground arith;
}

-- In every state that a client reaches from init by ticks, input events and messages, a socket
-- that was opened was closed as often or is the one that its status owns, a descriptor that the
-- looper was given was taken back as often or is that of the connection, and the receive buffer
-- holds at most 4096 bytes, whatever the system answers with sockets above 0.
pub run-IsSettled :
    (ip : Option (List ℕ)) (port : ℕ) {t : SocketClient} (a : ℕ)
    → Reach (init create ip port) t
    → IsSettled t a × IsBounded t.client
run-IsSettled ip port a r =
    let i = Reach-IsSound (init-IsSound ip port) r in (i.settled a, i.in_bounds)

-- In every state that a client reaches from init by ticks, input events and messages it is
-- disconnected and has no descriptor, or connecting and has only the socket, or connected with
-- a descriptor above 0, whatever the system answers with sockets above 0.
pub run-IsState :
    (ip : Option (List ℕ)) (port : ℕ) {t : SocketClient} → Reach (init create ip port) t → IsState t
run-IsState ip port r = (Reach-IsSound (init-IsSound ip port) r).in_state

-- An input event on a connection that a run reaches ends within two rounds of its loop over recv,
-- whatever recv answers, and leaves a state of the three.
pub run-handle_event :
    (ip : Option (List ℕ)) (port : ℕ) {s : SocketClient} (incoming : ℕ → Incoming) (now : ℕ)
    → Reach (init create ip port) s
    → s.client.status ≡ st_connected
    → (t : SocketClient) × (handle_event 2 s incoming now ≡ some t) × IsState t
run-handle_event ip port {s} incoming now r e =
    let (t, f, i) =
      handle_event-IsSound s incoming 0 now e (Reach-IsSound (init-IsSound ip port) r) in
    (t, f, i.in_state)
