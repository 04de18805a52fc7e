-- ===== src/Net/SocketServer/Examples.antt =====
-- Runs of the server on small inputs.
use cdroid_demo.Common.{ℕ, ◌≡◌, refl, Bool, true, false, List, [], ◌∷◌, some, arith, ◌==◌}
use cdroid_demo.Net.{Client, Incoming, init_data}
use cdroid_demo.UartClient.{st_connected}
use cdroid_demo.Net.SocketServer.{
  SocketServer, auth_keys, starts_with, server_client, find, client_event, handle_event,
  send_data_all,
}
use cdroid_demo.Net.SocketServer.Authentication.{concat, receive, receive_lem}
use cdroid_demo.Net.SocketServer.Clients.{IsTable, told, auth_count, find-send_data_all}
use cdroid_demo.Net.SocketServer.Runs.{start, next, accepted, run-IsTable}

abbrev empty : SocketServer
empty = record { client = init_data; clients = []; freed = [] }

abbrev joined : SocketServer
joined = handle_event empty (some 5) 1000

abbrev chunks : List (List ℕ)
chunks = (99 ∷ 100 ∷ 114 ∷ []) ∷ (111 ∷ 105 ∷ 100 ∷ 83 ∷ 101 ∷ 114 ∷ 118 ∷ 101 ∷ 114 ∷ 7 ∷ []) ∷ []

receive_lem_example :
    (d : Client) × (receive (server_client 5 1000) chunks 1700000000 1000 ≡ some d)
    × (d.recv_bytes ≡ concat chunks)
    × (d.is_auth ≡ starts_with auth_keys (concat chunks))
unfolding concat
receive_lem_example = receive_lem 4 chunks 1700000000 1000 (omega arith) (omega arith)

abbrev second_free : ℕ → Bool
second_free port = port == 8081

abbrev key_bytes : ℕ → Incoming
key_bytes round = record { bytes = auth_keys; is_enoent = false }

run-IsTable_example :
    IsTable 0 joined.clients
    × ((u : SocketServer) × (client_event joined 5 key_bytes 1700000000 2000 ≡ some u)
        × IsTable 0 u.clients)
run-IsTable_example = run-IsTable 5 1700000000 2000 key_bytes refl (next start (accepted 4 1000))

-- One client that has shown the key, and one that has not.
abbrev shown : Client
shown = record {
  fd = some 5;
  status = st_connected;
  is_auth = true;
  recv_bytes = auth_keys;
  last_rcv_time = 2000;
  last_snd_time = 1000;
  calls = [];
}

abbrev two : SocketServer
two = record {
  client = init_data;
  clients = (5, shown) ∷ (6, record shown { fd = some 6; is_auth = false }) ∷ [];
  freed = [];
}

two-IsTable : IsTable 0 two.clients
two-IsTable = ground arith

find-send_data_all_example :
    let (t, count) = send_data_all two (1 ∷ 2 ∷ []) 3000 in
    (find 5 t.clients ≡ some (told shown (1 ∷ 2 ∷ []) 3000 5)) × (count ≡ auth_count two.clients)
unfolding find
find-send_data_all_example = find-send_data_all two 5 (1 ∷ 2 ∷ []) 3000 shown two-IsTable refl
