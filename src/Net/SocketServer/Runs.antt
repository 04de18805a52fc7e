-- ===== src/Net/SocketServer/Runs.antt =====
-- Runs of the server: connections, input events, ticks and messages in any order.
use cdroid_demo.Common.{
  ℕ, suc, ◌≡◌, refl, sym, ◌∙◌, subst, true, false, List, [], some, arith, inl, inr, Option-cases,
}
use cdroid_demo.Net.{Client, Incoming, init_data, set_fd, on_status_change, disconnect}
use cdroid_demo.Net.Reading.{stays, drops, Ends, read_loop-Ends}
use cdroid_demo.Net.SocketServer.{
  SocketServer, server_client, find, store, close, client_event, handle_event, on_tick,
  send_data_all, on_recv_data,
}
use cdroid_demo.Net.SocketServer.Clients.{
  IsEntry, IsTable, insert-IsTable, erase-IsTable, store-IsTable, erase-store, find-store,
  find-IsEntry, sweep-IsTable, send_each-IsTable,
}

abbrev pub IsServer : SocketServer → Type 0
IsServer s = IsTable 0 s.clients

server_client-IsEntry : (n now : ℕ) → IsEntry (suc n) (server_client (suc n) now)
unfolding server_client set_fd init_data on_status_change
server_client-IsEntry n now = (refl, refl, omega arith)

close-IsServer : (s : SocketServer) (fd : ℕ) → IsServer s → IsServer (close s fd)
unfolding close
close-IsServer s fd t = ground (arith, erase-IsTable 0 fd s.clients t)

-- After a drop the client's entry is gone, whatever was stored in it.
dropped-IsServer :
    (s : SocketServer) (fd : ℕ) (c d : Client)
    → find fd s.clients ≡ some c
    → IsServer s
    → IsServer (close (record s { clients = store fd d s.clients }) fd)
unfolding close
dropped-IsServer s fd c d e t =
    rw (close, find-store fd d c s.clients e, erase-store fd d s.clients)
      (erase-IsTable 0 fd s.clients t)

client_event-IsServer :
    (s : SocketServer) (fd seconds now : ℕ) (incoming : ℕ → Incoming)
    → IsServer s
    → (t : SocketServer) × (client_event s fd incoming seconds now ≡ some t) × IsServer t
unfolding client_event Ends on_recv_data
client_event-IsServer s fd seconds now incoming t = elim (Option-cases (find fd s.clients)) [
  | inl e ↦ (s, rw (client_event, e) refl, t)
  | inr (c, e) ↦ go c e (find-IsEntry 0 fd s.clients c t e)
]
  where
    go :
        (c : Client)
        → find fd s.clients ≡ some c
        → IsEntry fd c
        → (u : SocketServer) × (client_event s fd incoming seconds now ≡ some u) × IsServer u
    go c e i = finish (
        read_loop-Ends (on_recv_data seconds) (λ c. (refl, refl, refl)) (λ c. refl) incoming now 0 0
          c i.2)
      where
        finish :
            Ends (on_recv_data seconds) (λ c. (refl, refl, refl)) (λ c. refl) incoming now 2 0 c
            → (u : SocketServer) × (client_event s fd incoming seconds now ≡ some u) × IsServer u
        finish (d, true, p, stays _ q b) = (
          record s { clients = store fd d s.clients },
          rw (client_event, e, p) refl,
          store-IsTable 0 fd d s.clients (q.0 ∙ i.0, q.1 ∙ i.1, b) t,
        )
        finish (d, false, p, drops f q) = (
          close (record s { clients = store fd (disconnect f) s.clients }) fd,
          rw (client_event, e, p) refl,
          dropped-IsServer s fd c (disconnect f) e t,
        )

pub data Step (s : SocketServer) : SocketServer → Type 0 where
  accepted : (n now : ℕ) → Step s (handle_event s (some (suc n)) now)
  event :
      (fd seconds now : ℕ) (incoming : ℕ → Incoming) (t : SocketServer)
      → client_event s fd incoming seconds now ≡ some t
      → Step s t
  ticked : (now : ℕ) → Step s (on_tick s now)
  broadcast : (bytes : List ℕ) (now : ℕ) → Step s (send_data_all s bytes now).0

pub data Reach (s : SocketServer) : SocketServer → Type 0 where
  start : Reach s s
  next : {t u : SocketServer} → Reach s t → Step t u → Reach s u

some-injective : {t u : SocketServer} → some t ≡ some u → t ≡ u
some-injective e = cc

Step-IsServer : {s t : SocketServer} → Step s t → IsServer s → IsServer t
unfolding handle_event on_tick send_data_all
Step-IsServer {s} (accepted n now) i =
    insert-IsTable 0 (suc n) (server_client (suc n) now) s.clients (omega arith)
      (server_client-IsEntry n now) i
Step-IsServer {s} (event fd seconds now incoming t e) i =
    let (u, f, j) = client_event-IsServer s fd seconds now incoming i in
    subst IsServer (some-injective (sym f ∙ e)) j
Step-IsServer {s} (ticked now) i = sweep-IsTable 0 s.clients now i
Step-IsServer {s} (broadcast bytes now) i = send_each-IsTable 0 s.clients bytes now i

-- In every state that the server reaches from one without clients by accepting connections with
-- descriptors above 0, input events, ticks and messages, the descriptors of the map ascend, so none
-- occurs twice, each client is connected through the descriptor it stands under, and its buffer
-- holds at most 4096 bytes; and an input event of any descriptor ends within two rounds of its loop.
pub run-IsTable :
    {s t : SocketServer} (fd seconds now : ℕ) (incoming : ℕ → Incoming)
    → s.clients ≡ []
    → Reach s t
    → IsTable 0 t.clients
      × ((u : SocketServer) × (client_event t fd incoming seconds now ≡ some u)
          × IsTable 0 u.clients)
run-IsTable {s} {t} fd seconds now incoming e r =
    (sound r, client_event-IsServer t fd seconds now incoming (sound r))
  where
    sound : {u : SocketServer} → Reach s u → IsServer u
    sound start = rw e tt
    sound (next q st) = Step-IsServer st (sound q)
