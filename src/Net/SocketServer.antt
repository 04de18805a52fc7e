-- ===== src/Net/SocketServer.antt =====
-- src/net/socket_server.cc: a server that keeps its clients in a map and sends to those that have
-- shown the key. A ServerClient has the fields of Client, so the map is a list of descriptors, in
-- ascending order, with their clients. A client that is deleted goes to `freed` once its descriptor
-- is closed.
pub mod Authentication
pub mod Clients
pub mod Listening
pub mod Runs
mod Examples
use cdroid_demo.Common.{
  ℕ, zero, suc, ◌+◌, ◌-◌, ◌*◌, ◌/◌, Bool, true, false, ◌&&◌, List, [], ◌∷◌, Option, none, some, ltb,
  ◌==◌, if◌then◌else◌, ◌++◌,
}
use cdroid_demo.Net.{
  Client, Call, opened, closed, init_data, close_fd, set_fd, is_timeout, send_data, Incoming,
  read_loop,
}

abbrev pub Clients : Type 0
Clients = List (ℕ × Client)

pub record SocketServer : Type 0 where
  pub client : Client
  pub clients : Clients
  pub freed : List Client

-- "cdroidServer".
abbrev pub auth_keys : List ℕ
auth_keys = 99 ∷ 100 ∷ 114 ∷ 111 ∷ 105 ∷ 100 ∷ 83 ∷ 101 ∷ 114 ∷ 118 ∷ 101 ∷ 114 ∷ []

-- strncmp(buffer, key, length of the key) == 0; the buffer has zeros after its bytes.
unfoldable pub starts_with : List ℕ → List ℕ → Bool
starts_with [] bytes = true
starts_with (k ∷ key) [] = k == 0 && starts_with key []
starts_with (k ∷ key) (b ∷ bytes) = k == b && starts_with key bytes

-- ServerClient::onRecvData; `seconds` is time(0).
unfoldable pub on_recv_data : ℕ → Client → Client × Option ℕ
on_recv_data seconds c =
    let shown = if c.is_auth then true else starts_with auth_keys c.recv_bytes in
    (record c { is_auth = shown; last_rcv_time = seconds }, some 0)

unfoldable pub server_client : ℕ → ℕ → Client
server_client fd now = set_fd init_data fd now

-- std::map::insert: an entry that is there stays.
unfoldable pub insert : ℕ → Client → Clients → Clients
insert fd c [] = (fd, c) ∷ []
insert fd c ((n, d) ∷ cs) =
    let rest = insert fd c cs in
    if ltb fd n then (fd, c) ∷ (n, d) ∷ cs else if n == fd then (n, d) ∷ cs else (n, d) ∷ rest

unfoldable pub find : ℕ → Clients → Option Client
find fd [] = none
find fd ((n, d) ∷ cs) = let rest = find fd cs in if n == fd then some d else rest

unfoldable pub erase : ℕ → Clients → Clients
erase fd [] = []
erase fd ((n, d) ∷ cs) = let rest = erase fd cs in if n == fd then cs else (n, d) ∷ rest

-- What is written through the pointer of an entry.
unfoldable pub store : ℕ → Client → Clients → Clients
store fd c [] = []
store fd c ((n, d) ∷ cs) =
    let rest = store fd c cs in if n == fd then (n, c) ∷ cs else (n, d) ∷ rest

unfoldable pub close : SocketServer → ℕ → SocketServer
unfolding find erase
close s fd = elim (find fd s.clients) [
  | none ↦ s
  | some c ↦ record s { clients = erase fd s.clients; freed = close_fd c ∷ s.freed }
]

-- Client::handleEvent of the client with this descriptor. Its onStatusChange closes the descriptor,
-- and has the server delete the client.
unfoldable pub client_event : SocketServer → ℕ → (ℕ → Incoming) → ℕ → ℕ → Option SocketServer
unfolding store close find
client_event s fd incoming seconds now = elim (find fd s.clients) [
  | none ↦ some s
  | some c ↦ (elim (read_loop (on_recv_data seconds) incoming now 2 0 c) [
    | none ↦ none
    | some (d, true) ↦ some (record s { clients = store fd d s.clients })
    | some (d, false) ↦ some (close (record s { clients = store fd d s.clients }) fd)
  ])
]

-- SocketServer::handleEvent, with what accept gives.
unfoldable pub handle_event : SocketServer → Option ℕ → ℕ → SocketServer
unfolding insert server_client
handle_event s none now = s
handle_event s (some fd) now = record s { clients = insert fd (server_client fd now) s.clients }

-- The loop of onTick: the clients that stay, and those that are deleted.
unfoldable pub sweep : Clients → ℕ → Clients × List Client
sweep [] now = ([], [])
sweep ((n, c) ∷ cs) now =
    let (kept, freed) = sweep cs now in
    if is_timeout c 0 now then (kept, close_fd c ∷ freed) else ((n, c) ∷ kept, freed)

unfoldable pub on_tick : SocketServer → ℕ → SocketServer
unfolding sweep
on_tick s now =
    let (kept, freed) = sweep s.clients now in record s { clients = kept; freed = s.freed ++ freed }

-- The loop of sendData, with the number of clients that it sends to.
unfoldable pub send_each : Clients → List ℕ → ℕ → Clients × ℕ
send_each [] bytes now = ([], 0)
send_each ((n, c) ∷ cs) bytes now =
    let (rest, count) = send_each cs bytes now in
    if c.is_auth then ((n, (send_data c bytes now).0) ∷ rest, suc count) else ((n, c) ∷ rest, count)

unfoldable pub send_data_all : SocketServer → List ℕ → ℕ → SocketServer × ℕ
unfolding send_each
send_data_all s bytes now =
    let (cs, count) = send_each s.clients bytes now in (record s { clients = cs }, count)

abbrev pub svr_port : ℕ
svr_port = 8080

abbrev pub eport : ℕ
eport = (svr_port + 1000) / 1000 * 1000

-- The loop of init over the ports, `rest` of them from `port` on; `is_free` says whether bind succeeds.
unfoldable pub bind_port : (ℕ → Bool) → ℕ → ℕ → Option ℕ
bind_port is_free zero port = none
bind_port is_free (suc rest) port =
    let next = bind_port is_free rest (port + 1) in if is_free port then some port else next

-- What the system answers: socket, bind for each port, listen. The result is the port, if the
-- server listens; init returns 1 otherwise.
unfoldable pub init : SocketServer → Option ℕ → (ℕ → Bool) → Bool → ℕ → SocketServer × Option ℕ
unfolding bind_port
init s none is_free listens now = (s, none)
init s (some fd) is_free listens now =
    let began : Client = record (s.client) { calls = opened fd ∷ s.client.calls } in
    let failed : SocketServer × Option ℕ =
      (record s { client = record began { calls = closed fd ∷ began.calls } }, none) in
    elim (bind_port is_free (eport + 1 - svr_port) svr_port) [
      | none ↦ failed
      | some port ↦
          (if listens then (record s { client = set_fd began fd now }, some port) else failed)
    ]
