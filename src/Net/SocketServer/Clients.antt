-- ===== src/Net/SocketServer/Clients.antt =====
-- The map of the server's clients.
use cdroid_demo.Common.{
  ℕ, ◌+◌, ◌<◌, ◌≤◌, ◌≡◌, refl, ◌||◌, List, [], ◌∷◌, none, some, arith, ltb, ltb→lt, ==_iff, ◌==◌,
  if◌then◌else◌, Bool-cases, inl, inr,
}
use cdroid_demo.UartClient.{st_connected}
use cdroid_demo.Net.{Client, sent, is_timeout, send_data}
use cdroid_demo.Net.SocketServer.{
  Clients, SocketServer, insert, find, erase, store, sweep, on_tick, send_each, send_data_all,
}
use cdroid_demo.Net.Reading.{IsBounded}

-- A client that is connected through the descriptor it stands under.
abbrev pub IsEntry : ℕ → Client → Type 0
IsEntry fd c = (c.status ≡ st_connected) × (c.fd ≡ some fd) × IsBounded c

-- The descriptors ascend from above `low`.
abbrev pub IsTable : ℕ → Clients → Type 0
IsTable low [] = Unit
IsTable low ((fd, c) ∷ cs) = (low < fd) × IsEntry fd c × IsTable fd cs

IsTable-lower : (low high : ℕ) (cs : Clients) → low ≤ high → IsTable high cs → IsTable low cs
IsTable-lower low high [] h t = tt
IsTable-lower low high ((fd, c) ∷ cs) h t = (omega arith, t.1, t.2)

pub insert-IsTable :
    (low fd : ℕ) (c : Client) (cs : Clients)
    → low < fd
    → IsEntry fd c
    → IsTable low cs
    → IsTable low (insert fd c cs)
unfolding insert
insert-IsTable low fd c [] h e t = (h, e, tt)
insert-IsTable low fd c ((n, d) ∷ cs) h e t = elim (Bool-cases (ltb fd n)) [
  | inl l ↦ rw (insert, l) (h, e, (omega (arith, ltb→lt fd n l), t.1, t.2))
  | inr l ↦ elim (Bool-cases (n == fd)) [
    | inl q ↦ rw (insert, l, q) t
    | inr q ↦ rw (insert, l, q) (t.0, t.1, insert-IsTable n fd c cs (ground (arith, l, q)) e t.2)
  ]
]

pub erase-IsTable : (low fd : ℕ) (cs : Clients) → IsTable low cs → IsTable low (erase fd cs)
unfolding erase
erase-IsTable low fd [] t = tt
erase-IsTable low fd ((n, d) ∷ cs) t = elim (Bool-cases (n == fd)) [
  | inl q ↦ rw (erase, q) (IsTable-lower low n cs (omega arith) t.2)
  | inr q ↦ rw (erase, q) (t.0, t.1, erase-IsTable n fd cs t.2)
]

pub store-IsTable :
    (low fd : ℕ) (c : Client) (cs : Clients)
    → IsEntry fd c
    → IsTable low cs
    → IsTable low (store fd c cs)
unfolding store
store-IsTable low fd c [] e t = tt
store-IsTable low fd c ((n, d) ∷ cs) e t = elim (Bool-cases (n == fd)) [
  | inl q ↦ rw (store, q) (t.0, rw ((==_iff n fd).0 q) e, t.2)
  | inr q ↦ rw (store, q) (t.0, t.1, store-IsTable n fd c cs e t.2)
]

-- Storing and erasing under one descriptor is erasing.
pub erase-store : (fd : ℕ) (c : Client) (cs : Clients) → erase fd (store fd c cs) ≡ erase fd cs
unfolding erase store
erase-store fd c [] = refl
erase-store fd c ((n, d) ∷ cs) = ground (arith, erase-store fd c cs)

pub find-store :
    (fd : ℕ) (c d : Client) (cs : Clients) → find fd cs ≡ some d → find fd (store fd c cs) ≡ some c
unfolding find store
find-store fd c d [] e = cc
find-store fd c d ((n, f) ∷ cs) e = ground (arith, find-store fd c d cs)

pub find-IsEntry :
    (low fd : ℕ) (cs : Clients) (c : Client) → IsTable low cs → find fd cs ≡ some c → IsEntry fd c
unfolding find
find-IsEntry low fd [] c t e = cc
find-IsEntry low fd ((n, d) ∷ cs) c t e = elim (Bool-cases (n == fd)) [
  | inl q ↦ ground (arith)
  | inr q ↦ find-IsEntry n fd cs c t.2 (ground arith)
]

pub sweep-IsTable :
    (low : ℕ) (cs : Clients) (now : ℕ) → IsTable low cs → IsTable low (sweep cs now).0
unfolding sweep
sweep-IsTable low [] now t = tt
sweep-IsTable low ((n, c) ∷ cs) now t = elim (Bool-cases (is_timeout c 0 now)) [
  | inl q ↦
      rw (sweep, q)
        (IsTable-lower low n (sweep cs now).0 (omega arith) (sweep-IsTable n cs now t.2))
  | inr q ↦ rw (sweep, q) (t.0, t.1, sweep-IsTable n cs now t.2)
]

pub send_each-IsTable :
    (low : ℕ) (cs : Clients) (bytes : List ℕ) (now : ℕ)
    → IsTable low cs
    → IsTable low (send_each cs bytes now).0
unfolding send_each send_data
send_each-IsTable low [] bytes now t = tt
send_each-IsTable low ((n, c) ∷ cs) bytes now t =
    ground (arith, send_each-IsTable n cs bytes now t.2)

-- A descriptor below the table is not in it.
pub find_low : (low fd : ℕ) (cs : Clients) → fd ≤ low → IsTable low cs → find fd cs ≡ none
unfolding find
find_low low fd [] h t = refl
find_low low fd ((n, d) ∷ cs) h t = ground (arith, find_low n fd cs (omega arith) t.2)

-- What the loop leaves of an entry.
find-sweep :
    (low fd now : ℕ) (cs : Clients) (c : Client)
    → IsTable low cs
    → find fd cs ≡ some c
    → find fd (sweep cs now).0 ≡ (if is_timeout c 0 now then none else some c)
unfolding find sweep
find-sweep low fd now [] c t e = cc
find-sweep low fd now ((n, d) ∷ cs) c t e = ground (
  arith,
  find-sweep n fd now cs c t.2,
  find_low n fd (sweep cs now).0,
  sweep-IsTable n cs now t.2,
)

-- A tick deletes a client of the map exactly if more than 30 seconds have passed since the client's
-- last receiving time or since its last sending time; a client that is not deleted stays as it is.
pub find-on_tick :
    (s : SocketServer) (fd now : ℕ) (c : Client)
    → IsTable 0 s.clients
    → find fd s.clients ≡ some c
    → find fd (on_tick s now).clients ≡ (
        if ltb (c.last_rcv_time + 30000) now || ltb (c.last_snd_time + 30000) now
        then none
        else some c)
unfolding on_tick is_timeout
find-on_tick s fd now c t e = find-sweep 0 fd now s.clients c t e

-- What a message makes of a client.
abbrev pub told : Client → List ℕ → ℕ → ℕ → Client
told c bytes now fd =
    if c.is_auth then record c { last_snd_time = now; calls = sent fd bytes ∷ c.calls } else c

abbrev pub auth_count : Clients → ℕ
auth_count [] = 0
auth_count ((n, c) ∷ cs) = (if c.is_auth then 1 else 0) + auth_count cs

send_each_count :
    (cs : Clients) (bytes : List ℕ) (now : ℕ) → (send_each cs bytes now).1 ≡ auth_count cs
unfolding send_each
send_each_count [] bytes now = refl
send_each_count ((n, c) ∷ cs) bytes now = ground (arith, send_each_count cs bytes now)

find-send_each :
    (low fd : ℕ) (cs : Clients) (bytes : List ℕ) (now : ℕ) (c : Client)
    → IsTable low cs
    → find fd cs ≡ some c
    → find fd (send_each cs bytes now).0 ≡ some (told c bytes now fd)
unfolding find send_each send_data
find-send_each low fd [] bytes now c t e = cc
find-send_each low fd ((n, d) ∷ cs) bytes now c t e =
    ground (arith, find-send_each n fd cs bytes now c t.2)

-- A message of the server goes once to each client of the map that has shown the key, through its
-- own descriptor, and to no other; the result is the number of these clients.
pub find-send_data_all :
    (s : SocketServer) (fd : ℕ) (bytes : List ℕ) (now : ℕ) (c : Client)
    → IsTable 0 s.clients
    → find fd s.clients ≡ some c
    → let (t, count) = send_data_all s bytes now in
      (find fd t.clients ≡ some (told c bytes now fd)) × (count ≡ auth_count s.clients)
unfolding send_data_all
find-send_data_all s fd bytes now c t e =
    (find-send_each 0 fd s.clients bytes now c t e, send_each_count s.clients bytes now)
