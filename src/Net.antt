-- ===== src/Net.antt =====
-- src/net/client.cc and client.h: the connection that the socket classes share. The descriptor -1
-- is `none`. The clocks and what the system answers are arguments; what is asked of the system is
-- the list `calls`, the newest first. The receive buffer is only filled by these classes and
-- emptied on a disconnect, so it is the list of its bytes.
pub mod Reading
pub mod SocketClient
pub mod SocketServer
mod Examples
use cdroid_demo.Common.{
  ℕ, zero, suc, ◌+◌, ◌-◌, Bool, true, false, ◌||◌, List, [], ◌∷◌, ◌++◌, Option, none, some, ltb,
  leb, ◌==◌, if◌then◌else◌, take, length,
}
use cdroid_demo.UartClient.{Status, st_connected, st_disconnect}

pub data Call : Type 0 where
  opened : ℕ → Call
  closed : ℕ → Call
  -- Looper::addFd and Looper::removeFd.
  add_fd : ℕ → Call
  remove_fd : ℕ → Call
  sent : ℕ → List ℕ → Call

pub record Client : Type 0 where
  pub fd : Option ℕ
  pub status : Status
  pub is_auth : Bool
  pub recv_bytes : List ℕ
  pub last_rcv_time : ℕ
  pub last_snd_time : ℕ
  pub calls : List Call

abbrev pub len_4k : ℕ
len_4k = 4096

abbrev pub time_out : ℕ
time_out = 30000

unfoldable pub init_data : Client
init_data = record {
  fd = none;
  status = st_disconnect;
  is_auth = false;
  recv_bytes = [];
  last_rcv_time = 0;
  last_snd_time = 0;
  calls = [];
}

unfoldable pub close_fd : Client → Client
close_fd c = elim c.fd [
  | none ↦ c
  | some fd ↦ record c { fd = none; calls = closed fd ∷ remove_fd fd ∷ c.calls }
]

unfoldable pub on_status_change : Client → Client
on_status_change c = elim c.status [
  | st_disconnect ↦ close_fd (record c { recv_bytes = [] })
  | _ ↦ c
]

-- getRecvSpace() is 0 in these classes, so the looper watches the descriptor.
unfoldable pub set_fd : Client → ℕ → ℕ → Client
unfolding on_status_change
set_fd c zero now = c
set_fd c (suc n) now = on_status_change (record c {
  fd = some (suc n);
  status = st_connected;
  calls = add_fd (suc n) ∷ c.calls;
  last_rcv_time = now;
  last_snd_time = now;
})

unfoldable pub is_conn : Client → Bool
is_conn c = elim c.status [ st_connected ↦ true | _ ↦ false ]

-- The default, for an `out_time` of 0, is TIME_OUT.
unfoldable pub is_timeout : Client → ℕ → ℕ → Bool
is_timeout c out_time now =
    let limit = if out_time == 0 then time_out else out_time in
    ltb (c.last_rcv_time + limit) now || ltb (c.last_snd_time + limit) now

-- The bytes go out if the connection stands; otherwise the result is -1, here `false`.
unfoldable pub send_data : Client → List ℕ → ℕ → Client × Bool
send_data c bytes now = elim c.status [
  | st_connected ↦ (elim c.fd [
    | some fd ↦ (record c { last_snd_time = now; calls = sent fd bytes ∷ c.calls }, true)
    | none ↦ (record c { last_snd_time = now }, true)
  ])
  | _ ↦ (c, false)
]

-- What recv gives: the bytes that have come, of which it takes what there is room for, and whether
-- errno is ENOENT afterwards, which is looked at when recv gives none.
pub record Incoming : Type 0 where
  pub bytes : List ℕ
  pub is_enoent : Bool

unfoldable pub free_len : Client → ℕ
free_len c = len_4k - length c.recv_bytes

unfoldable pub read_data : Client → Incoming → ℕ → Client × ℕ
unfolding free_len
read_data c incoming now =
    let got = take (free_len c) incoming.bytes in
    if length got == 0
    then (c, 0)
    else (record c { recv_bytes = c.recv_bytes ++ got; last_rcv_time = now }, length got)

-- mStatus = ST_DISCONNECT; onStatusChange();
unfoldable pub disconnect : Client → Client
unfolding on_status_change
disconnect c = on_status_change (record c { status = st_disconnect })

-- A round of the loop in handleEvent. The virtual onRecvData gives the state and a count, `none` for
-- a negative one. The round ends the call, with whether the connection stays, or asks for another.
unfoldable pub read_round :
    (Client → Client × Option ℕ) → Client → Incoming → ℕ → Client × Option Bool
unfolding disconnect read_data free_len
read_round on_recv_data c incoming now =
    let free = free_len c in
    let (c', len) = read_data c incoming now in
    let (c'', deal_count) = on_recv_data c' in
    if len == 0
    then (if incoming.is_enoent then (disconnect c', some false) else (c', some true))
    else elim deal_count [
      | none ↦ (disconnect c'', some false)
      | some count ↦
          (if ltb len free
            then (c'', some true)
            else if ltb 0 count
            then (c'', some true)
            else (c'', none))
    ]

-- The loop over the answers of recv, counted from `round`; `none` when the fuel runs out.
unfoldable pub read_loop :
    (Client → Client × Option ℕ) → (ℕ → Incoming) → ℕ → ℕ → ℕ → Client → Option (Client × Bool)
read_loop on_recv_data incoming now zero round c = none
read_loop on_recv_data incoming now (suc fuel) round c =
    let (d, verdict) = read_round on_recv_data c (incoming round) now in
    let again = read_loop on_recv_data incoming now fuel (suc round) d in
    elim verdict [ none ↦ again | some stays ↦ some (d, stays) ]
