-- ===== src/UartClient/Sending.antt =====
-- The send queue: what is sent, when, and in which order.
use cdroid_demo.Common.{
  Bool, ℕ, ◌≡◌, refl, sym, ap, ◌∙◌, subst, inl, inr, true, false, List, [], ◌∷◌, ◌++◌, Option,
  length, arith, length-take, All, All-append, Bool-cases,
}
use cdroid_demo.Frame.{BuffData, BufferType, bt_mcu}
use cdroid_demo.PacketBuffer.{PacketBuffer, compare, recycle, obtain, new_buffer}
use cdroid_demo.PacketBuffer.Pooling.{IsClean, recycle-IsClean, obtain_lem, new_buffer_mcu}
use cdroid_demo.UartClient
use cdroid_demo.UartClient.{
  UartClient, set_product_callback, create, send, SendResult, queued, same_package, not_connected,
  any_same, is_conn,
}
use cdroid_demo.UartClient.Receiving.{IsReady}

-- A full frame for the main board.
abbrev pub IsFull : BuffData → Type 0
IsFull bf = (bf.len ≡ 32) × (length bf.buf ≡ 32)

-- No frame in the queue is the same as one before it.
abbrev pub NoRepeat : BufferType → List BuffData → Type 0
NoRepeat t [] = Unit
NoRepeat t (x ∷ xs) = All (λ y. compare t y x ≡ false) xs × NoRepeat t xs

NoRepeat-snoc :
    (p : PacketBuffer) (ask : BuffData) (xs : List BuffData)
    → any_same p ask xs ≡ false
    → NoRepeat p.type xs
    → NoRepeat p.type (xs ++ ask ∷ [])
unfolding any_same
NoRepeat-snoc p ask [] h n = (tt, tt)
NoRepeat-snoc p ask (x ∷ xs) h n = (
  All-append (λ y. compare p.type y x ≡ false) xs (ask ∷ []) n.0 (ground arith, tt),
  NoRepeat-snoc p ask xs (ground arith) n.1,
)

-- What the queue keeps to.
pub record IsQueue (c : UartClient) : Type 0 where
  pub full : All IsFull c.send_queue
  pub no_repeat : NoRepeat c.packet_buff.type c.send_queue
  pub clean : IsClean c.packet_buff

recycled-IsQueue :
    (c : UartClient) (bf : BuffData)
    → IsQueue c
    → IsQueue (record c { packet_buff = recycle c.packet_buff bf })
recycled-IsQueue c bf q =
    let back = recycle-IsClean c.packet_buff bf q.clean in
    record {
      full = q.full;
      no_repeat = subst (λ t. NoRepeat t c.send_queue) (sym back.1) q.no_repeat;
      clean = back.0;
    }

-- A frame of the queue that `ask` is the same as, with those before and behind it.
abbrev pub HasSame : BufferType → BuffData → List BuffData → Type 0
HasSame t ask queue =
    (front : List BuffData) × (dst : BuffData) × (rest : List BuffData) × (queue
      ≡ front ++ dst ∷ rest)
    × (compare t ask dst ≡ true)

any_same-HasSame :
    (p : PacketBuffer) (ask : BuffData) (queue : List BuffData)
    → any_same p ask queue ≡ true
    → HasSame p.type ask queue
unfolding any_same
any_same-HasSame p ask [] h = absurd (ground (arith, h))
any_same-HasSame p ask (x ∷ xs) h = elim (Bool-cases (compare p.type ask x)) [
  | inl e ↦ ([], x, xs, refl, e)
  | inr e ↦
      (let (front, dst, rest, f, g) = any_same-HasSame p ask xs (ground (arith, e, h)) in
        (x ∷ front, dst, rest, ap (◌∷◌ x) f, g))
]

any_same-fresh :
    (p : PacketBuffer) (ask : BuffData) (queue : List BuffData)
    → any_same p ask queue ≡ false
    → All (λ dst. compare p.type ask dst ≡ false) queue
unfolding any_same
any_same-fresh p ask [] h = tt
any_same-fresh p ask (x ∷ xs) h = (ground (arith, h), any_same-fresh p ask xs (ground (arith, h)))

-- What `send` answers, on a connected client or one that is not, and what it does then.
abbrev pub IsSent : UartClient → BuffData → UartClient → SendResult → Type 0
IsSent c ask d queued =
    (is_conn c ≡ true)
    × All (λ dst. compare c.packet_buff.type ask dst ≡ false) c.send_queue
    × (d ≡ record c { send_queue = c.send_queue ++ ask ∷ [] })
IsSent c ask d same_package =
    (is_conn c ≡ true)
    × HasSame c.packet_buff.type ask c.send_queue
    × (d ≡ record c { packet_buff = recycle c.packet_buff ask })
IsSent c ask d not_connected =
    (is_conn c ≡ false) × (d ≡ record c { packet_buff = recycle c.packet_buff ask })

-- `send` keeps the queue in order for a full frame. It answers that the frame is queued where the client
-- is connected and the frame is the same as none in the queue, and puts it behind the others; that
-- there is the same package where the client is connected and a frame of the queue is the same; and
-- else that the client is not connected. In the last two cases the frame goes back to the pool. Nothing
-- else changes.
pub send-IsQueue :
    (c : UartClient) (ask : BuffData)
    → IsQueue c
    → IsFull ask
    → IsQueue (send c ask).0 × IsSent c ask (send c ask).0 (send c ask).1
unfolding send
send-IsQueue c ask q f = elim (Bool-cases (is_conn c)) [
  | inr off ↦ rw off (recycled-IsQueue c ask q, (off, refl))
  | inl on ↦ elim (Bool-cases (any_same c.packet_buff ask c.send_queue)) [
    | inl same ↦
        rw (on, same)
          (
            recycled-IsQueue c ask q,
            (on, any_same-HasSame c.packet_buff ask c.send_queue same, refl),
          )
    | inr fresh ↦
        rw (on, fresh)
          (
            record {
              full = All-append IsFull c.send_queue (ask ∷ []) q.full (f, tt);
              no_repeat = NoRepeat-snoc c.packet_buff ask c.send_queue fresh q.no_repeat;
              clean = q.clean;
            },
            (on, any_same-fresh c.packet_buff ask c.send_queue fresh, refl),
          )
  ]
]

-- Only the status decides whether a client is connected.
pub is_conn_same : (c d : UartClient) → c.status ≡ d.status → is_conn c ≡ is_conn d
unfolding is_conn
is_conn_same c d e = rw e

-- To an empty queue of a connected client.
pub send_empty :
    (c : UartClient) (ask : BuffData)
    → is_conn c ≡ true
    → c.send_queue ≡ []
    → send c ask ≡ (record c { send_queue = ask ∷ [] }, queued)
unfolding send any_same
send_empty c ask on e = rw (on, e)

-- Nothing leaves the client when a frame is queued.
pub send-events : (c : UartClient) (ask : BuffData) → (send c ask).0.events ≡ c.events
unfolding send
send-events c ask = ground arith

-- A new client of a clean pool for the main board is ready to receive, and its queue is in order.
pub create-IsReady :
    (p : PacketBuffer) (recv_space now : ℕ)
    → IsClean p
    → p.type ≡ bt_mcu
    → IsReady (create p recv_space now) × IsQueue (create p recv_space now)
unfolding create
create-IsReady p recv_space now h t = (
  record {
    type = types;
    curr = (size curr, omega (arith, used curr));
    settled = inr (
        omega
          (arith, used curr, length-take (obtain (obtain p).1).0.len (obtain (obtain p).1).0.buf));
    short = omega (arith, used curr);
    last = size last;
  },
  record { full = tt; no_repeat = tt; clean = second.1 },
)
  where
    first : ((obtain p).0 ≡ new_buffer p.type) × IsClean (obtain p).1 × ((obtain p).1.type ≡ p.type)
    first = obtain_lem p h

    second :
        ((obtain (obtain p).1).0 ≡ new_buffer (obtain p).1.type)
        × IsClean (obtain (obtain p).1).1
        × ((obtain (obtain p).1).1.type ≡ (obtain p).1.type)
    second = obtain_lem (obtain p).1 first.1

    types : (obtain (obtain p).1).1.type ≡ bt_mcu
    types = second.2 ∙ first.2 ∙ t

    last : (obtain p).0 ≡ new_buffer bt_mcu
    last = first.0 ∙ ap new_buffer t

    curr : (obtain (obtain p).1).0 ≡ new_buffer bt_mcu
    curr = second.0 ∙ ap new_buffer (first.2 ∙ t)

    size : {bf : BuffData} → bf ≡ new_buffer bt_mcu → length bf.buf ≡ 32
    size e = ap (λ (b : BuffData). length b.buf) e ∙ ap length new_buffer_mcu.3

    used : {bf : BuffData} → bf ≡ new_buffer bt_mcu → bf.len ≡ 0
    used e = ap (λ (b : BuffData). b.len) e ∙ new_buffer_mcu.2

pub set_product_callback-IsQueue :
    (c : UartClient) (on : Bool)
    → IsQueue c
    → IsQueue (set_product_callback c on)
      × ((set_product_callback c on).packet_buff ≡ c.packet_buff)
unfolding set_product_callback
set_product_callback-IsQueue c on q =
    (record { full = q.full; no_repeat = q.no_repeat; clean = q.clean }, refl)

-- `send` leaves the type of the pool.
pub send-type :
    (c : UartClient) (ask : BuffData)
    → IsQueue c
    → (send c ask).0.packet_buff.type ≡ c.packet_buff.type
unfolding send
send-type c ask q = ground (arith, recycle-IsClean c.packet_buff ask q.clean)

-- Opening the port changes the status alone.
pub init-IsQueue :
    (c : UartClient) (opened : Option ℕ) (is_set : Bool)
    → IsQueue c
    → IsQueue (UartClient.init c opened is_set).0
      × ((UartClient.init c opened is_set).0.packet_buff ≡ c.packet_buff)
unfolding UartClient.init
init-IsQueue c opened is_set q = ground (arith, q)
