-- ===== src/UartClient/Ticking.antt =====
-- A tick of the client: which frame leaves, and what is left.
use cdroid_demo.Common.{
  ℕ, ◌+◌, ◌-◌, ◌≤◌, ◌<◌, ◌≡◌, refl, sym, ap, ◌∙◌, subst, ◌⊎◌, inl, inr, true, false, List, [], ◌∷◌,
  ◌++◌, take, length, arith, leb, length-take, take-take, All, Bool-cases,
}
use cdroid_demo.Crc.{crc16_modbus}
use cdroid_demo.Frame.{BuffData, bt_mcu}
use cdroid_demo.Frame.Send.{checkcode_mcu}
use cdroid_demo.Frame.Send.Closing.{checkcode_mcu_lem, length-checkcode_mcu}
use cdroid_demo.PacketBuffer.{check_code}
use cdroid_demo.PacketBuffer.Mcu.{check_code_mcu}
use cdroid_demo.PacketBuffer.Pooling.{recycle-IsClean}
use cdroid_demo.UartClient.{UartClient, uart_send, send_trans, send_front, on_tick, send_space}
use cdroid_demo.UartClient.Sending.{IsFull, IsQueue, NoRepeat}

-- What a tick sends.
pub record Sends (c d : UartClient) (now : ℕ) (ask : BuffData) (rest : List BuffData) : Type 0 where
  pub bytes : List ℕ
  pub event : d.events ≡ c.events ++ uart_send bytes ∷ []
  pub whole : length bytes ≡ 32
  pub residue : crc16_modbus bytes ≡ 0
  pub contents : take 30 bytes ≡ take 30 ask.buf
  pub left : d.send_queue ≡ rest
  pub counted : d.send_count ≡ c.send_count + 1
  pub time : d.last_send_time ≡ now

front_sent :
    (c : UartClient) (now : ℕ) (ask : BuffData) (rest : List BuffData)
    → c.packet_buff.type ≡ bt_mcu
    → IsFull ask
    → Sends c (send_front c now (ask ∷ rest)) now ask rest
unfolding send_front send_trans
front_sent c now ask rest t f = record {
  bytes = take checked.len checked.buf;
  event = refl;
  whole = subst (λ b. length (take b.len b.buf) ≡ 32) (sym closed) size;
  residue =
      subst (λ b. crc16_modbus (take b.len b.buf) ≡ 0) (sym closed)
        (ap (λ n. crc16_modbus (take n (checkcode_mcu ask).buf)) lem.1 ∙ lem.0);
  contents =
      subst (λ b. take 30 (take b.len b.buf) ≡ take 30 ask.buf) (sym closed)
        (take-take 30 (checkcode_mcu ask).len (checkcode_mcu ask).buf (omega (arith, lem.1, f.0))
          ∙ subst (λ n. take n (checkcode_mcu ask).buf ≡ take n ask.buf) thirty lem.2);
  left = refl;
  counted = refl;
  time = refl;
}
  where
    checked : BuffData
    checked = check_code c.packet_buff.type ask

    closed : checked ≡ checkcode_mcu ask
    closed =
        subst (λ t. check_code t ask ≡ checkcode_mcu ask) (sym t)
          (check_code_mcu ask (omega (arith, f.0)))

    lem :
        (crc16_modbus (take ask.len (checkcode_mcu ask).buf) ≡ 0)
        × ((checkcode_mcu ask).len ≡ ask.len)
        × (take (ask.len - 2) (checkcode_mcu ask).buf ≡ take (ask.len - 2) ask.buf)
        × (checkcode_mcu (checkcode_mcu ask) ≡ checkcode_mcu ask)
    lem = checkcode_mcu_lem ask (omega (arith, f.0)) (omega (arith, f.0, f.1))

    thirty : ask.len - 2 ≡ 30
    thirty = omega (arith, f.0)

    size : length (take (checkcode_mcu ask).len (checkcode_mcu ask).buf) ≡ 32
    size = omega (
      arith,
      length-take (checkcode_mcu ask).len (checkcode_mcu ask).buf,
      length-checkcode_mcu ask,
      lem.1,
      f.0,
      f.1,
    )

-- Once 100 ms have passed since the last sending, a tick of a client for the main board sends the
-- oldest frame of the queue and no other: 32 bytes whose Modbus checksum over all of them is 0 and
-- whose first 30 are the frame's.
pub on_tick-Sends :
    (c : UartClient) (now : ℕ) (ask : BuffData) (rest : List BuffData)
    → c.packet_buff.type ≡ bt_mcu
    → All IsFull c.send_queue
    → c.send_queue ≡ ask ∷ rest
    → c.last_send_time + 100 ≤ now
    → Sends c (on_tick c now) now ask rest
unfolding on_tick
on_tick-Sends c now ask rest t full e h =
    let due : leb (c.last_send_time + send_space) now ≡ true = ground arith in
    rw due (
      subst (λ q. Sends c (send_front c now q) now ask rest) (sym e)
        (front_sent c now ask rest t (subst (All IsFull) e full).0))

-- Earlier than that, or with nothing queued, a tick changes nothing.
pub on_tick_idle :
    (c : UartClient) (now : ℕ)
    → (now < c.last_send_time + 100) ⊎ (c.send_queue ≡ [])
    → on_tick c now ≡ c
unfolding on_tick
on_tick_idle c now (inl early) =
    let late : leb (c.last_send_time + send_space) now ≡ false = ground arith in rw late
on_tick_idle c now (inr e) = elim (Bool-cases (leb (c.last_send_time + send_space) now)) [
  | inl due ↦ rw due (ap (send_front c now) e ∙ unfold send_front in refl)
  | inr late ↦ rw late
]

-- A tick keeps the queue in order.
pub on_tick-IsQueue :
    (c : UartClient) (now : ℕ)
    → IsQueue c
    → IsQueue (on_tick c now) × ((on_tick c now).packet_buff.type ≡ c.packet_buff.type)
unfolding on_tick send_front send_trans
on_tick-IsQueue c now q = elim (Bool-cases (leb (c.last_send_time + send_space) now)) [
  | inr late ↦ rw late (q, refl)
  | inl due ↦ rw due (front c.send_queue q.full q.no_repeat)
]
  where
    front :
        (queue : List BuffData)
        → All IsFull queue
        → NoRepeat c.packet_buff.type queue
        → IsQueue (send_front (record c { send_queue = queue }) now queue)
          × ((send_front (record c { send_queue = queue }) now queue).packet_buff.type
              ≡ c.packet_buff.type)
    front [] full apart = (record { full = tt; no_repeat = tt; clean = q.clean }, refl)
    front (ask ∷ queue) full apart =
        let back = recycle-IsClean c.packet_buff (check_code c.packet_buff.type ask) q.clean in
        (
          record {
            full = full.1;
            no_repeat = subst (λ t. NoRepeat t queue) (sym back.1) apart.1;
            clean = back.0;
          },
          back.1,
        )
