-- ===== src/ConnMgr/Wire.antt =====
-- From the control bytes to the serial line.
use cdroid_demo.Common.{
  ℕ, ◌+◌, ◌≤◌, ◌<◌, ◌≡◌, refl, sym, ap, ◌∙◌, subst, ◌⊎◌, inl, inr, true, List, [], ◌∷◌, ◌++◌,
  length, arith,
}
use cdroid_demo.Crc.{crc16_modbus}
use cdroid_demo.Frame.{BuffData, bt_mcu}
use cdroid_demo.PacketBuffer.{obtain, new_buffer}
use cdroid_demo.PacketBuffer.Pooling.{IsClean, obtain_lem, new_buffer_mcu}
use cdroid_demo.UartClient.{UartClient, uart_send, is_conn, on_tick}
use cdroid_demo.UartClient.Sending.{IsQueue, IsFull, send_empty, send-events, is_conn_same}
use cdroid_demo.UartClient.Ticking.{Sends, on_tick-Sends, on_tick_idle}
use cdroid_demo.ConnMgr.{ConnMgr, control_frame, send2mcu, handle_events}
use cdroid_demo.ConnMgr.Control.{Carries, Carries-take, control_frame-Carries}

-- One frame has left between `c` and `d`, and it carries the control bytes `snd`.
pub record OnWire (c d : UartClient) (snd : List ℕ) : Type 0 where
  pub bytes : List ℕ
  pub event : d.events ≡ c.events ++ uart_send bytes ∷ []
  pub whole : length bytes ≡ 32
  pub residue : crc16_modbus bytes ≡ 0
  pub carries : Carries snd bytes

pub due_events :
    (c : ConnMgr) (now : ℕ)
    → (0 < c.set_data_count) ⊎ (c.last_send_time + 1000 ≤ now)
    → handle_events c now ≡ send2mcu (record c { uart = on_tick c.uart now }) now
unfolding handle_events
due_events c now (inl h) = ground arith
due_events c now (inr h) = ground arith

abbrev pub pooled : UartClient → UartClient
pooled u = record u { packet_buff = (obtain u.packet_buff).1 }

abbrev pub frame_of : ConnMgr → BuffData
frame_of c = control_frame c.snd_data (obtain c.uart.packet_buff).0

send2mcu-events : (c : ConnMgr) (now : ℕ) → (send2mcu c now).uart.events ≡ c.uart.events
unfolding send2mcu
send2mcu-events c now = send-events (pooled c.uart) (frame_of c)

handle_events-events :
    (c : ConnMgr) (now : ℕ) → (handle_events c now).uart.events ≡ (on_tick c.uart now).events
unfolding handle_events
handle_events-events c now =
    ground (arith, send2mcu-events (record c { uart = on_tick c.uart now }) now)

-- The frame that is sent is full and carries the control bytes.
pub frame_of-Carries :
    (c : ConnMgr)
    → IsClean c.uart.packet_buff
    → c.uart.packet_buff.type ≡ bt_mcu
    → IsFull (frame_of c) × Carries c.snd_data (frame_of c).buf
frame_of-Carries c clean t = ((frame.0, frame.1), frame.2)
  where
    new : (obtain c.uart.packet_buff).0 ≡ new_buffer bt_mcu
    new = (obtain_lem c.uart.packet_buff clean).0 ∙ ap new_buffer t

    frame :
        ((frame_of c).len ≡ 32)
        × (length (frame_of c).buf ≡ 32)
        × Carries c.snd_data (frame_of c).buf
    frame =
        control_frame-Carries c.snd_data (obtain c.uart.packet_buff).0
          (ap (λ (b : BuffData). b.len) new ∙ new_buffer_mcu.2)
          (ap (λ (b : BuffData). length b.buf) new ∙ ap length new_buffer_mcu.3)

-- What is queued where nothing else is.
send2mcu_queued :
    (c : ConnMgr) (now : ℕ)
    → is_conn c.uart ≡ true
    → c.uart.send_queue ≡ []
    → (send2mcu c now).uart ≡ record (pooled c.uart) { send_queue = frame_of c ∷ [] }
unfolding send2mcu
send2mcu_queued c now on e =
    ap (λ r. r.0)
      (send_empty (pooled c.uart) (frame_of c) (is_conn_same (pooled c.uart) c.uart refl ∙ on) e)

-- Where the client is connected, nothing is queued and a command has been given, or a second has
-- passed since the last frame, one handling of events and another, later one that comes at least
-- 100 ms after the last sending put a frame of 32 bytes on the line that carries the control
-- bytes, and nothing else.
pub handle_events-OnWire :
    (c : ConnMgr) (now later : ℕ)
    → IsQueue c.uart
    → c.uart.packet_buff.type ≡ bt_mcu
    → is_conn c.uart ≡ true
    → c.uart.send_queue ≡ []
    → (0 < c.set_data_count) ⊎ (c.last_send_time + 1000 ≤ now)
    → c.uart.last_send_time + 100 ≤ later
    → OnWire c.uart (handle_events (handle_events c now) later).uart c.snd_data
handle_events-OnWire c now later q t on e due h =
    rw (due_events c now due, on_tick_idle c.uart now (inr e))
      (record {
        bytes = s.bytes;
        event =
            handle_events-events (send2mcu c now) later
            ∙ s.event
            ∙ ap (λ l. l ++ uart_send s.bytes ∷ []) (send2mcu-events c now);
        whole = s.whole;
        residue = s.residue;
        carries = Carries-take c.snd_data s.bytes (frame_of c).buf s.contents f.1;
      })
  where
    u : UartClient
    u = record (pooled c.uart) { send_queue = frame_of c ∷ [] }

    queued_one : (send2mcu c now).uart ≡ u
    queued_one = send2mcu_queued c now on e

    f : IsFull (frame_of c) × Carries c.snd_data (frame_of c).buf
    f = frame_of-Carries c q.clean t

    given :
        ((obtain c.uart.packet_buff).0 ≡ new_buffer c.uart.packet_buff.type)
        × IsClean (obtain c.uart.packet_buff).1
        × ((obtain c.uart.packet_buff).1.type ≡ c.uart.packet_buff.type)
    given = obtain_lem c.uart.packet_buff q.clean

    s : Sends (send2mcu c now).uart (on_tick (send2mcu c now).uart later) later (frame_of c) []
    s =
        subst (λ v. Sends v (on_tick v later) later (frame_of c) []) (sym queued_one)
          (on_tick-Sends u later (frame_of c) [] (given.2 ∙ t) (f.0, tt) refl h)
