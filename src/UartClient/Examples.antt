-- ===== src/UartClient/Examples.antt =====
-- A client of src/protocol/uart_client.cc at concrete frames, and its properties.
use cdroid_demo.Common.{
  leb, if◌then◌else◌, ℕ, ◌+◌, ◌≤◌, ◌≡◌, refl, ap, List, [], ◌∷◌, ◌++◌, arith, length, replicate,
  take,
}
use cdroid_demo.Frame.{BuffData, bt_mcu}
use cdroid_demo.Frame.Receive.{byte_sum}
use cdroid_demo.PacketBuffer.{PacketBuffer, new_buffer, buffer_len, obtain, take_buffer}
use cdroid_demo.PacketBuffer.Mcu.{in_use}
use cdroid_demo.UartClient.{
  handle_event, handle_events, received, UartClient, create, send, on_tick, on_uart_data,
  st_connected,
}
use cdroid_demo.UartClient.Receiving.{IsReady, on_uart_data-IsReady}
use cdroid_demo.UartClient.Reassembly.{feed, all_bytes, feed-Handled}
use cdroid_demo.UartClient.Reassembly.Chunks.{IsFrame}
use cdroid_demo.UartClient.Reassembly.Handling.{Handled}
use cdroid_demo.UartClient.Reading.{handle_event-once}
use cdroid_demo.UartClient.Coalesced.{second_frame_lost}
use cdroid_demo.UartClient.Sending.{IsFull, IsQueue, IsSent, send-IsQueue, create-IsReady}
use cdroid_demo.UartClient.Ticking.{Sends, on_tick-Sends}

abbrev empty_pool : PacketBuffer
empty_pool = record { type = bt_mcu; buffs = [] }

-- A client at the time 0, connected.
abbrev client : UartClient
client = record (create empty_pool 0 0) { status = st_connected }

created : IsReady (create empty_pool 0 0) × IsQueue (create empty_pool 0 0)
created = create-IsReady empty_pool 0 0 tt refl

client-IsReady : IsReady client
client-IsReady = record {
  type = created.0.type;
  curr = created.0.curr;
  settled = created.0.settled;
  short = created.0.short;
  last = created.0.last;
}

client-IsQueue : IsQueue client
client-IsQueue = record {
  full = created.1.full;
  no_repeat = created.1.no_repeat;
  clean = created.1.clean;
}

client_empty :
    (client.curr_recv.len ≡ 0)
    × (client.send_queue ≡ [])
    × (client.recv_bytes ≡ [])
    × (client.packet_buff.type ≡ bt_mcu)
    × (client.last_send_time ≡ 0)
    × (client.curr_recv.buf ≡ replicate 32 0)
unfolding create obtain take_buffer new_buffer buffer_len
client_empty = (refl, refl, refl, refl, refl, refl)

-- A frame with a key, and its two halves.
abbrev front_half : List ℕ
front_half = 0x02 ∷ 0x10 ∷ 1 ∷ 25 ∷ 8 ∷ 90 ∷ 0 ∷ 4 ∷ []

abbrev back_half : List ℕ
back_half = 0 ∷ 9 ∷ 80 ∷ 70 ∷ 0 ∷ 0 ∷ 0 ∷ 49 ∷ []

abbrev frame : List ℕ
frame = front_half ++ back_half

abbrev halves : List (List ℕ × ℕ)
halves = (front_half, 10) ∷ ([], 20) ∷ (back_half, 30) ∷ []

frame-IsFrame : IsFrame frame
unfolding byte_sum
frame-IsFrame = record { whole = refl; starts = (refl, refl); summed = refl }

nothing_held : in_use client.curr_recv ++ all_bytes halves ≡ frame
unfolding all_bytes
nothing_held =
    ap (λ n. take n client.curr_recv.buf ++ (front_half ++ ([] ++ (back_half ++ []))))
      client_empty.0

feed-Handled_example : Handled client (feed client halves) frame
feed-Handled_example =
    feed-Handled client halves frame client-IsReady client_empty.2 nothing_held frame-IsFrame

on_uart_data-IsReady_example :
    IsReady (on_uart_data client (7 ∷ frame) 10).0 × ((on_uart_data client (7 ∷ frame) 10).1 ≡ [])
on_uart_data-IsReady_example = on_uart_data-IsReady client (7 ∷ frame) 10 client-IsReady

second_frame_lost_example :
    ((on_uart_data client (frame ++ frame) 10).0.recv_count ≡ client.recv_count + 1)
    × (length (on_uart_data client (frame ++ frame) 10).0.events ≤ length client.events + 1)
    × ((on_uart_data client (frame ++ frame) 10).0.curr_recv.len ≡ 0)
    × ((on_uart_data client (frame ++ frame) 10).1 ≡ [])
second_frame_lost_example =
    second_frame_lost client frame frame 10 client-IsReady client_empty.0 frame-IsFrame
      frame-IsFrame

-- A full frame, and the client with it in its queue.
abbrev ask : BuffData
ask = record { type = bt_mcu; slen = 32; len = 32; buf = 0x02 ∷ replicate 31 0 }

ask-IsFull : IsFull ask
ask-IsFull = (refl, refl)

send-IsQueue_example :
    IsQueue (send client ask).0 × IsSent client ask (send client ask).0 (send client ask).1
send-IsQueue_example = send-IsQueue client ask client-IsQueue ask-IsFull

abbrev loaded : UartClient
loaded = record client { send_queue = ask ∷ [] }

on_tick-Sends_example : Sends loaded (on_tick loaded 100) 100 ask []
on_tick-Sends_example =
    on_tick-Sends loaded 100 ask [] client_empty.3 (ask-IsFull, tt) refl
      (omega (arith, client_empty.4))

handle_event-once_example : handle_event client (received (7 ∷ front_half) ∷ []) 6000 ≡ (
    if leb (client.last_recv_time + client.recv_space) 6000
    then (handle_events (record client { last_recv_time = 6000 }) (7 ∷ front_half) 6000).0
    else client)
handle_event-once_example =
    handle_event-once client 7 front_half [] 6000 client_empty.2 (omega arith)
