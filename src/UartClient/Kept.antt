-- ===== src/UartClient/Kept.antt =====
-- Receiving leaves what is to be sent: the queue and the pool.
use cdroid_demo.Common.{ℕ, suc, zero, ◌≡◌, refl, ◌∙◌, List, [], ◌∷◌, arith, drop, length}
use cdroid_demo.PacketBuffer.{add}
use cdroid_demo.UartClient.{
  UartClient, deal_frame, deal_checked, deliver, check_deal_data, clear_curr, count_recv,
  uart_data_loop, on_uart_data, on_recv_data, read_data, RecvResult, received, failed, handle_event,
}
use cdroid_demo.UartClient.Sending.{IsQueue}

abbrev Keeps : UartClient → UartClient → Type 0
Keeps c d = (d.send_queue ≡ c.send_queue) × (d.packet_buff ≡ c.packet_buff)

Keeps-trans : (c d e : UartClient) → Keeps c d → Keeps d e → Keeps c e
Keeps-trans c d e h k = (k.0 ∙ h.0, k.1 ∙ h.1)

deliver-Keeps : (c : UartClient) → Keeps c (deliver c)
unfolding deliver
deliver-Keeps c = (refl, refl)

deal_checked-Keeps : (c : UartClient) (now : ℕ) → Keeps c (deal_checked c now)
unfolding deal_checked check_deal_data
deal_checked-Keeps c now = ground (arith, deliver-Keeps c, deliver-Keeps (check_deal_data c now))

deal_frame-Keeps : (c : UartClient) (now : ℕ) → Keeps c (deal_frame c now)
unfolding deal_frame
deal_frame-Keeps c now = ground (arith, deal_checked-Keeps (record c { chk_err_count = 0 }) now)

uart_data_loop-Keeps :
    (fuel : ℕ) (c : UartClient) (rest : List ℕ) (now : ℕ)
    → Keeps c (uart_data_loop fuel c rest now).0
unfolding uart_data_loop clear_curr
uart_data_loop-Keeps zero c rest now = (refl, refl)
uart_data_loop-Keeps (suc fuel) c rest now = ground (
  arith,
  deal_frame-Keeps counted now,
  uart_data_loop-Keeps fuel (clear_curr (deal_frame counted now))
      (drop (add c.curr_recv c.packet_buff.type rest).1 rest) now,
)
  where
    counted : UartClient
    counted = count_recv (record c { curr_recv = (add c.curr_recv c.packet_buff.type rest).0 })

on_recv_data-Keeps : (c : UartClient) (now : ℕ) → Keeps c (on_recv_data c now).0
unfolding on_recv_data on_uart_data
on_recv_data-Keeps c now = uart_data_loop-Keeps (suc (length c.recv_bytes)) c c.recv_bytes now

read_data-Keeps : (c : UartClient) (input : List ℕ) (now : ℕ) → Keeps c (read_data c input now).0
unfolding read_data
read_data-Keeps c input now = ground arith

handled-Keeps :
    (c : UartClient) (input : List ℕ) (now : ℕ)
    → Keeps c (on_recv_data (read_data c input now).0 now).0
handled-Keeps c input now =
    Keeps-trans c (read_data c input now).0 (on_recv_data (read_data c input now).0 now).0
      (read_data-Keeps c input now) (on_recv_data-Keeps (read_data c input now).0 now)

handle_event-Keeps :
    (c : UartClient) (reads : List RecvResult) (now : ℕ) → Keeps c (handle_event c reads now)
unfolding handle_event
handle_event-Keeps c [] now = ground (arith, read_data-Keeps c [] now, handled-Keeps c [] now)
handle_event-Keeps c (failed enoent ∷ reads) now =
    ground (arith, read_data-Keeps c [] now, handled-Keeps c [] now)
handle_event-Keeps c (received input ∷ reads) now = ground (
  arith,
  read_data-Keeps c input now,
  handled-Keeps c input now,
  handle_event-Keeps (on_recv_data (read_data c input now).0 now).0 reads now,
)

pub handle_event-IsQueue :
    (c : UartClient) (reads : List RecvResult) (now : ℕ)
    → IsQueue c
    → IsQueue (handle_event c reads now) × ((handle_event c reads now).packet_buff ≡ c.packet_buff)
handle_event-IsQueue c reads now q = ground (arith, q, handle_event-Keeps c reads now)
