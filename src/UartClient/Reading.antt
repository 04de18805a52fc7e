-- ===== src/UartClient/Reading.antt =====
-- The two ways in which bytes are read: from the looper's callback and from the event handler.
use cdroid_demo.Common.{
  leb, Bool-cases, inl, inr, ℕ, suc, ◌+◌, ◌≤◌, ◌<◌, ◌≡◌, sym, ap, ◌∙◌, List, [], ◌∷◌, ◌++◌, length,
  arith, if◌then◌else◌,
}
use cdroid_demo.UartClient.{
  UartClient, RecvResult, received, read_data, on_recv_data, handle_event, handle_events,
  on_uart_data, uart_data_loop,
}

read_data_due :
    (c : UartClient) (b : ℕ) (bytes : List ℕ) (now : ℕ)
    → c.last_recv_time + c.recv_space ≤ now
    → read_data c (b ∷ bytes) now ≡ (
      record c { last_recv_time = now; recv_bytes = c.recv_bytes ++ b ∷ bytes },
      suc (length bytes),
    )
unfolding read_data
read_data_due c b bytes now h = ground arith

read_data_early :
    (c : UartClient) (input : List ℕ) (now : ℕ)
    → now < c.last_recv_time + c.recv_space
    → read_data c input now ≡ (c, 1)
unfolding read_data
read_data_early c input now h = ground arith

-- Without bytes there is nothing to do.
on_recv_nothing : (c : UartClient) (now : ℕ) → c.recv_bytes ≡ [] → (on_recv_data c now).0 ≡ c
unfolding on_recv_data on_uart_data uart_data_loop
on_recv_nothing c now e =
    ap (λ l. record ((on_uart_data c l now).0) { recv_bytes = [] }) e
    ∙ ap (λ l. record c { recv_bytes = l }) (sym e)

-- Where nothing is left over, the port may be read and it answers fewer bytes than fit, the callback reads once and does
-- with them what the event handler does, whatever further reads would answer; before that time it
-- reads nothing and changes nothing.
pub handle_event-once :
    (c : UartClient) (b : ℕ) (bytes : List ℕ) (reads : List RecvResult) (now : ℕ)
    → c.recv_bytes ≡ []
    → length (b ∷ bytes) < 4096
    → handle_event c (received (b ∷ bytes) ∷ reads) now ≡ (
        if leb (c.last_recv_time + c.recv_space) now
        then (handle_events (record c { last_recv_time = now }) (b ∷ bytes) now).0
        else c)
unfolding handle_event handle_events
handle_event-once c b bytes reads now e fits =
    elim (Bool-cases (leb (c.last_recv_time + c.recv_space) now)) [
      | inl due ↦ rw (due, read_data_due c b bytes now (ground arith)) (ground (arith, ap length e))
      | inr early ↦
          rw (early, read_data_early c (b ∷ bytes) now (ground arith))
            (ground (arith, on_recv_nothing c now e, ap length e))
    ]
