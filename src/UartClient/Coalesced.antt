-- ===== src/UartClient/Coalesced.antt =====
-- Two frames that one read hands over together.
use cdroid_demo.Common.{
  ℕ, ◌+◌, ◌≤◌, ◌≡◌, refl, sym, ap, subst, ◌∙◌, List, [], ◌∷◌, [], ◌++◌, take, length, arith,
  length-append,
}
use cdroid_demo.Frame.Receive.Progress.{Starts, Starts-append}
use cdroid_demo.PacketBuffer.Mcu.{in_use}
use cdroid_demo.UartClient.{
  UartClient, callback, command, deliver, deal_checked, deal_frame, check_deal_data, clear_curr,
  on_uart_data,
}
use cdroid_demo.UartClient.Receiving.{IsReady}
use cdroid_demo.UartClient.Reassembly.Chunks.{IsFrame, chunk_complete}

deal_frame-count :
    (c : UartClient) (now : ℕ)
    → ((deal_frame c now).recv_count ≡ c.recv_count)
      × (length (deal_frame c now).events ≤ length c.events + 1)
unfolding deal_frame deal_checked check_deal_data deliver
deal_frame-count c now = ground (
  arith,
  length-append c.events (callback c.curr_recv ∷ []),
  length-append c.events (command c.curr_recv ∷ []),
)

-- Where two valid frames come in one chunk to an empty buffer, only one is counted and at most one
-- event comes of them; no byte is left over and the buffer is empty, so the second frame is lost.
pub second_frame_lost :
    (c : UartClient) (frame second : List ℕ) (now : ℕ)
    → IsReady c
    → c.curr_recv.len ≡ 0
    → IsFrame frame
    → IsFrame second
    → let r = on_uart_data c (frame ++ second) now in
      (r.0.recv_count ≡ c.recv_count + 1)
      × (length r.0.events ≤ length c.events + 1)
      × (r.0.curr_recv.len ≡ 0)
      × (r.1 ≡ [])
unfolding clear_curr
second_frame_lost c frame second now v e f g = go (frame ++ second) refl
  where
    empty : in_use c.curr_recv ≡ []
    empty = ap (λ n. take n c.curr_recv.buf) e

    go :
        (l : List ℕ)
        → l ≡ frame ++ second
        → let r = on_uart_data c l now in
          (r.0.recv_count ≡ c.recv_count + 1)
          × (length r.0.events ≤ length c.events + 1)
          × (r.0.curr_recv.len ≡ 0)
          × (r.1 ≡ [])
    go [] p = absurd (omega (arith, ap length p, length-append frame second, f.whole))
    go (b ∷ bytes) p =
        rw
          (chunk_complete c b bytes now v
            (omega (arith, ap length whole, length-append frame second, f.whole, g.whole))
            (omega (arith, ap length whole, length-append frame second, f.whole))
            (subst Starts (sym whole) (Starts-append frame second f.starts))).1
          ((deal_frame-count _ now).0, (deal_frame-count _ now).1, refl, refl)
      where
        whole : in_use c.curr_recv ++ b ∷ bytes ≡ frame ++ second
        whole = ap (λ l. l ++ b ∷ bytes) empty ∙ p
