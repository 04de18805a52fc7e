-- ===== src/UartClient/Reassembly/Chunks.antt =====
-- One chunk that is added to the bytes in use: it completes a frame, or it does not.
use cdroid_demo.Common.{
  ℕ, suc, ◌≤◌, ◌<◌, ◌≡◌, sym, ap, ◌∙◌, subst, inl, inr, true, false, List, [], ◌∷◌, ◌++◌, length,
  arith, Bool-cases, length-append, drop_all,
}
use cdroid_demo.Frame.{BuffData, bt_mcu}
use cdroid_demo.Frame.Receive.Chunks.{mcu_stream_add-append}
use cdroid_demo.Frame.Receive.Frames.{IsSummed}
use cdroid_demo.Frame.Receive.Refine.{mcu_stream_add}
use cdroid_demo.Frame.Receive.Progress.{Starts, Settled}
use cdroid_demo.PacketBuffer.{add, complete}
use cdroid_demo.PacketBuffer.Mcu.{IsMcu, in_use, length-in_use, add-stream, complete_iff}
use cdroid_demo.UartClient.{UartClient, deal_frame, clear_curr, count_recv, on_uart_data}
use cdroid_demo.UartClient.Receiving.{
  IsReady, added, with_curr, round_complete, round_incomplete, loop_done,
}

-- A valid frame of the main board.
pub record IsFrame (frame : List ℕ) : Type 0 where
  pub whole : length frame ≡ 16
  pub starts : Starts frame
  pub summed : IsSummed frame

-- Bytes that fit the buffer behind those in use.
pub record Grows (c : UartClient) (w : List ℕ) (r : BuffData × ℕ) (input : List ℕ) : Type 0 where
  pub sized : IsMcu r.0
  pub holds : in_use r.0 ≡ w
  pub taken : r.1 ≡ length input

added-Grows :
    (c : UartClient) (input : List ℕ)
    → IsReady c
    → length (in_use c.curr_recv ++ input) ≤ 32
    → Settled (in_use c.curr_recv ++ input)
    → Grows c (in_use c.curr_recv ++ input) (added c input) input
added-Grows c input v h st =
    subst (λ t. Grows c (in_use c.curr_recv ++ input) (add c.curr_recv t input) input) (sym v.type)
      (record { sized = s.0; holds = s.1 ∙ ap (λ r. r.0) whole; taken = s.2 ∙ ap (λ r. r.1) whole })
  where
    s :
        IsMcu (add c.curr_recv bt_mcu input).0
        × (in_use (add c.curr_recv bt_mcu input).0 ≡ (mcu_stream_add (in_use c.curr_recv) input).0)
        × ((add c.curr_recv bt_mcu input).1 ≡ (mcu_stream_add (in_use c.curr_recv) input).1)
    s = add-stream c.curr_recv input v.curr

    whole : mcu_stream_add (in_use c.curr_recv) input ≡ (in_use c.curr_recv ++ input, length input)
    whole =
        mcu_stream_add-append (in_use c.curr_recv) input
          (omega (arith, length-append (in_use c.curr_recv) input)) st

-- A chunk that does not complete the frame only grows the bytes in use.
pub chunk_partial :
    (c : UartClient) (b : ℕ) (bytes : List ℕ) (now : ℕ)
    → IsReady c
    → length (in_use c.curr_recv ++ b ∷ bytes) < 16
    → Settled (in_use c.curr_recv ++ b ∷ bytes)
    → Grows c (in_use c.curr_recv ++ b ∷ bytes) (added c (b ∷ bytes)) (b ∷ bytes)
      × ((on_uart_data c (b ∷ bytes) now).0 ≡ with_curr c (added c (b ∷ bytes)).0)
unfolding on_uart_data
chunk_partial c b bytes now v h st =
    (g, ap (λ r. r.0) (round_incomplete (suc (length bytes)) c b bytes now inc))
  where
    g : Grows c (in_use c.curr_recv ++ b ∷ bytes) (added c (b ∷ bytes)) (b ∷ bytes)
    g = added-Grows c (b ∷ bytes) v (omega arith) st

    inc : complete c.packet_buff.type (added c (b ∷ bytes)).0 ≡ false
    inc = elim (Bool-cases (complete c.packet_buff.type (added c (b ∷ bytes)).0)) [
      | inr e ↦ e
      | inl e ↦ absurd (
          omega (
            arith,
            ap length g.holds,
            length-in_use (added c (b ∷ bytes)).0 g.sized,
            ((complete_iff (added c (b ∷ bytes)).0 g.sized).0
                (subst (λ t. complete t (added c (b ∷ bytes)).0 ≡ true) v.type e)).0,
          ))
    ]

-- A chunk that completes it hands the frame on.
pub chunk_complete :
    (c : UartClient) (b : ℕ) (bytes : List ℕ) (now : ℕ)
    → IsReady c
    → length (in_use c.curr_recv ++ b ∷ bytes) ≤ 32
    → 16 ≤ length (in_use c.curr_recv ++ b ∷ bytes)
    → Starts (in_use c.curr_recv ++ b ∷ bytes)
    → Grows c (in_use c.curr_recv ++ b ∷ bytes) (added c (b ∷ bytes)) (b ∷ bytes)
      × (on_uart_data c (b ∷ bytes) now
          ≡ (clear_curr (deal_frame (count_recv (with_curr c (added c (b ∷ bytes)).0)) now), []))
unfolding on_uart_data
chunk_complete c b bytes now v h long st = (
  g,
  round_complete (suc (length bytes)) c b bytes now done
      ∙ rw (drop_all (added c (b ∷ bytes)).1 (b ∷ bytes) (omega (arith, g.taken))) (
          loop_done (suc (length bytes))
            (clear_curr (deal_frame (count_recv (with_curr c (added c (b ∷ bytes)).0)) now)) now),
)
  where
    g : Grows c (in_use c.curr_recv ++ b ∷ bytes) (added c (b ∷ bytes)) (b ∷ bytes)
    g = added-Grows c (b ∷ bytes) v h (inl st)

    done : complete c.packet_buff.type (added c (b ∷ bytes)).0 ≡ true
    done =
        subst (λ t. complete t (added c (b ∷ bytes)).0 ≡ true) (sym v.type)
          ((complete_iff (added c (b ∷ bytes)).0 g.sized).1 (
            omega (arith, ap length g.holds, length-in_use (added c (b ∷ bytes)).0 g.sized),
            rw g.holds st,
          ))
