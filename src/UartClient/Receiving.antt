-- ===== src/UartClient/Receiving.antt =====
-- Bytes from the serial line: nothing is left over, and the receive buffer stays ready.
use cdroid_demo.Common.{
  ℕ, zero, suc, ◌≤◌, ◌<◌, ◌≡◌, refl, sym, ap, ◌∙◌, subst, ◌⊎◌, inl, inr, Bool, true, false, List,
  [], ◌∷◌, take, drop, length, arith, Bool-cases, length-take, length-drop, drop_all,
}
use cdroid_demo.Frame.{BuffData, bt_mcu}
use cdroid_demo.Frame.Memory.{length-copy_to}
use cdroid_demo.Frame.Receive.Progress.{Settled}
use cdroid_demo.PacketBuffer.{add, complete}
use cdroid_demo.PacketBuffer.Mcu.{IsMcu, in_use, Added, add-Added}
use cdroid_demo.UartClient.{
  UartClient, deliver, deal_checked, deal_frame, check_deal_data, clear_curr, count_recv,
  uart_data_loop, on_uart_data,
}

-- What holds between two calls: the client serves the main board, the buffer being filled holds
-- the beginning of a frame or two bytes at most, and the last frame's buffer has its size.
pub record IsReady (c : UartClient) : Type 0 where
  pub type : c.packet_buff.type ≡ bt_mcu
  pub curr : IsMcu c.curr_recv
  pub settled : Settled (in_use c.curr_recv)
  pub short : c.curr_recv.len < 16
  pub last : length c.last_recv.buf ≡ 32

-- Handling a frame leaves the packet buffer and the received bytes alone.
record Keeps (c d : UartClient) : Type 0 where
  same_pool : d.packet_buff ≡ c.packet_buff
  same_curr : d.curr_recv ≡ c.curr_recv
  same_last : length d.last_recv.buf ≡ length c.last_recv.buf

deliver-Keeps : (c : UartClient) → c.curr_recv.len ≤ length c.last_recv.buf → Keeps c (deliver c)
unfolding deliver
deliver-Keeps c h = record {
  same_pool = refl;
  same_curr = refl;
  same_last =
      length-copy_to c.last_recv.buf 0 (take c.curr_recv.len c.curr_recv.buf)
        (omega (arith, length-take c.curr_recv.len c.curr_recv.buf));
}

deal_checked-Keeps :
    (c : UartClient) (now : ℕ)
    → c.curr_recv.len ≤ length c.last_recv.buf
    → Keeps c (deal_checked c now)
unfolding deal_checked check_deal_data
deal_checked-Keeps c now h =
    ground (arith, deliver-Keeps c h, deliver-Keeps (record c { last_deal_data_time = now }) h)

deal_frame-Keeps :
    (c : UartClient) (now : ℕ)
    → c.curr_recv.len ≤ length c.last_recv.buf
    → Keeps c (deal_frame c now)
unfolding deal_frame
deal_frame-Keeps c now h = ground (arith, deal_checked-Keeps (record c { chk_err_count = 0 }) now h)

-- After a frame the buffer is empty.
deal_frame-IsReady :
    (c : UartClient) (now : ℕ)
    → c.packet_buff.type ≡ bt_mcu
    → IsMcu c.curr_recv
    → length c.last_recv.buf ≡ 32
    → IsReady (clear_curr (deal_frame (count_recv c) now))
unfolding clear_curr
deal_frame-IsReady c now t m l = go (deal_frame-Keeps (count_recv c) now (omega (arith, m.1)))
  where
    go :
        Keeps (count_recv c) (deal_frame (count_recv c) now)
        → IsReady (clear_curr (deal_frame (count_recv c) now))
    go k = record {
      type = ap (λ p. p.type) k.same_pool ∙ t;
      curr = (ap (λ b. length b.buf) k.same_curr ∙ m.0, omega arith);
      settled = inr (omega arith);
      short = omega arith;
      last = k.same_last ∙ l;
    }

-- The buffer after one call of `add` for the client.
abbrev pub added : UartClient → List ℕ → BuffData × ℕ
added c rest = add c.curr_recv c.packet_buff.type rest

abbrev pub with_curr : UartClient → BuffData → UartClient
with_curr c bf = record c { curr_recv = bf }

pub added-Added :
    (c : UartClient) (rest : List ℕ)
    → IsReady c
    → Added c.packet_buff.type c.curr_recv rest (added c rest)
added-Added c rest v =
    subst (λ t. Added t c.curr_recv rest (add c.curr_recv t rest)) (sym v.type)
      (add-Added c.curr_recv rest v.curr v.settled (omega (arith, v.short)))

-- A round that completes a frame, and one that does not.
pub round_complete :
    (fuel : ℕ) (c : UartClient) (b : ℕ) (rest : List ℕ) (now : ℕ)
    → complete c.packet_buff.type (added c (b ∷ rest)).0 ≡ true
    → uart_data_loop (suc fuel) c (b ∷ rest) now
      ≡ uart_data_loop fuel
          (clear_curr (deal_frame (count_recv (with_curr c (added c (b ∷ rest)).0)) now))
          (drop (added c (b ∷ rest)).1 (b ∷ rest))
          now
unfolding uart_data_loop
round_complete fuel c b rest now h = rw h (ground arith)

pub round_incomplete :
    (fuel : ℕ) (c : UartClient) (b : ℕ) (rest : List ℕ) (now : ℕ)
    → complete c.packet_buff.type (added c (b ∷ rest)).0 ≡ false
    → uart_data_loop (suc fuel) c (b ∷ rest) now
      ≡ (with_curr c (added c (b ∷ rest)).0, drop (added c (b ∷ rest)).1 (b ∷ rest))
unfolding uart_data_loop
round_incomplete fuel c b rest now h = rw h (ground arith)

pub loop_done : (fuel : ℕ) (c : UartClient) (now : ℕ) → uart_data_loop fuel c [] now ≡ (c, [])
unfolding uart_data_loop
loop_done zero c now = refl
loop_done (suc fuel) c now = ground arith

uart_data_loop-IsReady :
    (fuel : ℕ) (c : UartClient) (rest : List ℕ) (now : ℕ)
    → length rest ≤ fuel
    → IsReady c
    → IsReady (uart_data_loop fuel c rest now).0 × ((uart_data_loop fuel c rest now).1 ≡ [])
uart_data_loop-IsReady fuel c [] now h v = rw (loop_done fuel c now) (v, refl)
uart_data_loop-IsReady zero c (b ∷ rest) now h v = absurd (omega arith)
uart_data_loop-IsReady (suc fuel) c (b ∷ rest) now h v =
    go (added-Added c (b ∷ rest) v) (λ d r p w. uart_data_loop-IsReady fuel d r now p w)
      (Bool-cases (complete c.packet_buff.type (added c (b ∷ rest)).0))
  where
    n : ℕ
    n = (added c (b ∷ rest)).1

    full : Bool
    full = complete c.packet_buff.type (added c (b ∷ rest)).0

    go :
        Added c.packet_buff.type c.curr_recv (b ∷ rest) (added c (b ∷ rest))
        → ((d : UartClient) (r : List ℕ)
            → length r ≤ fuel
            → IsReady d
            → IsReady (uart_data_loop fuel d r now).0 × ((uart_data_loop fuel d r now).1 ≡ []))
        → (full ≡ true) ⊎ (full ≡ false)
        → IsReady (uart_data_loop (suc fuel) c (b ∷ rest) now).0
          × ((uart_data_loop (suc fuel) c (b ∷ rest) now).1 ≡ [])
    go a ih (inl done) = rw (round_complete fuel c b rest now done) (
        ih _ (drop n (b ∷ rest))
          (omega (arith, length-drop n (b ∷ rest), a.some_taken (omega arith)))
          (deal_frame-IsReady (with_curr c (added c (b ∷ rest)).0) now v.type a.sized v.last))
    go a ih (inr part) = rw (round_incomplete fuel c b rest now part) (
      record {
        type = v.type;
        curr = a.sized;
        settled = a.settled;
        short = (a.incomplete part).1;
        last = v.last;
      },
      drop_all n (b ∷ rest) (omega (arith, (a.incomplete part).0)),
    )

-- Every byte of a chunk is taken in, whatever it holds, and the client is ready for the next one.
pub on_uart_data-IsReady :
    (c : UartClient) (buf : List ℕ) (now : ℕ)
    → IsReady c
    → IsReady (on_uart_data c buf now).0 × ((on_uart_data c buf now).1 ≡ [])
unfolding on_uart_data
on_uart_data-IsReady c buf now v =
    uart_data_loop-IsReady (suc (length buf)) c buf now (omega arith) v
