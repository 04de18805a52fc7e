-- ===== src/UartClient/Reassembly.antt =====
-- Frames that arrive in pieces.
pub mod Chunks
pub mod Handling
use native.Mathlib.Decide.{dec_lt}
use cdroid_demo.Common.{
  ℕ, zero, suc, ◌+◌, ◌-◌, ◌≤◌, ◌<◌, ◌≡◌, refl, sym, ap, ap₂, ◌∙◌, subst, ◌⊎◌, inl, inr, Bool, true,
  false, not, List, [], ◌∷◌, ◌++◌, ltb, if◌then◌else◌, take, drop, length, arith, Bool-cases,
  length-append, length-take, length-drop, drop_all, append_assoc, append-nil, get_or-take,
}
use cdroid_demo.Frame.{BuffData, bt_mcu, byte_at, copy_to}
use cdroid_demo.Frame.Memory.{take-copy_to}
use cdroid_demo.Frame.Receive.Chunks.{mcu_stream_add-append}
use cdroid_demo.Frame.Receive.Frames.{IsSummed}
use cdroid_demo.Frame.Receive.Refine.{mcu_stream_add}
use cdroid_demo.Frame.Receive.Progress.{Starts, Settled}
use cdroid_demo.PacketBuffer.{add, complete, check, compare}
use cdroid_demo.PacketBuffer.Compare.{HasKey, compare_iff}
use cdroid_demo.PacketBuffer.Mcu.{IsMcu, in_use, length-in_use, add-stream, complete_iff, check_iff}
use cdroid_demo.UartClient.{
  UartClient, Event, command, callback, deliver, deal_checked, deal_frame, check_deal_data,
  clear_curr, count_recv, on_recv_data, on_uart_data, handle_events,
}
use cdroid_demo.UartClient.Receiving.{
  IsReady, added, with_curr, round_complete, round_incomplete, loop_done,
}
use cdroid_demo.UartClient.Reassembly.Chunks.{IsFrame, Grows, chunk_partial, chunk_complete}
use cdroid_demo.UartClient.Reassembly.Handling.{
  Handled, Handled-same, deal-Handled, SameBefore, SameAfter,
}

-- The chunks that one read after the other hands over, each with the time of the read.
pub feed : UartClient → List (List ℕ × ℕ) → UartClient
feed c [] = c
feed c ((bytes, now) ∷ chunks) = feed (handle_events c bytes now).0 chunks

unfoldable pub all_bytes : List (List ℕ × ℕ) → List ℕ
all_bytes [] = []
all_bytes ((bytes, now) ∷ chunks) = bytes ++ all_bytes chunks

abbrev with_bytes : UartClient → List ℕ → UartClient
with_bytes c l = record c { recv_bytes = l }

handle_chunk :
    (c : UartClient) (b : ℕ) (bytes : List ℕ) (now : ℕ)
    → c.recv_bytes ≡ []
    → (handle_events c (b ∷ bytes) now).0
      ≡ with_bytes (on_uart_data (with_bytes c (b ∷ bytes)) (b ∷ bytes) now).0 []
unfolding handle_events on_recv_data
handle_chunk c b bytes now e = ground (
  arith,
  ap (λ l. with_bytes (on_uart_data (with_bytes c (l ++ b ∷ bytes)) (l ++ b ∷ bytes) now).0 []) e,
)

handle_nothing : (c : UartClient) (now : ℕ) → (handle_events c [] now).0 ≡ c
unfolding handle_events
handle_nothing c now = ground arith

feed_nothing :
    (c : UartClient) (chunks : List (List ℕ × ℕ)) → all_bytes chunks ≡ [] → feed c chunks ≡ c
unfolding feed all_bytes
feed_nothing c [] e = refl
feed_nothing c (([], now) ∷ chunks) e = rw (handle_nothing c now) (feed_nothing c chunks e)
feed_nothing c ((b ∷ bytes, now) ∷ chunks) e = cc

prefix-Settled : (w r : List ℕ) → Starts (w ++ r) → Settled w
prefix-Settled [] r h = inr (omega arith)
prefix-Settled (b ∷ []) r h = inr (omega arith)
prefix-Settled (b ∷ c ∷ w) r h = inl h

nil_of_length : (l : List ℕ) → length l ≡ 0 → l ≡ []
nil_of_length [] h = refl
nil_of_length (x ∷ l) h = absurd (omega arith)

-- However a valid frame is cut into chunks, empty ones included, and whatever part of it the
-- buffer holds already: when its last byte has come, the frame is counted once, the error count is
-- 0 and the buffer is empty; and the handler has been given exactly this frame, once, or, where
-- the frame reports no key and repeats the last one, nothing.
pub feed-Handled :
    (c : UartClient) (chunks : List (List ℕ × ℕ)) (frame : List ℕ)
    → IsReady c
    → c.recv_bytes ≡ []
    → in_use c.curr_recv ++ all_bytes chunks ≡ frame
    → IsFrame frame
    → Handled c (feed c chunks) frame
unfolding feed all_bytes
feed-Handled c [] frame v e whole f = absurd (
    omega (
      arith,
      ap length whole,
      length-append (in_use c.curr_recv) [],
      length-in_use c.curr_recv v.curr,
      v.short,
      f.whole,
    ))
feed-Handled c (([], now) ∷ chunks) frame v e whole f =
    rw (handle_nothing c now) (feed-Handled c chunks frame v e whole f)
feed-Handled c ((b ∷ bytes, now) ∷ chunks) frame v e whole f = elim (dec_lt (length w) 16) [
  | yes short ↦ more short (λ d p q r. feed-Handled d chunks frame p q r f)
  | no long ↦ last (omega arith)
]
  where
    w : List ℕ
    w = in_use c.curr_recv ++ b ∷ bytes

    c0 : UartClient
    c0 = with_bytes c (b ∷ bytes)

    regrouped : w ++ all_bytes chunks ≡ frame
    regrouped = append_assoc (in_use c.curr_recv) (b ∷ bytes) (all_bytes chunks) ∙ whole

    lengths : length w + length (all_bytes chunks) ≡ 16
    lengths = omega (arith, length-append w (all_bytes chunks), ap length regrouped, f.whole)

    ready : IsReady c0
    ready = record {
      type = v.type;
      curr = v.curr;
      settled = v.settled;
      short = v.short;
      last = v.last;
    }

    more :
        length w < 16
        → ((d : UartClient)
            → IsReady d
            → d.recv_bytes ≡ []
            → in_use d.curr_recv ++ all_bytes chunks ≡ frame
            → Handled d (feed d chunks) frame)
        → Handled c (feed (handle_events c (b ∷ bytes) now).0 chunks) frame
    more short ih =
        rw (handle_chunk c b bytes now e, p.1)
          (Handled-same c d _ _ frame (refl, refl, refl, refl) (refl, refl, refl, refl, refl) h)
      where
        st : Settled w
        st = prefix-Settled w (all_bytes chunks) (subst Starts (sym regrouped) f.starts)

        bf : BuffData
        bf = (added c0 (b ∷ bytes)).0

        p :
            Grows c0 w (added c0 (b ∷ bytes)) (b ∷ bytes)
            × ((on_uart_data c0 (b ∷ bytes) now).0 ≡ with_curr c0 bf)
        p = chunk_partial c0 b bytes now ready short st

        d : UartClient
        d = with_bytes (with_curr c0 bf) []

        h : Handled d (feed d chunks) frame
        h =
            ih d
              (record {
                type = v.type;
                curr = p.0.sized;
                settled = subst Settled (sym p.0.holds) st;
                short = omega (arith, length-in_use bf p.0.sized, ap length p.0.holds);
                last = v.last;
              })
              refl (subst (λ l. l ++ all_bytes chunks ≡ frame) (sym p.0.holds) regrouped)

    last : 16 ≤ length w → Handled c (feed (handle_events c (b ∷ bytes) now).0 chunks) frame
    last long =
        rw (handle_chunk c b bytes now e, q.1, feed_nothing _ chunks nil)
          (Handled-same c c0 _ _ frame (refl, refl, refl, refl) (refl, refl, refl, refl, refl) h)
      where
        nil : all_bytes chunks ≡ []
        nil = nil_of_length (all_bytes chunks) (omega (arith, lengths))

        w_is_frame : w ≡ frame
        w_is_frame = sym (append-nil w) ∙ ap (λ l. w ++ l) (sym nil) ∙ regrouped

        bf : BuffData
        bf = (added c0 (b ∷ bytes)).0

        q :
            Grows c0 w (added c0 (b ∷ bytes)) (b ∷ bytes)
            × (on_uart_data c0 (b ∷ bytes) now
                ≡ (clear_curr (deal_frame (count_recv (with_curr c0 bf)) now), []))
        q =
            chunk_complete c0 b bytes now ready (omega (arith, lengths)) long
              (subst Starts (sym w_is_frame) f.starts)

        h : Handled c0 (clear_curr (deal_frame (count_recv (with_curr c0 bf)) now)) frame
        h = deal-Handled c0 bf frame now f v.type v.last q.0.sized (q.0.holds ∙ w_is_frame)
