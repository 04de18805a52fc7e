-- ===== src/Frame/Receive/Chunks.antt =====
-- Input that fits the buffer is taken in one round of `MCU2UI::add`.
use cdroid_demo.Common.{
  ℕ, zero, suc, ◌+◌, ◌-◌, ◌≤◌, ◌<◌, ◌≡◌, refl, sym, ap, ◌∙◌, inl, inr, Bool, true, false, ◌&&◌,
  List, [], ◌∷◌, ◌++◌, ltb, ◌==◌, take, length, arith, Bool-cases, length-append, take_all,
  drop_all, append-nil,
}
use cdroid_demo.Frame.Receive.{Received, mcu_add, mcu_buf_len}
use cdroid_demo.Frame.Receive.Stream.{mcu_resync, content}
use cdroid_demo.Frame.Receive.Refine.{IsSized, realign, stream_loop, mcu_stream_add, mcu_add-stream}
use cdroid_demo.Frame.Receive.Progress.{Starts, Settled, resync-Starts}

stream_loop_done :
    (fuel : ℕ) (c : List ℕ) (found : Bool) (taken : ℕ)
    → stream_loop 32 2 mcu_resync fuel c found [] taken ≡ (c, taken)
unfolding stream_loop
stream_loop_done zero c found taken = refl
stream_loop_done (suc fuel) c found taken = ground arith

single_round :
    (c : List ℕ) (b : ℕ) (bf : List ℕ)
    → length c + length (b ∷ bf) ≤ 32
    → mcu_stream_add c (b ∷ bf) ≡ ((realign 32 2 mcu_resync (c ++ b ∷ bf) false).0, length (b ∷ bf))
unfolding mcu_stream_add stream_loop
single_round c b bf h =
    rw
      (
        room,
        take_all (32 - length c) (b ∷ bf) (omega arith),
        drop_all (32 - length c) (b ∷ bf) (omega arith),
      )
      (stream_loop_done (length bf) _ _ _
        ∙ ap (λ (n : ℕ). ((realign 32 2 mcu_resync (c ++ b ∷ bf) false).0, n)) (omega arith))
  where
    room : (ltb (length c) 32 && ltb 0 (length (b ∷ bf))) ≡ true
    room = ground arith

realign-Settled : (w : List ℕ) → Settled w → (realign 32 2 mcu_resync w false).0 ≡ w
unfolding realign
realign-Settled w (inl s) = elim (Bool-cases (ltb 2 (length w))) [
  | inl h ↦ rw (h, resync-Starts w s)
  | inr h ↦ rw h
]
realign-Settled w (inr few) = let h : ltb 2 (length w) ≡ false = ground arith in rw h

-- Where the bytes in use and the new ones together fit and begin a frame, they are kept in order.
pub mcu_stream_add-append :
    (c bf : List ℕ)
    → length c + length bf ≤ 32
    → Settled (c ++ bf)
    → mcu_stream_add c bf ≡ (c ++ bf, length bf)
unfolding mcu_stream_add
mcu_stream_add-append c [] h st =
    unfold stream_loop in ap (λ (l : List ℕ). (l, 0)) (sym (append-nil c))
mcu_stream_add-append c (b ∷ bf) h st =
    single_round c b bf h
    ∙ ap (λ (l : List ℕ). (l, length (b ∷ bf))) (realign-Settled (c ++ b ∷ bf) st)

-- No frame head in `xs`.
abbrev pub NoHead : List ℕ → Type 0
NoHead [] = Unit
NoHead (b ∷ []) = Unit
NoHead (b ∷ c ∷ r) = ¬ ((b ≡ 0x02) × (c ≡ 0x10)) × NoHead (c ∷ r)

pub resync_junk :
    (junk frame : List ℕ) → NoHead junk → Starts frame → mcu_resync (junk ++ frame) ≡ (frame, true)
unfolding mcu_resync
resync_junk [] frame clean st = resync-Starts frame st
resync_junk (b ∷ []) [] clean st = absurd st
resync_junk (b ∷ []) (c ∷ []) clean st = absurd st
resync_junk (b ∷ []) (c ∷ d ∷ r) clean st = ground (arith, resync-Starts (c ∷ d ∷ r) st)
resync_junk (b ∷ c ∷ r) frame clean st = elim (Bool-cases (b == 2 && c == 16)) [
  | inl h ↦ absurd (clean.0 (ground arith))
  | inr h ↦ rw h (resync_junk (c ∷ r) frame clean.1 st)
]

-- Noise in front of a frame is dropped, also where it ends like a frame head begins.
pub mcu_stream_add_junk :
    (junk frame : List ℕ)
    → NoHead junk
    → Starts frame
    → 2 < length frame
    → length junk + length frame ≤ 32
    → mcu_stream_add [] (junk ++ frame) ≡ (frame, length junk + length frame)
mcu_stream_add_junk junk frame clean st long fits = nonempty (junk ++ frame) refl
  where
    total : length (junk ++ frame) ≡ length junk + length frame
    total = length-append junk frame

    aligned : (realign 32 2 mcu_resync (junk ++ frame) false).0 ≡ frame
    aligned =
        unfold realign in
        let h : ltb 2 (length (junk ++ frame)) ≡ true = ground (arith, total) in
        rw (h, resync_junk junk frame clean st)

    nonempty :
        (w : List ℕ) → w ≡ junk ++ frame → mcu_stream_add [] w ≡ (frame, length junk + length frame)
    nonempty [] e = absurd (omega (arith, ap length e, total))
    nonempty (b ∷ w) e =
        single_round [] b w (omega (arith, ap length e, total))
        ∙ rw (e, aligned) (ap (λ (n : ℕ). (frame, n)) (omega (arith, ap length e, total)))

-- Noise without a frame head in front of a frame is dropped: after `add` on an empty buffer
-- exactly the frame is in use, and all input is taken in. The noise may end in 0x02.
pub mcu_add_junk :
    (s : Received) (junk frame : List ℕ)
    → IsSized mcu_buf_len s
    → s.dlen ≡ 0
    → NoHead junk
    → Starts frame
    → 2 < length frame
    → length junk + length frame ≤ 32
    → (content (mcu_add s (junk ++ frame)).0 ≡ frame)
      × ((mcu_add s (junk ++ frame)).1 ≡ length junk + length frame)
mcu_add_junk s junk frame sized empty clean st long fits =
    (r.1 ∙ ap (λ p. p.0) whole, r.2 ∙ ap (λ p. p.1) whole)
  where
    r :
        IsSized mcu_buf_len (mcu_add s (junk ++ frame)).0
        × (content (mcu_add s (junk ++ frame)).0 ≡ (mcu_stream_add (content s) (junk ++ frame)).0)
        × ((mcu_add s (junk ++ frame)).1 ≡ (mcu_stream_add (content s) (junk ++ frame)).1)
    r = mcu_add-stream s (junk ++ frame) sized

    whole : mcu_stream_add (content s) (junk ++ frame) ≡ (frame, length junk + length frame)
    whole =
        ap (λ n. mcu_stream_add (take n s.buf) (junk ++ frame)) empty
        ∙ mcu_stream_add_junk junk frame clean st long fits
