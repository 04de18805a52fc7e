-- ===== src/UartClient/Reassembly/Handling.antt =====
-- What a complete frame does: the handler is told of it, or a repetition is passed over.
use cdroid_demo.Common.{
  ℕ, ◌+◌, ◌<◌, ◌≡◌, refl, sym, ap, ap₂, ◌∙◌, subst, ◌⊎◌, inl, inr, true, List, [], ◌∷◌, ◌++◌,
  if◌then◌else◌, take, length, arith, get_or-take,
}
use cdroid_demo.Frame.{BuffData, bt_mcu, byte_at, copy_to}
use cdroid_demo.Frame.Memory.{take-copy_to}
use cdroid_demo.Frame.Receive.Frames.{IsSummed}
use cdroid_demo.Frame.Receive.Progress.{Starts}
use cdroid_demo.PacketBuffer.{check, compare}
use cdroid_demo.PacketBuffer.Compare.{HasKey, compare_iff}
use cdroid_demo.PacketBuffer.Mcu.{IsMcu, in_use, length-in_use, complete_iff, check_iff}
use cdroid_demo.UartClient.Reassembly.Chunks.{IsFrame}
use cdroid_demo.UartClient.{
  UartClient, command, callback, deliver, deal_checked, deal_frame, check_deal_data, clear_curr,
  count_recv,
}
use cdroid_demo.UartClient.Receiving.{with_curr}

-- The handler has been given the frame, once and whole, and it is kept as the last frame.
pub record Delivered (c d : UartClient) (frame : List ℕ) : Type 0 where
  pub bf : BuffData
  pub bytes : in_use bf ≡ frame
  pub event : d.events ≡ c.events ++ (if c.has_callback then callback bf else command bf) ∷ []
  pub kept : in_use d.last_recv ≡ frame

-- The frame repeats the last one and reports no key; nobody is told.
pub record Suppressed (c d : UartClient) (frame : List ℕ) : Type 0 where
  pub no_key : ¬ HasKey frame
  pub repeated : in_use c.last_recv ≡ frame
  pub silent : d.events ≡ c.events

-- What a frame has done to the client.
pub record Handled (c d : UartClient) (frame : List ℕ) : Type 0 where
  pub counted : d.recv_count ≡ c.recv_count + 1
  pub no_error : d.chk_err_count ≡ 0
  pub emptied : d.curr_recv.len ≡ 0
  pub delivered : Delivered c d frame ⊎ Suppressed c d frame

deal_checked-counts :
    (c : UartClient) (now : ℕ)
    → ((deal_checked c now).recv_count ≡ c.recv_count)
      × ((deal_checked c now).chk_err_count ≡ c.chk_err_count)
unfolding deal_checked check_deal_data deliver
deal_checked-counts c now = ground arith

-- Of a checked frame either everything comes that `deliver` does, or, if it is the same as the
-- last one, nothing.
deal_checked-cases :
    (c : UartClient) (now : ℕ)
    → (((deal_checked c now).events ≡ (deliver c).events)
        × ((deal_checked c now).last_recv ≡ (deliver c).last_recv))
      ⊎ (compare c.packet_buff.type c.curr_recv c.last_recv ≡ true)
        × ((deal_checked c now).events ≡ c.events)
unfolding deal_checked check_deal_data deliver
deal_checked-cases c now = ground arith

deal_frame_valid :
    (c : UartClient) (now : ℕ)
    → check c.packet_buff.type c.curr_recv ≡ true
    → deal_frame c now ≡ deal_checked (record c { chk_err_count = 0 }) now
unfolding deal_frame
deal_frame_valid c now h = rw h

in_use-deliver :
    (c : UartClient) → IsMcu c.curr_recv → in_use (deliver c).last_recv ≡ in_use c.curr_recv
unfolding deliver
in_use-deliver c m =
    subst (λ n. take n (copy_to c.last_recv.buf 0 (in_use c.curr_recv)) ≡ in_use c.curr_recv)
      (length-in_use c.curr_recv m) (take-copy_to c.last_recv.buf (in_use c.curr_recv))

pub deal-Handled :
    (c : UartClient) (bf : BuffData) (frame : List ℕ) (now : ℕ)
    → IsFrame frame
    → c.packet_buff.type ≡ bt_mcu
    → length c.last_recv.buf ≡ 32
    → IsMcu bf
    → in_use bf ≡ frame
    → Handled c (clear_curr (deal_frame (count_recv (with_curr c bf)) now)) frame
unfolding clear_curr
deal-Handled c bf frame now f t l m e =
    rw (deal_frame_valid (count_recv (with_curr c bf)) now passes) (record {
      counted = (deal_checked-counts ready now).0;
      no_error = (deal_checked-counts ready now).1;
      emptied = refl;
      delivered = outcome (deal_checked-cases ready now);
    })
  where
    ready : UartClient
    ready = record (count_recv (with_curr c bf)) { chk_err_count = 0 }

    len : bf.len ≡ 16
    len = omega (arith, length-in_use bf m, ap length e, f.whole)

    passes : check c.packet_buff.type bf ≡ true
    passes =
        subst (λ t. check t bf ≡ true) (sym t)
          ((check_iff bf m
              ((complete_iff bf m).1 (omega (arith, len), subst Starts (sym e) f.starts))).1
            (subst IsSummed (sym e) f.summed))

    byte : (i : ℕ) → i < 16 → byte_at bf.buf i ≡ byte_at frame i
    byte i h = sym (get_or-take bf.len bf.buf i 0 (omega (arith, len))) ∙ ap (λ l. byte_at l i) e

    last_len : bf.len ≡ c.last_recv.len → take bf.len c.last_recv.buf ≡ in_use c.last_recv
    last_len h = ap (λ n. take n c.last_recv.buf) h

    same :
        compare c.packet_buff.type bf c.last_recv ≡ true
        → (bf.len ≡ c.last_recv.len)
          × (take bf.len bf.buf ≡ take bf.len c.last_recv.buf)
          × ¬ HasKey bf.buf
    same h =
        let r =
          (compare_iff bf c.last_recv (omega (arith, len, m.0)) (omega (arith, len, l))).0
            (subst (λ t. compare t bf c.last_recv ≡ true) t h) in
        (r.1, r.2, r.3)

    outcome :
        (((deal_checked ready now).events ≡ (deliver ready).events)
            × ((deal_checked ready now).last_recv ≡ (deliver ready).last_recv))
          ⊎ (compare c.packet_buff.type bf c.last_recv ≡ true)
            × ((deal_checked ready now).events ≡ c.events)
        → Delivered c (clear_curr (deal_checked ready now)) frame
          ⊎ Suppressed c (clear_curr (deal_checked ready now)) frame
    outcome (inl (events, last)) = inl (record {
      bf = bf;
      bytes = e;
      event = events ∙ unfold deliver in refl;
      kept = ap in_use last ∙ in_use-deliver ready m ∙ e;
    })
    outcome (inr (equal, events)) = inr (record {
      no_key = λ key. (same equal).2 (
          omega (
            arith,
            key,
            byte 6 (omega arith),
            byte 7 (omega arith),
            byte 8 (omega arith),
            byte 9 (omega arith),
          ));
      repeated = sym (last_len (same equal).0) ∙ sym (same equal).1 ∙ e;
      silent = events;
    })

-- Only some fields matter.
abbrev pub SameBefore : UartClient → UartClient → Type 0
SameBefore c d =
    (c.recv_count ≡ d.recv_count)
    × (c.events ≡ d.events)
    × (c.has_callback ≡ d.has_callback)
    × (c.last_recv ≡ d.last_recv)

abbrev pub SameAfter : UartClient → UartClient → Type 0
SameAfter c d =
    (c.recv_count ≡ d.recv_count)
    × (c.chk_err_count ≡ d.chk_err_count)
    × (c.curr_recv.len ≡ d.curr_recv.len)
    × (c.events ≡ d.events)
    × (c.last_recv ≡ d.last_recv)

pub Handled-same :
    (c c' d d' : UartClient) (frame : List ℕ)
    → SameBefore c' c
    → SameAfter d' d
    → Handled c' d' frame
    → Handled c d frame
Handled-same c c' d d' frame p q h = record {
  counted = sym q.0 ∙ h.counted ∙ ap (λ n. n + 1) p.0;
  no_error = sym q.1 ∙ h.no_error;
  emptied = sym q.2 ∙ h.emptied;
  delivered = elim h.delivered [
    | inl g ↦ inl (record {
      bf = g.bf;
      bytes = g.bytes;
      event =
          sym q.3
          ∙ g.event
          ∙ ap₂ (λ l b. l ++ (if b then callback g.bf else command g.bf) ∷ []) p.1 p.2;
      kept = ap in_use (sym q.4) ∙ g.kept;
    })
    | inr g ↦ inr (record {
      no_key = g.no_key;
      repeated = ap in_use (sym p.3) ∙ g.repeated;
      silent = sym q.3 ∙ g.silent ∙ p.1;
    })
  ];
}
