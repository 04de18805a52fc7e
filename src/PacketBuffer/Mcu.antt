-- ===== src/PacketBuffer/Mcu.antt =====
-- The operations of SDHWPacketBuffer on buffers of the main board (BT_MCU), over the bytes in use.
use native.Mathlib.Decide.{dec_lt}
use cdroid_demo.Common.{
  sym, ap, ◌∙◌, ℕ, ◌+◌, ◌≤◌, ◌<◌, ◌≡◌, ◌⊎◌, ◌↔◌, inl, inr, true, false, List, take, length, arith,
  length-take,
}
use cdroid_demo.Frame.{BuffData, BufferType, bt_mcu}
use cdroid_demo.Frame.Receive.{parse}
use cdroid_demo.Frame.Receive.Refine.{IsSized, mcu_stream_add, mcu_add-stream}
use cdroid_demo.Frame.Receive.Progress.{Starts, Settled, Outcome, mcu_stream_add-Outcome}
use cdroid_demo.Frame.Receive.Frames.{IsSummed, mcu_complete_iff, mcu_check_iff}
use cdroid_demo.Frame.Send.{checkcode_mcu}
use cdroid_demo.Frame.Send.Closing.{parse_mcu_full}
use cdroid_demo.PacketBuffer.{add, complete, check, check_code}

abbrev pub in_use : BuffData → List ℕ
in_use bf = take bf.len bf.buf

-- 32 bytes are allocated, and no more are in use.
abbrev pub IsMcu : BuffData → Type 0
IsMcu bf = (length bf.buf ≡ 32) × (bf.len ≤ 32)

sized : (bf : BuffData) → IsMcu bf → IsSized 32 (parse bf)
unfolding parse
sized bf h = record { allocated = h.0; within = h.1 }

pub length-in_use : (bf : BuffData) → IsMcu bf → length (in_use bf) ≡ bf.len
length-in_use bf h = omega (arith, length-take bf.len bf.buf, h.0, h.1)

pub add-stream :
    (bf : BuffData) (input : List ℕ)
    → IsMcu bf
    → IsMcu (add bf bt_mcu input).0
      × (in_use (add bf bt_mcu input).0 ≡ (mcu_stream_add (in_use bf) input).0)
      × ((add bf bt_mcu input).1 ≡ (mcu_stream_add (in_use bf) input).1)
unfolding add parse
add-stream bf input h =
    let r = mcu_add-stream (parse bf) input (sized bf h) in ((r.0.allocated, r.0.within), r.1, r.2)

pub complete_iff :
    (bf : BuffData) → IsMcu bf → (complete bt_mcu bf ≡ true) ↔ ((16 ≤ bf.len) × Starts (in_use bf))
unfolding complete parse
complete_iff bf h = mcu_complete_iff (parse bf) (sized bf h)

pub check_iff :
    (bf : BuffData)
    → IsMcu bf
    → complete bt_mcu bf ≡ true
    → (check bt_mcu bf ≡ true) ↔ IsSummed (in_use bf)
unfolding check parse
check_iff bf h done =
    mcu_check_iff (parse bf) (sized bf h) ((complete_iff bf h).0 done).0
      ((complete_iff bf h).0 done).1

-- What one call of `add` does to a buffer that holds the beginning of a frame.
pub record Added (t : BufferType) (bf : BuffData) (input : List ℕ) (r : BuffData × ℕ) : Type 0 where
  pub sized : IsMcu r.0
  pub settled : Settled (in_use r.0)
  pub at_most : r.1 ≤ length input
  pub some_taken : 0 < length input → 0 < r.1
  -- If the frame is not complete, all the input is taken in, and the frame has room to come.
  pub incomplete : complete t r.0 ≡ false → (r.1 ≡ length input) × (r.0.len < 16)

-- A settled buffer that is not complete holds less than a frame.
Settled-short :
    (bf : BuffData) → IsMcu bf → Settled (in_use bf) → complete bt_mcu bf ≡ false → bf.len < 16
Settled-short bf h (inr few) inc = omega (arith, length-in_use bf h)
Settled-short bf h (inl st) inc = elim (dec_lt bf.len 16) [
  | yes p ↦ p
  | no p ↦ absurd (true≢false (sym ((complete_iff bf h).1 (omega arith, st)) ∙ inc))
]
  where
    true≢false : true ≡ false → ⊥
    true≢false e = cc

pub add-Added :
    (bf : BuffData) (input : List ℕ)
    → IsMcu bf
    → Settled (in_use bf)
    → bf.len < 32
    → Added bt_mcu bf input (add bf bt_mcu input)
add-Added bf input h st room = record {
  sized = r.0;
  settled = now_settled;
  at_most = omega (arith, r.2, o.0.at_most);
  some_taken = λ h'. omega (arith, r.2, o.1 h');
  incomplete = λ inc.
      let short : (add bf bt_mcu input).0.len < 16 =
        Settled-short (add bf bt_mcu input).0 r.0 now_settled inc in
      (all_taken o.0.drained short, short);
}
  where
    r :
        IsMcu (add bf bt_mcu input).0
        × (in_use (add bf bt_mcu input).0 ≡ (mcu_stream_add (in_use bf) input).0)
        × ((add bf bt_mcu input).1 ≡ (mcu_stream_add (in_use bf) input).1)
    r = add-stream bf input h

    o :
        Outcome (length input) 0 (mcu_stream_add (in_use bf) input)
        × (0 < length input → 0 < (mcu_stream_add (in_use bf) input).1)
        × ((mcu_stream_add (in_use bf) input).1 < length input
            → Starts (mcu_stream_add (in_use bf) input).0)
    o = mcu_stream_add-Outcome (in_use bf) input st (omega (arith, length-in_use bf h))

    now_settled : Settled (in_use (add bf bt_mcu input).0)
    now_settled = rw r.1 o.0.settled

    all_taken :
        ((mcu_stream_add (in_use bf) input).1 ≡ 0 + length input)
          ⊎ (length (mcu_stream_add (in_use bf) input).0 ≡ 32)
        → (add bf bt_mcu input).0.len < 16
        → (add bf bt_mcu input).1 ≡ length input
    all_taken (inl e) short = omega (arith, r.2)
    all_taken (inr e) short =
        absurd (omega (arith, ap length r.1, length-in_use (add bf bt_mcu input).0 r.0))

-- Outgoing frames that have been begun are only closed.
pub check_code_mcu : (bf : BuffData) → 0 < bf.len → check_code bt_mcu bf ≡ checkcode_mcu bf
unfolding check_code
check_code_mcu bf h = ap checkcode_mcu (parse_mcu_full bf h)
