-- ===== src/Frame/Examples.antt =====
-- The frames of src/protocol/mcu_ui.h at concrete bytes, and the properties there.
use cdroid_demo.Common.{
  ℕ, ◌+◌, ◌≡◌, refl, List, [], ◌∷◌, ◌++◌, true, false, arith, length, replicate,
}
use cdroid_demo.Frame.{BuffData, bt_mcu}
use cdroid_demo.Frame.Receive.{Received, mcu_buf_len, mcu_add, mcu_check, mcu_complete, byte_sum}
use cdroid_demo.Frame.Receive.Stream.{content}
use cdroid_demo.Frame.Receive.Refine.{IsSized, mcu_stream_add, mcu_add-stream}
use cdroid_demo.Frame.Receive.Chunks.{mcu_add_junk}
use cdroid_demo.Frame.Receive.Frames.{mcu_check_one_byte}

-- Noise without a frame head, and the first bytes of a frame.
abbrev junk : List ℕ
junk = 0x07 ∷ 0x02 ∷ 0x07 ∷ []

abbrev beginning : List ℕ
beginning = 0x02 ∷ 0x10 ∷ 0x01 ∷ 0x19 ∷ []

abbrev empty_buffer : Received
empty_buffer = record { buf = replicate 32 0; dlen = 0 }

empty-IsSized : IsSized mcu_buf_len empty_buffer
empty-IsSized = record { allocated = refl; within = omega arith }

mcu_add-stream_example :
    IsSized mcu_buf_len (mcu_add empty_buffer junk).0
    × (content (mcu_add empty_buffer junk).0 ≡ (mcu_stream_add (content empty_buffer) junk).0)
    × ((mcu_add empty_buffer junk).1 ≡ (mcu_stream_add (content empty_buffer) junk).1)
mcu_add-stream_example = mcu_add-stream empty_buffer junk empty-IsSized

mcu_add_junk_example :
    (content (mcu_add empty_buffer (junk ++ beginning)).0 ≡ beginning)
    × ((mcu_add empty_buffer (junk ++ beginning)).1 ≡ length junk + length beginning)
mcu_add_junk_example =
    mcu_add_junk empty_buffer junk beginning empty-IsSized refl
      (λ p. absurd (omega (arith, p.0)), (λ p. absurd (omega (arith, p.1)), tt)) (refl, refl)
      (omega arith) (omega arith)

-- A frame whose byte 2 is `b`, behind its head, and the bytes after it.
abbrev head : List ℕ
head = 0x02 ∷ 0x10 ∷ []

abbrev tail : List ℕ
tail = replicate 12 0 ++ 0x13 ∷ replicate 16 0

abbrev full_buffer : ℕ → Received
full_buffer b = record { buf = head ++ b ∷ tail; dlen = 16 }

full-IsSized : (b : ℕ) → IsSized mcu_buf_len (full_buffer b)
full-IsSized b = record { allocated = refl; within = omega arith }

abbrev rest : List ℕ
rest = replicate 12 0 ++ 0x13 ∷ []

full_complete : (b : ℕ) → mcu_complete (full_buffer b) ≡ true
unfolding mcu_complete
full_complete b = refl

full_check : mcu_check (full_buffer 1) ≡ true
unfolding mcu_check byte_sum
full_check = refl

mcu_check_one_byte_example : mcu_check (full_buffer 3) ≡ false
mcu_check_one_byte_example =
    mcu_check_one_byte (full_buffer 1) (full_buffer 3) head rest 1 3 (full-IsSized 1)
      (full-IsSized 3) (full_complete 1) (full_complete 3) refl refl (omega arith) (omega arith)
      (omega arith) (omega arith) full_check

-- A frame to be sent, before its checksum is written.
abbrev to_send : BuffData
to_send = record { type = bt_mcu; slen = 32; len = 32; buf = 0x02 ∷ replicate 31 7 }
