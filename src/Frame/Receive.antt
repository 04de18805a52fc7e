-- ===== src/Frame/Receive.antt =====
-- src/protocol/mcu_ui.h, MCU2UI and TUYA2UI: bytes from the serial line are gathered into a
-- buffer, whose front is moved to the next frame head. The mBuf and mDlen of both classes stand
-- in `Received`; *mPlen is mDlen after each call.
pub mod Stream
pub mod Refine
pub mod Progress
pub mod Chunks
pub mod Frames
use cdroid_demo.Common.{
  ℕ, zero, suc, ◌+◌, ◌-◌, ◌*◌, ◌%◌, Bool, true, false, ◌&&◌, not, List, [], ◌∷◌, Option, none, some,
  ltb, leb, ◌==◌, if◌then◌else◌, take, drop, length,
}
use cdroid_demo.Frame.{BuffData, byte_at, copy_to, move_down}

pub record Received : Type 0 where
  pub buf : List ℕ
  pub dlen : ℕ

unfoldable pub parse : BuffData → Received
parse bf = record { buf = bf.buf; dlen = bf.len }

-- The loops `for (i = 0, j = -1; i < mDlen; i++)` from `i` on, with `n` rounds left. The answer
-- is j, where `none` is -1, and find_head.
pub mcu_scan : ℕ → List ℕ → ℕ → ℕ → Option ℕ → Option ℕ × Bool
mcu_scan zero buf dlen i j = (j, false)
mcu_scan (suc n) buf dlen i j =
    let on = mcu_scan n buf dlen (i + 1) j in
    let kept = mcu_scan n buf dlen (i + 1) (some i) in
    if byte_at buf i == 0x02
    then (if ltb (i + 1) dlen && byte_at buf (i + 1) == 0x10
        then (some i, true)
        else (if i + 1 == dlen then kept else on))
    else on

pub tuya_scan : ℕ → List ℕ → ℕ → ℕ → Option ℕ → Option ℕ × Bool
tuya_scan zero buf dlen i j = (j, false)
tuya_scan (suc n) buf dlen i j =
    let on = tuya_scan n buf dlen (i + 1) j in
    let kept = tuya_scan n buf dlen (i + 1) (some i) in
    if byte_at buf i == 0x55
    then (if ltb (i + 1) dlen && byte_at buf (i + 1) == 0xaa
        then (if ltb (i + 2) dlen && byte_at buf (i + 2) == 0x00
            then (some i, true)
            else (if i + 2 == dlen then kept else on))
        else (if i + 1 == dlen then kept else on))
    else on

-- memmove of the frame head at `j` to the front; without a head all is dropped.
pub shift_head : Received → Option ℕ → Received
shift_head s none = record s { dlen = 0 }
shift_head s (some j) =
    if ltb 0 j then record { buf = move_down s.buf j (s.dlen - j); dlen = s.dlen - j } else s

-- "add data" copies as much as there is room for; `rest` is bf + rlen, of length len - rlen.
pub add_len : ℕ → Received → List ℕ → ℕ
add_len buf_len s rest =
    if leb (length rest) (buf_len - s.dlen) then length rest else buf_len - s.dlen

pub append_data : Received → List ℕ → Received
append_data s src = record { buf = copy_to s.buf s.dlen src; dlen = s.dlen + length src }

-- The loop of both `add`s, over the class's BUF_LEN, sizeof(HEAD_BYTE) and search.
module _ (buf_len head_len : ℕ) (scan : List ℕ → ℕ → Option ℕ × Bool) where
  -- "find head".
  pub find_head : Received → Bool → Received × Bool
  find_head s found =
      if not found && ltb head_len s.dlen
      then (let (j, hit) = scan s.buf s.dlen in (shift_head s j, hit))
      else (s, found)

  -- The state after the loop, and rlen. One unit of fuel is one round.
  pub add_loop : ℕ → Received → Bool → List ℕ → ℕ → Received × ℕ
  add_loop zero s found rest rlen = (s, rlen)
  add_loop (suc fuel) s found rest rlen =
      let n = add_len buf_len s rest in
      let aligned = find_head (append_data s (take n rest)) found in
      let next = add_loop fuel aligned.0 aligned.1 (drop n rest) (rlen + n) in
      if ltb s.dlen buf_len && ltb 0 (length rest) then next else (s, rlen)

abbrev pub mcu_buf_len : ℕ
mcu_buf_len = 32

abbrev pub tuya_buf_len : ℕ
tuya_buf_len = 128

abbrev pub mcu_head : List ℕ → ℕ → Option ℕ × Bool
mcu_head buf dlen = mcu_scan dlen buf dlen 0 none

abbrev pub tuya_head : List ℕ → ℕ → Option ℕ × Bool
tuya_head buf dlen = tuya_scan dlen buf dlen 0 none

-- Each round takes at least one byte, so as much fuel as there are bytes is enough.
pub mcu_add : Received → List ℕ → Received × ℕ
mcu_add s bf = add_loop mcu_buf_len 2 mcu_head (length bf) s false bf 0

pub tuya_add : Received → List ℕ → Received × ℕ
tuya_add s bf = add_loop tuya_buf_len 3 tuya_head (length bf) s false bf 0

unfoldable pub mcu_complete : Received → Bool
mcu_complete s = byte_at s.buf 0 == 0x02 && byte_at s.buf 1 == 0x10 && leb (byte_at s.buf 1) s.dlen

-- `uchar sum` over the first `n` bytes.
unfoldable pub byte_sum : ℕ → List ℕ → ℕ → ℕ
byte_sum zero buf sum = sum
byte_sum (suc n) [] sum = sum
byte_sum (suc n) (b ∷ bs) sum = byte_sum n bs ((sum + b) % 256)

-- mBuf[1] is not 0, since only complete frames are checked.
unfoldable pub mcu_check : Received → Bool
mcu_check s = byte_at s.buf (byte_at s.buf 1 - 1) == byte_sum (byte_at s.buf 1 - 1) s.buf 0

unfoldable pub mcu_get_data : Received → ℕ → ℕ
mcu_get_data s pos = if ltb pos (mcu_buf_len - 1) then byte_at s.buf pos else 0

-- The length of a Tuya frame, from its bytes 4 and 5.
pub tuya_len : List ℕ → ℕ
tuya_len buf = byte_at buf 4 * 256 + byte_at buf 5 + 7

pub tuya_complete : Received → Bool
tuya_complete s =
    leb (tuya_len s.buf) s.dlen
    && byte_at s.buf 0 == 0x55
    && byte_at s.buf 1 == 0xaa
    && byte_at s.buf 2 == 0x00

pub tuya_check : Received → Bool
tuya_check s = byte_at s.buf (tuya_len s.buf - 1) == byte_sum ((tuya_len s.buf - 1) % 256) s.buf 0

pub tuya_get_data : Received → ℕ → ℕ
tuya_get_data s pos = if ltb pos (tuya_buf_len - 1) then byte_at s.buf pos else 0
