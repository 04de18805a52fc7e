-- ===== src/Frame.antt =====
-- src/protocol/ipacket_buffer.h: the packet buffer that frames are read into and sent from.
pub mod Memory
pub mod Receive
pub mod Send
mod Examples
use cdroid_demo.Common.{ℕ, ◌+◌, ◌-◌, List, ◌++◌, get_or, take, drop, length}

pub data BufferType : Type 0 where
  bt_null bt_mcu bt_tuya_mcu bt_factory : BufferType

-- `buf` holds the `slen` bytes that were asked for; `len` of them are in use.
pub record BuffData : Type 0 where
  pub type : BufferType
  pub slen : ℕ
  pub len : ℕ
  pub buf : List ℕ

-- A read past the allocated bytes is 0 here.
abbrev pub byte_at : List ℕ → ℕ → ℕ
byte_at buf i = get_or buf i 0

-- memcpy(buf + at, src, n), where `src` lists the `n` bytes.
pub copy_to : List ℕ → ℕ → List ℕ → List ℕ
copy_to buf at src = take at buf ++ (src ++ drop (at + length src) buf)

-- memmove(buf, buf + from, n).
pub move_down : List ℕ → ℕ → ℕ → List ℕ
move_down buf from n = take n (drop from buf) ++ drop n buf
