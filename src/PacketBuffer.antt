-- ===== src/PacketBuffer.antt =====
-- src/protocol/packet_buffer.cc: SDHWPacketBuffer, a pool of buffers and the operations on one
-- buffer, which go to the frame classes of the pool's type. mSND and mRCV are set up by `parse`
-- at the start of each operation, so they carry no state from one to the next.

pub mod Mcu
pub mod Pooling
pub mod Compare
mod Examples
use cdroid_demo.Common.{
  ℕ, zero, suc, ◌+◌, ◌-◌, Bool, true, false, ◌&&◌, ◌||◌, not, List, [], ◌∷◌, ◌++◌, Option, none,
  some, ltb, leb, ◌==◌, if◌then◌else◌, take, replicate,
}
use cdroid_demo.Frame.{BuffData, BufferType, bt_null, bt_mcu, bt_tuya_mcu, bt_factory, byte_at}
use cdroid_demo.Frame.Receive.{
  Received, parse, mcu_add, tuya_add, mcu_complete, tuya_complete, mcu_check, tuya_check,
  mcu_get_data, tuya_get_data,
}
use cdroid_demo.Frame.Send.{parse_mcu, checkcode_mcu, parse_tuya, checkcode_tuya}

pub record PacketBuffer : Type 0 where
  pub type : BufferType
  pub buffs : List BuffData

abbrev pub type_code : BufferType → ℕ
type_code bt_null = 0
type_code bt_mcu = 1
type_code bt_tuya_mcu = 2
type_code bt_factory = 3

unfoldable pub buffer_len : BufferType → ℕ
buffer_len bt_mcu = 32
buffer_len bt_tuya_mcu = 128
buffer_len bt_null = 8
buffer_len bt_factory = 8

-- calloc and bzero.
unfoldable pub new_buffer : BufferType → BuffData
new_buffer t = record { type = t; slen = buffer_len t; len = 0; buf = replicate (buffer_len t) 0 }

-- The first buffer of the pool that fits, and the rest.
unfoldable pub take_buffer : BufferType → List BuffData → Option (BuffData × List BuffData)
take_buffer t [] = none
take_buffer t (bf ∷ bs) =
    let rest : Option (BuffData × List BuffData) = elim (take_buffer t bs) [
      | none ↦ none
      | some (found, others) ↦ some (found, bf ∷ others)
    ] in
    if type_code bf.type == type_code t && bf.slen == buffer_len t
    then some (record bf { len = 0 }, bs)
    else rest

unfoldable pub obtain : PacketBuffer → BuffData × PacketBuffer
obtain p = elim (take_buffer p.type p.buffs) [
  | none ↦ (new_buffer p.type, p)
  | some (bf, rest) ↦ (bf, record p { buffs = rest })
]

pub recycle : PacketBuffer → BuffData → PacketBuffer
recycle p bf = record p { buffs = p.buffs ++ record bf { buf = replicate bf.slen 0; len = 0 } ∷ [] }

-- mRCV writes through to the buffer it has parsed.
abbrev store : BuffData → Received → BuffData
store bf r = record bf { buf = r.buf; len = r.dlen }

-- The other types have no frame class; the constructor leaves their pointers unset.
pub add : BuffData → BufferType → List ℕ → BuffData × ℕ
add bf bt_mcu in_buf = let (r, n) = mcu_add (parse bf) in_buf in (store bf r, n)
add bf bt_tuya_mcu in_buf = let (r, n) = tuya_add (parse bf) in_buf in (store bf r, n)
add bf bt_null in_buf = (bf, 0)
add bf bt_factory in_buf = (bf, 0)

pub complete : BufferType → BuffData → Bool
complete bt_mcu bf = mcu_complete (parse bf)
complete bt_tuya_mcu bf = tuya_complete (parse bf)
complete bt_null bf = false
complete bt_factory bf = false

pub check : BufferType → BuffData → Bool
check bt_mcu bf = mcu_check (parse bf)
check bt_tuya_mcu bf = tuya_check (parse bf)
check bt_null bf = false
check bt_factory bf = false

-- for (short i = 0; i < src->len; i++), over the bytes in use.
pub same_bytes : List ℕ → List ℕ → ℕ → Bool
same_bytes xs ys zero = true
same_bytes [] [] (suc n) = true
same_bytes [] (y ∷ ys) (suc n) = 0 == y && same_bytes [] ys n
same_bytes (x ∷ xs) [] (suc n) = x == 0 && same_bytes xs [] n
same_bytes (x ∷ xs) (y ∷ ys) (suc n) = x == y && same_bytes xs ys n

-- A frame with a key in bytes 6 to 9 is never the same as another.
pub compare : BufferType → BuffData → BuffData → Bool
compare bt_mcu src dst =
    if not (type_code src.type == type_code dst.type)
    then false
    else if not (src.len == dst.len)
    then false
    else if not (same_bytes src.buf dst.buf src.len)
    then false
    else not (
        ltb 0 (byte_at src.buf 6)
        || ltb 0 (byte_at src.buf 7)
        || ltb 0 (byte_at src.buf 8)
        || ltb 0 (byte_at src.buf 9))
compare bt_tuya_mcu src dst = false
compare bt_null src dst = true
compare bt_factory src dst = true

pub check_code : BufferType → BuffData → BuffData
check_code bt_mcu bf = checkcode_mcu (parse_mcu bf)
check_code bt_tuya_mcu bf = checkcode_tuya (parse_tuya bf)
check_code bt_null bf = bf
check_code bt_factory bf = bf

-- What `getData` of the answer that `ack` returns gives.
unfoldable pub ack_data : BufferType → BuffData → ℕ → ℕ
ack_data bt_mcu bf pos = mcu_get_data (parse bf) pos
ack_data bt_tuya_mcu bf pos = tuya_get_data (parse bf) pos
ack_data bt_null bf pos = 0
ack_data bt_factory bf pos = 0
