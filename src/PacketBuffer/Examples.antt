-- ===== src/PacketBuffer/Examples.antt =====
-- The packet buffer of src/protocol/packet_buffer.cc at concrete buffers, and its properties.
use cdroid_demo.Common.{ℕ, [], ◌∷◌, replicate}
use cdroid_demo.Frame.{BuffData, bt_mcu}
use cdroid_demo.PacketBuffer.{PacketBuffer}

-- Two frames of 16 bytes that are the same, in buffers that differ behind them.
abbrev frame_and : ℕ → BuffData
frame_and b = record { type = bt_mcu; slen = 32; len = 16; buf = 0x02 ∷ 0x10 ∷ b ∷ replicate 29 0 }

abbrev empty_pool : PacketBuffer
empty_pool = record { type = bt_mcu; buffs = [] }
