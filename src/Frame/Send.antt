-- ===== src/Frame/Send.antt =====
-- src/protocol/mcu_ui.h, UI2MCU and UI2TUYA: frames are written in place and closed by a checksum.
pub mod Closing
pub mod Writing
use cdroid_demo.Common.{ℕ, ◌+◌, ◌-◌, ◌*◌, ◌/◌, ◌%◌, List, take, set, bit_and, ◌==◌, if◌then◌else◌}
use cdroid_demo.Crc.{crc16_modbus}
use cdroid_demo.Frame.{BuffData, byte_at}
use cdroid_demo.Frame.Receive.{byte_sum}

abbrev pub snd_buf_len : ℕ
snd_buf_len = 32

-- An empty buffer is given its length and its frame head.
pub parse_mcu : BuffData → BuffData
parse_mcu bf = if bf.len == 0 then record bf { len = snd_buf_len; buf = set bf.buf 0 0x02 } else bf

pub set_data : BuffData → ℕ → ℕ → BuffData
set_data bf pos v = record bf { buf = set bf.buf pos v }

pub set_cmd : BuffData → ℕ → BuffData
set_cmd bf cmd = record bf { buf = set bf.buf 1 cmd }

pub set_len : BuffData → ℕ → BuffData
set_len bf len = record bf { len = len }

-- The low byte first. `len` is at least 2.
pub checkcode_mcu : BuffData → BuffData
checkcode_mcu bf =
    let cyc16 = crc16_modbus (take (bf.len - 2) bf.buf) in
    record bf {
      buf = set (set bf.buf (bf.len - 2) (bit_and cyc16 0xff)) (bf.len - 1) (cyc16 / 256);
    }

abbrev pub tuya_snd_len : ℕ
tuya_snd_len = 128

pub parse_tuya : BuffData → BuffData
parse_tuya bf =
    if bf.len == 0
    then record bf { len = tuya_snd_len; buf = set (set (set bf.buf 0 0x55) 1 0xaa) 2 0x03 }
    else bf

pub set_cmd_tuya : BuffData → ℕ → BuffData
set_cmd_tuya bf cmd = record bf { buf = set bf.buf 3 cmd }

-- `Sum` takes its length as a byte.
pub checkcode_tuya : BuffData → BuffData
checkcode_tuya bf =
    let len = byte_at bf.buf 4 * 256 + byte_at bf.buf 5 + 7 in
    record bf { len = len; buf = set bf.buf (len - 1) (byte_sum ((len - 1) % 256) bf.buf 0) }
