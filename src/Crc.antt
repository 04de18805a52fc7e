-- ===== src/Crc.antt =====
-- src/common/crc.cc: the 16-bit checksums of the serial frames.
pub mod Linear
pub mod Residue
pub mod Table
pub mod Detect
mod Examples
use cdroid_demo.Common.{
  ℕ, zero, suc, ◌-◌, ◌/◌, List, [], ◌∷◌, bit_and, bit_xor, ltb, get_or, if◌then◌else◌,
}

-- One round of the inner loop of both checksums, with the reversed polynomial `poly`.
pub crc_shift : ℕ → ℕ → ℕ
crc_shift poly crc = if ltb 0 (bit_and crc 0x0001) then bit_xor (crc / 2) poly else crc / 2

pub shifts : ℕ → ℕ → ℕ → ℕ
shifts poly zero crc = crc
shifts poly (suc n) crc = shifts poly n (crc_shift poly crc)

-- One round of the outer loop: the byte is mixed in, and eight shifts follow.
pub crc_byte : ℕ → ℕ → ℕ → ℕ
crc_byte poly crc b = shifts poly 8 (bit_xor crc b)

pub crc16 : ℕ → ℕ → List ℕ → ℕ
crc16 poly crc [] = crc
crc16 poly crc (b ∷ bs) = crc16 poly (crc_byte poly crc b) bs

abbrev pub poly_ccitt : ℕ
poly_ccitt = 0x8408

abbrev pub poly_modbus : ℕ
poly_modbus = 0xa001

-- `pdata` holds the `len` bytes that are read.
pub crc16_ccitt : List ℕ → ℕ
crc16_ccitt pdata = crc16 poly_ccitt 0x0000 pdata

pub crc16_modbus : List ℕ → ℕ
crc16_modbus pdata = crc16 poly_modbus 0xffff pdata

abbrev pub crc_table : List ℕ
crc_table =
    0x0000 ∷ 0x1081 ∷ 0x2102 ∷ 0x3183 ∷ 0x4204 ∷ 0x5285 ∷ 0x6306 ∷ 0x7387 ∷ 0x8408 ∷ 0x9489 ∷ 0xa50a
    ∷ 0xb58b ∷ 0xc60c ∷ 0xd68d ∷ 0xe70e ∷ 0xf78f ∷ []

pub table_round : ℕ → ℕ → ℕ
table_round crc nibble = bit_xor (crc / 16) (get_or crc_table (bit_xor (bit_and crc 0x0f) nibble) 0)

pub table_loop : ℕ → List ℕ → ℕ
table_loop crc [] = crc
table_loop crc (b ∷ bs) = table_loop (table_round (table_round crc (bit_and b 0x0f)) (b / 16)) bs

-- `~` on 16 bits is the distance from 0xffff.
pub fuc_get_crc : ℕ → List ℕ → ℕ
fuc_get_crc init ptr = 0xffff - table_loop init ptr
