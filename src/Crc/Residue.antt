-- ===== src/Crc/Residue.antt =====
-- A message followed by its own checksum, low byte first, leaves the register at 0.
use cdroid_demo.Common.{
  ℕ, ◌+◌, ◌*◌, ◌/◌, ◌%◌, ◌^◌, ◌≡◌, refl, ap, ◌∙◌, List, [], ◌∷◌, ◌++◌, arith, bit_xor,
}
use cdroid_demo.Common.Bits.{bit_xor_self, bit_xor_low}
use cdroid_demo.Crc.{crc_byte, crc16, crc16_modbus, poly_modbus}
use cdroid_demo.Crc.Linear.{shifts_exact}

pub crc16-append :
    (poly c : ℕ) (xs ys : List ℕ) → crc16 poly c (xs ++ ys) ≡ crc16 poly (crc16 poly c xs) ys
unfolding crc16
crc16-append poly c [] ys = refl
crc16-append poly c (x ∷ xs) ys = crc16-append poly (crc_byte poly c x) xs ys

-- Mixing in the low byte of the register leaves the high byte.
crc_byte_low : (poly c : ℕ) → crc_byte poly c (c % 256) ≡ c / 256
unfolding crc_byte
crc_byte_low poly c = rw cleared (shifts_exact poly 8 (c / 256))
  where
    split : c ≡ c / 256 * 2 ^ 8 + c % 256
    split = omega arith

    cleared : bit_xor c (c % 256) ≡ c / 256 * 2 ^ 8
    cleared =
        ap (λ (t : ℕ). bit_xor t (c % 256)) split
        ∙ bit_xor_low 8 (c / 256) (c % 256) (c % 256) (omega arith)
        ∙ omega (arith, bit_xor_self (c % 256))

crc_byte_self : (poly c : ℕ) → crc_byte poly c c ≡ 0
unfolding crc_byte
crc_byte_self poly c = rw (bit_xor_self c) (shifts_exact poly 8 0)

pub crc16_residue :
    (poly init : ℕ) (bs : List ℕ)
    → let c = crc16 poly init bs in crc16 poly init (bs ++ (c % 256) ∷ (c / 256) ∷ []) ≡ 0
unfolding crc16
crc16_residue poly init bs =
    crc16-append poly init bs _
    ∙ rw (crc_byte_low poly (crc16 poly init bs)) (crc_byte_self poly (crc16 poly init bs / 256))

-- A message with its `CRC16_Modbus` behind it, low byte first, has the checksum 0.
pub crc16_modbus_residue :
    (bs : List ℕ) → crc16_modbus (bs ++ (crc16_modbus bs % 256) ∷ (crc16_modbus bs / 256) ∷ []) ≡ 0
unfolding crc16_modbus
crc16_modbus_residue bs = crc16_residue poly_modbus 0xffff bs
