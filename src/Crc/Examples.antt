-- ===== src/Crc/Examples.antt =====
-- The checksums of src/common/crc.cc at concrete bytes, and the properties there.
use cdroid_demo.Common.{ℕ, ◌-◌, ◌≡◌, List, [], ◌∷◌, arith}
use cdroid_demo.Crc.{crc16, poly_ccitt, crc16_ccitt, fuc_get_crc}
use cdroid_demo.Crc.Table.{fuc_get_crc-eq-crc16}

-- "123", and "12" before and "4" behind a byte.
abbrev digits : List ℕ
digits = 0x31 ∷ 0x32 ∷ 0x33 ∷ []

abbrev front : List ℕ
front = 0x31 ∷ 0x32 ∷ []

abbrev back : List ℕ
back = 0x34 ∷ []

fuc_get_crc-eq-crc16_example :
    (fuc_get_crc 0xffff digits ≡ 0xffff - crc16 poly_ccitt 0xffff digits)
    × (fuc_get_crc 0 digits ≡ 0xffff - crc16_ccitt digits)
fuc_get_crc-eq-crc16_example =
    fuc_get_crc-eq-crc16 0xffff digits (omega arith, (omega arith, (omega arith, tt)))
