-- ===== src/Frame/Send/Closing.antt =====
-- The checksums that close outgoing frames.
use cdroid_demo.Common.{
  ℕ, zero, suc, ◌-◌, ◌/◌, ◌%◌, ◌≤◌, ◌<◌, ◌≡◌, refl, ap, ap₂, ◌∙◌, List, [], ◌∷◌, ◌++◌, take, set,
  get_or, length, arith, bit_and, length-set, take-set, set_same, get_or-set_self, get_or-set_ne,
}
use cdroid_demo.Common.Bits.{bit_and_byte}
use cdroid_demo.Crc.{crc16_modbus}
use cdroid_demo.Crc.Residue.{crc16_modbus_residue}
use cdroid_demo.Frame.{BuffData}
use cdroid_demo.Frame.Send.{checkcode_mcu, parse_mcu}

take_two_set :
    (n : ℕ) (xs : List ℕ) (a b : ℕ)
    → suc (suc n) ≤ length xs
    → take (suc (suc n)) (set (set xs n a) (suc n) b) ≡ take n xs ++ a ∷ b ∷ []
take_two_set n [] a b h = absurd (omega arith)
take_two_set n (x ∷ []) a b h = absurd (omega arith)
take_two_set zero (x ∷ y ∷ xs) a b h = refl
take_two_set (suc n) (x ∷ y ∷ xs) a b h = ap (◌∷◌ x) (take_two_set n (y ∷ xs) a b (omega arith))

-- The bytes in use after the checksum has been written: those before it, and the checksum.
checkcode_mcu_bytes :
    (bf : BuffData)
    → 2 ≤ bf.len
    → bf.len ≤ length bf.buf
    → let c = crc16_modbus (take (bf.len - 2) bf.buf) in
      take bf.len (checkcode_mcu bf).buf ≡ take (bf.len - 2) bf.buf ++ (c % 256) ∷ (c / 256) ∷ []
unfolding checkcode_mcu
checkcode_mcu_bytes bf h k =
    ap₂ (λ (p q : ℕ). take p (set (set bf.buf n (bit_and c 255)) q (c / 256))) {x = bf.len}
      {y = suc (suc n)} (omega arith) (omega arith)
    ∙ take_two_set n bf.buf (bit_and c 255) (c / 256) (omega arith)
    ∙ ap (λ l. take n bf.buf ++ l ∷ (c / 256) ∷ []) (bit_and_byte c)
  where
    n : ℕ
    n = bf.len - 2

    c : ℕ
    c = crc16_modbus (take n bf.buf)

-- A frame that `checkcode` has closed leaves the Modbus register at 0, keeps its length and all
-- bytes before the checksum, and closing it again changes nothing.
pub checkcode_mcu_lem :
    (bf : BuffData)
    → 2 ≤ bf.len
    → bf.len ≤ length bf.buf
    → (crc16_modbus (take bf.len (checkcode_mcu bf).buf) ≡ 0)
      × ((checkcode_mcu bf).len ≡ bf.len)
      × (take (bf.len - 2) (checkcode_mcu bf).buf ≡ take (bf.len - 2) bf.buf)
      × (checkcode_mcu (checkcode_mcu bf) ≡ checkcode_mcu bf)
unfolding checkcode_mcu
checkcode_mcu_lem bf h k = (
  ap crc16_modbus (checkcode_mcu_bytes bf h k) ∙ crc16_modbus_residue (take n bf.buf),
  refl,
  before,
  again,
)
  where
    n : ℕ
    n = bf.len - 2

    m : ℕ
    m = bf.len - 1

    lo : ℕ
    lo = bit_and (crc16_modbus (take n bf.buf)) 255

    hi : ℕ
    hi = crc16_modbus (take n bf.buf) / 256

    closed : List ℕ
    closed = set (set bf.buf n lo) m hi

    before : take n closed ≡ take n bf.buf
    before = take-set n (set bf.buf n lo) m hi (omega arith) ∙ take-set n bf.buf n lo (omega arith)

    size : length closed ≡ length bf.buf
    size = length-set (set bf.buf n lo) m hi ∙ length-set bf.buf n lo

    kept_lo : set closed n lo ≡ closed
    kept_lo = set_same closed n lo 0 (omega (arith, size)) (
        get_or-set_ne (set bf.buf n lo) m n hi 0 (omega arith)
        ∙ get_or-set_self bf.buf n lo 0 (omega arith))

    kept_hi : set closed m hi ≡ closed
    kept_hi =
        set_same closed m hi 0 (omega (arith, size))
          (get_or-set_self (set bf.buf n lo) m hi 0 (omega (arith, length-set bf.buf n lo)))

    again : checkcode_mcu (checkcode_mcu bf) ≡ checkcode_mcu bf
    again =
        ap
          (λ (l : List ℕ). record bf {
            buf = set (set closed n (bit_and (crc16_modbus l) 255)) m (crc16_modbus l / 256);
          })
          before
        ∙ ap (λ (l : List ℕ). record bf { buf = set l m hi }) kept_lo
        ∙ ap (λ (l : List ℕ). record bf { buf = l }) kept_hi

pub length-checkcode_mcu : (bf : BuffData) → length (checkcode_mcu bf).buf ≡ length bf.buf
unfolding checkcode_mcu
length-checkcode_mcu bf = length-set _ _ _ ∙ length-set _ _ _

-- A buffer in use is not given a head again.
pub parse_mcu_full : (bf : BuffData) → 0 < bf.len → parse_mcu bf ≡ bf
unfolding parse_mcu
parse_mcu_full bf h = ground arith

-- An empty buffer is given its length and its head.
pub parse_mcu_new :
    (bf : BuffData)
    → bf.len ≡ 0
    → 0 < length bf.buf
    → ((parse_mcu bf).len ≡ 32)
      × (length (parse_mcu bf).buf ≡ length bf.buf)
      × (get_or (parse_mcu bf).buf 0 0 ≡ 0x02)
unfolding parse_mcu
parse_mcu_new bf h k = ground (arith, length-set bf.buf 0 0x02, get_or-set_self bf.buf 0 0x02 0 k)
