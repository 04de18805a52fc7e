-- ===== src/Crc/Table.antt =====
-- The table-driven checksum of crc.cc against the shift register.
use cdroid_demo.Common.{
  ℕ, ◌+◌, ◌-◌, ◌*◌, ◌/◌, ◌%◌, ◌^◌, ◌<◌, ◌≡◌, refl, sym, ap, ◌∙◌, List, [], ◌∷◌, arith, bit_xor,
  bit_and, get_or, All, IsByte, ◌==◌, ==_iff, true,
}
use cdroid_demo.Common.Bits.{
  bit_xor_low, bit_xor_assoc, bit_xor_comm, bit_xor-lt, zero-bit_xor, bit_and-fifteen, each_below,
  each_below-true,
}
use cdroid_demo.Crc.{
  crc_shift, shifts, crc_byte, crc16, crc16_ccitt, poly_ccitt, crc_table, table_round, table_loop,
  fuc_get_crc,
}
use cdroid_demo.Crc.Linear.{shifts-bit_xor, shifts_exact, shifts_eight}

-- Two fields that do not overlap.
fields : (q r : ℕ) → r < 16 → bit_xor (q * 2 ^ 4) r ≡ q * 16 + r
fields q r h =
    ap (λ (t : ℕ). bit_xor t r) {x = q * 2 ^ 4} {y = q * 2 ^ 4 + 0} (omega arith)
    ∙ bit_xor_low 4 q 0 r h
    ∙ omega (arith, zero-bit_xor r)

-- The table holds four shifts of each nibble.
table_entries : each_below 16 (λ r. shifts poly_ccitt 4 r == get_or crc_table r 0) ≡ true
unfolding each_below shifts crc_shift
table_entries = refl

table_entry : (r : ℕ) → r < 16 → shifts poly_ccitt 4 r ≡ get_or crc_table r 0
table_entry r h = (==_iff _ _).0 (each_below-true 16 _ r h table_entries)

four_shifts :
    (q r : ℕ) → r < 16 → shifts poly_ccitt 4 (q * 16 + r) ≡ bit_xor q (get_or crc_table r 0)
four_shifts q r h = rw (
  ← fields q r h,
  shifts-bit_xor poly_ccitt 4 (q * 2 ^ 4) r,
  shifts_exact poly_ccitt 4 q,
  table_entry r h,
)

table_round-eq-shifts :
    (c nibble : ℕ) → nibble < 16 → table_round c nibble ≡ shifts poly_ccitt 4 (bit_xor c nibble)
unfolding table_round
table_round-eq-shifts c nibble h = rw mixed (
    rw
      (four_shifts (c / 16) (bit_xor (c % 16) nibble)
        (bit_xor-lt 4 (c % 16) nibble (omega arith) h))
      (rw (bit_and-fifteen c)))
  where
    split : c ≡ c / 16 * 2 ^ 4 + c % 16
    split = omega arith

    mixed : bit_xor c nibble ≡ c / 16 * 16 + bit_xor (c % 16) nibble
    mixed =
        ap (λ (t : ℕ). bit_xor t nibble) split
        ∙ bit_xor_low 4 (c / 16) (c % 16) nibble (omega arith)

two_rounds :
    (c b : ℕ)
    → b < 256
    → table_round (table_round c (bit_and b 0x0f)) (b / 16) ≡ crc_byte poly_ccitt c b
unfolding crc_byte
two_rounds c b h =
    rw (bit_and-fifteen b, table_round-eq-shifts c (b % 16) (omega arith))
      (rw (table_round-eq-shifts (shifts poly_ccitt 4 (bit_xor c (b % 16))) (b / 16) (omega arith))
        (rw (shifts_eight poly_ccitt (bit_xor c b)) (ap (shifts poly_ccitt 4) (sym high))))
  where
    nibbles : b ≡ bit_xor (b / 16 * 2 ^ 4) (b % 16)
    nibbles = omega (arith, fields (b / 16) (b % 16) (omega arith))

    regrouped : bit_xor c b ≡ bit_xor (bit_xor c (b % 16)) (b / 16 * 2 ^ 4)
    regrouped =
        ap (bit_xor c) (nibbles ∙ bit_xor_comm (b / 16 * 2 ^ 4) (b % 16))
        ∙ sym (bit_xor_assoc c (b % 16) (b / 16 * 2 ^ 4))

    high :
        shifts poly_ccitt 4 (bit_xor c b)
        ≡ bit_xor (shifts poly_ccitt 4 (bit_xor c (b % 16))) (b / 16)
    high =
        ap (shifts poly_ccitt 4) regrouped
        ∙ shifts-bit_xor poly_ccitt 4 (bit_xor c (b % 16)) (b / 16 * 2 ^ 4)
        ∙ ap (bit_xor (shifts poly_ccitt 4 (bit_xor c (b % 16))))
            (shifts_exact poly_ccitt 4 (b / 16))

table_loop-eq-crc16 :
    (c : ℕ) (bs : List ℕ) → All IsByte bs → table_loop c bs ≡ crc16 poly_ccitt c bs
unfolding table_loop crc16
table_loop-eq-crc16 c [] h = refl
table_loop-eq-crc16 c (b ∷ bs) h =
    rw (two_rounds c b h.0) (table_loop-eq-crc16 (crc_byte poly_ccitt c b) bs h.1)

-- On bytes the table-driven routine is the complement of the shift register started at `init`;
-- started at 0, it is the complement of `CRC16_CCITT`.
pub fuc_get_crc-eq-crc16 :
    (init : ℕ) (ptr : List ℕ)
    → All IsByte ptr
    → (fuc_get_crc init ptr ≡ 0xffff - crc16 poly_ccitt init ptr)
      × (fuc_get_crc 0 ptr ≡ 0xffff - crc16_ccitt ptr)
unfolding fuc_get_crc crc16_ccitt
fuc_get_crc-eq-crc16 init ptr h = (
  ap (λ (t : ℕ). 0xffff - t) (table_loop-eq-crc16 init ptr h),
  ap (λ (t : ℕ). 0xffff - t) (table_loop-eq-crc16 0 ptr h),
)
