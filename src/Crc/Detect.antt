-- ===== src/Crc/Detect.antt =====
-- The shift register loses nothing, so one changed byte shows.
use cdroid_demo.Common.{
  ℕ, zero, suc, ◌+◌, ◌-◌, ◌*◌, ◌/◌, ◌%◌, ◌^◌, ◌<◌, ◌≤◌, ◌≡◌, ◌≢◌, sym, ap, ◌∙◌, ◌⊎◌, inl, inr, List,
  [], ◌∷◌, ◌++◌, arith, bit_xor, All, IsByte,
}
use cdroid_demo.Common.Bits.{bit_xor_comm, bit_xor-injective, bit_xor_low, bit_xor-lt}
use cdroid_demo.Crc.{
  crc_shift, shifts, crc_byte, crc16, crc16_modbus, crc16_ccitt, poly_modbus, poly_ccitt,
}
use cdroid_demo.Crc.Linear.{crc_shift_even, crc_shift_odd, parity, crc_shift-lt, shifts-lt}
use cdroid_demo.Crc.Residue.{crc16-append}

-- The polynomial has its top digit.
module _ (poly : ℕ) (top : 2 ^ 15 ≤ poly) (fits : poly < 2 ^ 16) where
  odd_high : (c : ℕ) → c < 2 ^ 15 → 2 ^ 15 ≤ bit_xor c poly
  odd_high c h = omega (
    arith,
    bit_xor_comm c poly,
    ap (λ (t : ℕ). bit_xor t c) split,
    bit_xor_low 15 1 (poly - 2 ^ 15) c h,
  )
    where
      split : poly ≡ 1 * 2 ^ 15 + (poly - 2 ^ 15)
      split = omega arith

  crc_shift-injective :
      (a b : ℕ) → a < 2 ^ 16 → b < 2 ^ 16 → crc_shift poly a ≡ crc_shift poly b → a ≡ b
  crc_shift-injective a b ha hb e = go (parity a) (parity b)
    where
      go : (a % 2 ≡ 0) ⊎ (a % 2 ≡ 1) → (b % 2 ≡ 0) ⊎ (b % 2 ≡ 1) → a ≡ b
      go (inl p) (inl q) = omega (arith, e, crc_shift_even poly a p, crc_shift_even poly b q)
      go (inl p) (inr q) = absurd (
          omega (
            arith,
            e,
            crc_shift_even poly a p,
            crc_shift_odd poly b q,
            odd_high (b / 2) (omega arith),
          ))
      go (inr p) (inl q) = absurd (
          omega (
            arith,
            e,
            crc_shift_odd poly a p,
            crc_shift_even poly b q,
            odd_high (a / 2) (omega arith),
          ))
      go (inr p) (inr q) = omega (
        arith,
        bit_xor-injective poly (a / 2) (b / 2) (
            bit_xor_comm poly (a / 2)
            ∙ sym (crc_shift_odd poly a p)
            ∙ e
            ∙ crc_shift_odd poly b q
            ∙ bit_xor_comm (b / 2) poly),
      )

  shifts-injective :
      (n a b : ℕ) → a < 2 ^ 16 → b < 2 ^ 16 → shifts poly n a ≡ shifts poly n b → a ≡ b
  unfolding shifts
  shifts-injective zero a b ha hb e = e
  shifts-injective (suc n) a b ha hb e = crc_shift-injective a b ha hb (
      shifts-injective n (crc_shift poly a) (crc_shift poly b) (crc_shift-lt poly a fits ha)
        (crc_shift-lt poly b fits hb) e)

  crc_byte-lt : (c b : ℕ) → c < 2 ^ 16 → b < 256 → crc_byte poly c b < 2 ^ 16
  unfolding crc_byte
  crc_byte-lt c b hc hb = shifts-lt poly 8 _ fits (bit_xor-lt 16 c b hc (omega arith))

  pub crc16-lt : (c : ℕ) (bs : List ℕ) → c < 2 ^ 16 → All IsByte bs → crc16 poly c bs < 2 ^ 16
  unfolding crc16
  crc16-lt c [] hc hb = hc
  crc16-lt c (b ∷ bs) hc hb = crc16-lt (crc_byte poly c b) bs (crc_byte-lt c b hc hb.0) hb.1

  crc_byte-injective :
      (c d b : ℕ)
      → c < 2 ^ 16
      → d < 2 ^ 16
      → b < 256
      → crc_byte poly c b ≡ crc_byte poly d b
      → c ≡ d
  unfolding crc_byte
  crc_byte-injective c d b hc hd hb e = bit_xor-injective b c d (
      bit_xor_comm b c
      ∙ shifts-injective 8 (bit_xor c b) (bit_xor d b) (bit_xor-lt 16 c b hc (omega arith))
          (bit_xor-lt 16 d b hd (omega arith)) e
      ∙ bit_xor_comm d b)

  crc_byte-injective_right :
      (c a b : ℕ) → c < 2 ^ 16 → a < 256 → b < 256 → crc_byte poly c a ≡ crc_byte poly c b → a ≡ b
  unfolding crc_byte
  crc_byte-injective_right c a b hc ha hb e = bit_xor-injective c a b (
      shifts-injective 8 (bit_xor c a) (bit_xor c b) (bit_xor-lt 16 c a hc (omega arith))
        (bit_xor-lt 16 c b hc (omega arith)) e)

  crc16-injective :
      (c d : ℕ) (bs : List ℕ)
      → c < 2 ^ 16
      → d < 2 ^ 16
      → All IsByte bs
      → crc16 poly c bs ≡ crc16 poly d bs
      → c ≡ d
  unfolding crc16
  crc16-injective c d [] hc hd hb e = e
  crc16-injective c d (b ∷ bs) hc hd hb e = crc_byte-injective c d b hc hd hb.0 (
      crc16-injective (crc_byte poly c b) (crc_byte poly d b) bs (crc_byte-lt c b hc hb.0)
        (crc_byte-lt d b hd hb.0) hb.1 e)

  pub crc16_detects :
      (init : ℕ) (xs ys : List ℕ) (a b : ℕ)
      → init < 2 ^ 16
      → All IsByte xs
      → All IsByte ys
      → a < 256
      → b < 256
      → crc16 poly init (xs ++ a ∷ ys) ≡ crc16 poly init (xs ++ b ∷ ys)
      → a ≡ b
  unfolding crc16
  crc16_detects init xs ys a b hi hx hy ha hb e = crc_byte-injective_right c a b hc ha hb (
      crc16-injective (crc_byte poly c a) (crc_byte poly c b) ys (crc_byte-lt c a hc ha)
        (crc_byte-lt c b hc hb) hy
        (sym (crc16-append poly init xs (a ∷ ys)) ∙ e ∙ crc16-append poly init xs (b ∷ ys)))
    where
      c : ℕ
      c = crc16 poly init xs

      hc : c < 2 ^ 16
      hc = crc16-lt init xs hi hx

-- Two messages that differ in one byte have different checksums, by both routines.
pub crc16_one_byte :
    (xs ys : List ℕ) (a b : ℕ)
    → All IsByte xs
    → All IsByte ys
    → a < 256
    → b < 256
    → a ≢ b
    → (crc16_modbus (xs ++ a ∷ ys) ≢ crc16_modbus (xs ++ b ∷ ys))
      × (crc16_ccitt (xs ++ a ∷ ys) ≢ crc16_ccitt (xs ++ b ∷ ys))
unfolding crc16_modbus crc16_ccitt
crc16_one_byte xs ys a b hx hy ha hb ne = (
  λ e. ne (
      crc16_detects poly_modbus (omega arith) (omega arith) 0xffff xs ys a b (omega arith) hx hy ha
        hb e),
  λ e. ne (
      crc16_detects poly_ccitt (omega arith) (omega arith) 0 xs ys a b (omega arith) hx hy ha hb e),
)
