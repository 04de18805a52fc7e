-- ===== src/Crc/Linear.antt =====
-- The shift register of crc.cc is linear over exclusive or, and keeps to 16 bits.
use cdroid_demo.Common.{
  ℕ, zero, suc, ◌+◌, ◌*◌, ◌/◌, ◌%◌, ◌^◌, ◌<◌, ◌≡◌, refl, ap, ◌∙◌, sym, ◌⊎◌, inl, inr, arith,
  bit_xor,
}
use native.Mathlib.Nat.{pow-suc}
use cdroid_demo.Common.Bits.{
  bit_xor_comm, bit_xor_assoc, bit_xor_self, bit_xor-zero, bit_xor-half, bit_xor-parity, bit_xor-lt,
  bit_and-one,
}
use cdroid_demo.Crc.{crc_shift, shifts}

pub crc_shift_even : (poly c : ℕ) → c % 2 ≡ 0 → crc_shift poly c ≡ c / 2
unfolding crc_shift
crc_shift_even poly c h = ground (arith, bit_and-one c)

pub crc_shift_odd : (poly c : ℕ) → c % 2 ≡ 1 → crc_shift poly c ≡ bit_xor (c / 2) poly
unfolding crc_shift
crc_shift_odd poly c h = ground (arith, bit_and-one c)

pub parity : (c : ℕ) → (c % 2 ≡ 0) ⊎ (c % 2 ≡ 1)
parity c = omega arith

-- (a ^ c) ^ (b ^ d) regrouped.
pub bit_xor_swap :
    (a b c d : ℕ) → bit_xor (bit_xor a c) (bit_xor b d) ≡ bit_xor (bit_xor a b) (bit_xor c d)
bit_xor_swap a b c d =
    rw (bit_xor_assoc a c (bit_xor b d), ← bit_xor_assoc c b d, bit_xor_comm c b)
      (rw (bit_xor_assoc b c d, ← bit_xor_assoc a b (bit_xor c d)) refl)

pub crc_shift-bit_xor :
    (poly a b : ℕ) → crc_shift poly (bit_xor a b) ≡ bit_xor (crc_shift poly a) (crc_shift poly b)
crc_shift-bit_xor poly a b = go (parity a) (parity b)
  where
    sum_parity : bit_xor a b % 2 ≡ (a + b) % 2
    sum_parity = bit_xor-parity a b

    go :
        (a % 2 ≡ 0) ⊎ (a % 2 ≡ 1)
        → (b % 2 ≡ 0) ⊎ (b % 2 ≡ 1)
        → crc_shift poly (bit_xor a b) ≡ bit_xor (crc_shift poly a) (crc_shift poly b)
    go (inl p) (inl q) =
        crc_shift_even poly _ (omega (arith, sum_parity))
        ∙ rw (crc_shift_even poly a p, crc_shift_even poly b q) (bit_xor-half a b)
    go (inl p) (inr q) =
        crc_shift_odd poly _ (omega (arith, sum_parity))
        ∙ rw (crc_shift_even poly a p, crc_shift_odd poly b q, bit_xor-half a b)
            (bit_xor_assoc (a / 2) (b / 2) poly)
    go (inr p) (inl q) =
        crc_shift_odd poly _ (omega (arith, sum_parity))
        ∙ rw (crc_shift_odd poly a p, crc_shift_even poly b q, bit_xor-half a b)
            (bit_xor_assoc (a / 2) (b / 2) poly
              ∙ ap (bit_xor (a / 2)) (bit_xor_comm (b / 2) poly)
              ∙ sym (bit_xor_assoc (a / 2) poly (b / 2)))
    go (inr p) (inr q) =
        crc_shift_even poly _ (omega (arith, sum_parity))
        ∙ rw (crc_shift_odd poly a p, crc_shift_odd poly b q, bit_xor-half a b)
            (sym (bit_xor-zero (bit_xor (a / 2) (b / 2)))
              ∙ ap (bit_xor (bit_xor (a / 2) (b / 2))) (sym (bit_xor_self poly))
              ∙ sym (bit_xor_swap (a / 2) (b / 2) poly poly))

pub shifts-bit_xor :
    (poly n a b : ℕ) → shifts poly n (bit_xor a b) ≡ bit_xor (shifts poly n a) (shifts poly n b)
unfolding shifts
shifts-bit_xor poly zero a b = refl
shifts-bit_xor poly (suc n) a b =
    rw (crc_shift-bit_xor poly a b) (shifts-bit_xor poly n (crc_shift poly a) (crc_shift poly b))

-- Eight rounds are twice four.
pub shifts_eight : (poly c : ℕ) → shifts poly 8 c ≡ shifts poly 4 (shifts poly 4 c)
unfolding shifts
shifts_eight poly c = refl

pub crc_shift-lt : (poly c : ℕ) → poly < 2 ^ 16 → c < 2 ^ 16 → crc_shift poly c < 2 ^ 16
unfolding crc_shift
crc_shift-lt poly c hp hc = ground (arith, bit_xor-lt 16 (c / 2) poly)

pub shifts-lt : (poly n c : ℕ) → poly < 2 ^ 16 → c < 2 ^ 16 → shifts poly n c < 2 ^ 16
unfolding shifts
shifts-lt poly zero c hp hc = hc
shifts-lt poly (suc n) c hp hc = shifts-lt poly n (crc_shift poly c) hp (crc_shift-lt poly c hp hc)

-- A multiple of `2 ^ n` is only shifted.
pub shifts_exact : (poly n q : ℕ) → shifts poly n (q * 2 ^ n) ≡ q
unfolding shifts
shifts_exact poly zero q = omega arith
shifts_exact poly (suc n) q =
    rw (crc_shift_even poly (q * 2 ^ suc n) (omega (arith, doubled)))
      (rw halved (shifts_exact poly n q))
  where
    doubled : q * 2 ^ suc n ≡ 2 * (q * 2 ^ n)
    doubled = omega (arith, ap (λ (t : ℕ). q * t) (pow-suc 2 n))

    halved : q * 2 ^ suc n / 2 ≡ q * 2 ^ n
    halved = omega (arith, doubled)
