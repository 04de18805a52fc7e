-- ===== src/Common/Bits.antt =====
-- Laws of `bit_xor` and `bit_and`, from the recursion on binary digits that they stand for.
use Prim.Native.Nat.{
  ℕ, zero, suc, ◌+◌, ◌*◌, ◌/◌, ◌%◌, ◌≤◌, ◌<◌, ◌^◌, digits, bitwise, bit_xor, bit_and, bit_or, min,
  max, bit_or-bitwise, differ, bit_xor-bitwise, bit_and-bitwise,
}
use mathlib.Core.Path.{◌≡◌, refl, sym, ap, ◌∙◌}
use mathlib.Core.Bool.{Bool, true, ◌&&◌}
use mathlib.Core.WellFounded.{Acc, WellFounded}
use native.Mathlib.Nat.{le_refl, pow-suc}
use native.Mathlib.Omega.{arith}

Acc-below : (k n : ℕ) → n < k → Acc ◌<◌ n
Acc-below zero n h = elim h [ ]
Acc-below (suc k) n h = Acc.intro n (λ m hm. Acc-below k m (omega arith))

pub lt_wf : WellFounded ◌<◌
lt_wf = record { apply = λ n. Acc-below (suc n) n (omega arith) }

-- With fuel for its first number, the recursion is `bitwise` itself.
module _ (z : ℕ → ℕ) (f : ℕ → ℕ → ℕ) where
  digits-bitwise :
      (bound fuel x y : ℕ) → fuel ≤ bound → x ≤ fuel → digits z f fuel x y ≡ bitwise z f x y
  digits-bitwise bound zero zero y g h = refl
  digits-bitwise bound (suc fuel) zero y g h = refl
  digits-bitwise bound zero (suc x) y g h = absurd (omega arith)
  digits-bitwise zero (suc fuel) (suc x) y g h = absurd (omega arith)
  digits-bitwise (suc bound) (suc fuel) (suc x) y g h = omega (
    arith,
    digits-bitwise bound fuel (suc x / 2) (y / 2) (omega arith) (omega arith),
    digits-bitwise bound x (suc x / 2) (y / 2) (omega arith) (omega arith),
  )

  -- Its lowest digit, and the rest.
  bitwise_halves :
      (x y : ℕ)
      → bitwise z f (suc x) y ≡ f (suc x % 2) (y % 2) + 2 * bitwise z f (suc x / 2) (y / 2)
  bitwise_halves x y =
      omega (arith, digits-bitwise x x (suc x / 2) (y / 2) (le_refl x) (omega arith))

differ_bits : (x y : ℕ) → x < 2 → y < 2 → differ x y ≡ (x + y) % 2
differ_bits zero y hx hy = omega arith
differ_bits (suc zero) zero hx hy = refl
differ_bits (suc zero) (suc zero) hx hy = refl
differ_bits (suc zero) (suc (suc y)) hx hy = absurd (omega arith)
differ_bits (suc (suc x)) y hx hy = absurd (omega arith)

-- The lowest digit of an exclusive or, and the rest.
pub bit_xor_step : (a b : ℕ) → bit_xor a b ≡ bit_xor (a / 2) (b / 2) * 2 + (a + b) % 2
bit_xor_step zero b = simp bit_xor-bitwise (omega arith)
bit_xor_step (suc a) b = simp bit_xor-bitwise (
    omega (
      arith,
      bitwise_halves (λ y. y) differ a b,
      differ_bits (suc a % 2) (b % 2) (omega arith) (omega arith),
    ))

pub bit_and_halves : (x y : ℕ) → bit_and x y ≡ min (x % 2) (y % 2) + 2 * bit_and (x / 2) (y / 2)
bit_and_halves zero y = simp bit_and-bitwise (omega arith)
bit_and_halves (suc x) y = simp bit_and-bitwise (bitwise_halves (λ d. 0) min x y)

pub bit_xor-half : (a b : ℕ) → bit_xor a b / 2 ≡ bit_xor (a / 2) (b / 2)
bit_xor-half a b = omega (arith, bit_xor_step a b)

pub bit_xor-parity : (a b : ℕ) → bit_xor a b % 2 ≡ (a + b) % 2
bit_xor-parity a b = omega (arith, bit_xor_step a b)

pub zero-bit_xor : (b : ℕ) → bit_xor 0 b ≡ b
zero-bit_xor b = bit_xor-bitwise 0 b

-- The laws go from the halves to the numbers, so they recur on a bound.
bit_xor_comm_fuel : (n a b : ℕ) → a + b ≤ n → bit_xor a b ≡ bit_xor b a
bit_xor_comm_fuel zero a b h =
    let p : a ≡ 0 = omega arith in let q : b ≡ 0 = omega arith in rw (p, q)
bit_xor_comm_fuel (suc n) zero zero h = refl
bit_xor_comm_fuel (suc n) zero (suc b) h = omega (
  arith,
  bit_xor_step 0 (suc b),
  bit_xor_step (suc b) 0,
  bit_xor_comm_fuel n 0 (suc b / 2) (omega arith),
)
bit_xor_comm_fuel (suc n) (suc a) b h = omega (
  arith,
  bit_xor_step (suc a) b,
  bit_xor_step b (suc a),
  bit_xor_comm_fuel n (suc a / 2) (b / 2) (omega arith),
)

pub bit_xor_comm : (a b : ℕ) → bit_xor a b ≡ bit_xor b a
bit_xor_comm a b = bit_xor_comm_fuel (a + b) a b (le_refl _)

pub bit_xor-zero : (a : ℕ) → bit_xor a 0 ≡ a
bit_xor-zero a = bit_xor_comm a 0 ∙ zero-bit_xor a

bit_xor_assoc_fuel : (n a b c : ℕ) → a ≤ n → bit_xor (bit_xor a b) c ≡ bit_xor a (bit_xor b c)
bit_xor_assoc_fuel n zero b c h = rw (zero-bit_xor b, zero-bit_xor (bit_xor b c))
bit_xor_assoc_fuel zero (suc a) b c h = absurd (omega arith)
bit_xor_assoc_fuel (suc n) (suc a) b c h =
    halves (bit_xor_assoc_fuel n (suc a / 2) (b / 2) (c / 2) (omega arith))
  where
    halves :
        bit_xor (bit_xor (suc a / 2) (b / 2)) (c / 2)
          ≡ bit_xor (suc a / 2) (bit_xor (b / 2) (c / 2))
        → bit_xor (bit_xor (suc a) b) c ≡ bit_xor (suc a) (bit_xor b c)
    halves ih =
        rw (bit_xor_step (bit_xor (suc a) b) c, bit_xor_step (suc a) (bit_xor b c))
          (rw (bit_xor-half (suc a) b, bit_xor-half b c, ih)
            (omega (arith, bit_xor-parity (suc a) b, bit_xor-parity b c)))

pub bit_xor_assoc : (a b c : ℕ) → bit_xor (bit_xor a b) c ≡ bit_xor a (bit_xor b c)
bit_xor_assoc a b c = bit_xor_assoc_fuel a a b c (le_refl a)

bit_xor_self_fuel : (n a : ℕ) → a ≤ n → bit_xor a a ≡ 0
bit_xor_self_fuel n zero h = refl
bit_xor_self_fuel zero (suc a) h = absurd (omega arith)
bit_xor_self_fuel (suc n) (suc a) h =
    omega (arith, bit_xor_step (suc a) (suc a), bit_xor_self_fuel n (suc a / 2) (omega arith))

pub bit_xor_self : (a : ℕ) → bit_xor a a ≡ 0
bit_xor_self a = bit_xor_self_fuel a a (le_refl a)

pub bit_xor_cancel : (a b : ℕ) → bit_xor a (bit_xor a b) ≡ b
bit_xor_cancel a b = rw (← bit_xor_assoc a a b, bit_xor_self a) (zero-bit_xor b)

-- Exclusive or with a fixed number is injective.
pub bit_xor-injective : (a b c : ℕ) → bit_xor a b ≡ bit_xor a c → b ≡ c
bit_xor-injective a b c e =
    sym (bit_xor_cancel a b) ∙ ap (λ (t : ℕ). bit_xor a t) e ∙ bit_xor_cancel a c

-- Numbers of `k` digits stay so.
pub bit_xor-lt : (k a b : ℕ) → a < 2 ^ k → b < 2 ^ k → bit_xor a b < 2 ^ k
bit_xor-lt zero a b ha hb =
    let p : a ≡ 0 = omega arith in let q : b ≡ 0 = omega arith in rw (p, q) (omega arith)
bit_xor-lt (suc k) a b ha hb = omega (
  arith,
  pow-suc 2 k,
  bit_xor_step a b,
  bit_xor-lt k (a / 2) (b / 2) (omega (arith, pow-suc 2 k)) (omega (arith, pow-suc 2 k)),
)

pub bit_or_halves : (x y : ℕ) → bit_or x y ≡ max (x % 2) (y % 2) + 2 * bit_or (x / 2) (y / 2)
bit_or_halves zero y = simp bit_or-bitwise (omega arith)
bit_or_halves (suc x) y = simp bit_or-bitwise (bitwise_halves (λ d. d) max x y)

pub bit_or-lt : (k a b : ℕ) → a < 2 ^ k → b < 2 ^ k → bit_or a b < 2 ^ k
bit_or-lt zero a b ha hb =
    let p : a ≡ 0 = omega arith in let q : b ≡ 0 = omega arith in rw (p, q) (omega arith)
bit_or-lt (suc k) a b ha hb = omega (
  arith,
  pow-suc 2 k,
  bit_or_halves a b,
  bit_or-lt k (a / 2) (b / 2) (omega (arith, pow-suc 2 k)) (omega (arith, pow-suc 2 k)),
)

-- A digit above all others is added.
pub bit_or_top : (k r : ℕ) → r < 2 ^ k → bit_or r (2 ^ k) ≡ r + 2 ^ k
bit_or_top zero r h = let p : r ≡ 0 = omega arith in rw p (bit_or-bitwise 0 1)
bit_or_top (suc k) r h = omega (
  arith,
  pow-suc 2 k,
  bit_or_halves r (2 ^ suc k),
  bit_or_top k (r / 2) (omega (arith, pow-suc 2 k)),
  ap (λ (t : ℕ). bit_or (r / 2) t) half,
)
  where
    half : 2 ^ suc k / 2 ≡ 2 ^ k
    half = omega (arith, pow-suc 2 k)

-- The digits above those of the second number stay.
pub bit_xor_low : (k q r s : ℕ) → s < 2 ^ k → bit_xor (q * 2 ^ k + r) s ≡ q * 2 ^ k + bit_xor r s
bit_xor_low zero q r s h =
    let p : s ≡ 0 = omega arith in
    rw p (omega (arith, bit_xor-zero (q * 2 ^ 0 + r), bit_xor-zero r))
bit_xor_low (suc k) q r s h = rw halved (
    omega (
      arith,
      bit_xor_step (2 * (q * 2 ^ k) + r) s,
      ap (λ (t : ℕ). bit_xor t (s / 2)) quotient,
      bit_xor_step r s,
      bit_xor_low k q (r / 2) (s / 2) (omega (arith, pow-suc 2 k)),
    ))
  where
    halved : q * 2 ^ suc k ≡ 2 * (q * 2 ^ k)
    halved = omega (arith, ap (λ (t : ℕ). q * t) (pow-suc 2 k))

    quotient : (2 * (q * 2 ^ k) + r) / 2 ≡ q * 2 ^ k + r / 2
    quotient = omega arith

-- The digits in common are no more than those of the second number.
bit_and_below : (bound a b : ℕ) → a ≤ bound → bit_and a b ≤ b
bit_and_below bound zero b h = omega (arith, bit_and-bitwise 0 b)
bit_and_below zero (suc a) b h = absurd (omega arith)
bit_and_below (suc bound) (suc a) b h =
    omega (arith, bit_and_halves (suc a) b, bit_and_below bound (suc a / 2) (b / 2) (omega arith))

pub bit_and-zero : (a : ℕ) → bit_and a 0 ≡ 0
bit_and-zero a = omega (arith, bit_and_below a a 0 (le_refl a))

pub bit_and-one : (a : ℕ) → bit_and a 1 ≡ a % 2
bit_and-one a = omega (arith, bit_and_halves a 1, bit_and-zero (a / 2))

pub bit_and-three : (a : ℕ) → bit_and a 3 ≡ a % 4
bit_and-three a = omega (arith, bit_and_halves a 3, bit_and-one (a / 2))

pub bit_and-fifteen : (a : ℕ) → bit_and a 15 ≡ a % 16
bit_and-fifteen a =
    omega (arith, bit_and_halves a 15, bit_and_halves (a / 2) 7, bit_and-three (a / 2 / 2))

pub bit_and_byte : (a : ℕ) → bit_and a 255 ≡ a % 256
bit_and_byte a = omega (
  arith,
  bit_and_halves a 255,
  bit_and_halves (a / 2) 127,
  bit_and_halves (a / 2 / 2) 63,
  bit_and_halves (a / 2 / 2 / 2) 31,
  bit_and-fifteen (a / 2 / 2 / 2 / 2),
)

-- A test of the numbers below a bound by evaluation, from 0 on.
unfoldable pub each_below : ℕ → (ℕ → Bool) → Bool
each_below zero test = true
each_below (suc bound) test = each_below bound test && test bound

pub each_below-true :
    (bound : ℕ) (test : ℕ → Bool) (n : ℕ) → n < bound → each_below bound test ≡ true → test n ≡ true
unfolding each_below
each_below-true zero test n h e = absurd (omega arith)
each_below-true (suc bound) test n h e = ground (arith, each_below-true bound test n)
