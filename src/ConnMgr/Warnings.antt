-- ===== src/ConnMgr/Warnings.antt =====
-- The warnings that onCommDeal reads in an answer of the main board.
use cdroid_demo.Common.{
  ℕ, ◌+◌, ◌*◌, ◌/◌, zero, suc, ◌%◌, ◌^◌, ◌≤◌, ◌<◌, ◌≡◌, refl, ◌⊎◌, true, false, arith, bit_and,
  bit_or, ◌==◌, ==_iff,
}
use cdroid_demo.Common.Bits.{each_below, each_below-true, bit_or_top}
use cdroid_demo.Frame.{BuffData, bt_mcu}
use cdroid_demo.PacketBuffer.{ack_data}
use cdroid_demo.ConnMgr.{ConnMgr, warn_first, warn_comm, warn_last, on_comm_deal, warn_if}

-- A test that holds of every byte by evaluation.
every_byte : (f g : ℕ → ℕ) → each_below 256 (λ n. f n == g n) ≡ true → (n : ℕ) → n < 256 → f n ≡ g n
every_byte f g e n h = (==_iff (f n) (g n)).0 (each_below-true 256 (λ n. f n == g n) n h e)

warn_first_low : (code : ℕ) → code < 256 → warn_first code ≡ code % 64
unfolding warn_first each_below
warn_first_low code h = every_byte warn_first (λ n. n % 64) refl code h

-- The bits that are tested after that.
mask_digits :
    (code : ℕ)
    → code < 256
    → (bit_and code 0x01 ≡ code % 2)
      × (bit_and code 0x04 ≡ code / 4 % 2 * 4)
      × (bit_and code 0x08 ≡ code / 8 % 2 * 8)
      × (bit_and code 0x40 ≡ code / 64 % 2 * 64)
      × (bit_and code 0x80 ≡ code / 128 * 128)
unfolding each_below
mask_digits code h = (
  every_byte (λ n. bit_and n 0x01) (λ n. n % 2) refl code h,
  every_byte (λ n. bit_and n 0x04) (λ n. n / 4 % 2 * 4) refl code h,
  every_byte (λ n. bit_and n 0x08) (λ n. n / 8 % 2 * 8) refl code h,
  every_byte (λ n. bit_and n 0x40) (λ n. n / 64 % 2 * 64) refl code h,
  every_byte (λ n. bit_and n 0x80) (λ n. n / 128 * 128) refl code h,
)

warn_if_add :
    (code mask k state d : ℕ)
    → state < 2 ^ k
    → bit_and code mask ≡ d * mask
    → 0 < mask
    → d ≤ 1
    → warn_if code mask (2 ^ k) state ≡ state + d * 2 ^ k
warn_if_add code mask k state zero h e pos one = ground arith
warn_if_add code mask k state (suc zero) h e pos one = ground (arith, bit_or_top k state h)
warn_if_add code mask k state (suc (suc d)) h e pos one = absurd (omega arith)

-- E08 to E13 over a state that has none of them.
warn_last_sum :
    (code code2 state : ℕ)
    → code < 256
    → code2 < 256
    → state < 128
    → warn_last code code2 state
      ≡ state
        + code / 128 * 128
        + code2 % 2 * 256
        + code2 / 4 % 2 * 1024
        + code2 / 8 % 2 * 2048
        + code2 / 128 * 4096
unfolding warn_last
warn_last_sum code code2 state h k l = omega (arith, e1, e2, e3, e4, e5)
  where
    first :
        (bit_and code 0x01 ≡ code % 2)
        × (bit_and code 0x04 ≡ code / 4 % 2 * 4)
        × (bit_and code 0x08 ≡ code / 8 % 2 * 8)
        × (bit_and code 0x40 ≡ code / 64 % 2 * 64)
        × (bit_and code 0x80 ≡ code / 128 * 128)
    first = mask_digits code h

    other :
        (bit_and code2 0x01 ≡ code2 % 2)
        × (bit_and code2 0x04 ≡ code2 / 4 % 2 * 4)
        × (bit_and code2 0x08 ≡ code2 / 8 % 2 * 8)
        × (bit_and code2 0x40 ≡ code2 / 64 % 2 * 64)
        × (bit_and code2 0x80 ≡ code2 / 128 * 128)
    other = mask_digits code2 k

    s1 : ℕ
    s1 = warn_if code 0x80 0x0080 state

    s2 : ℕ
    s2 = warn_if code2 0x01 0x0100 s1

    s3 : ℕ
    s3 = warn_if code2 0x04 0x0400 s2

    s4 : ℕ
    s4 = warn_if code2 0x08 0x0800 s3

    e1 : s1 ≡ state + code / 128 * 128
    e1 =
        warn_if_add code 0x80 7 state (code / 128) (omega arith) first.4 (omega arith) (omega arith)

    e2 : s2 ≡ s1 + code2 % 2 * 256
    e2 =
        warn_if_add code2 0x01 8 s1 (code2 % 2) (omega (arith, e1)) (omega (arith, other.0))
          (omega arith) (omega arith)

    e3 : s3 ≡ s2 + code2 / 4 % 2 * 1024
    e3 =
        warn_if_add code2 0x04 10 s2 (code2 / 4 % 2) (omega (arith, e1, e2)) other.1 (omega arith)
          (omega arith)

    e4 : s4 ≡ s3 + code2 / 8 % 2 * 2048
    e4 =
        warn_if_add code2 0x08 11 s3 (code2 / 8 % 2) (omega (arith, e1, e2, e3)) other.2
          (omega arith) (omega arith)

    e5 : warn_if code2 0x80 0x1000 s4 ≡ s4 + code2 / 128 * 4096
    e5 =
        warn_if_add code2 0x80 12 s4 (code2 / 128) (omega (arith, e1, e2, e3, e4)) other.4
          (omega arith) (omega arith)

-- An answer that is due: the device is not tested, it reports something, and half a minute has
-- passed since the last warning.
pub record IsDue (c : ConnMgr) (ack : BuffData) (now : ℕ) : Type 0 where
  pub in_use : c.is_factory ≡ false
  pub reports : 0 < ack_data bt_mcu ack 12 + ack_data bt_mcu ack 13
  pub rested : c.last_warn_time + 30000 ≤ now

-- What an answer that is due leads to: E01 to E06 and E08 stand in the state's bits as in byte 12,
-- bits 0, 2, 3 and 7 of byte 13 are E09, E11, E12 and E13; bit 6 of byte 12, a fault of the
-- communication, is counted as long as every answer that is due has it, and is E07 the thirtieth
-- time.
pub on_comm_deal_due :
    (c : ConnMgr) (ack : BuffData) (now : ℕ)
    → IsDue c ack now
    → ack_data bt_mcu ack 12 < 256
    → ack_data bt_mcu ack 13 < 256
    → c.comm_error_count < 30
    → let code = ack_data bt_mcu ack 12 in
      let code2 = ack_data bt_mcu ack 13 in
      let r = on_comm_deal c ack now in
      let others =
        code % 64
        + code / 128 * 128
        + code2 % 2 * 256
        + code2 / 4 % 2 * 1024
        + code2 / 8 % 2 * 2048
        + code2 / 128 * 4096 in
      (r.0.last_warn_time ≡ now)
      × ((code / 64 % 2 ≡ 0) × (r.0.comm_error_count ≡ 0) × (r.1 ≡ others)
          ⊎ (code / 64 % 2 ≡ 1)
            × (c.comm_error_count < 29)
            × (r.0.comm_error_count ≡ c.comm_error_count + 1)
            × (r.1 ≡ others)
          ⊎ (code / 64 % 2 ≡ 1)
            × (c.comm_error_count ≡ 29)
            × (r.0.comm_error_count ≡ 0)
            × (r.1 ≡ others + 64))
unfolding on_comm_deal warn_comm
on_comm_deal_due c ack now d h k l = ground (
  arith,
  d,
  low,
  bit_or_top 6 (warn_first code) (omega (arith, low)),
  (mask_digits code h).3,
  warn_last_sum code code2 (warn_first code) h k (omega (arith, low)),
  warn_last_sum code code2 (bit_or (warn_first code) 0x40) h k
      (omega (arith, low, bit_or_top 6 (warn_first code) (omega (arith, low)))),
)
  where
    code : ℕ
    code = ack_data bt_mcu ack 12

    code2 : ℕ
    code2 = ack_data bt_mcu ack 13

    low : warn_first code ≡ code % 64
    low = warn_first_low code h

-- In the test mode, without a report or within half a minute of the last warning, an answer
-- changes nothing and no warning comes of it.
pub on_comm_deal_quiet :
    (c : ConnMgr) (ack : BuffData) (now : ℕ)
    → (c.is_factory ≡ true)
      ⊎ (ack_data bt_mcu ack 12 + ack_data bt_mcu ack 13 ≡ 0)
      ⊎ (now < c.last_warn_time + 30000)
    → on_comm_deal c ack now ≡ (c, 0)
unfolding on_comm_deal
on_comm_deal_quiet c ack now h = ground arith
