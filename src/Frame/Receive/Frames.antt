-- ===== src/Frame/Receive/Frames.antt =====
-- Complete and valid frames, read off the bytes in use.
use cdroid_demo.Common.{
  ℕ, zero, suc, ◌+◌, ◌%◌, ◌≤◌, ◌<◌, ◌≡◌, refl, sym, ap, subst, ◌∙◌, ◌↔◌, ◌≢◌, inl, inr, true, false,
  List, [], ◌∷◌, ◌++◌, ◌==◌, ==_iff, take, length, arith, Bool-cases, get_or-take,
}
use cdroid_demo.Frame.{byte_at}
use cdroid_demo.Frame.Receive.{Received, mcu_complete, mcu_check, byte_sum, mcu_buf_len}
use cdroid_demo.Frame.Receive.Stream.{content}
use cdroid_demo.Frame.Receive.Refine.{IsSized, length-content}
use cdroid_demo.Frame.Receive.Progress.{Starts}

-- The byte after the first 15 is their sum.
abbrev pub IsSummed : List ℕ → Type 0
IsSummed c = byte_at c 15 ≡ byte_sum 15 c 0

Starts-iff :
    (c : List ℕ) → 2 ≤ length c → (Starts c) ↔ ((byte_at c 0 ≡ 0x02) × (byte_at c 1 ≡ 0x10))
Starts-iff [] h = absurd (omega arith)
Starts-iff (b ∷ []) h = absurd (omega arith)
Starts-iff (b ∷ c ∷ r) h = (λ s. s, λ s. s)

module _ (s : Received) (sized : IsSized mcu_buf_len s) where
  byte_at-content : (i : ℕ) → i < s.dlen → byte_at (content s) i ≡ byte_at s.buf i
  byte_at-content i h = get_or-take s.dlen s.buf i 0 h

  -- A buffer is complete exactly when 16 bytes are in use and begin with the frame head.
  pub mcu_complete_iff : (mcu_complete s ≡ true) ↔ ((16 ≤ s.dlen) × Starts (content s))
  mcu_complete_iff = (to, from)
    where
      bytes :
          (mcu_complete s ≡ true)
          ↔ ((byte_at s.buf 0 ≡ 0x02) × (byte_at s.buf 1 ≡ 0x10) × (16 ≤ s.dlen))
      bytes = unfold mcu_complete in ground arith

      to : mcu_complete s ≡ true → (16 ≤ s.dlen) × Starts (content s)
      to h = (
        (bytes.0 h).2,
        (Starts-iff (content s) (omega (arith, length-content s sized, (bytes.0 h).2))).1
            (ground (arith, bytes.0 h, byte_at-content 0, byte_at-content 1)),
      )

      from : (16 ≤ s.dlen) × Starts (content s) → mcu_complete s ≡ true
      from (long, st) =
          let head = (Starts-iff (content s) (omega (arith, length-content s sized))).0 st in
          bytes.1 (
            sym (byte_at-content 0 (omega arith)) ∙ head.0,
            sym (byte_at-content 1 (omega arith)) ∙ head.1,
            long,
          )

byte_sum-take :
    (n m : ℕ) (xs : List ℕ) (acc : ℕ) → n ≤ m → byte_sum n (take m xs) acc ≡ byte_sum n xs acc
unfolding byte_sum
byte_sum-take zero m xs acc h = refl
byte_sum-take (suc n) zero xs acc h = absurd (omega arith)
byte_sum-take (suc n) (suc m) [] acc h = refl
byte_sum-take (suc n) (suc m) (x ∷ xs) acc h = byte_sum-take n m xs ((acc + x) % 256) (omega arith)

module _ (s : Received) (sized : IsSized mcu_buf_len s) where
  -- A complete buffer passes the check exactly when byte 15 of the frame is the sum of the others.
  pub mcu_check_iff : 16 ≤ s.dlen → Starts (content s) → (mcu_check s ≡ true) ↔ IsSummed (content s)
  unfolding mcu_check
  mcu_check_iff long st =
      rw
        (
          second,
          byte_at-content s sized 15 (omega arith),
          byte_sum-take 15 s.dlen s.buf 0 (omega arith),
        )
        (==_iff (byte_at s.buf 15) (byte_sum 15 s.buf 0))
    where
      second : byte_at s.buf 1 ≡ 16
      second =
          sym (byte_at-content s sized 1 (omega arith))
          ∙ ((Starts-iff (content s) (omega (arith, length-content s sized))).0 st).1

-- The rest of the sum tells the sums so far apart.
byte_sum-injective :
    (n : ℕ) (xs : List ℕ) (a b : ℕ) → byte_sum n xs a ≡ byte_sum n xs b → a % 256 ≡ b % 256
unfolding byte_sum
byte_sum-injective zero xs a b e = omega arith
byte_sum-injective (suc n) [] a b e = omega arith
byte_sum-injective (suc n) (x ∷ xs) a b e =
    omega (arith, byte_sum-injective n xs ((a + x) % 256) ((b + x) % 256) e)

-- One changed byte changes the sum.
pub byte_sum_one :
    (n : ℕ) (xs ys : List ℕ) (a b acc : ℕ)
    → length xs < n
    → a < 256
    → b < 256
    → byte_sum n (xs ++ a ∷ ys) acc ≡ byte_sum n (xs ++ b ∷ ys) acc
    → a ≡ b
unfolding byte_sum
byte_sum_one zero xs ys a b acc h ha hb e = absurd (omega arith)
byte_sum_one (suc n) [] ys a b acc h ha hb e =
    omega (arith, byte_sum-injective n ys ((acc + a) % 256) ((acc + b) % 256) e)
byte_sum_one (suc n) (x ∷ xs) ys a b acc h ha hb e =
    byte_sum_one n xs ys a b ((acc + x) % 256) (omega arith) ha hb e

byte_at_after : (xs ys : List ℕ) (a : ℕ) → byte_at (xs ++ a ∷ ys) (length xs) ≡ a
byte_at_after [] ys a = refl
byte_at_after (x ∷ xs) ys a = byte_at_after xs ys a

byte_at_other :
    (xs ys : List ℕ) (a b i : ℕ)
    → i ≢ length xs
    → byte_at (xs ++ a ∷ ys) i ≡ byte_at (xs ++ b ∷ ys) i
byte_at_other [] ys a b zero ne = absurd (ne refl)
byte_at_other [] ys a b (suc i) ne = refl
byte_at_other (x ∷ xs) ys a b zero ne = refl
byte_at_other (x ∷ xs) ys a b (suc i) ne = byte_at_other xs ys a b i (λ e. ne (ap suc e))

byte_sum_prefix :
    (n : ℕ) (xs ys zs : List ℕ) (acc : ℕ)
    → n ≤ length xs
    → byte_sum n (xs ++ ys) acc ≡ byte_sum n (xs ++ zs) acc
unfolding byte_sum
byte_sum_prefix zero xs ys zs acc h = refl
byte_sum_prefix (suc n) [] ys zs acc h = absurd (omega arith)
byte_sum_prefix (suc n) (x ∷ xs) ys zs acc h =
    byte_sum_prefix n xs ys zs ((acc + x) % 256) (omega arith)

-- Of the frames that differ in one of the 16 bytes at most one is summed.
pub summed_one :
    (xs ys : List ℕ) (a b : ℕ)
    → length xs ≤ 15
    → a < 256
    → b < 256
    → IsSummed (xs ++ a ∷ ys)
    → IsSummed (xs ++ b ∷ ys)
    → a ≡ b
summed_one xs ys a b h ha hb p q = elim (Bool-cases (length xs == 15)) [
  | inl last ↦
      let at_end : length xs ≡ 15 = ground arith in
      sym (subst (λ i. byte_at (xs ++ a ∷ ys) i ≡ a) at_end (byte_at_after xs ys a))
      ∙ p
      ∙ byte_sum_prefix 15 xs (a ∷ ys) (b ∷ ys) 0 (omega arith)
      ∙ sym q
      ∙ subst (λ i. byte_at (xs ++ b ∷ ys) i ≡ b) at_end (byte_at_after xs ys b)
  | inr inner ↦
      byte_sum_one 15 xs ys a b 0 (ground arith) ha hb
        (sym p ∙ byte_at_other xs ys a b 15 (ground arith) ∙ q)
]

-- Of two complete buffers whose bytes differ in one of the 16 bytes of the frame alone, at most
-- one passes the check.
pub mcu_check_one_byte :
    (s t : Received) (xs ys : List ℕ) (a b : ℕ)
    → IsSized mcu_buf_len s
    → IsSized mcu_buf_len t
    → mcu_complete s ≡ true
    → mcu_complete t ≡ true
    → content s ≡ xs ++ a ∷ ys
    → content t ≡ xs ++ b ∷ ys
    → length xs ≤ 15
    → a < 256
    → b < 256
    → a ≢ b
    → mcu_check s ≡ true
    → mcu_check t ≡ false
mcu_check_one_byte s t xs ys a b hs ht cs ct es et h ha hb ne ok_s =
    elim (Bool-cases (mcu_check t)) [
      | inr e ↦ e
      | inl ok_t ↦ absurd (
          ne (
            summed_one xs ys a b h ha hb
              (subst IsSummed es ((mcu_check_iff s hs (full s hs cs).0 (full s hs cs).1).0 ok_s))
              (subst IsSummed et ((mcu_check_iff t ht (full t ht ct).0 (full t ht ct).1).0 ok_t))))
    ]
  where
    full :
        (r : Received)
        → IsSized mcu_buf_len r
        → mcu_complete r ≡ true
        → (16 ≤ r.dlen) × Starts (content r)
    full r hr cr = (mcu_complete_iff r hr).0 cr
