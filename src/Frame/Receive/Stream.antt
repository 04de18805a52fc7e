-- ===== src/Frame/Receive/Stream.antt =====
-- The receive buffer seen as the list of bytes in use, and `add` as an operation on that list.
use cdroid_demo.Common.{
  ℕ, zero, suc, ◌+◌, Bool-cases, ◌⊎◌, inl, inr, ◌≢◌, ◌<◌, ◌≡◌, refl, sym, ◌∙◌, Bool, true, false,
  ◌&&◌, List, [], ◌∷◌, Option, none, some, ◌==◌, if◌then◌else◌, take, drop, length, arith, get_or,
  get_or-take, drop-eq-cons,
}
use cdroid_demo.Frame.{byte_at}
use cdroid_demo.Frame.Receive.{Received, mcu_scan}

abbrev pub content : Received → List ℕ
content s = take s.dlen s.buf

-- The part from the first frame head on. Without one, a last byte that may begin a head is kept.
unfoldable pub mcu_resync : List ℕ → List ℕ × Bool
mcu_resync [] = ([], false)
mcu_resync (b ∷ []) = if b == 0x02 then (b ∷ [], false) else ([], false)
mcu_resync (b ∷ c ∷ r) = if b == 0x02 && c == 0x10 then (b ∷ c ∷ r, true) else mcu_resync (c ∷ r)

-- What is left of `c` when its byte `j` comes to the front.
abbrev pub placed : List ℕ → Option ℕ → List ℕ
placed c none = []
placed c (some j) = drop j c

module _ (buf : List ℕ) (dlen n i : ℕ) (j : Option ℕ) where
  mcu_scan_hit :
      byte_at buf i ≡ 2
      → i + 1 < dlen
      → byte_at buf (i + 1) ≡ 16
      → mcu_scan (suc n) buf dlen i j ≡ (some i, true)
  unfolding mcu_scan
  mcu_scan_hit p q r = ground arith

  mcu_scan_on :
      (byte_at buf i ≢ 2) ⊎ ((i + 1 < dlen) × (byte_at buf (i + 1) ≢ 16))
      → mcu_scan (suc n) buf dlen i j ≡ mcu_scan n buf dlen (i + 1) j
  unfolding mcu_scan
  mcu_scan_on (inl p) = ground arith
  mcu_scan_on (inr (q, r)) = ground arith

  mcu_scan_last :
      byte_at buf i ≡ 2
      → i + 1 ≡ dlen
      → mcu_scan (suc n) buf dlen i j ≡ mcu_scan n buf dlen (i + 1) (some i)
  unfolding mcu_scan
  mcu_scan_last p q = ground arith

mcu_scan_end : (buf : List ℕ) (dlen i : ℕ) (j : Option ℕ) → mcu_scan 0 buf dlen i j ≡ (j, false)
unfolding mcu_scan
mcu_scan_end buf dlen i j = refl

-- The search agrees with the search in a list.
abbrev pub Agrees : List ℕ → Option ℕ × Bool → List ℕ × Bool → Type 0
Agrees c r spec = (placed c r.0 ≡ spec.0) × (r.1 ≡ spec.1)

module _ (dlen : ℕ) (buf : List ℕ) (full : length (take dlen buf) ≡ dlen) where
  -- The byte at `i` and the next one, where the rest of the list in use is known.
  peek :
      (i : ℕ) {b : ℕ} {r : List ℕ}
      → drop i (take dlen buf) ≡ b ∷ r
      → (byte_at buf i ≡ b) × (drop (i + 1) (take dlen buf) ≡ r) × (i + suc (length r) ≡ dlen)
  peek i {b} {r} e = go (drop-eq-cons i (take dlen buf) 0 e)
    where
      go :
          (get_or (take dlen buf) i 0 ≡ b)
            × (drop (i + 1) (take dlen buf) ≡ r)
            × (i + suc (length r) ≡ length (take dlen buf))
          → (byte_at buf i ≡ b) × (drop (i + 1) (take dlen buf) ≡ r) × (i + suc (length r) ≡ dlen)
      go (p, q, l) = (sym (get_or-take dlen buf i 0 (omega arith)) ∙ p, q, l ∙ full)

  pub mcu_scan-suffix :
      (n i : ℕ) (l : List ℕ)
      → drop i (take dlen buf) ≡ l
      → length l ≡ n
      → Agrees (take dlen buf) (mcu_scan n buf dlen i none) (mcu_resync l)
  unfolding mcu_resync
  mcu_scan-suffix zero i [] e hn = rw (mcu_scan_end buf dlen i none) (refl, refl)
  mcu_scan-suffix zero i (b ∷ l) e hn = absurd (omega arith)
  mcu_scan-suffix (suc n) i [] e hn = absurd (omega arith)
  mcu_scan-suffix (suc zero) i (b ∷ []) e hn = one (peek i e) (Bool-cases (b == 2))
    where
      one :
          (byte_at buf i ≡ b) × (drop (i + 1) (take dlen buf) ≡ []) × (i + 1 ≡ dlen)
          → ((b == 2) ≡ true) ⊎ ((b == 2) ≡ false)
          → Agrees (take dlen buf) (mcu_scan 1 buf dlen i none) (mcu_resync (b ∷ []))
      one (p, q, l) (inl h) =
          rw
            (
              mcu_scan_last buf dlen 0 i none (ground arith) l,
              mcu_scan_end buf dlen (i + 1) (some i),
              h,
            )
            (e, refl)
      one (p, q, l) (inr h) =
          rw
            (
              mcu_scan_on buf dlen 0 i none (inl (ground arith)),
              mcu_scan_end buf dlen (i + 1) none,
              h,
            )
            (refl, refl)
  mcu_scan-suffix (suc (suc n)) i (b ∷ []) e hn = absurd (omega arith)
  mcu_scan-suffix (suc zero) i (b ∷ c ∷ l) e hn = absurd (omega arith)
  mcu_scan-suffix (suc (suc n)) i (b ∷ c ∷ l) e hn =
      two (peek i e) (mcu_scan-suffix (suc n) (i + 1) (c ∷ l) (peek i e).1 (omega arith))
    where
      two :
          (byte_at buf i ≡ b)
            × (drop (i + 1) (take dlen buf) ≡ c ∷ l)
            × (i + suc (length (c ∷ l)) ≡ dlen)
          → Agrees (take dlen buf) (mcu_scan (suc n) buf dlen (i + 1) none) (mcu_resync (c ∷ l))
          → Agrees (take dlen buf) (mcu_scan (suc (suc n)) buf dlen i none) (mcu_resync (b ∷ c ∷ l))
      two (p, q, m) ih = elim (Bool-cases (b == 2 && c == 16)) [
        | inl h ↦
            rw
              (
                mcu_scan_hit buf dlen (suc n) i none (ground arith) (omega arith)
                    (ground (arith, peek (i + 1) q)),
                h,
              )
              (e, refl)
        | inr h ↦ rw (mcu_scan_on buf dlen (suc n) i none (ground (arith, peek (i + 1) q)), h) ih
      ]
