-- ===== src/Frame/Receive/Progress.antt =====
-- `MCU2UI::add` always stops with a frame head in front or almost nothing in the buffer, and it
-- leaves input over only when the buffer is full of a frame.
use cdroid_demo.Common.{
  ℕ, zero, suc, ◌+◌, ◌-◌, ◌≤◌, ◌<◌, ◌≡◌, refl, subst, ◌⊎◌, inl, inr, Bool, true, false, ◌&&◌, List,
  [], ◌∷◌, ◌++◌, ltb, ◌==◌, take, drop, length, arith, Bool-cases, length-append, length-take,
  length-drop,
}
use cdroid_demo.Frame.Receive.Stream.{mcu_resync}
use cdroid_demo.Frame.Receive.Refine.{realign, stream_loop, mcu_stream_add}

-- The frame head 0x02 0x10 stands in front.
abbrev pub Starts : List ℕ → Type 0
Starts [] = ⊥
Starts (b ∷ []) = ⊥
Starts (b ∷ c ∷ r) = (b ≡ 0x02) × (c ≡ 0x10)

-- What a buffer holds between two calls: the beginning of a frame, or two bytes at most.
abbrev pub Settled : List ℕ → Type 0
Settled c = Starts c ⊎ (length c ≤ 2)

pub resync-Starts : (c : List ℕ) → Starts c → mcu_resync c ≡ (c, true)
unfolding mcu_resync
resync-Starts [] h = absurd h
resync-Starts (b ∷ []) h = absurd h
resync-Starts (b ∷ c ∷ r) h = ground arith

pub Starts-append : (c d : List ℕ) → Starts c → Starts (c ++ d)
Starts-append [] d h = absurd h
Starts-append (b ∷ []) d h = absurd h
Starts-append (b ∷ c ∷ r) d h = h

abbrev Found : List ℕ × Bool → Type 0
Found r = ((r.1 ≡ true) × Starts r.0) ⊎ ((r.1 ≡ false) × (length r.0 ≤ 2))

resync-Found : (c : List ℕ) → Found (mcu_resync c) × (length (mcu_resync c).0 ≤ length c)
unfolding mcu_resync
resync-Found [] = (inr (refl, omega arith), omega arith)
resync-Found (b ∷ []) = ground arith
resync-Found (b ∷ c ∷ r) = elim (Bool-cases (b == 2 && c == 16)) [
  | inl h ↦ rw h (inl (refl, ground arith), omega arith)
  | inr h ↦ rw h ((resync-Found (c ∷ r)).0, omega (arith, (resync-Found (c ∷ r)).1))
]

realign-Found :
    (c : List ℕ) (found : Bool)
    → (found ≡ true → Starts c)
    → Found (realign 32 2 mcu_resync c found)
      × (length (realign 32 2 mcu_resync c found).0 ≤ length c)
unfolding realign
realign-Found c true h = (inl (refl, h refl), omega arith)
realign-Found c false h = elim (Bool-cases (ltb 2 (length c))) [
  | inl more ↦ rw more (resync-Found c)
  | inr few ↦ rw few (inr (refl, ground arith), omega arith)
]

-- How the loop ends, from `taken` bytes on with `left` bytes to come.
pub record Outcome (left taken : ℕ) (r : List ℕ × ℕ) : Type 0 where
  pub settled : Settled r.0
  pub within : length r.0 ≤ 32
  pub at_most : r.1 ≤ taken + left
  pub at_least : taken ≤ r.1
  -- All is taken in, or the buffer is full of a frame.
  pub drained : (r.1 ≡ taken + left) ⊎ (length r.0 ≡ 32)

Found-Settled : (r : List ℕ × Bool) → Found r → Settled r.0
Found-Settled r (inl (e, st)) = inl st
Found-Settled r (inr (e, few)) = inr few

Found-Starts : (r : List ℕ × Bool) → Found r → r.1 ≡ true → Starts r.0
Found-Starts r (inl (e, st)) h = st
Found-Starts r (inr (e, few)) h = cc

-- A round takes some bytes and leaves the rest to the rounds after it.
Outcome-earlier :
    (a b taken : ℕ) (r : List ℕ × ℕ) → Outcome b (taken + a) r → Outcome (a + b) taken r
Outcome-earlier a b taken r o = record {
  settled = o.settled;
  within = o.within;
  at_most = omega (arith, o.at_most);
  at_least = omega (arith, o.at_least);
  drained = elim o.drained [ inl all ↦ inl (omega arith) | inr full ↦ inr full ];
}

length-split : (n : ℕ) (xs : List ℕ) → length (take n xs) + length (drop n xs) ≡ length xs
length-split n xs = omega (arith, length-take n xs, length-drop n xs)

pub stream_loop-Outcome :
    (fuel : ℕ) (c : List ℕ) (found : Bool) (rest : List ℕ) (taken : ℕ)
    → length rest ≤ fuel
    → length c ≤ 32
    → Settled c
    → (found ≡ true → Starts c)
    → Outcome (length rest) taken (stream_loop 32 2 mcu_resync fuel c found rest taken)
unfolding stream_loop
stream_loop-Outcome zero c found rest taken hf hc st hs = record {
  settled = st;
  within = hc;
  at_most = omega arith;
  at_least = omega arith;
  drained = inl (omega arith);
}
stream_loop-Outcome (suc fuel) c found rest taken hf hc st hs =
    elim (Bool-cases (ltb (length c) 32 && ltb 0 (length rest))) [
      | inr h ↦ rw h (record {
        settled = st;
        within = hc;
        at_most = omega arith;
        at_least = omega arith;
        drained = ground arith;
      })
      | inl h ↦ rw h (
          round h (realign-Found (c ++ src) found (λ e. Starts-append c src (hs e))) (λ a b p q r t.
            stream_loop-Outcome fuel a b (drop room rest) (taken + length src) p q r t))
    ]
  where
    room : ℕ
    room = 32 - length c

    src : List ℕ
    src = take room rest

    c' : List ℕ × Bool
    c' = realign 32 2 mcu_resync (c ++ src) found

    round :
        (ltb (length c) 32 && ltb 0 (length rest)) ≡ true
        → Found c' × (length c'.0 ≤ length (c ++ src))
        → ((a : List ℕ) (b : Bool)
            → length (drop room rest) ≤ fuel
            → length a ≤ 32
            → Settled a
            → (b ≡ true → Starts a)
            → Outcome
                (length (drop room rest))
                (taken + length src)
                (stream_loop 32 2 mcu_resync fuel a b (drop room rest) (taken + length src)))
        → Outcome
            (length rest)
            taken
            (stream_loop 32 2 mcu_resync fuel c'.0 c'.1 (drop room rest) (taken + length src))
    round h (f, shorter) ih =
        subst
          (λ n.
            Outcome n taken
              (stream_loop 32 2 mcu_resync fuel c'.0 c'.1 (drop room rest) (taken + length src)))
          (length-split room rest)
          (Outcome-earlier (length src) (length (drop room rest)) taken _ (
            ih c'.0 c'.1 less (omega (arith, length-append c src, length-take room rest))
              (Found-Settled c' f) (Found-Starts c' f)))
      where
        less : length (drop room rest) ≤ fuel
        less = ground (arith, length-drop room rest)

stream_loop-ge :
    (fuel : ℕ) (c : List ℕ) (found : Bool) (rest : List ℕ) (taken : ℕ)
    → taken ≤ (stream_loop 32 2 mcu_resync fuel c found rest taken).1
unfolding stream_loop
stream_loop-ge zero c found rest taken = omega arith
stream_loop-ge (suc fuel) c found rest taken =
    elim (Bool-cases (ltb (length c) 32 && ltb 0 (length rest))) [
      | inl h ↦ rw h (
          omega (
            arith,
            stream_loop-ge fuel (realign 32 2 mcu_resync (c ++ take (32 - length c) rest) found).0
                (realign 32 2 mcu_resync (c ++ take (32 - length c) rest) found).1
                (drop (32 - length c) rest) (taken + length (take (32 - length c) rest)),
          ))
      | inr h ↦ rw h (omega arith)
    ]

some_taken : (c bf : List ℕ) → length c < 32 → 0 < length bf → 0 < (mcu_stream_add c bf).1
unfolding mcu_stream_add stream_loop
some_taken c [] room h = absurd (omega arith)
some_taken c (b ∷ bf) room h = rw enters (
    omega (
      arith,
      length-take (32 - length c) (b ∷ bf),
      stream_loop-ge (length bf)
          (realign 32 2 mcu_resync (c ++ take (32 - length c) (b ∷ bf)) false).0
          (realign 32 2 mcu_resync (c ++ take (32 - length c) (b ∷ bf)) false).1
          (drop (32 - length c) (b ∷ bf)) (0 + length (take (32 - length c) (b ∷ bf))),
    ))
  where
    enters : (ltb (length c) 32 && ltb 0 (length (b ∷ bf))) ≡ true
    enters = ground arith

-- From a settled buffer with room, `add` leaves a settled buffer of 32 bytes at most, takes in at
-- least one byte where there is one and no more than there are, and leaves some over only when
-- the buffer is full and begins with a frame head.
pub mcu_stream_add-Outcome :
    (c bf : List ℕ)
    → Settled c
    → length c < 32
    → Outcome (length bf) 0 (mcu_stream_add c bf)
      × (0 < length bf → 0 < (mcu_stream_add c bf).1)
      × ((mcu_stream_add c bf).1 < length bf → Starts (mcu_stream_add c bf).0)
unfolding mcu_stream_add
mcu_stream_add-Outcome c bf st room =
    (all, some_taken c bf room, λ h. full (all.drained) h all.settled)
  where
    all : Outcome (length bf) 0 (mcu_stream_add c bf)
    all = stream_loop-Outcome (length bf) c false bf 0 (omega arith) (omega arith) st (λ e. cc)

    full :
        ((mcu_stream_add c bf).1 ≡ 0 + length bf) ⊎ (length (mcu_stream_add c bf).0 ≡ 32)
        → (mcu_stream_add c bf).1 < length bf
        → Settled (mcu_stream_add c bf).0
        → Starts (mcu_stream_add c bf).0
    full (inl e) h st' = absurd (omega arith)
    full (inr e) h (inl s) = s
    full (inr e) h (inr few) = absurd (omega arith)
