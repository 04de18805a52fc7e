-- ===== src/Uart/Sending.antt =====
-- The loop of UART0_Send.
use cdroid_demo.Common.{
  ℕ, zero, suc, ◌+◌, ◌<◌, ◌≤◌, ◌≡◌, refl, sym, ◌∙◌, ap, ◌⊎◌, inl, inr, false, List, [], ◌∷◌, ◌++◌,
  Option, some, arith, ◌==◌, length, take, drop, length-take, length-drop, length-append,
  take-append-drop, append_assoc, append-nil, Bool-cases, ==_iff,
}
use cdroid_demo.Uart.{Port, send_loop, uart0_send}

-- How the loop ends: what went out is the front of the message, as long as the result says, and it
-- is all of it or a write took nothing.
abbrev pub Sends : (ℕ → ℕ) → Port → List ℕ → Option (Port × ℕ) → ℕ → ℕ → Type 0
Sends accepts p rest o round offset =
    (q : Port) × (n : ℕ) × (gone left : List ℕ) × (o ≡ some (q, offset + n))
    × (gone ++ left ≡ rest)
    × (length gone ≡ n)
    × (q.sent ≡ p.sent ++ gone)
    × (q.attributes ≡ p.attributes)
    × ((left ≡ []) ⊎ ((i : ℕ) × (round ≤ i) × (accepts i ≡ 0)))

length-nil : (rest : List ℕ) → length rest ≡ 0 → rest ≡ []
length-nil [] e = refl
length-nil (x ∷ xs) e = absurd (omega arith)

-- A write of nothing, with bytes left, was asked to take nothing.
nothing_taken :
    (k : ℕ) (rest : List ℕ) → (length rest == 0) ≡ false → length (take k rest) ≡ 0 → k ≡ 0
nothing_taken k rest h e = ground (arith, length-take k rest)

send_loop-Sends :
    (accepts : ℕ → ℕ) (fuel round : ℕ) (p : Port) (rest : List ℕ) (offset : ℕ)
    → length rest < fuel
    → Sends accepts p rest (send_loop accepts fuel round p rest offset) round offset
unfolding send_loop
send_loop-Sends accepts zero round p rest offset h = absurd (omega arith)
send_loop-Sends accepts (suc fuel) round p rest offset h = elim (Bool-cases (length rest == 0)) [
  | inl e ↦ (
    p,
    0,
    [],
    rest,
    rw (send_loop, e) (ap (λ (n : ℕ). some (p, n)) {x = offset} {y = offset + 0} (omega arith)),
    refl,
    refl,
    sym (append-nil p.sent),
    refl,
    inl (length-nil rest ((==_iff (length rest) 0).0 e)),
  )
  | inr e ↦ elim (Bool-cases (length (take (accepts round) rest) == 0)) [
    | inl f ↦ (
      p,
      0,
      [],
      rest,
      rw (send_loop, e, f)
          (ap (λ (n : ℕ). some (p, n)) {x = offset} {y = offset + 0} (omega arith)),
      refl,
      refl,
      sym (append-nil p.sent),
      refl,
      inr (
        round,
        omega arith,
        nothing_taken (accepts round) rest e ((==_iff (length (take (accepts round) rest)) 0).0 f),
      ),
    )
    | inr f ↦
        (let (q, n, gone, left, a, b, c, d, g, k) =
            send_loop-Sends accepts fuel (suc round) next after (offset + length front)
              (shorter f) in
          (
            q,
            length front + n,
            front ++ gone,
            left,
            rw (send_loop, e, f)
                (a
                  ∙ ap (λ (m : ℕ). some (q, m)) {x = offset + length front + n}
                      {y = offset + (length front + n)} (omega arith)),
            append_assoc front gone left
                ∙ ap (◌++◌ front) b
                ∙ take-append-drop (accepts round) rest,
            length-append front gone ∙ ap (λ (m : ℕ). length front + m) c,
            d ∙ append_assoc p.sent front gone,
            g,
            later k,
          ))
  ]
]
  where
    front : List ℕ
    front = take (accepts round) rest

    after : List ℕ
    after = drop (accepts round) rest

    next : Port
    next = record p { sent = p.sent ++ front }

    shorter : (length front == 0) ≡ false → length after < fuel
    shorter f =
        ground (arith, f, length-drop (accepts round) rest, length-take (accepts round) rest)

    later :
        {left : List ℕ}
        → (left ≡ []) ⊎ ((i : ℕ) × (suc round ≤ i) × (accepts i ≡ 0))
        → (left ≡ []) ⊎ ((i : ℕ) × (round ≤ i) × (accepts i ≡ 0))
    later (inl e) = inl e
    later (inr (i, u, v)) = inr (i, omega arith, v)

-- UART0_Send ends, whatever each write takes. What has gone out is the front of the message, the result
-- is its length, and either all of the message is out or some write took nothing.
pub uart0_send_lem :
    (accepts : ℕ → ℕ) (p : Port) (message : List ℕ)
    → (q : Port) × (n : ℕ) × (gone left : List ℕ) × (uart0_send accepts p message ≡ some (q, n))
      × (gone ++ left ≡ message)
      × (length gone ≡ n)
      × (q.sent ≡ p.sent ++ gone)
      × (q.attributes ≡ p.attributes)
      × ((left ≡ []) ⊎ ((i : ℕ) × (accepts i ≡ 0)))
unfolding uart0_send
uart0_send_lem accepts p message =
    let (q, n, gone, left, a, b, c, d, g, k) =
      send_loop-Sends accepts (suc (length message)) 0 p message 0 (omega arith) in
    (
      q,
      n,
      gone,
      left,
      a ∙ ap (λ (m : ℕ). some (q, m)) {x = 0 + n} {y = n} (omega arith),
      b,
      c,
      d,
      g,
      elim k [ inl e ↦ inl e | inr (i, u, v) ↦ inr (i, v) ],
    )
