-- ===== src/Net/Reading.antt =====
-- Client::handleEvent in the classes whose onRecvData leaves the bytes in the buffer.
use cdroid_demo.Common.{
  ℕ, suc, ◌+◌, ◌-◌, ◌≤◌, ◌≡◌, refl, ◌∙◌, ap, subst, Bool, true, false, List, Option, none, some,
  arith, ◌==◌, take, length, length-take, length-append, Bool-cases, inl, inr, Option-cases, ltb,
}
use cdroid_demo.Net.{
  Client, Incoming, free_len, len_4k, read_data, disconnect, read_round, read_loop,
}

-- The buffer is not overfull.
abbrev pub IsBounded : Client → Type 0
IsBounded c = length c.recv_bytes ≤ len_4k

-- The connection of two states is the same.
abbrev pub IsSame : Client → Client → Type 0
IsSame c d = (d.status ≡ c.status) × (d.fd ≡ c.fd) × (d.calls ≡ c.calls)

read_data-IsSame : (c : Client) (i : Incoming) (now : ℕ) → IsSame c (read_data c i now).0
unfolding read_data free_len
read_data-IsSame c i now = ground arith

-- What is read fits: the room left is what there was less the count.
read_data-free_len :
    (c : Client) (i : Incoming) (now : ℕ)
    → IsBounded c
    → IsBounded (read_data c i now).0
      × (free_len (read_data c i now).0 + (read_data c i now).1 ≡ free_len c)
unfolding read_data free_len
read_data-free_len c i now h = ground (
  arith,
  length-take (len_4k - length c.recv_bytes) i.bytes,
  length-append c.recv_bytes (take (len_4k - length c.recv_bytes) i.bytes),
)

-- Without room nothing is read.
read_data_full : (c : Client) (i : Incoming) (now : ℕ) → free_len c ≡ 0 → (read_data c i now).1 ≡ 0
unfolding read_data free_len
read_data_full c i now e = ground (arith, length-take (len_4k - length c.recv_bytes) i.bytes)

free_len_same : (c d : Client) → d.recv_bytes ≡ c.recv_bytes → free_len d ≡ free_len c
unfolding free_len
free_len_same c d e = ap (λ (b : List ℕ). len_4k - length b) e

-- How a round ends: the connection is kept, or it is closed, or the buffer is full.
pub data Outcome (c : Client) : Client × Option Bool → Type 0 where
  stays : (d : Client) → IsSame c d → IsBounded d → Outcome c (d, some true)
  drops : (d : Client) → IsSame c d → Outcome c (disconnect d, some false)
  fills : (d : Client) → IsSame c d → IsBounded d → free_len d ≡ 0 → Outcome c (d, none)

module _ (on_recv_data : Client → Client × Option ℕ)
    (keeps : (c : Client) → IsSame c (on_recv_data c).0)
    (holds : (c : Client) → (on_recv_data c).0.recv_bytes ≡ c.recv_bytes) where
  read_round-Outcome :
      (c : Client) (i : Incoming) (now : ℕ)
      → IsBounded c
      → Outcome c (read_round on_recv_data c i now)
  unfolding read_round
  read_round-Outcome c i now h = elim (Bool-cases (len == 0)) [
    | inl z ↦ rw z (elim (Bool-cases i.is_enoent) [
      | inl e ↦ rw e (drops read same)
      | inr e ↦ rw e (stays read same fits.0)
    ])
    | inr z ↦ rw z (elim (Option-cases (on_recv_data read).1) [
      | inl e ↦ rw e (drops dealt same')
      | inr (count, e) ↦ rw e (elim (Bool-cases (ltb len (free_len c))) [
        | inl l ↦ rw l (stays dealt same' fits')
        | inr l ↦ rw l (elim (Bool-cases (ltb 0 count)) [
          | inl p ↦ rw p (stays dealt same' fits')
          | inr p ↦ rw p (fills dealt same' fits' (no_room l))
        ])
      ])
    ])
  ]
    where
      read : Client
      read = (read_data c i now).0

      len : ℕ
      len = (read_data c i now).1

      dealt : Client
      dealt = (on_recv_data read).0

      fits : IsBounded read × (free_len read + len ≡ free_len c)
      fits = read_data-free_len c i now h

      room_holds : free_len dealt ≡ free_len read
      room_holds = free_len_same read dealt (holds read)

      no_room : ltb len (free_len c) ≡ false → free_len dealt ≡ 0
      no_room l = room_holds ∙ ground (arith, fits.1, l)

      same : IsSame c read
      same = read_data-IsSame c i now

      same' : IsSame c dealt
      same' = ((keeps read).0 ∙ same.0, (keeps read).1 ∙ same.1, (keeps read).2 ∙ same.2)

      fits' : IsBounded dealt
      fits' = rw (holds read) fits.0

  -- The second round of a call has no room, so it ends the call.
  read_round_full :
      (c : Client) (i : Incoming) (now : ℕ)
      → free_len c ≡ 0
      → (b : Bool) × ((read_round on_recv_data c i now).1 ≡ some b)
  unfolding read_round
  read_round_full c i now e =
      rw (read_data_full c i now e)
        (elim (Bool-cases i.is_enoent) [ inl t ↦ (false, rw t refl) | inr t ↦ (true, rw t refl) ])

  Outcome-trans : (c d : Client) (r : Client × Option Bool) → IsSame c d → Outcome d r → Outcome c r
  Outcome-trans c d r s (stays f p q) = stays f (p.0 ∙ s.0, p.1 ∙ s.1, p.2 ∙ s.2) q
  Outcome-trans c d r s (drops f p) = drops f (p.0 ∙ s.0, p.1 ∙ s.1, p.2 ∙ s.2)
  Outcome-trans c d r s (fills f p q e) = fills f (p.0 ∙ s.0, p.1 ∙ s.1, p.2 ∙ s.2) q e

  -- A result of the loop.
  unfoldable pub Ends : (ℕ → Incoming) → ℕ → ℕ → ℕ → Client → Type 0
  Ends incoming now fuel round c =
      (d : Client) × (b : Bool) × (read_loop on_recv_data incoming now fuel round c ≡ some (d, b))
      × Outcome c (d, some b)

  Outcome-none :
      (c : Client) {d : Client} → Outcome c (d, none) → IsSame c d × IsBounded d × (free_len d ≡ 0)
  Outcome-none c (fills d p q e) = (p, q, e)

  Outcome-read :
      (c : Client) (i : Incoming) (now : ℕ) {v : Option Bool}
      → IsBounded c
      → (read_round on_recv_data c i now).1 ≡ v
      → Outcome c ((read_round on_recv_data c i now).0, v)
  Outcome-read c i now h e =
      subst (λ (v : Option Bool). Outcome c ((read_round on_recv_data c i now).0, v)) e
        (read_round-Outcome c i now h)

  -- A round that ends the call.
  Ends-now :
      (incoming : ℕ → Incoming) (now fuel round : ℕ) (c : Client) (b : Bool)
      → IsBounded c
      → (read_round on_recv_data c (incoming round) now).1 ≡ some b
      → Ends incoming now (suc fuel) round c
  unfolding read_loop Ends
  Ends-now incoming now fuel round c b h e =
      (_, b, rw (read_loop, e) refl, Outcome-read c (incoming round) now h e)

  -- Two rounds are enough.
  pub read_loop-Ends :
      (incoming : ℕ → Incoming) (now fuel round : ℕ) (c : Client)
      → IsBounded c
      → Ends incoming now (suc (suc fuel)) round c
  unfolding read_loop Ends
  read_loop-Ends incoming now fuel round c h = elim (Option-cases verdict) [
    | inr (b, e) ↦ Ends-now incoming now (suc fuel) round c b h e
    | inl e ↦ again e (Outcome-none c (Outcome-read c (incoming round) now h e))
  ]
    where
      d : Client
      d = (read_round on_recv_data c (incoming round) now).0

      verdict : Option Bool
      verdict = (read_round on_recv_data c (incoming round) now).1

      again :
          verdict ≡ none
          → IsSame c d × IsBounded d × (free_len d ≡ 0)
          → Ends incoming now (suc (suc fuel)) round c
      again e (s, q, z) = go (read_round_full d (incoming (suc round)) now z)
        where
          go :
              (b : Bool) × ((read_round on_recv_data d (incoming (suc round)) now).1 ≡ some b)
              → Ends incoming now (suc (suc fuel)) round c
          go (b, f) = after (Ends-now incoming now fuel (suc round) d b q f)
            where
              after :
                  Ends incoming now (suc fuel) (suc round) d
                  → Ends incoming now (suc (suc fuel)) round c
              after (f, b, p, o) = (f, b, rw (read_loop, e) p, Outcome-trans c d (f, some b) s o)
