-- ===== src/Net/SocketServer/Listening.antt =====
-- The port that the server listens on.
use cdroid_demo.Common.{
  ℕ, zero, suc, ◌+◌, ◌<◌, ◌≤◌, ◌≡◌, refl, ◌⊎◌, inl, inr, Bool, true, false, none, some, arith, ◌-◌,
  ◌∷◌, Bool-cases,
}
use cdroid_demo.Net.{opened, closed, set_fd, on_status_change}
use cdroid_demo.Net.SocketServer.{SocketServer, bind_port, init, svr_port, eport}

-- The first port that is free, from `port` on.
abbrev pub IsFirst : (ℕ → Bool) → ℕ → ℕ → ℕ → Type 0
IsFirst is_free port rest p =
    (port ≤ p)
    × (p < port + rest)
    × (is_free p ≡ true)
    × ((q : ℕ) → port ≤ q → q < p → is_free q ≡ false)

abbrev pub NoneFree : (ℕ → Bool) → ℕ → ℕ → Type 0
NoneFree is_free port rest = (q : ℕ) → port ≤ q → q < port + rest → is_free q ≡ false

bind_port_lem :
    (is_free : ℕ → Bool) (rest port : ℕ)
    → ((p : ℕ) × (bind_port is_free rest port ≡ some p) × IsFirst is_free port rest p)
      ⊎ ((bind_port is_free rest port ≡ none) × NoneFree is_free port rest)
unfolding bind_port
bind_port_lem is_free zero port = inr (refl, λ q h k. absurd (omega arith))
bind_port_lem is_free (suc rest) port = elim (Bool-cases (is_free port)) [
  | inl e ↦
      inl
        (port, rw (bind_port, e) refl, (omega arith, omega arith, e, λ q h k. absurd (omega arith)))
  | inr e ↦ elim (bind_port_lem is_free rest (port + 1)) [
    | inl (p, f, (a, b, c, d)) ↦
        inl (p, rw (bind_port, e) f, (omega arith, omega arith, c, below p e d))
    | inr (f, g) ↦ inr (rw (bind_port, e) f, taken e g)
  ]
]
  where
    later : (q : ℕ) → port ≤ q → (q ≡ port) ⊎ (port + 1 ≤ q)
    later q h = omega arith

    below :
        (p : ℕ)
        → is_free port ≡ false
        → ((q : ℕ) → port + 1 ≤ q → q < p → is_free q ≡ false)
        → (q : ℕ) → port ≤ q
        → q < p
        → is_free q ≡ false
    below p e d q h k = elim (later q h) [ inl s ↦ rw s e | inr s ↦ d q s k ]

    taken :
        is_free port ≡ false → NoneFree is_free (port + 1) rest → NoneFree is_free port (suc rest)
    taken e g q h k = elim (later q h) [ inl s ↦ rw s e | inr s ↦ g q s (omega arith) ]

-- With a socket above 0 and a system that lets it listen, init takes the first port from 8080 to
-- 9000 that bind accepts and keeps the socket, or bind accepts none of them, and the socket is
-- closed.
pub init_first_port :
    (s : SocketServer) (n : ℕ) (is_free : ℕ → Bool) (now : ℕ)
    → let (t, result) = init s (some (suc n)) is_free true now in
      ((p : ℕ) × (result ≡ some p)
        × (8080 ≤ p)
        × (p ≤ 9000)
        × (is_free p ≡ true)
        × ((q : ℕ) → 8080 ≤ q → q < p → is_free q ≡ false)
        × (t.client.fd ≡ some (suc n)))
      ⊎ ((result ≡ none)
          × ((q : ℕ) → 8080 ≤ q → q ≤ 9000 → is_free q ≡ false)
          × (t.client.calls ≡ closed (suc n) ∷ opened (suc n) ∷ s.client.calls))
unfolding init set_fd on_status_change
init_first_port s n is_free now = elim (bind_port_lem is_free (eport + 1 - svr_port) svr_port) [
  | inl (p, e, (a, b, c, d)) ↦ inl (p, rw (init, e) refl, a, omega arith, c, d, rw (init, e) refl)
  | inr (e, g) ↦ inr (rw (init, e) refl, λ q h k. g q h (omega arith), rw (init, e) refl)
]
