-- ===== src/Net/SocketServer/Authentication.antt =====
-- When a client of the server has shown the key.
use cdroid_demo.Common.{
  ℕ, suc, ◌+◌, ◌-◌, ◌<◌, ◌≡◌, refl, sym, ◌∙◌, ap, true, false, List, [], ◌∷◌, ◌++◌, Option, none,
  some, arith, length, take_all, length-append, append_assoc, append-nil, Bool-cases, inl, inr,
}
use cdroid_demo.Net.{
  Client, Incoming, free_len, len_4k, read_data, read_round, read_loop, set_fd, init_data,
  on_status_change,
}
use cdroid_demo.Net.SocketServer.{auth_keys, starts_with, on_recv_data, server_client}

unfoldable pub concat : List (List ℕ) → List ℕ
concat [] = []
concat (c ∷ cs) = c ++ concat cs

abbrev AllPositive : List ℕ → Type 0
AllPositive [] = Unit
AllPositive (k ∷ key) = (0 < k) × AllPositive key

-- A key that was shown stays shown when more bytes come.
starts_with-append :
    (key xs ys : List ℕ)
    → AllPositive key
    → starts_with key xs ≡ true
    → starts_with key (xs ++ ys) ≡ true
unfolding starts_with
starts_with-append [] xs ys p e = refl
starts_with-append (k ∷ key) [] ys p e = absurd (ground (arith, p.0, e))
starts_with-append (k ∷ key) (x ∷ xs) ys p e = ground (arith, starts_with-append key xs ys p.1)

-- What an event with these bytes does, if there is room.
abbrev dealt : Client → List ℕ → ℕ → ℕ → Client
dealt c chunk seconds now =
    (on_recv_data seconds (record c { recv_bytes = c.recv_bytes ++ chunk; last_rcv_time = now })).0

arrival : List ℕ → ℕ → Incoming
arrival chunk round = record { bytes = chunk; is_enoent = false }

read_data_chunk :
    (c : Client) (chunk : List ℕ) (now round : ℕ)
    → 0 < length chunk
    → length chunk < free_len c
    → read_data c (arrival chunk round) now
      ≡ (record c { recv_bytes = c.recv_bytes ++ chunk; last_rcv_time = now }, length chunk)
unfolding read_data free_len arrival
read_data_chunk c chunk now round p q =
    ground (arith, take_all (len_4k - length c.recv_bytes) chunk (omega arith))

read_round_chunk :
    (c : Client) (chunk : List ℕ) (seconds now round : ℕ)
    → 0 < length chunk
    → length chunk < free_len c
    → read_round (on_recv_data seconds) c (arrival chunk round) now
      ≡ (dealt c chunk seconds now, some true)
unfolding read_round on_recv_data
read_round_chunk c chunk seconds now round p q =
    ground (arith, read_data_chunk c chunk now round p q)

read_loop_chunk :
    (c : Client) (chunk : List ℕ) (seconds now : ℕ)
    → 0 < length chunk
    → length chunk < free_len c
    → read_loop (on_recv_data seconds) (arrival chunk) now 2 0 c
      ≡ some (dealt c chunk seconds now, true)
unfolding read_loop
read_loop_chunk c chunk seconds now p q = ground (arith, read_round_chunk c chunk seconds now 0 p q)

-- The chunks arrive one at a time, each with an input event.
pub receive : Client → List (List ℕ) → ℕ → ℕ → Option Client
receive c [] seconds now = some c
receive c (chunk ∷ chunks) seconds now =
    elim (read_loop (on_recv_data seconds) (arrival chunk) now 2 0 c) [
      | none ↦ none
      | some (d, _) ↦ receive d chunks seconds now
    ]

abbrev pub AllNonEmpty : List (List ℕ) → Type 0
AllNonEmpty [] = Unit
AllNonEmpty (c ∷ cs) = (0 < length c) × AllNonEmpty cs

-- The bytes are those that have come, and the flag tells whether they start with the key.
abbrev IsMatched : Client → Type 0
IsMatched c = c.is_auth ≡ starts_with auth_keys c.recv_bytes

dealt-IsMatched :
    (c : Client) (chunk : List ℕ) (seconds now : ℕ)
    → IsMatched c
    → IsMatched (dealt c chunk seconds now)
unfolding on_recv_data
dealt-IsMatched c chunk seconds now m = elim (Bool-cases c.is_auth) [
  | inl e ↦ rw e (sym (starts_with-append auth_keys c.recv_bytes chunk (omega arith) (sym m ∙ e)))
  | inr e ↦ rw e refl
]

receive-IsMatched :
    (c : Client) (chunks : List (List ℕ)) (seconds now : ℕ)
    → AllNonEmpty chunks
    → length c.recv_bytes + length (concat chunks) < len_4k
    → IsMatched c
    → (d : Client) × (receive c chunks seconds now ≡ some d)
      × (d.recv_bytes ≡ c.recv_bytes ++ concat chunks)
      × IsMatched d
unfolding receive concat free_len on_recv_data
receive-IsMatched c [] seconds now h l m = (c, refl, sym (append-nil c.recv_bytes), m)
receive-IsMatched c (chunk ∷ chunks) seconds now h l m =
    let (d, e, f, g) =
      receive-IsMatched (dealt c chunk seconds now) chunks seconds now h.1 (fits.1)
        (dealt-IsMatched c chunk seconds now m) in
    (
      d,
      rw (receive, read_loop_chunk c chunk seconds now h.0 fits.0) e,
      f ∙ append_assoc c.recv_bytes chunk (concat chunks),
      g,
    )
  where
    fits :
        (length chunk < free_len c)
        × (length (dealt c chunk seconds now).recv_bytes + length (concat chunks) < len_4k)
    fits = omega (arith, length-append chunk (concat chunks), length-append c.recv_bytes chunk)

-- However the bytes that a new client sends are cut into the chunks that arrive, with fewer than
-- 4096 of them in all and none of the chunks empty, every input event ends within two rounds of
-- its loop, the bytes are kept in their order, and the client counts as one that may get data
-- exactly if the bytes that came start with the key.
pub receive_lem :
    (n : ℕ) (chunks : List (List ℕ)) (seconds now : ℕ)
    → AllNonEmpty chunks
    → length (concat chunks) < len_4k
    → (d : Client) × (receive (server_client (suc n) now) chunks seconds now ≡ some d)
      × (d.recv_bytes ≡ concat chunks)
      × (d.is_auth ≡ starts_with auth_keys (concat chunks))
unfolding server_client set_fd init_data starts_with on_status_change
receive_lem n chunks seconds now h l =
    let (d, e, f, m) =
      receive-IsMatched (server_client (suc n) now) chunks seconds now h (omega arith) refl in
    (d, e, f, m ∙ ap (starts_with auth_keys) f)
