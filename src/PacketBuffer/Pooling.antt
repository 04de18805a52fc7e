-- ===== src/PacketBuffer/Pooling.antt =====
-- Buffers that come back to the pool are cleared, so `obtain` hands out nothing of an old frame.
use cdroid_demo.Common.{
  ℕ, suc, ◌≡◌, refl, ap, ◌∙◌, inl, inr, ◌&&◌, List, [], ◌∷◌, Option, none, some, length, replicate,
  All, All-append, arith, Bool-cases, ◌==◌,
}
use cdroid_demo.Frame.{BuffData, BufferType, bt_mcu}
use cdroid_demo.PacketBuffer.{
  PacketBuffer, type_code, buffer_len, new_buffer, take_buffer, obtain, recycle,
}

abbrev pub IsCleared : BuffData → Type 0
IsCleared bf = (bf.len ≡ 0) × (bf.buf ≡ replicate bf.slen 0)

abbrev pub IsClean : PacketBuffer → Type 0
IsClean p = All IsCleared p.buffs

type_code-injective : (s t : BufferType) → type_code s ≡ type_code t → s ≡ t
type_code-injective s t h = ground arith

-- A buffer that the pool gives is a new one, and the rest of the pool is still clean.
abbrev Gives : BufferType → List BuffData → Option (BuffData × List BuffData) → Type 0
Gives t bs none = Unit
Gives t bs (some (bf, rest)) =
    (bf ≡ new_buffer t) × All IsCleared rest × (length bs ≡ suc (length rest))

Gives-cons :
    (t : BufferType) (bf : BuffData) (bs : List BuffData) (r : Option (BuffData × List BuffData))
    → IsCleared bf
    → Gives t bs r
    → Gives t (bf ∷ bs) (elim r [ none ↦ none | some (found, others) ↦ some (found, bf ∷ others) ])
Gives-cons t bf bs none h g = tt
Gives-cons t bf bs (some (found, others)) h g = (g.0, (h, g.1), ap suc g.2)

take_buffer-Gives :
    (t : BufferType) (bs : List BuffData) → All IsCleared bs → Gives t bs (take_buffer t bs)
unfolding take_buffer new_buffer
take_buffer-Gives t [] h = tt
take_buffer-Gives t (bf ∷ bs) h =
    elim (Bool-cases (type_code bf.type == type_code t && bf.slen == buffer_len t)) [
      | inl e ↦ rw e (same (type_code-injective bf.type t (ground arith)) (ground arith), h.1, refl)
      | inr e ↦ rw e (Gives-cons t bf bs (take_buffer t bs) h.0 (take_buffer-Gives t bs h.1))
    ]
  where
    same :
        bf.type ≡ t
        → bf.slen ≡ buffer_len t
        → ◌≡◌ {A = BuffData} (record bf { len = 0 }) (new_buffer t)
    same p q = ground (arith, h.0.1, ap (λ n. replicate {A = ℕ} n 0) q)

-- From a clean pool `obtain` hands out what a fresh allocation gives, all zero and not in use,
-- and leaves the pool clean, of its type and no larger.
pub obtain_lem :
    (p : PacketBuffer)
    → IsClean p
    → ((obtain p).0 ≡ new_buffer p.type) × IsClean (obtain p).1 × ((obtain p).1.type ≡ p.type)
unfolding obtain
obtain_lem p h = go (take_buffer p.type p.buffs) refl (take_buffer-Gives p.type p.buffs h)
  where
    go :
        (r : Option (BuffData × List BuffData))
        → take_buffer p.type p.buffs ≡ r
        → Gives p.type p.buffs r
        → ((obtain p).0 ≡ new_buffer p.type) × IsClean (obtain p).1 × ((obtain p).1.type ≡ p.type)
    go none e g = rw (e, obtain) (refl, h, refl)
    go (some (bf, rest)) e g = rw (e, obtain) (g.0, g.1, refl)

-- Any buffer may be recycled, whatever it holds, and the pool stays clean.
pub recycle-IsClean :
    (p : PacketBuffer) (bf : BuffData)
    → IsClean p
    → IsClean (recycle p bf) × ((recycle p bf).type ≡ p.type)
unfolding recycle
recycle-IsClean p bf h = (All-append IsCleared p.buffs _ h ((refl, refl), tt), refl)

-- Whatever was in a buffer that comes back, the next `obtain` hands out a buffer that is all zero.
pub obtain-recycle :
    (p : PacketBuffer) (bf : BuffData)
    → IsClean p
    → ((obtain (recycle p bf)).0 ≡ new_buffer p.type) × IsClean (obtain (recycle p bf)).1
obtain-recycle p bf h =
    let back = recycle-IsClean p bf h in
    let next = obtain_lem (recycle p bf) back.0 in (next.0 ∙ ap new_buffer back.1, next.1)

-- The new buffer of the main board.
pub new_buffer_mcu :
    ((new_buffer bt_mcu).type ≡ bt_mcu)
    × ((new_buffer bt_mcu).slen ≡ 32)
    × ((new_buffer bt_mcu).len ≡ 0)
    × ((new_buffer bt_mcu).buf ≡ replicate 32 0)
unfolding new_buffer buffer_len
new_buffer_mcu = (refl, refl, refl, refl)
