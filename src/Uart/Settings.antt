-- ===== src/Uart/Settings.antt =====
-- What UART0_Set asks of the port.
use cdroid_demo.Common.{
  ℕ, ◌≡◌, refl, subst, Bool, true, false, ◌&&◌, ◌||◌, List, [], ◌∷◌, Option, none, some, arith, leb,
  ◌==◌, if◌then◌else◌, Bool-cases, Option-cases, inl, inr,
}
use cdroid_demo.Uart.{
  Termios, set_raw, name_arr, set_speed, set_flow, set_databits, set_parity, set_stopbits, set_wait,
  wanted, Port, uart0_set, ◌>>=◌,
}

-- 'o' 'O', 'e' 'E', and 'n' 'N' 's' 'S' for no parity.
abbrev pub is_odd : ℕ → Bool
is_odd parity = parity == 111 || parity == 79

abbrev pub is_even : ℕ → Bool
is_even parity = parity == 101 || parity == 69

abbrev pub is_plain : ℕ → Bool
is_plain parity = (parity == 110 || parity == 78) || (parity == 115 || parity == 83)

abbrev pub is_valid : ℕ → ℕ → ℕ → Bool
is_valid databits stopbits parity =
    (leb 5 databits && leb databits 8)
    && (((is_plain parity || is_odd parity) || is_even parity) && (stopbits == 1 || stopbits == 2))

-- A parity bit is sent and checked exactly for an odd or an even parity, and it is the one asked for.
abbrev pub IsParity : Termios → ℕ → Type 0
IsParity t parity =
    (t.c_cflag.parenb ≡ (is_odd parity || is_even parity))
    × (t.c_iflag.inpck ≡ (is_odd parity || is_even parity))
    × (if is_odd parity
        then t.c_cflag.parodd ≡ true
        else if is_even parity
        then t.c_cflag.parodd ≡ false
        else Unit)

-- What the arguments ask for, apart from the speed and the flow control.
abbrev pub Meets : Termios → ℕ → ℕ → ℕ → Type 0
Meets t databits stopbits parity =
    (t.c_cflag.csize ≡ databits)
    × (t.c_cflag.cstopb ≡ (stopbits == 2))
    × IsParity t parity
    × (t.c_cflag.clocal ≡ true)
    × (t.c_cflag.cread ≡ true)
    × (t.vmin ≡ 1)

-- A frame that is ready for its parity.
abbrev IsRaw : Termios → ℕ → Type 0
IsRaw t databits =
    (t.c_cflag.csize ≡ databits)
    × (t.c_iflag.inpck ≡ false)
    × (t.c_cflag.clocal ≡ true)
    × (t.c_cflag.cread ≡ true)

set_raw-IsRaw : (t : Termios) → IsRaw (set_raw t) 0
unfolding set_raw
set_raw-IsRaw t = (refl, refl, refl, refl)

set_speed-IsRaw :
    (ns : List ℕ) (speed n : ℕ) (t : Termios) → IsRaw t n → IsRaw (set_speed ns speed t) n
unfolding set_speed
set_speed-IsRaw [] speed n t h = h
set_speed-IsRaw (m ∷ ns) speed n t h =
    set_speed-IsRaw ns speed n (if speed == m then record t { speed = m } else t)
      (ground (arith, h))

set_flow-IsRaw : (flow_ctrl n : ℕ) (t : Termios) → IsRaw t n → IsRaw (set_flow flow_ctrl t) n
unfolding set_flow
set_flow-IsRaw flow_ctrl n t h = ground (arith, h)

abbrev pub is_parity : ℕ → Bool
is_parity parity = (is_plain parity || is_odd parity) || is_even parity

-- The parity, and that it was one of the letters.
abbrev IsChecked : ℕ → ℕ → Option Termios → Type 0
IsChecked parity n none = is_parity parity ≡ false
IsChecked parity n (some u) =
    (is_parity parity ≡ true)
    × IsParity u parity
    × (u.c_cflag.csize ≡ n)
    × (u.c_cflag.clocal ≡ true)
    × (u.c_cflag.cread ≡ true)

set_parity-IsChecked :
    (parity n : ℕ) (t : Termios) → IsRaw t n → IsChecked parity n (set_parity parity t)
unfolding set_parity
set_parity-IsChecked parity n t h = ground (arith, h)

-- After the stop bits and the waiting, from a checked parity.
abbrev IsWanted : ℕ → ℕ → ℕ → Option Termios → Type 0
IsWanted databits stopbits parity none = is_valid databits stopbits parity ≡ false
IsWanted databits stopbits parity (some t) =
    (is_valid databits stopbits parity ≡ true) × Meets t databits stopbits parity

finished :
    (databits stopbits parity : ℕ) (u : Termios)
    → (leb 5 databits && leb databits 8) ≡ true
    → IsChecked parity databits (some u)
    → IsWanted databits stopbits parity (set_stopbits stopbits u >>= λ v. some (set_wait v))
unfolding set_stopbits set_wait
finished databits stopbits parity u d h = elim (Bool-cases (stopbits == 1)) [
  | inl e ↦
      rw (set_stopbits, e)
        (rw (d, h.0) (rw e (refl, (h.2, ground (arith, e), h.1, h.3, h.4, refl))))
  | inr e ↦ elim (Bool-cases (stopbits == 2)) [
    | inl f ↦
        rw (set_stopbits, e, f) (rw (d, h.0) (rw (e, f) (refl, (h.2, refl, h.1, h.3, h.4, refl))))
    | inr f ↦ rw (set_stopbits, e, f) (rw (d, h.0) (rw (e, f) refl))
  ]
]

wanted-IsWanted :
    (t : Termios) (speed flow_ctrl databits stopbits parity : ℕ)
    → IsWanted databits stopbits parity (wanted t speed flow_ctrl databits stopbits parity)
unfolding wanted set_databits
wanted-IsWanted t speed flow_ctrl databits stopbits parity =
    elim (Bool-cases (leb 5 databits && leb databits 8)) [
      | inr d ↦ rw (wanted, d) (rw d refl)
      | inl d ↦ elim (Option-cases (set_parity parity sized)) [
        | inl e ↦
            rw (wanted, d, e)
              (let bad : is_parity parity ≡ false = subst (IsChecked parity databits) e checked in
                rw (d, bad) refl)
        | inr (u, e) ↦
            rw (wanted, d, e)
              (finished databits stopbits parity u d (subst (IsChecked parity databits) e checked))
      ]
    ]
  where
    raw : Termios
    raw = set_flow flow_ctrl (set_speed name_arr speed (set_raw t))

    sized : Termios
    sized = record raw { c_cflag = record (raw.c_cflag) { csize = databits } }

    raw-IsRaw : IsRaw raw 0
    raw-IsRaw =
        set_flow-IsRaw flow_ctrl 0 (set_speed name_arr speed (set_raw t))
          (set_speed-IsRaw name_arr speed 0 (set_raw t) (set_raw-IsRaw t))

    checked : IsChecked parity databits (set_parity parity sized)
    checked =
        set_parity-IsChecked parity databits sized (refl, raw-IsRaw.1, raw-IsRaw.2, raw-IsRaw.3)

-- UART0_Set succeeds exactly if the attributes can be read and written, there are 5 to 8 bits, one or
-- two stop bits and a letter for the parity. Then the port has that many bits and stop bits, a parity
-- bit exactly for an odd or an even parity, and of the kind asked for, and its receiver is on; in
-- every other case its attributes are as before.
pub uart0_set_lem :
    (p : Port) (reads writes : Bool) (speed flow_ctrl databits stopbits parity : ℕ)
    → let (q, done) = uart0_set p reads writes speed flow_ctrl databits stopbits parity in
      (done ≡ (reads && (writes && is_valid databits stopbits parity)))
      × (if done then Meets q.attributes databits stopbits parity else q ≡ p)
unfolding uart0_set
uart0_set_lem p reads writes speed flow_ctrl databits stopbits parity =
    go reads writes (wanted p.attributes speed flow_ctrl databits stopbits parity) refl
      (wanted-IsWanted p.attributes speed flow_ctrl databits stopbits parity)
  where
    go :
        (reads writes : Bool) (o : Option Termios)
        → wanted p.attributes speed flow_ctrl databits stopbits parity ≡ o
        → IsWanted databits stopbits parity o
        → let (q, done) = uart0_set p reads writes speed flow_ctrl databits stopbits parity in
          (done ≡ (reads && (writes && is_valid databits stopbits parity)))
          × (if done then Meets q.attributes databits stopbits parity else q ≡ p)
    go false writes o e h = (refl, refl)
    go true true none e h = rw (uart0_set, e) (rw h (refl, refl))
    go true false none e h = rw (uart0_set, e) (refl, refl)
    go true true (some t) e h = rw (uart0_set, e) (rw (h.0) (refl, h.1))
    go true false (some t) e h = rw (uart0_set, e) (refl, refl)
