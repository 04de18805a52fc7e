-- ===== src/Uart.antt =====
-- src/uart/uart.cc: the serial port that UartClient opens, reads and writes. open, close, tcgetattr,
-- tcsetattr, select, read and write are the system's: what they answer is an argument. The flags of
-- termios are sets of flag names; CSIZE is the number of bits of a character, and the line's speed
-- is the number of bauds.
pub mod Settings
pub mod Sending
mod Examples
use cdroid_demo.Common.{
  ℕ, zero, suc, ◌+◌, ◌-◌, Bool, true, false, ◌&&◌, ◌||◌, not, List, [], ◌∷◌, ◌++◌, Option, none,
  some, ltb, leb, ◌==◌, if◌then◌else◌, length, take, drop,
}

-- UART0_Open: the descriptor, and FALSE, 0, if there is none.
unfoldable pub uart0_open : Option ℕ → ℕ
uart0_open none = 0
uart0_open (some fd) = fd

-- The flags that the code names, with the field of termios that it puts each into.
pub record CFlags : Type 0 where
  pub clocal : Bool
  pub cread : Bool
  pub csize : ℕ
  pub crtscts : Bool
  pub parenb : Bool
  pub parodd : Bool
  pub cstopb : Bool
  -- The bits of IXON | IXOFF | IXANY, which are names of c_iflag.
  pub ixon_bits : Bool

pub record IFlags : Type 0 where
  pub brkint : Bool
  pub icrnl : Bool
  pub inpck : Bool
  pub istrip : Bool
  pub ixon : Bool

pub record LFlags : Type 0 where
  pub icanon : Bool
  pub echo : Bool
  pub echoe : Bool
  pub isig : Bool

pub record Termios : Type 0 where
  pub c_cflag : CFlags
  pub c_iflag : IFlags
  pub c_lflag : LFlags
  pub opost : Bool
  pub speed : ℕ
  pub vtime : ℕ
  pub vmin : ℕ

-- The assignments before the speed.
unfoldable pub set_raw : Termios → Termios
set_raw t = record t {
  c_cflag = record (t.c_cflag) { clocal = true; cread = true; csize = 0 };
  c_lflag = record { icanon = false; echo = false; echoe = false; isig = false };
  c_iflag = record { brkint = false; icrnl = false; inpck = false; istrip = false; ixon = false };
  opost = false;
}

abbrev pub name_arr : List ℕ
name_arr = 115200 ∷ 19200 ∷ 9600 ∷ 4800 ∷ 2400 ∷ 1200 ∷ 300 ∷ []

-- The loop over the speeds.
unfoldable pub set_speed : List ℕ → ℕ → Termios → Termios
set_speed [] speed t = t
set_speed (n ∷ ns) speed t =
    let changed = if speed == n then record t { speed = n } else t in set_speed ns speed changed

unfoldable pub set_flow : ℕ → Termios → Termios
set_flow flow_ctrl t =
    if flow_ctrl == 0
    then record t { c_cflag = record (t.c_cflag) { crtscts = false } }
    else if flow_ctrl == 1
    then record t { c_cflag = record (t.c_cflag) { crtscts = true } }
    else if flow_ctrl == 2
    then record t { c_cflag = record (t.c_cflag) { ixon_bits = true } }
    else t

-- 5 to 8 bits; `none` is the return of FALSE.
unfoldable pub set_databits : ℕ → Termios → Option Termios
set_databits databits t =
    if leb 5 databits && leb databits 8
    then some (record t { c_cflag = record (t.c_cflag) { csize = databits } })
    else none

-- 'n' 'N' 'o' 'O' 'e' 'E' 's' 'S'.
unfoldable pub set_parity : ℕ → Termios → Option Termios
set_parity parity t =
    if parity == 110 || parity == 78
    then some (record t {
      c_cflag = record (t.c_cflag) { parenb = false };
      c_iflag = record (t.c_iflag) { inpck = false };
    })
    else if parity == 111 || parity == 79
    then some (record t {
      c_cflag = record (t.c_cflag) { parodd = true; parenb = true };
      c_iflag = record (t.c_iflag) { inpck = true };
    })
    else if parity == 101 || parity == 69
    then some (record t {
      c_cflag = record (t.c_cflag) { parenb = true; parodd = false };
      c_iflag = record (t.c_iflag) { inpck = true };
    })
    else if parity == 115 || parity == 83
    then some (record t { c_cflag = record (t.c_cflag) { parenb = false; cstopb = false } })
    else none

unfoldable pub set_stopbits : ℕ → Termios → Option Termios
set_stopbits stopbits t =
    if stopbits == 1
    then some (record t { c_cflag = record (t.c_cflag) { cstopb = false } })
    else if stopbits == 2
    then some (record t { c_cflag = record (t.c_cflag) { cstopb = true } })
    else none

unfoldable pub set_wait : Termios → Termios
set_wait t = record t { vtime = 1; vmin = 1 }

infixl 5 ◌>>=◌
abbrev pub ◌>>=◌ : Option Termios → (Termios → Option Termios) → Option Termios
none >>= f = none
some t >>= f = f t

-- What UART0_Set hands to tcsetattr.
unfoldable pub wanted : Termios → ℕ → ℕ → ℕ → ℕ → ℕ → Option Termios
unfolding set_raw set_speed set_flow set_databits set_parity set_stopbits set_wait
wanted t speed flow_ctrl databits stopbits parity = do
  let raw = set_flow flow_ctrl (set_speed name_arr speed (set_raw t))
  sized ← set_databits databits raw
  checked ← set_parity parity sized
  stopped ← set_stopbits stopbits checked
  some (set_wait stopped)

-- The port: its attributes, and what it has sent.
pub record Port : Type 0 where
  pub attributes : Termios
  pub sent : List ℕ

-- UART0_Set, which UART0_Init calls; `reads` and `writes` say whether tcgetattr and tcsetattr succeed.
unfoldable pub uart0_set : Port → Bool → Bool → ℕ → ℕ → ℕ → ℕ → ℕ → Port × Bool
unfolding wanted
uart0_set p reads writes speed flow_ctrl databits stopbits parity =
    if reads
    then elim (wanted p.attributes speed flow_ctrl databits stopbits parity) [
      | none ↦ (p, false)
      | some t ↦ (if writes then (record p { attributes = t }, true) else (p, false))
    ]
    else (p, false)

-- UART0_Recv: select sees nothing in 10 ms, or read gives some of the bytes that have come.
unfoldable pub uart0_recv : Bool → List ℕ → ℕ → List ℕ
uart0_recv false input data_len = []
uart0_recv true input data_len = take data_len input

-- The loop of UART0_Send: the write of `round` takes `accepts round` bytes of those that are left, at
-- most all, and 0 stands for an error too. The result is the number of bytes taken; `none` when the
-- fuel runs out.
unfoldable pub send_loop : (ℕ → ℕ) → ℕ → ℕ → Port → List ℕ → ℕ → Option (Port × ℕ)
send_loop accepts zero round p rest offset = none
send_loop accepts (suc fuel) round p rest offset =
    let n = length (take (accepts round) rest) in
    let again =
      send_loop accepts fuel (suc round) (record p { sent = p.sent ++ take (accepts round) rest })
        (drop (accepts round) rest) (offset + n) in
    if length rest == 0 then some (p, offset) else if n == 0 then some (p, offset) else again

unfoldable pub uart0_send : (ℕ → ℕ) → Port → List ℕ → Option (Port × ℕ)
unfolding send_loop
uart0_send accepts p bytes = send_loop accepts (suc (length bytes)) 0 p bytes 0
