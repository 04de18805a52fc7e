-- ===== src/Uart/Examples.antt =====
-- A port that is set up and written to.
use cdroid_demo.Common.{
  ℕ, ◌≡◌, refl, ◌⊎◌, true, false, ◌&&◌, List, [], ◌∷◌, ◌++◌, some, length, if◌then◌else◌,
}
use cdroid_demo.Uart.{Termios, set_flow, Port, uart0_set, uart0_send}
use cdroid_demo.Uart.Settings.{Meets, is_valid, uart0_set_lem}
use cdroid_demo.Uart.Sending.{uart0_send_lem}

abbrev attributes : Termios
attributes = record {
  c_cflag = record {
    clocal = false;
    cread = false;
    csize = 8;
    crtscts = true;
    parenb = false;
    parodd = false;
    cstopb = true;
    ixon_bits = false;
  };
  c_iflag = record { brkint = true; icrnl = true; inpck = false; istrip = false; ixon = true };
  c_lflag = record { icanon = true; echo = true; echoe = true; isig = true };
  opost = true;
  speed = 38400;
  vtime = 0;
  vmin = 1;
}

abbrev port : Port
port = record { attributes = attributes; sent = [] }

-- 115200 bauds, 8 bits, 1 stop bit, 'N'.
uart0_set_lem_example :
    let (q, done) = uart0_set port true true 115200 0 8 1 78 in
    (done ≡ (true && (true && is_valid 8 1 78)))
    × (if done then Meets q.attributes 8 1 78 else q ≡ port)
uart0_set_lem_example = uart0_set_lem port true true 115200 0 8 1 78

-- The bits of the software flow control are set among the control flags.
flow_bits : (set_flow 2 attributes).c_iflag.ixon ≡ attributes.c_iflag.ixon
unfolding set_flow
flow_bits = refl

abbrev two_bytes : ℕ → ℕ
two_bytes round = 2

uart0_send_lem_example :
    (q : Port) × (n : ℕ) × (gone left : List ℕ) × (uart0_send two_bytes port (1 ∷ 2 ∷ 3 ∷ [])
      ≡ some (q, n))
    × (gone ++ left ≡ 1 ∷ 2 ∷ 3 ∷ [])
    × (length gone ≡ n)
    × (q.sent ≡ port.sent ++ gone)
    × (q.attributes ≡ port.attributes)
    × ((left ≡ []) ⊎ ((i : ℕ) × (two_bytes i ≡ 0)))
uart0_send_lem_example = uart0_send_lem two_bytes port (1 ∷ 2 ∷ 3 ∷ [])
