-- ===== src/ConnMgr/Runs.antt =====
-- What holds of the object whatever happens to it.
use cdroid_demo.Common.{
  ℕ, ◌+◌, ◌<◌, ◌≡◌, refl, sym, ap, ◌∙◌, subst, Bool, List, [], ◌∷◌, Option, set, length, length-set,
  All, All-set, All-get_or, IsByte, arith, true, false, if◌then◌else◌,
}
use cdroid_demo.Common.Bits.{bit_or-lt}
use cdroid_demo.Frame.{BuffData, bt_mcu, byte_at}
use cdroid_demo.PacketBuffer.{PacketBuffer, ack_data, obtain, new_buffer}
use cdroid_demo.PacketBuffer.Pooling.{IsClean, obtain_lem}
use cdroid_demo.UartClient.{UartClient, on_tick, create}
use cdroid_demo.UartClient.Sending.{
  IsQueue, IsFull, NoRepeat, send-IsQueue, send-type, set_product_callback-IsQueue, create-IsReady,
  init-IsQueue,
}
use cdroid_demo.UartClient.Receiving.{IsReady}
use cdroid_demo.UartClient.Kept.{handle_event-IsQueue}
use cdroid_demo.UartClient.Ticking.{on_tick-IsQueue}
use cdroid_demo.ConnMgr.{
  ConnMgr, Command, set_water_action, set_water_tem, set_water_yield, set_cooling, set_ice_action,
  set_hpcc_reset, set_ro_reset, set_reset_status, set_beep, close_volumn, set_stove_light,
  set_sleep, run_command, send2mcu, handle_events, check_events, on_comm_deal, warn_comm,
  warn_first, init, tick_time, Action, commands, ticks, answers, tests, reads, step, run,
  set_product_test,
}
use cdroid_demo.ConnMgr.Wire.{pooled, frame_of, frame_of-Carries}

-- The control bytes are 32 and bytes, the client's queue is in order and for the main board, and
-- fewer than 30 reports of a communication fault have been counted.
pub record IsControl (c : ConnMgr) : Type 0 where
  pub size : length c.snd_data ≡ 32
  pub bytes : All IsByte c.snd_data
  pub queue : IsQueue c.uart
  pub type : c.uart.packet_buff.type ≡ bt_mcu
  pub counted : c.comm_error_count < 30

-- A list of control bytes.
abbrev IsBytes : List ℕ → Type 0
IsBytes l = (length l ≡ 32) × All IsByte l

set-IsBytes : (l : List ℕ) (i v : ℕ) → IsBytes l → v < 256 → IsBytes (set l i v)
set-IsBytes l i v h b = (length-set l i v ∙ h.0, All-set IsByte l i v h.1 b)

run_command-IsBytes :
    (c : ConnMgr) (k : Command) → IsBytes c.snd_data → IsBytes (run_command c k).snd_data
unfolding run_command
run_command-IsBytes c (set_water_action t) h = set-IsBytes _ 3 _ h (ground arith)
run_command-IsBytes c (set_water_tem value) h = set-IsBytes _ 4 _ h (omega arith)
run_command-IsBytes c (set_water_yield value) h =
    set-IsBytes _ 6 _ (set-IsBytes _ 5 _ h (omega arith)) (omega arith)
run_command-IsBytes c (set_cooling value) h = set-IsBytes _ 7 _ h (ground arith)
run_command-IsBytes c (set_ice_action flag) h = set-IsBytes _ 8 _ h (ground arith)
run_command-IsBytes c (set_hpcc_reset flag) h = set-IsBytes _ 9 _ h (ground arith)
run_command-IsBytes c (set_ro_reset flag) h = set-IsBytes _ 10 _ h (ground arith)
run_command-IsBytes c (set_reset_status true) h =
    set-IsBytes _ 8 0 (set-IsBytes _ 7 0 (set-IsBytes _ 3 0 h (omega arith)) (omega arith))
      (omega arith)
run_command-IsBytes c (set_reset_status false) h = h
run_command-IsBytes c (set_beep flag) h = set-IsBytes _ 12 _ h (
    bit_or-lt 8 (byte_at c.snd_data 12) (if flag then 1 else 0)
      (All-get_or IsByte c.snd_data 12 0 h.1 (omega arith)) (ground arith))
run_command-IsBytes c (close_volumn flag) h = h
run_command-IsBytes c (set_stove_light flag) h = h
run_command-IsBytes c (set_sleep flag) h = h

-- Commands touch nothing else that the invariant speaks of.
run_command_other :
    (c : ConnMgr) (k : Command)
    → ((run_command c k).uart ≡ c.uart) × ((run_command c k).comm_error_count ≡ c.comm_error_count)
unfolding run_command
run_command_other c k = ground arith

run_command-IsControl : (c : ConnMgr) (k : Command) → IsControl c → IsControl (run_command c k)
run_command-IsControl c k v = record {
  size = (run_command-IsBytes c k (v.size, v.bytes)).0;
  bytes = (run_command-IsBytes c k (v.size, v.bytes)).1;
  queue = subst IsQueue (sym other.0) v.queue;
  type = subst (λ (u : UartClient). u.packet_buff.type ≡ bt_mcu) (sym other.0) v.type;
  counted = omega (arith, other.1, v.counted);
}
  where
    other :
        ((run_command c k).uart ≡ c.uart)
        × ((run_command c k).comm_error_count ≡ c.comm_error_count)
    other = run_command_other c k

send2mcu-IsControl : (c : ConnMgr) (now : ℕ) → IsControl c → IsControl (send2mcu c now)
unfolding send2mcu
send2mcu-IsControl c now v = record {
  size = (set-IsBytes c.snd_data 12 0 (v.size, v.bytes) (omega arith)).0;
  bytes = (set-IsBytes c.snd_data 12 0 (v.size, v.bytes) (omega arith)).1;
  queue = (send-IsQueue u ask ready frame).0;
  type = send-type u ask ready ∙ given.2 ∙ v.type;
  counted = v.counted;
}
  where
    given :
        ((obtain c.uart.packet_buff).0 ≡ new_buffer c.uart.packet_buff.type)
        × IsClean (obtain c.uart.packet_buff).1
        × ((obtain c.uart.packet_buff).1.type ≡ c.uart.packet_buff.type)
    given = obtain_lem c.uart.packet_buff v.queue.clean

    u : UartClient
    u = pooled c.uart

    ask : BuffData
    ask = frame_of c

    frame : IsFull ask
    frame = (frame_of-Carries c v.queue.clean v.type).0

    ready : IsQueue u
    ready = record {
      full = v.queue.full;
      no_repeat = subst (λ t. NoRepeat t c.uart.send_queue) (sym given.2) v.queue.no_repeat;
      clean = given.1;
    }

ticked-IsControl :
    (c : ConnMgr) (now : ℕ) → IsControl c → IsControl (record c { uart = on_tick c.uart now })
ticked-IsControl c now v = record {
  size = v.size;
  bytes = v.bytes;
  queue = (on_tick-IsQueue c.uart now v.queue).0;
  type = (on_tick-IsQueue c.uart now v.queue).1 ∙ v.type;
  counted = v.counted;
}

handle_events-IsControl : (c : ConnMgr) (now : ℕ) → IsControl c → IsControl (handle_events c now)
unfolding handle_events
handle_events-IsControl c now v = ground (
  arith,
  ticked-IsControl c now v,
  send2mcu-IsControl (record c { uart = on_tick c.uart now }) now (ticked-IsControl c now v),
)

warn_comm-lt : (code state count : ℕ) → count < 30 → (warn_comm code state count).1 < 30
unfolding warn_comm
warn_comm-lt code state count h = ground arith

on_comm_deal-IsControl :
    (c : ConnMgr) (ack : BuffData) (now : ℕ) → IsControl c → IsControl (on_comm_deal c ack now).0
unfolding on_comm_deal
on_comm_deal-IsControl c ack now v = ground (arith, v, dealt)
  where
    code : ℕ
    code = ack_data bt_mcu ack 12

    dealt : IsControl (record c {
      last_warn_time = now;
      comm_error_count = (warn_comm code (warn_first code) c.comm_error_count).1;
    })
    dealt = record {
      size = v.size;
      bytes = v.bytes;
      queue = v.queue;
      type = v.type;
      counted = warn_comm-lt code (warn_first code) c.comm_error_count v.counted;
    }

woken-IsControl :
    (c : ConnMgr) (time : ℕ) → IsControl c → IsControl (record c { next_event_time = time })
woken-IsControl c time v = record {
  size = v.size;
  bytes = v.bytes;
  queue = v.queue;
  type = v.type;
  counted = v.counted;
}

step-IsControl : (c : ConnMgr) (a : Action) → IsControl c → IsControl (step c a)
unfolding step check_events set_product_test
step-IsControl c (commands k) v = run_command-IsControl c k v
step-IsControl c (ticks now) v = ground (
  arith,
  v,
  handle_events-IsControl (record c { next_event_time = now + tick_time }) now
      (woken-IsControl c (now + tick_time) v),
)
step-IsControl c (answers ack now) v = on_comm_deal-IsControl c ack now v
step-IsControl c (tests on) v = record {
  size = v.size;
  bytes = v.bytes;
  queue = (set_product_callback-IsQueue c.uart on v.queue).0;
  type =
      ap (λ (p : PacketBuffer). p.type) (set_product_callback-IsQueue c.uart on v.queue).1 ∙ v.type;
  counted = v.counted;
}
step-IsControl c (reads results now) v = record {
  size = v.size;
  bytes = v.bytes;
  queue = (handle_event-IsQueue c.uart results now v.queue).0;
  type =
      ap (λ (p : PacketBuffer). p.type) (handle_event-IsQueue c.uart results now v.queue).1
      ∙ v.type;
  counted = v.counted;
}

run-IsControl : (c : ConnMgr) (actions : List Action) → IsControl c → IsControl (run c actions)
unfolding run
run-IsControl c [] v = v
run-IsControl c (a ∷ actions) v = run-IsControl (step c a) actions (step-IsControl c a v)

init-IsControl : (now : ℕ) (opened : Option ℕ) (is_set : Bool) → IsControl (init now opened is_set)
unfolding init
init-IsControl now opened is_set = record {
  size = refl;
  bytes = ground arith;
  queue = (init-IsQueue made opened is_set fresh.1).0;
  type =
      ap (λ (p : PacketBuffer). p.type) (init-IsQueue made opened is_set fresh.1).1 ∙ fresh.0.type;
  counted = omega arith;
}
  where
    made : UartClient
    made = create (record { type = bt_mcu; buffs = [] }) 0 now

    fresh : IsReady made × IsQueue made
    fresh = create-IsReady (record { type = bt_mcu; buffs = [] }) 0 now tt refl

-- Whatever commands, ticks, answers, reads of the port and switches of the test mode follow on the start,
-- in whatever order, and whether the port could be opened and set up or not: the control bytes are 32
-- and each is below 256; the client serves the main board, its queue holds full frames of which none
-- repeats one before it, and its pool only cleared buffers; and fewer than 30 reports of a
-- communication fault are counted.
pub run-init-IsControl :
    (now : ℕ) (opened : Option ℕ) (is_set : Bool) (actions : List Action)
    → IsControl (run (init now opened is_set) actions)
run-init-IsControl now opened is_set actions =
    run-IsControl (init now opened is_set) actions (init-IsControl now opened is_set)
