-- ===== src/ConnMgr/Examples.antt =====
-- The object of src/protocol/conn_mgr.cc at concrete states, and its properties.
use cdroid_demo.Common.{
  ◌+◌, ◌*◌, ◌%◌, ◌/◌, ◌<◌, ◌≡◌, ◌⊎◌, inl, refl, [], ◌∷◌, ◌++◌, true, false, arith, replicate, some,
  none, List, length,
}
use cdroid_demo.Frame.{BuffData, bt_mcu}
use cdroid_demo.Frame.Receive.{mcu_get_data, parse}
use cdroid_demo.PacketBuffer.{ack_data}
use cdroid_demo.Uart.{uart0_open}
use cdroid_demo.UartClient
use cdroid_demo.UartClient.{
  UartClient, create, st_connected, is_conn, received, on_tick, send_front, send_trans, send,
  any_same,
}
use cdroid_demo.UartClient.Sending.{IsQueue, create-IsReady}
use cdroid_demo.ConnMgr.{
  ConnMgr, init, run, run_command, handle_events, on_comm_deal, set_water_yield, set_reset_status,
  set_beep, commands, ticks, answers, reads, control_frame, Action, step, check_events, send2mcu,
}
use cdroid_demo.ConnMgr.Runs.{IsControl, run-init-IsControl}
use cdroid_demo.ConnMgr.Warnings.{IsDue, on_comm_deal_due}
use cdroid_demo.ConnMgr.Wire.{OnWire, handle_events-OnWire}

-- An answer that reports E02 and E03 in byte 12 and nothing in byte 13.
abbrev report : BuffData
report = record {
  type = bt_mcu;
  slen = 32;
  len = 16;
  buf = 0x02 ∷ 0x10 ∷ (replicate 10 0 ++ 0x06 ∷ replicate 19 0);
}

-- The port is open: a second command is queued while the first one is sent, and the board answers.
abbrev started : ConnMgr
started = init 0 (some 3) true

abbrev history : List Action
history =
    commands (set_water_yield 300)
    ∷ ticks 600
    ∷ commands (set_beep true)
    ∷ ticks 650
    ∷ answers report 40000
    ∷ reads (received (1 ∷ 2 ∷ []) ∷ []) 40001
    ∷ []

run-init-IsControl_example : IsControl (run started history)
run-init-IsControl_example = run-init-IsControl 0 (some 3) true history

started_connected : is_conn started.uart ≡ true
unfolding init UartClient.init uart0_open is_conn
started_connected = refl

-- The frame of the first command waits in the queue.
one_queued :
    length (run started (commands (set_water_yield 300) ∷ ticks 600 ∷ [])).uart.send_queue ≡ 1
unfolding run step check_events run_command handle_events send2mcu init UartClient.init uart0_open
    is_conn create on_tick send_front send any_same
one_queued = refl

not_opened : is_conn (init 0 none true).uart ≡ false
unfolding init UartClient.init uart0_open is_conn create
not_opened = refl

-- The object at the time 0, with its client connected and a command given.
abbrev uart : UartClient
uart = record (create (record { type = bt_mcu; buffs = [] }) 0 0) { status = st_connected }

abbrev told : ConnMgr
told = record {
  is_factory = false;
  next_event_time = 50;
  last_send_time = 0;
  last_warn_time = 0;
  uart = uart;
  set_data_count = 1;
  comm_error_count = 0;
  snd_data = replicate 32 0;
  mcu_type = 0;
}

uart-IsQueue : IsQueue uart
uart-IsQueue =
    let q = (create-IsReady (record { type = bt_mcu; buffs = [] }) 0 0 tt refl).1 in
    record { full = q.full; no_repeat = q.no_repeat; clean = q.clean }

uart_fields : (is_conn uart ≡ true) × (uart.send_queue ≡ []) × (uart.last_send_time ≡ 0)
unfolding is_conn create
uart_fields = (refl, refl, refl)

handle_events-OnWire_example :
    OnWire uart (handle_events (handle_events told 500) 700).uart told.snd_data
handle_events-OnWire_example =
    handle_events-OnWire told 500 700 uart-IsQueue
      (create-IsReady (record { type = bt_mcu; buffs = [] }) 0 0 tt refl).0.type uart_fields.0
      uart_fields.1 (inl (omega arith)) (omega (arith, uart_fields.2))

-- A buffer to write a frame into, and the frames that two settings make.
abbrev blank : BuffData
blank = record { type = bt_mcu; slen = 32; len = 0; buf = replicate 32 0 }

abbrev filled : ConnMgr
filled = record told { snd_data = replicate 32 9 }

abbrev yield_frame : BuffData
yield_frame = control_frame (run_command filled (set_water_yield 300)).snd_data blank

abbrev reset_frame : BuffData
reset_frame = control_frame (run_command filled (set_reset_status true)).snd_data blank

report_codes : (ack_data bt_mcu report 12 ≡ 6) × (ack_data bt_mcu report 13 ≡ 0)
unfolding ack_data mcu_get_data parse
report_codes = (refl, refl)

report-IsDue : IsDue told report 30000
report-IsDue = record { in_use = refl; reports = omega (arith, report_codes); rested = omega arith }

on_comm_deal_due_example :
    let code = ack_data bt_mcu report 12 in
    let code2 = ack_data bt_mcu report 13 in
    let r = on_comm_deal told report 30000 in
    let others =
      code % 64
      + code / 128 * 128
      + code2 % 2 * 256
      + code2 / 4 % 2 * 1024
      + code2 / 8 % 2 * 2048
      + code2 / 128 * 4096 in
    (r.0.last_warn_time ≡ 30000)
    × ((code / 64 % 2 ≡ 0) × (r.0.comm_error_count ≡ 0) × (r.1 ≡ others)
        ⊎ (code / 64 % 2 ≡ 1) × (0 < 29) × (r.0.comm_error_count ≡ 0 + 1) × (r.1 ≡ others)
        ⊎ (code / 64 % 2 ≡ 1)
          × (told.comm_error_count ≡ 29)
          × (r.0.comm_error_count ≡ 0)
          × (r.1 ≡ others + 64))
on_comm_deal_due_example =
    on_comm_deal_due told report 30000 report-IsDue (omega (arith, report_codes))
      (omega (arith, report_codes)) (omega arith)
