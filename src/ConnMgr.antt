-- ===== src/ConnMgr.antt =====
-- src/protocol/conn_mgr.cc: CConnMgr, which keeps the control bytes for the main board, sends them,
-- and reads the warnings in its answers. The build is the one without TUYA_OS. The packet buffer
-- is the client's own, so it stands in `uart`; `init` has been called, so mUartMCU is set.
pub mod Control
pub mod Wire
pub mod Runs
pub mod Warnings
pub mod Settings
mod Examples
use cdroid_demo.Common.{
  ℕ, zero, suc, ◌+◌, ◌*◌, ◌/◌, ◌%◌, Bool, true, false, ◌&&◌, ◌||◌, not, List, [], ◌∷◌, ltb, leb,
  ◌==◌, Option, if◌then◌else◌, set, replicate, bit_and, bit_or,
}
use cdroid_demo.Frame.{BuffData, bt_mcu, byte_at}
use cdroid_demo.Frame.Send.{parse_mcu, set_data, checkcode_mcu}
use cdroid_demo.PacketBuffer.{PacketBuffer, obtain, ack_data}
use cdroid_demo.UartClient
use cdroid_demo.UartClient.{
  UartClient, create, send, on_tick, set_product_callback, RecvResult, handle_event,
}

pub data WaterAction : Type 0 where
  wa_null wa_hot_water wa_coll_water : WaterAction

abbrev pub water_code : WaterAction → ℕ
water_code wa_null = 0
water_code wa_hot_water = 1
water_code wa_coll_water = 2

pub data CoolStatus : Type 0 where
  cs_null cs_cool cs_ice cs_cool_ice : CoolStatus

abbrev pub cool_code : CoolStatus → ℕ
cool_code cs_null = 0
cool_code cs_cool = 1
cool_code cs_ice = 2
cool_code cs_cool_ice = 3

pub record ConnMgr : Type 0 where
  pub is_factory : Bool
  pub next_event_time : ℕ
  pub last_send_time : ℕ
  pub last_warn_time : ℕ
  pub uart : UartClient
  pub set_data_count : ℕ
  pub comm_error_count : ℕ
  pub snd_data : List ℕ
  pub mcu_type : ℕ

abbrev pub tick_time : ℕ
tick_time = 50

-- The constructor and `init`, which opens the port: `opened` is what open gives, and `is_set` what
-- UART0_Init answers. The object is static, so its bytes start at 0.
unfoldable pub init : ℕ → Option ℕ → Bool → ConnMgr
unfolding UartClient.init
init now opened is_set = record {
  is_factory = false;
  next_event_time = now + tick_time * 10;
  last_send_time = 0;
  last_warn_time = now;
  uart = (UartClient.init (create (record { type = bt_mcu; buffs = [] }) 0 now) opened is_set).0;
  set_data_count = 0;
  comm_error_count = 0;
  snd_data = replicate 32 0;
  mcu_type = 0;
}

pub check_events : ConnMgr → ℕ → ConnMgr × Bool
check_events c now =
    if leb c.next_event_time now
    then (record c { next_event_time = now + tick_time }, true)
    else (c, false)

pub set_product_test : ConnMgr → Bool → ConnMgr
set_product_test c on = record c { is_factory = on; uart = set_product_callback c.uart on }

-- mSndData[pos] = value; mSetData++.
abbrev pub put : ConnMgr → ℕ → ℕ → ConnMgr
put c pos value = record c {
  snd_data = set c.snd_data pos value;
  set_data_count = c.set_data_count + 1;
}

abbrev flag_code : Bool → ℕ
flag_code flag = if flag then 1 else 0

-- The setters. An int is cut to its lowest byte where it is stored.
pub data Command : Type 0 where
  set_water_action : WaterAction → Command
  set_water_tem : ℕ → Command
  set_water_yield : ℕ → Command
  set_cooling : CoolStatus → Command
  set_ice_action : Bool → Command
  set_hpcc_reset : Bool → Command
  set_ro_reset : Bool → Command
  set_reset_status : Bool → Command
  set_beep : Bool → Command
  close_volumn : Bool → Command
  set_stove_light : Bool → Command
  set_sleep : Bool → Command

pub run_command : ConnMgr → Command → ConnMgr
run_command c (set_water_action t) = put c 3 (water_code t)
run_command c (set_water_tem value) = put c 4 (value % 256)
run_command c (set_water_yield value) =
    put (record c { snd_data = set c.snd_data 5 (value / 256 % 256) }) 6 (value % 256)
run_command c (set_cooling value) = put c 7 (cool_code value)
run_command c (set_ice_action flag) = put c 8 (flag_code flag)
run_command c (set_hpcc_reset flag) = put c 9 (flag_code flag)
run_command c (set_ro_reset flag) = put c 10 (flag_code flag)
run_command c (set_reset_status flag) = record c {
  snd_data =
      if flag
      then set (set (set c.snd_data 3 (water_code wa_null)) 7 (cool_code cs_null)) 8 0
      else c.snd_data;
  set_data_count = c.set_data_count + 1;
}
run_command c (set_beep flag) = put c 12 (bit_or (byte_at c.snd_data 12) (flag_code flag))
run_command c (close_volumn flag) = record c { set_data_count = c.set_data_count + 1 }
run_command c (set_stove_light flag) = record c { set_data_count = c.set_data_count + 1 }
run_command c (set_sleep flag) = record c { set_data_count = c.set_data_count + 1 }

-- for (int i = D3; i < D15; i++) snd.setData(i, mSndData[i]), from `i` on with `n` rounds left.
pub copy_control : ℕ → ℕ → List ℕ → BuffData → BuffData
copy_control zero i snd bf = bf
copy_control (suc n) i snd bf = copy_control n (i + 1) snd (set_data bf i (byte_at snd i))

-- The frame that the control bytes make in the buffer `bd`.
pub control_frame : List ℕ → BuffData → BuffData
control_frame snd bd =
    let copied = copy_control 12 3 snd (parse_mcu bd) in
    checkcode_mcu (set_data (set_data (set_data copied 13 100) 14 100) 12 (byte_at snd 12))

pub send2mcu : ConnMgr → ℕ → ConnMgr
send2mcu c now =
    let (bd, pool) = obtain c.uart.packet_buff in
    record c {
      uart = (send (record (c.uart) { packet_buff = pool }) (control_frame c.snd_data bd)).0;
      snd_data = set c.snd_data 12 0;
      set_data_count = 0;
      last_send_time = now;
    }

-- mUartMCU->onTick() comes first; both read the clock, `now`.
pub handle_events : ConnMgr → ℕ → ConnMgr
handle_events c now =
    let ticked = record c { uart = on_tick c.uart now } in
    if ltb 0 ticked.set_data_count || leb (ticked.last_send_time + 1000) now
    then send2mcu ticked now
    else ticked

pub get_version : ConnMgr → ℕ × Bool
get_version c = if c.mcu_type == 0 then (0, false) else (c.mcu_type, true)

-- if (code & mask) warnState |= e.
abbrev warn_if : ℕ → ℕ → ℕ → ℕ → ℕ
warn_if code mask e state = if ltb 0 (bit_and code mask) then bit_or state e else state

-- The bits of warnCode but for 0x40: E01 to E06 before it, E08 after it.
pub warn_first : ℕ → ℕ
warn_first code = warn_if code 0x20 0x0020 (
    warn_if code 0x10 0x0010 (
      warn_if code 0x08 0x0008
        (warn_if code 0x04 0x0004 (warn_if code 0x02 0x0002 (warn_if code 0x01 0x0001 0)))))

-- E07 is for the thirtieth report in a row; the answer has the new commErrorCount.
pub warn_comm : ℕ → ℕ → ℕ → ℕ × ℕ
warn_comm code state count =
    if ltb 0 (bit_and code 0x40)
    then (if leb 30 (count + 1) then (bit_or state 0x0040, 0) else (state, count + 1))
    else (state, 0)

pub warn_last : ℕ → ℕ → ℕ → ℕ
warn_last code code2 state = warn_if code2 0x80 0x1000 (
    warn_if code2 0x08 0x0800
      (warn_if code2 0x04 0x0400 (warn_if code2 0x01 0x0100 (warn_if code 0x80 0x0080 state))))

-- The answer has warnState, which the code only computes.
pub on_comm_deal : ConnMgr → BuffData → ℕ → ConnMgr × ℕ
on_comm_deal c ack now =
    let code = ack_data bt_mcu ack 12 in
    let code2 = ack_data bt_mcu ack 13 in
    let comm = warn_comm code (warn_first code) c.comm_error_count in
    if c.is_factory
    then (c, 0)
    else if (ltb 0 code || ltb 0 code2) && leb (c.last_warn_time + 30000) now
    then (record c { last_warn_time = now; comm_error_count = comm.1 }, warn_last code code2 comm.0)
    else (c, 0)

-- What happens to the object, with the time where the clock is read.
pub data Action : Type 0 where
  commands : Command → Action
  ticks : ℕ → Action
  answers : BuffData → ℕ → Action
  tests : Bool → Action
  -- The port can be read: what the reads answer, and the time.
  reads : List RecvResult → ℕ → Action

pub step : ConnMgr → Action → ConnMgr
step c (commands k) = run_command c k
step c (ticks now) =
    let (woken, ready) = check_events c now in if ready then handle_events woken now else woken
step c (answers ack now) = (on_comm_deal c ack now).0
step c (tests on) = set_product_test c on
step c (reads results now) = record c { uart = handle_event c.uart results now }

pub run : ConnMgr → List Action → ConnMgr
run c [] = c
run c (a ∷ actions) = run (step c a) actions
