-- ===== src/UartClient.antt =====
-- src/protocol/uart_client.cc: UartClient in the build without DEBUG, where CONN_TCP is 0 and the
-- serial port is read and written directly. The clock, SystemClock::uptimeMillis(), is the
-- argument `now`; what UART0_Recv reads is an argument too. What leaves the client, commands to
-- the handlers and bytes to the port, is the list `events`, the newest last.
pub mod Receiving
pub mod Reassembly
pub mod Coalesced
pub mod Reading
pub mod Sending
pub mod Ticking
pub mod Kept
mod Examples
use cdroid_demo.Common.{
  ℕ, zero, suc, ◌+◌, ◌-◌, Bool, true, false, ◌&&◌, ◌||◌, not, List, [], ◌∷◌, ◌++◌, Option, none,
  some, ltb, leb, if◌then◌else◌, take, drop, length,
}
use cdroid_demo.Frame.{BuffData, copy_to}
use cdroid_demo.Uart.{uart0_open}
use cdroid_demo.PacketBuffer.{
  PacketBuffer, obtain, recycle, add, complete, check, compare, check_code,
}

pub data Status : Type 0 where
  st_null st_connecting st_connected st_disconnect : Status

pub data Event : Type 0 where
  -- g_objHandler->onCommand(ack), and mCallbackFunc(ack) where that is set.
  command : BuffData → Event
  callback : BuffData → Event
  -- UART0_Send(mFd, buf, len).
  uart_send : List ℕ → Event

pub record UartClient : Type 0 where
  pub packet_buff : PacketBuffer
  pub status : Status
  pub recv_space : ℕ
  pub last_send_time : ℕ
  pub send_count : ℕ
  pub recv_count : ℕ
  pub chk_err_count : ℕ
  pub last_recv_time : ℕ
  pub last_deal_data_time : ℕ
  pub has_callback : Bool
  pub last_recv : BuffData
  pub curr_recv : BuffData
  pub send_queue : List BuffData
  -- The bytes of mRSBuf from pos to last.
  pub recv_bytes : List ℕ
  pub events : List Event

abbrev pub send_space : ℕ
send_space = 100

abbrev pub rs_buf_len : ℕ
rs_buf_len = 4096

unfoldable pub is_conn : UartClient → Bool
is_conn c = elim c.status [ st_connected ↦ true | _ ↦ false ]

-- The constructor; the status is that of Client::initData.
unfoldable pub create : PacketBuffer → ℕ → ℕ → UartClient
create p recv_space now =
    let (last, p') = obtain p in
    let (curr, p'') = obtain p' in
    record {
      packet_buff = p'';
      status = st_disconnect;
      recv_space = recv_space;
      last_send_time = 0;
      send_count = 0;
      recv_count = 0;
      chk_err_count = 0;
      last_recv_time = now + 5000;
      last_deal_data_time = 0;
      has_callback = false;
      last_recv = last;
      curr_recv = curr;
      send_queue = [];
      recv_bytes = [];
      events = [];
    }

-- `init`: `opened` is the descriptor that open gives, and `is_set` what UART0_Init answers. The bytes
-- that the port held before are read over and dropped. The answer is whether `init` returns 0. With
-- either way to be called back, by the descriptor or by the event loop, the client is connected.
unfoldable pub init : UartClient → Option ℕ → Bool → UartClient × Bool
unfolding uart0_open
init c opened is_set =
    if ltb 0 (uart0_open opened) && is_set
    then (record c { status = st_connected }, true)
    else (c, false)

-- Whether a second has passed since the last repeated frame that was handled.
pub deal_data_due : UartClient → ℕ → Bool
deal_data_due c now = leb (c.last_deal_data_time + 1000) now

pub check_deal_data : UartClient → ℕ → UartClient
check_deal_data c now = if deal_data_due c now then record c { last_deal_data_time = now } else c

-- The answer goes out, and the frame is kept as the last one.
pub deliver : UartClient → UartClient
deliver c = record c {
  events = c.events ++ (if c.has_callback then callback c.curr_recv else command c.curr_recv) ∷ [];
  last_recv = record last {
    len = c.curr_recv.len;
    buf = copy_to last.buf 0 (take c.curr_recv.len c.curr_recv.buf);
  };
  last_send_time = 0;
}
  where
    last : BuffData
    last = c.last_recv

-- `if (!compare(...) || checkDealData())`: the clock is asked only about a repeated frame.
pub deal_checked : UartClient → ℕ → UartClient
deal_checked c now =
    if not (compare c.packet_buff.type c.curr_recv c.last_recv)
    then deliver c
    else if deal_data_due c now
    then deliver (check_deal_data c now)
    else c

-- What is done with a complete frame.
pub deal_frame : UartClient → ℕ → UartClient
deal_frame c now =
    if check c.packet_buff.type c.curr_recv
    then deal_checked (record c { chk_err_count = 0 }) now
    else record c { chk_err_count = c.chk_err_count + 1 }

pub clear_curr : UartClient → UartClient
clear_curr c = record c { curr_recv = record curr { len = 0 } }
  where
    curr : BuffData
    curr = c.curr_recv

abbrev pub count_recv : UartClient → UartClient
count_recv c = record c { recv_count = c.recv_count + 1 }

-- The loop of onUartData: `rest` is buf + offset, and the answer has the bytes that are left when
-- the loop stops. One unit of fuel is one round.
pub uart_data_loop : ℕ → UartClient → List ℕ → ℕ → UartClient × List ℕ
uart_data_loop zero c rest now = (c, rest)
uart_data_loop (suc fuel) c rest now =
    let added = add c.curr_recv c.packet_buff.type rest in
    let c' = record c { curr_recv = added.0 } in
    let left = drop added.1 rest in
    let next = uart_data_loop fuel (clear_curr (deal_frame (count_recv c') now)) left now in
    if ltb 0 (length rest)
    then (if complete c.packet_buff.type added.0 then next else (c', left))
    else (c, rest)

-- A round takes a byte or empties the buffer, which one round more allows for.
pub on_uart_data : UartClient → List ℕ → ℕ → UartClient × List ℕ
on_uart_data c buf now = uart_data_loop (suc (length buf)) c buf now

-- The frames counted, after which mRSBuf is empty whatever was left over.
pub on_recv_data : UartClient → ℕ → UartClient × ℕ
on_recv_data c now =
    let after = (on_uart_data c c.recv_bytes now).0 in
    (record after { recv_bytes = [] }, after.recv_count - c.recv_count)

-- `input` is what UART0_Recv read into the free part of mRSBuf, [] where it failed.
pub read_data : UartClient → List ℕ → ℕ → UartClient × ℕ
read_data c input now =
    if ltb now (c.last_recv_time + c.recv_space)
    then (c, 1)
    else if ltb 0 (length input)
    then (record c { last_recv_time = now; recv_bytes = c.recv_bytes ++ input }, length input)
    else (record c { last_recv_time = now }, 0)

pub check_events : UartClient → ℕ → UartClient × Bool
check_events c now =
    if leb (c.last_recv_time + c.recv_space) now
    then (record c { last_recv_time = now }, true)
    else (c, false)

pub handle_events : UartClient → List ℕ → ℕ → UartClient × Bool
handle_events c input now =
    if ltb 0 (length input)
    then ((on_recv_data (record c { recv_bytes = c.recv_bytes ++ input }) now).0, true)
    else (c, false)

-- What UART0_Recv answers: bytes, or a failure and whether errno is ENOENT then.
pub data RecvResult : Type 0 where
  received : List ℕ → RecvResult
  failed : Bool → RecvResult

-- Client::handleEvent for a readable port, which calls the two methods above, with what the reads
-- in turn answer; where `reads` ends, the next read fails with EAGAIN. readData answers 1 where it
-- does not read, and the loop then ends after one call of onRecvData.
pub handle_event : UartClient → List RecvResult → ℕ → UartClient
handle_event c [] now =
    let (r, read_len) = read_data c [] now in if ltb 0 read_len then (on_recv_data r now).0 else r
handle_event c (failed enoent ∷ reads) now =
    let (r, read_len) = read_data c [] now in
    if ltb 0 read_len
    then (on_recv_data r now).0
    else if enoent
    then record r { status = st_disconnect }
    else r
handle_event c (received input ∷ reads) now =
    let free_len = rs_buf_len - length c.recv_bytes in
    let (r, read_len) = read_data c input now in
    let (d, deal_count) = on_recv_data r now in
    let next = handle_event d reads now in
    if ltb 0 read_len
    then (if ltb read_len free_len then d else if ltb 0 deal_count then d else next)
    else r

pub data SendResult : Type 0 where
  -- 0, 1 and -1.
  queued same_package not_connected : SendResult

unfoldable pub any_same : PacketBuffer → BuffData → List BuffData → Bool
any_same p ask [] = false
any_same p ask (dst ∷ queue) = compare p.type ask dst || any_same p ask queue

unfoldable pub send : UartClient → BuffData → UartClient × SendResult
send c ask =
    if not (is_conn c)
    then (record c { packet_buff = recycle c.packet_buff ask }, not_connected)
    else if any_same c.packet_buff ask c.send_queue
    then (record c { packet_buff = recycle c.packet_buff ask }, same_package)
    else (record c { send_queue = c.send_queue ++ ask ∷ [] }, queued)

pub send_trans : UartClient → BuffData → ℕ → UartClient
send_trans c ask now = record c {
  events = c.events ++ uart_send (take ask.len ask.buf) ∷ [];
  last_recv_time = now;
}

unfoldable pub send_front : UartClient → ℕ → List BuffData → UartClient
send_front c now [] = c
send_front c now (ask ∷ queue) =
    let checked = check_code c.packet_buff.type ask in
    let sent = send_trans (record c { last_send_time = now; send_queue = queue }) checked now in
    record sent { packet_buff = recycle sent.packet_buff checked; send_count = sent.send_count + 1 }

-- SocketClient::onTick does nothing, since SocketClient::init is not called in this build.
-- g_objHandler->onTick(), on the handlers' own state, is CmdHandler.on_tick.
unfoldable pub on_tick : UartClient → ℕ → UartClient
on_tick c now = if leb (c.last_send_time + send_space) now then send_front c now c.send_queue else c

pub set_product_callback : UartClient → Bool → UartClient
set_product_callback c cb = record c { has_callback = cb }
