-- ===== src/Lib.antt =====
-- The control board of a water dispenser with a display: a program on the cdroid UI framework that
-- talks to the main board (MCU) over a serial line. This library models its protocol stack, its serial
-- port and its sockets, the list of its water modes with the pages and windows that edit it, two of its
-- widgets, its thread pool and its functions on text.
--
-- The parts and how they interact:
-- * Crc.antt, src/common/crc.cc: CRC16_CCITT and CRC16_Modbus (crc16_ccitt, crc16_modbus), which
--   differ in polynomial and start alone, and Fuc_GetCRC, which takes four bits at a time.
-- * Frame.antt, src/protocol/ipacket_buffer.h and src/protocol/mcu_ui.h. Frame/Receive.antt has
--   MCU2UI and TUYA2UI: `add` (mcu_add, tuya_add) gathers bytes and moves the next frame head to
--   the front, `complete` and `check` test the frame. Frame/Send.antt has UI2MCU and UI2TUYA.
-- * PacketBuffer.antt, src/protocol/packet_buffer.cc: SDHWPacketBuffer, which pools buffers and
--   chooses the frame class by its type.
-- * UartClient.antt, src/protocol/uart_client.cc: UartClient fills one buffer through the packet
--   buffer, hands complete frames to the handlers, and sends what its queue holds, one frame in
--   100 ms.
-- * ConnMgr.antt, src/protocol/conn_mgr.cc: CConnMgr owns the client. Its setters (run_command)
--   write control bytes, send2MCU makes a frame of them and queues it, handleEvents runs the client
--   and sends, onCommDeal reads the warnings of an answer. `run` is any sequence of these.
-- * CmdHandler.antt, src/protocol/cmd_handler.cc: CHandlerManager, to which UartClient gives each
--   answer (its event `command`), calls the handlers of the answer's type; CConnMgr is one.
-- * Uart.antt, src/uart/uart.cc: the serial port below UartClient (UART0_Open, UART0_Set, UART0_Recv,
--   UART0_Send), with what the system calls answer as arguments.
-- * Net.antt, src/net/client.cc: Client, which reads a descriptor and tells of its state.
--   Net/SocketClient.antt, src/net/socket_client.cc: SocketClient, which tries one port after the
--   other until a server takes it. Net/SocketServer.antt, src/net/socket_server.cc: SocketServer, its
--   clients by their descriptor, and ServerClient, which waits for a key before it hands on data.
-- * ConfMgr.antt, src/data/conf_mgr.cc: CConfMgr, the list of water modes.
-- * Json.antt, src/data/json_func.cc: the file that the list is kept in, and the reading of its values
--   (loadLocalJson, saveLocalJson, getJsonInt and the others). Json/Modes.antt has CConfMgr::init with
--   its file, and Json/Restart.antt what a method that changes the list makes of the file (save_conf)
--   and what the next start reads.
-- * Pages.antt, src/windows/page_water_mode_modify.cc: PageWaterModify, which shows and changes one
--   mode and hands it to ConfMgr (update_mode_data_by_pos).
-- * Windows.antt, src/windows/wind_mgr.cc, src/windows/pagebase.cc, src/windows/poppage.cc and
--   src/windows/RecyclerViewAdapter.cc: wind_mgr with its current page, the pages it keeps for later
--   and its pop-up, and the clicks of the list of modes. `run` composes these with the modes of
--   ConfMgr and the edited mode of Pages; the rest of the program does not touch them.
-- * Views.antt has two widgets: Views/SeekBar.antt, src/viewlibs/arc_seekbar.cc, the progress of
--   ArcSeekBar, and Views/Clock.antt, src/viewlibs/time_textview.cc, the ticker of TimeTextView.
-- * Text.antt, src/common/comm_func.cc: the functions on text that the pages use. Text/Replacing.antt,
--   Text/Releases.antt, Text/Widths.antt and Text/Padding.antt have the later ones of them.
-- * ThreadPool.antt, src/common/comm_class.cc: ThreadPool, which runs tasks beside the UI; its
--   turns are those of the main thread (init, add, del, handleEvents) and of onThread.
-- Common.antt has what they share: tests into Bool, lists and bits over the native numbers, and in
-- Common/Int.antt the integers over them.
--
-- State and its operations: each class is a record, each method a function from the record to the
-- record, with its result beside it. What leaves the program (commands to a handler, bytes to the
-- port) is a list of events in the state. The clock and the bytes read from the port are arguments.
-- Buffers are lists of bytes; memcpy and memmove are copy_to and move_down. Pointers into a buffer
-- are its value: a frame is owned by one place at a time, the pool, the queue or the client.
--
-- Fuel: the loop of `add` takes a byte a round, and has as much fuel as there are bytes; the loop
-- of onUartData takes a byte or stops, and has one round more than that, so it ends before its fuel
-- does. The search loops run over the bytes in use. UART0_Send stops or sends a byte a round,
-- so it has a round more than there are bytes, and so have the reads of loadLocalJson and replace_all,
-- whose rounds each pass a byte of the source, splitVersion and getWordChineseDouble, which take a byte a round. replace_all without a text to look
-- for is the loop that no fuel is enough for.
-- int64_t times and counters are natural numbers that do not overflow in the life of the program.
-- The int of the seek bar is an integer without bounds; the numbers that a page reads and changes are
-- ints of 32 bits.
--
-- Not modelled: the DEBUG build, where the serial line is a TCP connection (CONN_TCP), logging, and what
-- only calls the UI framework: layouts, drawing, measuring, the angles of a touch, the view pagers, the
-- number pickers, and what the user types into a field. The parser, the printer and the values of
-- jsoncpp are arguments of Json.antt, and areJsonValuesEqual is left out. Of src/common/comm_func.cc
-- the clock, files, shell commands, host names, injected keys, dumps and bitmaps are the system's. The
-- constants of termios are flags by their names. Of a page's clock the timer of pagebase.cc is kept,
-- not the start that TimeTextView posts when it is measured, which Views/Clock.antt has.
pub mod Common
pub mod Crc
pub mod Frame
pub mod Net
pub mod PacketBuffer
pub mod Uart
pub mod UartClient
pub mod ConnMgr
pub mod CmdHandler
pub mod ConfMgr
pub mod Text
pub mod ThreadPool
pub mod Pages
pub mod Windows
pub mod Views
pub mod Json
