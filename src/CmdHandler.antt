-- ===== src/CmdHandler.antt =====
-- src/protocol/cmd_handler.cc and cmd_handler.h: CHandlerManager, which hands the answers on to
-- the handlers of their type, and IHandler. A handler and a callback are numbers that stand for
-- the pointers. The std::map is a list of its entries; no operation depends on their order.
pub mod Table
pub mod Dispatch
mod Examples
use cdroid_demo.Common.{
  ℕ, zero, suc, ◌+◌, Bool, true, false, ◌&&◌, ◌||◌, List, [], ◌∷◌, ◌++◌, Option, none, some, leb,
  ◌==◌, if◌then◌else◌,
}

-- mHandlers, std::map<int, std::vector<IHandler *>>.
abbrev pub Handlers : Type 0
Handlers = List (ℕ × List ℕ)

pub record HandlerManager : Type 0 where
  pub last_recv_time : ℕ
  pub recv_timeout : ℕ
  pub handlers : Handlers

abbrev pub recv_timeout_time : ℕ
recv_timeout_time = 3000

pub new_manager : ℕ → HandlerManager
new_manager now = record { last_recv_time = now; recv_timeout = 0; handlers = [] }

-- mHandlers.find(cmd).
pub find_handlers : ℕ → Handlers → Option (List ℕ)
find_handlers cmd [] = none
find_handlers cmd ((key, hs) ∷ m) =
    let rest = find_handlers cmd m in if key == cmd then some hs else rest

-- std::find in a vector.
pub contains : ℕ → List ℕ → Bool
contains hd [] = false
contains hd (h ∷ hs) = let rest = contains hd hs in h == hd || rest

-- mHandlers[cmd].push_back(hd).
pub push_handler : ℕ → ℕ → Handlers → Handlers
push_handler cmd hd [] = (cmd, hd ∷ []) ∷ []
push_handler cmd hd ((key, hs) ∷ m) =
    let rest = push_handler cmd hd m in
    if key == cmd then (key, hs ++ hd ∷ []) ∷ m else (key, hs) ∷ rest

pub add_handler : HandlerManager → ℕ → ℕ → HandlerManager × Bool
add_handler m cmd hd = elim (find_handlers cmd m.handlers) [
  | none ↦ (record m { handlers = push_handler cmd hd m.handlers }, true)
  | some hs ↦
      if contains hd hs
      then (m, false)
      else (record m { handlers = push_handler cmd hd m.handlers }, true)
]

-- vector::erase of the one that std::find has found.
pub erase_first : ℕ → List ℕ → List ℕ
erase_first hd [] = []
erase_first hd (h ∷ hs) = let rest = erase_first hd hs in if h == hd then hs else h ∷ rest

abbrev is_empty : List ℕ → Bool
is_empty [] = true
is_empty (h ∷ hs) = false

pub remove_entries : ℕ → Handlers → Handlers
remove_entries hd [] = []
remove_entries hd ((key, hs) ∷ m) =
    let rest = remove_entries hd m in
    let left = erase_first hd hs in
    if contains hd hs
    then (if is_empty left then rest else (key, left) ∷ rest)
    else (key, hs) ∷ rest

pub remove_handler : HandlerManager → ℕ → HandlerManager
remove_handler m hd = record m { handlers = remove_entries hd m.handlers }

-- The handlers whose onRecv is called, in this order.
pub on_command : HandlerManager → ℕ → ℕ → HandlerManager × List ℕ
on_command m type now = (
  record m { recv_timeout = 0; last_recv_time = now },
  elim (find_handlers type m.handlers) [ none ↦ [] | some hs ↦ hs ],
)

pub on_tick : HandlerManager → ℕ → HandlerManager
on_tick m now =
    if m.recv_timeout == 0 && leb (m.last_recv_time + recv_timeout_time) now
    then record m { recv_timeout = m.recv_timeout + 1 }
    else m

-- mCMDHandlers of an IHandler.
abbrev pub CmdHandlers : Type 0
CmdHandlers = List (ℕ × ℕ)

pub find_callback : ℕ → CmdHandlers → Option ℕ
find_callback cmd [] = none
find_callback cmd ((key, h) ∷ m) =
    let rest = find_callback cmd m in if key == cmd then some h else rest

pub reg_handler : CmdHandlers → ℕ → ℕ → CmdHandlers
reg_handler m cmd h = elim (find_callback cmd m) [ none ↦ m ++ (cmd, h) ∷ [] | some old ↦ m ]

pub data Dealt : Type 0 where
  -- The callback, or onCommDeal.
  called : ℕ → Dealt
  comm_deal : Dealt

pub on_recv : CmdHandlers → ℕ → Dealt
on_recv m type = elim (find_callback type m) [ none ↦ comm_deal | some h ↦ called h ]
