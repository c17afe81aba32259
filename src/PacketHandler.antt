-- ===== src/PacketHandler.antt =====
-- `PacketHandler` of jhshin_Server/jhshin_Server/PacketHandler.h and PacketHandler.cpp: the table of
-- handlers, and what each does with a packet. `rand` is an argument.
pub mod Accepts
pub mod Requests
use jhshin_server.Common.{
  ℕ, zero, suc, ◌+◌, ◌*◌, ◌%◌, Bool, true, false, not, ◌||◌, List, [], ◌∷◌, length, get_elem?, set,
  take, drop, replicate, Option, none, some, leb, ◌==◌, if◌then◌else◌,
}
use jhshin_server.Common.Int.{ℤ, pos}
use jhshin_server.Message.Float.{Float}
use jhshin_server.Packet.PacketType
use jhshin_server.Room.{Server, make_packet}
use jhshin_server.Room.Enter.{send_to}
use jhshin_server.Room.Jobs.{Job, broadcast_job, enter_job, leave_job, move_job}
use jhshin_server.Room.Outgoing.{Net}
use jhshin_server.RoomManager.{RoomManager, push_job_by_rooms}

-- The functions `HANDLE_PacketType_...` that the table points at.
pub data Handler : Type 0 where
  handle_echo : Handler
  handle_broadcast : Handler
  handle_enter : Handler
  handle_leave : Handler
  handle_move : Handler

-- `m_PacketHandle`; a null pointer is `none`.
abbrev pub Table : Type 0
Table = List (Option Handler)

abbrev pub empty_table : Table
empty_table = replicate PacketType.max none

-- The entry of a type.
unfoldable pub handler_of : ℕ → Table → Option Handler
handler_of type [] = none
handler_of zero (h ∷ t) = h
handler_of (suc type) (h ∷ t) = handler_of type t

-- `Register`, with the entry at hand.
unfoldable pub register_at : Option Handler → ℕ → Handler → Table → Table × Bool
register_at none type func t = (set t type (some func), true)
register_at (some old) type func t = (t, false)

unfoldable pub register : ℕ → Handler → Table → Table × Bool
unfolding register_at handler_of
register type func t = register_at (handler_of type t) type func t

-- What `CLIENT_PACKET` lists.
abbrev pub client_packets : List (ℕ × Handler)
client_packets =
    (PacketType.client_echo, handle_echo)
    ∷ (PacketType.client_broadcast, handle_broadcast)
    ∷ (PacketType.client_enter, handle_enter)
    ∷ (PacketType.client_leave, handle_leave)
    ∷ (PacketType.client_move, handle_move)
    ∷ []

unfoldable pub register_all : List (ℕ × Handler) → Table → Table × Bool
unfolding register
register_all [] t = (t, true)
register_all ((type, func) ∷ rest) t =
    let (t', done) = register type func t in
    let later = register_all rest t' in if done then later else (t', false)

unfoldable pub init : Table → Table × Bool
unfolding register_all
init t = register_all client_packets t

-- `sizeof` of the requests.
abbrev pub text_size : ℕ
text_size = 64

abbrev pub move_size : ℕ
move_size = 8

-- What the handlers work on; `drawn` counts the calls of `rand`.
pub record World (F : Type 0) (net : Net) : Type 0 where
  pub manager : RoomManager F
  pub server : Server net
  pub drawn : ℕ

module _ (float : Float) (rand : ℕ → ℕ) {net : Net} where
  open float use {F, of_bytes}

  -- `RoomManager::This()->PushJobByRooms`.
  unfoldable pub push_job : Job F → ℤ → World F net → World F net
  push_job job index w =
      let (m, sv) = push_job_by_rooms job index (w.manager, w.server) in
      record w { manager = m; server = sv }

  unfoldable pub handle_packet_echo : ℕ → List ℕ → World F net → World F net × Bool
  handle_packet_echo s body w = if not (length body == text_size) then (w, false) else (
    record w { server = send_to float s (make_packet PacketType.server_echo body w.server) },
    true,
  )

  unfoldable pub handle_packet_broadcast : ℕ → List ℕ → World F net → World F net × Bool
  unfolding push_job
  handle_packet_broadcast s body w =
      if not (length body == text_size)
      then (w, false)
      else (push_job (broadcast_job (some s) body) (w.server.sessions s).room_id w, true)

  unfoldable pub handle_packet_enter : ℕ → List ℕ → World F net → World F net × Bool
  unfolding push_job
  handle_packet_enter s body w = (
    push_job (enter_job (some s)) (pos (rand w.drawn % 5)) (record w { drawn = w.drawn + 1 }),
    true,
  )

  unfoldable pub handle_packet_leave : ℕ → List ℕ → World F net → World F net × Bool
  unfolding push_job
  handle_packet_leave s body w =
      (push_job (leave_job (some s)) (w.server.sessions s).room_id w, true)

  -- The two floats of `Client_Move_Req` stand one behind the other.
  unfoldable pub handle_packet_move : ℕ → List ℕ → World F net → World F net × Bool
  unfolding push_job
  handle_packet_move s body w = if not (length body == move_size) then (w, false) else (
    push_job (move_job (some s) (of_bytes (take 4 body)) (of_bytes (drop 4 body)))
        (w.server.sessions s).room_id w,
    true,
  )

  -- The call through the pointer.
  unfoldable pub handle : Handler → ℕ → List ℕ → World F net → World F net × Bool
  unfolding handle_packet_echo handle_packet_broadcast handle_packet_enter handle_packet_leave
      handle_packet_move
  handle handle_echo s body w = handle_packet_echo s body w
  handle handle_broadcast s body w = handle_packet_broadcast s body w
  handle handle_enter s body w = handle_packet_enter s body w
  handle handle_leave s body w = handle_packet_leave s body w
  handle handle_move s body w = handle_packet_move s body w

  unfoldable pub dispatch_to : Option Handler → ℕ → List ℕ → World F net → World F net × Bool
  unfolding handle
  dispatch_to none s body w = (w, false)
  dispatch_to (some h) s body w = handle h s body w

  -- `Dispatch`: table, session, and then type, body and state as the receive loop hands them on.
  unfoldable pub dispatch : Table → ℕ → ℕ → List ℕ → World F net → World F net × Bool
  unfolding dispatch_to handler_of
  dispatch t s type body w =
      if leb PacketType.client_end type
      then (w, false)
      else dispatch_to (handler_of type t) s body w
