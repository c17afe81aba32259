-- ===== src/Room.antt =====
-- `Room` of jhshin_Server/jhshin_Server/Room.h and Room.cpp, `RoomUser` of RSDefine.h. One thread
-- runs a room, so its functions are steps of one sequence. The children have its functions.
pub mod UserMap
pub mod Outgoing
pub mod Motion
pub mod Enter
pub mod Leave
pub mod Tick
pub mod Jobs
use jhshin_server.Common.{
  ℕ, zero, suc, ◌+◌, Bool, true, false, List, [], ◌∷◌, Option, ◌==◌, if◌then◌else◌,
}
use jhshin_server.Common.Int.{ℤ, pos, negsuc}
use UserMap.{SocketMap}
use Outgoing.{Net}

abbrev pub max_room_user_count : ℕ
max_room_user_count = 1000

-- `RoomUser`; `F` is `float`.
pub record RoomUser (F : Type 0) : Type 0 where
  pub session : ℕ
  pub pos_x : F
  pub pos_y : F
  pub seq_id : ℕ
  pub is_move : Bool
  pub dest_pos_x : F
  pub dest_pos_y : F
  pub start_move_tick : ℕ
  pub end_move_tick : ℕ

-- `m_MaxX` and `m_MaxY` stay at their initial value.
pub record Room (F : Type 0) : Type 0 where
  pub room_user : SocketMap (RoomUser F)
  pub room_id : ℤ
  pub seq_ids : List ℕ
  pub max_x : ℕ
  pub max_y : ℕ
  pub last_tick : ℕ

-- The constructor pushes 0, 1, ... into the queue of ids.
abbrev pub first_seq_ids : ℕ → ℕ → List ℕ
first_seq_ids from zero = []
first_seq_ids from (suc n) = from ∷ first_seq_ids (suc from) n

unfoldable pub new_room : {F : Type 0} → Room F
new_room = record {
  room_user = [];
  room_id = pos 0;
  seq_ids = first_seq_ids 0 max_room_user_count;
  max_x = 10000;
  max_y = 10000;
  last_tick = 0;
}

-- The fields of `SessionData` that a room reads and writes.
pub record SessionInfo : Type 0 where
  pub socket : ℕ
  pub connected : Bool
  pub room_id : ℤ

-- The sessions, and the state of the sending side.
pub record Server (net : Net) : Type 0 where
  pub sessions : ℕ → SessionInfo
  pub state : net.State

abbrev pub update_session : {net : Net} → ℕ → (SessionInfo → SessionInfo) → Server net → Server net
update_session s f sv = record sv {
  sessions = λ t. if s == t then f (sv.sessions t) else sv.sessions t;
}

-- `MakeSendPacket`.
abbrev pub make_packet : {net : Net} → ℕ → List ℕ → Server net → Server net × Option net.Chunk
make_packet {net} type body sv =
    let (st, c) = net.make_send_packet type body sv.state in (record sv { state = st }, c)
