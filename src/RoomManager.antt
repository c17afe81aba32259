-- ===== src/RoomManager.antt =====
-- `RoomManager` of jhshin_Server/jhshin_Server/RoomManager.h and RoomManager.cpp: the rooms with
-- their queues of jobs. The thread of a room is in Room/Jobs/Loop.
pub mod Routing
use jhshin_server.Common.{
  ℕ, zero, suc, ◌+◌, Bool, true, false, ◌||◌, not, List, [], ◌∷◌, map, length, Option, none, some,
  leb, if◌then◌else◌,
}
use jhshin_server.Common.Int.{ℤ, pos, negsuc}
use jhshin_server.Message.Float.{Float}
use jhshin_server.ObjectPool.{modify}
use jhshin_server.Room.{Room, Server, new_room}
use jhshin_server.Room.Jobs.{Job, JobQueue, push, stop_queue, start_job, session_of}
use jhshin_server.Room.Outgoing.{Net}

-- A room with its queue.
pub record Hosted (F : Type 0) : Type 0 where
  pub job_queue : JobQueue F
  pub room : Room F

pub record RoomManager (F : Type 0) : Type 0 where
  pub rooms : List (Hosted F)
  pub stop : Bool

-- `CloseSession`; a null pointer is left alone.
unfoldable pub close_session : {net : Net} → Option ℕ → Server net → Server net
close_session none sv = sv
close_session {net} (some s) sv = record sv { state = net.close_session s sv.state }

module _ {F : Type 0} where
  -- `make_shared<Room>()` and `SetRoomID( i )`, for `n` rooms from number `i` on.
  abbrev pub make_rooms : ℕ → ℕ → List (Hosted F)
  make_rooms i zero = []
  make_rooms i (suc n) =
      record {
        job_queue = record { job_queue = []; stop = false };
        room = record new_room { room_id = pos i };
      }
      ∷ make_rooms (suc i) n

  -- `Initialize`, on a new manager.
  unfoldable pub initialize : ℕ → RoomManager F
  initialize room_count = record { rooms = make_rooms 0 room_count; stop = false }

  -- `Room::Stop`.
  unfoldable pub stop_room : Hosted F → Hosted F
  unfolding stop_queue
  stop_room h = record h { job_queue = stop_queue h.job_queue }

  -- `Join` as far as the rooms are concerned: the first call stops them all.
  unfoldable pub join : RoomManager F → RoomManager F
  unfolding stop_room
  join m = if m.stop then m else record { rooms = map stop_room m.rooms; stop = true }

  -- The queue of one room takes a job.
  unfoldable pub push_job : Job F → Hosted F → Hosted F
  unfolding push
  push_job job h = record h { job_queue = push job h.job_queue }

  -- `0 > index || index >= m_RoomCount`.
  unfoldable pub is_outside : ℤ → RoomManager F → Bool
  is_outside (pos i) m = leb (length m.rooms) i
  is_outside (negsuc i) m = true

  -- `m_Rooms[index]->PushJob( jobObject )`; a negative index does not come here.
  unfoldable pub push_at : Job F → ℤ → RoomManager F → RoomManager F
  unfolding push_job
  push_at job (pos i) m = record m { rooms = modify (push_job job) i m.rooms }
  push_at job (negsuc i) m = m

  unfoldable pub push_job_by_rooms :
      {net : Net} → Job F → ℤ → RoomManager F × Server net → RoomManager F × Server net
  unfolding close_session is_outside push_at
  push_job_by_rooms job index (m, sv) =
      if m.stop || is_outside index m
      then (m, close_session (session_of job) sv)
      else (push_at job index m, sv)
