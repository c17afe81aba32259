-- ===== src/PacketHandler/Requests.antt =====
-- From the bytes of a connection to the queues of the rooms: SessionData::Recv
-- (jhshin_Server/jhshin_Server/SessionData.cpp) with `PacketHandler::Dispatch` (PacketHandler.cpp)
-- and `RoomManager::PushJobByRooms` (RoomManager.cpp).
mod Answers
pub mod Queued
use jhshin_server.Common.{
  ℕ, zero, suc, ◌+◌, ◌%◌, ◌≤◌, ◌≡◌, refl, sym, ap, ap₂, subst, ◌∙◌, Bool, true, false, not, ◌&&◌,
  ◌||◌, List, [], ◌∷◌, ◌++◌, append_assoc, append-nil, length, take, drop, Option, none, some, ltb,
  leb, ◌==◌, if◌then◌else◌, arith, Bool-cases, Option-cases, inl, inr,
}
use jhshin_server.Common.Int.{ℤ, pos, negsuc}
use jhshin_server.Message.Float.{Float}
use jhshin_server.ObjectPool.{modify}
use jhshin_server.ObjectPool.Invariant.{length-modify}
use jhshin_server.Packet.PacketType
use jhshin_server.Packet.Wire.{Frame}
use jhshin_server.Room.{Server, make_packet}
use jhshin_server.Room.Enter.{send_to, insert_if}
use jhshin_server.Room.Jobs.{Job, broadcast_job, enter_job, leave_job, move_job, session_of}
use jhshin_server.Room.Outgoing.{Net}
use jhshin_server.RoomManager.{
  RoomManager, push_job as room_push_job, push_job_by_rooms, close_session, is_outside, push_at,
}
use jhshin_server.RoomManager.Routing.{jobs_at, takes, push_job_by_rooms-jobs}
use jhshin_server.PacketHandler.{
  World, push_job, handle, handle_packet_echo, handle_packet_broadcast, handle_packet_enter,
  handle_packet_leave, handle_packet_move, dispatch_to, dispatch, handler_of,
}
use jhshin_server.Session.Recv.{Dispatch}
use jhshin_server.Session.Recv.Refines.{serve}
use jhshin_server.PacketHandler.Accepts.{
  filled_table, accepts, expected, handler_of-table, dispatch-Dispatched,
}

-- Does the room `j` of `n` rooms take a job for an index?
abbrev pub lands : Bool → ℕ → ℕ → ℤ → Bool
lands stop n j (pos i) = not stop && (i == j && ltb j n)
lands stop n j (negsuc i) = false

-- The jobs that it takes.
abbrev pub landing : {F : Type 0} → Bool → ℕ → ℕ → List (ℤ × Job F) → List (Job F)
landing stop n j [] = []
landing stop n j ((index, job) ∷ jobs) =
    if lands stop n j index then job ∷ landing stop n j jobs else landing stop n j jobs

pub landing-append :
    {F : Type 0} (stop : Bool) (n j : ℕ) (xs ys : List (ℤ × Job F))
    → landing stop n j (xs ++ ys) ≡ landing stop n j xs ++ landing stop n j ys
landing-append stop n j [] ys = refl
landing-append stop n j ((index, job) ∷ xs) ys = ground (arith, landing-append stop n j xs ys)

takes-lands :
    {F : Type 0} (j : ℕ) (index : ℤ) (m : RoomManager F)
    → takes index j m ≡ lands m.stop (length m.rooms) j index
takes-lands j (pos i) m = refl
takes-lands j (negsuc i) m = refl

close_session-sessions :
    {net : Net} (session : Option ℕ) (sv : Server net)
    → (close_session session sv).sessions ≡ sv.sessions
unfolding close_session
close_session-sessions none sv = refl
close_session-sessions (some session) sv = refl

pub send_to-sessions :
    (float : Float) {net : Net} (session : ℕ) (sv : Server net) (chunk : Option net.Chunk)
    → (send_to float session (sv, chunk)).sessions ≡ sv.sessions
unfolding send_to insert_if
send_to-sessions float session sv none = refl
send_to-sessions float session sv (some c) = refl

push_at-same :
    {F : Type 0} (job : Job F) (index : ℤ) (m : RoomManager F)
    → ((push_at job index m).stop ≡ m.stop) × (length (push_at job index m).rooms ≡ length m.rooms)
unfolding push_at
push_at-same job (pos i) m = (refl, length-modify (room_push_job job) i m.rooms)
push_at-same job (negsuc i) m = (refl, refl)

push_job_by_rooms-same :
    {F : Type 0} {net : Net} (job : Job F) (index : ℤ) (m : RoomManager F) (sv : Server net)
    → let (m', sv') = push_job_by_rooms job index (m, sv) in
      (m'.stop ≡ m.stop) × (length m'.rooms ≡ length m.rooms) × (sv'.sessions ≡ sv.sessions)
unfolding push_job_by_rooms
push_job_by_rooms-same job index m sv = elim (Bool-cases (m.stop || is_outside index m)) [
  | inl out ↦ rw out (refl, refl, close_session-sessions (session_of job) sv)
  | inr in_range ↦ rw in_range ((push_at-same job index m).0, (push_at-same job index m).1, refl)
]

module _ (float : Float) (rand : ℕ → ℕ) (s : ℕ) where
  open float use {F, of_bytes}

  -- What a packet of the session asks for, with the room that the session is in and the draws so
  -- far: an index and a job.
  abbrev pub request : ℕ → ℤ → Frame → List (ℤ × Job F)
  request drawn room f =
      if not (accepts f.type (length f.body))
      then []
      else if f.type == PacketType.client_broadcast
      then (room, broadcast_job (some s) f.body) ∷ []
      else if f.type == PacketType.client_enter
      then (pos (rand drawn % 5), enter_job (some s)) ∷ []
      else if f.type == PacketType.client_leave
      then (room, leave_job (some s)) ∷ []
      else if f.type == PacketType.client_move
      then (room, move_job (some s) (of_bytes (take 4 f.body)) (of_bytes (drop 4 f.body))) ∷ []
      else []

  abbrev pub draws : Frame → ℕ
  draws f = if f.type == PacketType.client_enter then 1 else 0

  -- What the packets of the session ask for from the one numbered `i` on, up to the first that is not
  -- accepted; `room_at` is the room that the session is in when a packet is handled.
  abbrev pub requests : (ℕ → ℤ) → ℕ → ℕ → List Frame → List (ℤ × Job F)
  requests room_at i drawn [] = []
  requests room_at i drawn (f ∷ fs) =
      request drawn (room_at i) f
      ++ (if accepts f.type (length f.body)
          then requests room_at (suc i) (drawn + draws f) fs
          else [])

  module _ {net : Net} (j : ℕ) where
    -- The jobs have come to the room's queue, and all that routes the next ones is as it was.
    pub record Routed (drawn : ℕ) (jobs : List (ℤ × Job F)) (w w' : World F net) : Type 0 where
      pub queued :
          jobs_at j w'.manager.rooms
          ≡ jobs_at j w.manager.rooms ++ landing w.manager.stop (length w.manager.rooms) j jobs
      pub same_stop : w'.manager.stop ≡ w.manager.stop
      pub same_rooms : length w'.manager.rooms ≡ length w.manager.rooms
      pub same_room : (w'.server.sessions s).room_id ≡ (w.server.sessions s).room_id
      pub drawn_now : w'.drawn ≡ w.drawn + drawn

    pub same-Routed : (w : World F net) → Routed 0 [] w w
    same-Routed w = record {
      queued = sym (append-nil (jobs_at j w.manager.rooms));
      same_stop = refl;
      same_rooms = refl;
      same_room = refl;
      drawn_now = omega arith;
    }

    pub push_job-Routed :
        (job : Job F) (index : ℤ) (w : World F net)
        → Routed 0 ((index, job) ∷ []) w (push_job float rand job index w)
    unfolding push_job
    push_job-Routed job index w =
        let same = push_job_by_rooms-same job index w.manager w.server in
        record {
          queued = ground (
            arith,
            (push_job_by_rooms-jobs job index j w.manager w.server).0,
            takes-lands j index w.manager,
            append-nil (jobs_at j w.manager.rooms),
          );
          same_stop = same.0;
          same_rooms = same.1;
          same_room = ap (λ f. (f s).room_id) same.2;
          drawn_now = omega arith;
        }
