-- ===== src/Room/Leave.antt =====
-- `Room::Leave` and `Room::BroadCast` of jhshin_Server/jhshin_Server/Room.cpp.
pub mod Told
use jhshin_server.Common.{
  ℕ, Bool, false, not, List, [], ◌∷◌, ◌++◌, Option, none, some, ◌==◌, if◌then◌else◌,
}
use jhshin_server.Common.Int.{negsuc}
use jhshin_server.Packet.PacketType
use jhshin_server.Message.{leave_bytes}
use jhshin_server.Room.{Room, RoomUser, Server, make_packet, update_session}
use jhshin_server.Room.Outgoing.{Net}
use jhshin_server.Room.UserMap.{find, erase, values}

-- Is it the user's session? A null pointer is nobody's.
abbrev pub is_session : {F : Type 0} → Option ℕ → RoomUser F → Bool
is_session none u = false
is_session (some s) u = u.session == s

module _ {F : Type 0} {net : Net} where
  -- The loops over `m_roomUser` that leave one session out.
  unfoldable pub insert_others : Option ℕ → net.Chunk → List (RoomUser F) → Server net → Server net
  insert_others skip c [] sv = sv
  insert_others skip c (u ∷ us) sv = insert_others skip c us (
      if is_session skip u
      then sv
      else record sv { state = net.insert_send_queue u.session c sv.state })

  -- `ServiceManager::CloseSession`.
  unfoldable pub close : ℕ → Room F × Server net → Room F × Server net
  close s (room, sv) = (room, record sv { state = net.close_session s sv.state })

  -- The others are told and the id goes back into the queue; if that fails the id is lost.
  unfoldable pub leave_told :
      ℕ → RoomUser F → Room F → Server net × Option net.Chunk → Room F × Server net
  unfolding insert_others
  leave_told s user room (sv, none) = (room, sv)
  leave_told s user room (sv, some c) = (
    record room { seq_ids = room.seq_ids ++ user.seq_id ∷ [] },
    insert_others (some s) c (values room.room_user) sv,
  )

  -- What `find` has found.
  unfoldable pub leave_found :
      ℕ → ℕ → Option (RoomUser F) → Room F → Server net → Room F × Server net
  unfolding leave_told
  leave_found s socket none room sv = (room, sv)
  leave_found s socket (some user) room sv =
      let (room', sv') =
        leave_told s user room (
          make_packet PacketType.server_leave (leave_bytes (record { seq_id = user.seq_id })) sv) in
      (record room' { room_user = erase socket room'.room_user }, sv')

  -- `Leave` for a session that is there.
  unfoldable pub leave_session : ℕ → Room F → Server net → Room F × Server net
  unfolding leave_found close
  leave_session s room sv =
      let socket = (sv.sessions s).socket in
      let gone = update_session s (λ i. record i { connected = false; room_id = negsuc 0 }) sv in
      if not (sv.sessions s).connected
      then (room, sv)
      else close s (leave_found s socket (find socket room.room_user) room gone)

  unfoldable pub leave : Option ℕ → Room F → Server net → Room F × Server net
  unfolding leave_session
  leave none room sv = (room, sv)
  leave (some s) room sv = leave_session s room sv

  -- `BroadCast`; a failure is only logged.
  unfoldable pub broadcast_made :
      Option ℕ → List (RoomUser F) → Server net × Option net.Chunk → Server net
  unfolding insert_others
  broadcast_made skip users (sv, none) = sv
  broadcast_made skip users (sv, some c) = insert_others skip c users sv

  unfoldable pub broad_cast : Option ℕ → List ℕ → Room F → Server net → Server net
  unfolding broadcast_made
  broad_cast session text room sv =
      broadcast_made session (values room.room_user)
        (make_packet PacketType.server_broadcast text sv)
