-- ===== src/Room/Tick.antt =====
-- `Room::MoveCheckUsers` and `Room::SendMoveData` of jhshin_Server/jhshin_Server/Room.cpp: the
-- positions of all who move, in packets of at most `MaxSendMoveCount`.
pub mod Batches
use jhshin_server.Common.{
  ℕ, Bool, true, false, not, List, [], ◌∷◌, Option, none, some, ltb, if◌then◌else◌,
}
use jhshin_server.Packet.PacketType
use jhshin_server.Message.Float.{Float}
use jhshin_server.Message.MoveAck
use jhshin_server.Message.MoveAck.{MoveData, ServerMoveAck, add_move_data, packet_bytes}
use jhshin_server.Room.{Room, RoomUser, Server, make_packet}
use jhshin_server.Room.Motion.{move_position}
use jhshin_server.Room.Outgoing.{Net}
use jhshin_server.Room.UserMap.{SocketMap, values}

-- `AddMoveData( user.m_seqID, user.m_posX, user.m_posY )`.
abbrev pub move_data : {F : Type 0} → RoomUser F → MoveData F
move_data u = record { seq_id = u.seq_id; pos_x = u.pos_x; pos_y = u.pos_y }

module _ (float : Float) {net : Net} where
  open float use {F}

  -- `for( auto& users : m_roomUser ) users.second.m_session->InsertSendQueue( chunk )`.
  unfoldable pub insert_all : net.Chunk → List (RoomUser F) → Server net → Server net
  insert_all c [] sv = sv
  insert_all c (u ∷ us) sv =
      insert_all c us (record sv { state = net.insert_send_queue u.session c sv.state })

  -- A failure is only logged.
  unfoldable pub send_chunk : List (RoomUser F) → Server net × Option net.Chunk → Server net
  unfolding insert_all
  send_chunk users (sv, none) = sv
  send_chunk users (sv, some c) = insert_all c users sv

  unfoldable pub send_move_data : List (RoomUser F) → ServerMoveAck F → Server net → Server net
  unfolding send_chunk
  send_move_data users packet sv =
      send_chunk users (make_packet PacketType.server_move (packet_bytes float packet) sv)

  -- The body of the loop for a user on the move, after `MovePosition`: a full packet is sent first.
  unfoldable pub collect :
      List (RoomUser F) → RoomUser F → ServerMoveAck F × Server net → ServerMoveAck F × Server net
  unfolding send_move_data
  collect users user (packet, sv) =
      let (packet', added) = add_move_data float (move_data user) packet in
      if added then (packet', sv) else (
        (add_move_data float (move_data user) (MoveAck.clear float)).0,
        send_move_data users packet' sv,
      )

  -- The loop over `m_roomUser`. `users` are the same users, for `SendMoveData`; it reads only
  -- their sessions, which the loop does not change.
  unfoldable pub check_loop :
      ℕ
      → List (RoomUser F)
      → SocketMap (RoomUser F)
      → ServerMoveAck F × Server net
      → SocketMap (RoomUser F) × (ServerMoveAck F × Server net)
  unfolding collect
  check_loop now users [] acc = ([], acc)
  check_loop now users ((k, u) ∷ m) acc =
      let u' = if not u.is_move then u else move_position float now u in
      let acc' = if not u.is_move then acc else collect users u' acc in
      let (m', acc'') = check_loop now users m acc' in ((k, u') ∷ m', acc'')

  -- What is left in the packet is sent at the end.
  unfoldable pub flush : List (RoomUser F) → ServerMoveAck F × Server net → Server net
  unfolding send_move_data
  flush users (packet, sv) = if ltb 0 packet.count then send_move_data users packet sv else sv

  unfoldable pub move_check_users : ℕ → Room F → Server net → Room F × Server net
  unfolding check_loop flush
  move_check_users now room sv =
      let users = values room.room_user in
      let (m, acc) = check_loop now users room.room_user (MoveAck.clear float, sv) in
      (record room { room_user = m }, flush users acc)
