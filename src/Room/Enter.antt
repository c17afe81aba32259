-- ===== src/Room/Enter.antt =====
-- `Room::Enter` of jhshin_Server/jhshin_Server/Room.cpp.
pub mod Joins
use jhshin_server.Common.{
  ℕ, Bool, true, false, ◌&&◌, List, [], ◌∷◌, ◌++◌, Option, none, some, ltb, ◌==◌, if◌then◌else◌,
}
use jhshin_server.Common.Int.{negsuc}
use jhshin_server.Packet.PacketType
use jhshin_server.Message.{enter_ack_bytes}
use jhshin_server.Message.Float.{Float}
use jhshin_server.Message.Spawn
use jhshin_server.Message.Spawn.{SpawnData, ServerSpawn, add_spawn_data, packet_bytes}
use jhshin_server.Room.{Room, RoomUser, Server, make_packet, update_session}
use jhshin_server.Room.Outgoing.{Net}
use jhshin_server.Room.UserMap.{insert, is_new, values}

abbrev pub is_some {ℓ} : {A : Type ℓ} → Option A → Bool
is_some none = false
is_some (some a) = true

-- `AddSpawnData( m_seqID, m_posX, m_posY )`.
abbrev pub spawn_data : {F : Type 0} → RoomUser F → SpawnData F
spawn_data u = record { seq_id = u.seq_id; pos_x = u.pos_x; pos_y = u.pos_y }

-- `InsertSendQueue` if there is a chunk.
unfoldable pub insert_if : {net : Net} → ℕ → Option net.Chunk → Server net → Server net
insert_if s none sv = sv
insert_if {net} s (some c) sv = record sv { state = net.insert_send_queue s c sv.state }

module _ (float : Float) where
  open float use {F, of_nat}

  -- `RoomUser::Set` on a new object.
  abbrev pub new_user : ℕ → ℕ → RoomUser F
  new_user s seq_id = record {
    session = s;
    pos_x = of_nat 0;
    pos_y = of_nat 0;
    seq_id = seq_id;
    is_move = false;
    dest_pos_x = of_nat 0;
    dest_pos_y = of_nat 0;
    start_move_tick = 0;
    end_move_tick = 0;
  }

module _ (float : Float) {net : Net} where
  open float use {F}

  -- A full list of users goes to the one who enters, and `user` is the first of the next; with no
  -- send buffer both are lost.
  unfoldable pub spawn_full :
      ℕ → RoomUser F → ServerSpawn F → Server net × Option net.Chunk → ServerSpawn F × Server net
  unfolding insert_if
  spawn_full s user packet (sv, none) = (packet, sv)
  spawn_full s user packet (sv, some c) =
      ((add_spawn_data float (spawn_data user) (Spawn.clear float)).0, insert_if s (some c) sv)

  -- The body of the loop over `m_roomUser`, for a user other than the one who enters.
  unfoldable pub spawn_user :
      ℕ → Option net.Chunk → RoomUser F → ServerSpawn F × Server net → ServerSpawn F × Server net
  unfolding spawn_full insert_if
  spawn_user s chunk user (packet, sv) =
      let sv' = insert_if user.session chunk sv in
      let (packet', added) = add_spawn_data float (spawn_data user) packet in
      if added
      then (packet', sv')
      else spawn_full s user packet'
          (make_packet PacketType.server_spawn (packet_bytes float packet') sv')

  unfoldable pub spawn_loop :
      ℕ
      → Option net.Chunk
      → List (RoomUser F)
      → ServerSpawn F × Server net
      → ServerSpawn F × Server net
  unfolding spawn_user
  spawn_loop s chunk [] acc = acc
  spawn_loop s chunk (u ∷ us) acc =
      spawn_loop s chunk us (if u.session == s then acc else spawn_user s chunk u acc)

  -- `MakeSendPacket` and then `InsertSendQueue`; a failure is only logged.
  unfoldable pub send_to : ℕ → Server net × Option net.Chunk → Server net
  unfolding insert_if
  send_to s (sv, chunk) = insert_if s chunk sv

  unfoldable pub spawn_rest : ℕ → ServerSpawn F × Server net → Server net
  unfolding send_to
  spawn_rest s (packet, sv) =
      if ltb 0 packet.count
      then send_to s (make_packet PacketType.server_spawn (packet_bytes float packet) sv)
      else sv

  -- The user is in the map: the session is connected, and everybody is told.
  unfoldable pub enter_new :
      ℕ
      → RoomUser F
      → Option net.Chunk
      → Option net.Chunk
      → Room F
      → Server net
      → Room F × Server net
  unfolding insert_if spawn_loop spawn_rest
  enter_new s user client broadcast room sv =
      let room' = record room { room_user = insert (sv.sessions s).socket user room.room_user } in
      let joined =
        update_session s (λ i. record i { connected = true; room_id = room.room_id }) sv in
      let acc =
        spawn_loop s broadcast (values room'.room_user)
          (Spawn.clear float, insert_if s client joined) in
      (room', spawn_rest s acc)

  -- Both packets were asked for; `rest` is the queue of ids without the one taken.
  unfoldable pub enter_made :
      ℕ
      → ℕ
      → List ℕ
      → Option net.Chunk
      → Option net.Chunk
      → Room F
      → Server net
      → Room F × Server net
  unfolding enter_new
  enter_made s seq_id rest client broadcast room sv =
      let returned = record room { seq_ids = rest ++ seq_id ∷ [] } in
      if is_some client && is_some broadcast
      then (if is_new (sv.sessions s).socket room.room_user
          then enter_new s (new_user float s seq_id) client broadcast
              (record room { seq_ids = rest }) sv
          else (returned, sv))
      else (returned, sv)

  unfoldable pub enter_with : ℕ → List ℕ → Room F → Server net → Room F × Server net
  unfolding enter_made send_to
  enter_with s [] room sv = (
    room,
    send_to s (
        make_packet PacketType.server_enter
          (enter_ack_bytes (record { room_id = negsuc 0; seq_id = 0 })) sv),
  )
  enter_with s (seq_id ∷ rest) room sv =
      let spawn =
        (add_spawn_data float (spawn_data (new_user float s seq_id)) (Spawn.clear float)).0 in
      let (sv1, client) =
        make_packet PacketType.server_enter
          (enter_ack_bytes (record { room_id = room.room_id; seq_id = seq_id })) sv in
      let (sv2, broadcast) = make_packet PacketType.server_spawn (packet_bytes float spawn) sv1 in
      enter_made s seq_id rest client broadcast room sv2

  -- `Enter` for a session that is there.
  unfoldable pub enter_session : ℕ → Room F → Server net → Room F × Server net
  unfolding enter_with
  enter_session s room sv =
      if (sv.sessions s).connected then (room, sv) else enter_with s room.seq_ids room sv

  unfoldable pub enter : Option ℕ → Room F → Server net → Room F × Server net
  unfolding enter_session
  enter none room sv = (room, sv)
  enter (some s) room sv = enter_session s room sv
