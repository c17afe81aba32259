-- ===== src/Room/Jobs/Ids/Steps.antt =====
-- Each function of a room (jhshin_Server/jhshin_Server/Room.cpp) keeps its ids.
use jhshin_server.Common.{
  ℕ, suc, ◌≡◌, refl, ap, ap₂, Bool, true, false, not, ◌&&◌, List, [], ◌∷◌, ◌++◌, length,
  length-append, Option, none, some, if◌then◌else◌, arith, Bool-cases, inl, inr,
}
use jhshin_server.Packet.PacketType
use jhshin_server.Message.{enter_ack_bytes}
use jhshin_server.Message.Float.{Float}
use jhshin_server.Message.Spawn
use jhshin_server.Message.Spawn.{add_spawn_data}
use jhshin_server.Message.MoveAck.{ServerMoveAck, clear}
use jhshin_server.Room.{Room, RoomUser, Server, make_packet}
use jhshin_server.Room.Outgoing.{Net}
use jhshin_server.Room.UserMap.{
  SocketMap, Above, IsSorted, find, insert, erase, update, values, is_new, insert-IsSorted,
  erase-IsSorted, update-IsSorted, is_new-find,
}
use jhshin_server.Room.Enter.{
  is_some, spawn_data, new_user, enter_new, enter_made, enter_with, enter_session, enter,
}
use jhshin_server.Room.Leave.{leave_told, leave_found, leave_session, leave, close}
use jhshin_server.Room.Motion.{is_target, move_position, set_target, move_session, move}
use jhshin_server.Room.Motion.Arrival.{move_position-keeps}
use jhshin_server.Room.Tick.{check_loop, move_check_users}
use jhshin_server.Room.Jobs.Ids.{
  count, count-append, ids, Kept, Kept-refl, ids-insert, ids-erase, ids-update, length-insert,
}

module _ (float : Float) where
  open float use {F}

  module _ (s seq_id : ℕ) (rest : List ℕ) (room : Room F) (e : room.seq_ids ≡ seq_id ∷ rest) where
    -- The id goes to the back of the queue.
    returned-Kept : Kept room (record room { seq_ids = rest ++ seq_id ∷ [] })
    returned-Kept = record {
      sorted = λ h. h;
      held_le = λ i. omega (arith, ap (count i) e, count-append i rest (seq_id ∷ []));
      size_le = omega (arith, ap length e, length-append rest (seq_id ∷ []));
    }

    -- The id goes to the new user.
    inserted-Kept :
        (socket : ℕ)
        → is_new socket room.room_user ≡ true
        → Kept room (record room {
          seq_ids = rest;
          room_user = insert socket (new_user float s seq_id) room.room_user;
        })
    inserted-Kept socket new = record {
      sorted = insert-IsSorted socket (new_user float s seq_id) room.room_user;
      held_le = λ i. omega (
        arith,
        ap (count i) e,
        ids-insert i socket (new_user float s seq_id) room.room_user
            (is_new-find socket room.room_user new),
      );
      size_le =
          omega (arith, ap length e, length-insert socket (new_user float s seq_id) room.room_user);
    }

    enter_made-Kept :
        {net : Net} (client broadcast : Option net.Chunk) (sv : Server net)
        → Kept room (enter_made float s seq_id rest client broadcast room sv).0
    unfolding enter_made enter_new
    enter_made-Kept client broadcast sv = elim (Bool-cases (is_some client && is_some broadcast)) [
      | inr failed ↦ rw failed returned-Kept
      | inl made ↦ rw made (elim (Bool-cases (is_new (sv.sessions s).socket room.room_user)) [
        | inr there ↦ rw there returned-Kept
        | inl new ↦ rw new (inserted-Kept (sv.sessions s).socket new)
      ])
    ]

  set_target-seq_id :
      (x y : F) (now : ℕ) (u : RoomUser F) → (set_target float x y now u).seq_id ≡ u.seq_id
  unfolding set_target
  set_target-seq_id x y now u = ground (arith, move_position-keeps float now u)

  updated-Kept :
      (room : Room F) (k : ℕ) (f : RoomUser F → RoomUser F)
      → ((u : RoomUser F) → (f u).seq_id ≡ u.seq_id)
      → Kept room (record room { room_user = update k f room.room_user })
  updated-Kept room k f h = record {
    sorted = update-IsSorted k f room.room_user;
    held_le = λ i. omega (arith, ap (count i) (ids-update k f room.room_user h).0);
    size_le = omega (arith, ids-update k f room.room_user h);
  }

  visited-seq_id :
      (moves : Bool) (now : ℕ) (u : RoomUser F)
      → (if not moves then u else move_position float now u).seq_id ≡ u.seq_id
  visited-seq_id true now u = (move_position-keeps float now u).1
  visited-seq_id false now u = refl

  module _ {net : Net} where
    enter_with-Kept :
        (s : ℕ) (queue : List ℕ) (room : Room F) (sv : Server net)
        → room.seq_ids ≡ queue
        → Kept room (enter_with float s queue room sv).0
    unfolding enter_with
    enter_with-Kept s [] room sv e = Kept-refl room
    enter_with-Kept s (seq_id ∷ rest) room sv e =
        let new =
          (add_spawn_data float (spawn_data (new_user float s seq_id)) (Spawn.clear float)).0 in
        let client =
          make_packet PacketType.server_enter
            (enter_ack_bytes (record { room_id = room.room_id; seq_id = seq_id })) sv in
        let spawn = make_packet PacketType.server_spawn (Spawn.packet_bytes float new) client.0 in
        enter_made-Kept s seq_id rest room e client.1 spawn.1 spawn.0

    pub enter-Kept :
        (session : Option ℕ) (room : Room F) (sv : Server net)
        → Kept room (enter float session room sv).0
    unfolding enter enter_session
    enter-Kept none room sv = Kept-refl room
    enter-Kept (some s) room sv = elim (Bool-cases (sv.sessions s).connected) [
      | inl there ↦ rw there (Kept-refl room)
      | inr new ↦ rw new (enter_with-Kept s room.seq_ids room sv refl)
    ]

    told-Kept :
        (s socket : ℕ) (user : RoomUser F) (room : Room F) (r : Server net × Option net.Chunk)
        → find socket room.room_user ≡ some user
        → let room' = (leave_told s user room r).0 in
          Kept room (record room' { room_user = erase socket room'.room_user })
    unfolding leave_told
    told-Kept s socket user room (sv, none) e = record {
      sorted = erase-IsSorted socket room.room_user;
      held_le = λ i. omega (arith, ids-erase i socket user room.room_user e);
      size_le = omega (arith, ids-erase 0 socket user room.room_user e);
    }
    told-Kept s socket user room (sv, some c) e = record {
      sorted = erase-IsSorted socket room.room_user;
      held_le = λ i. omega (
        arith,
        count-append i room.seq_ids (user.seq_id ∷ []),
        ids-erase i socket user room.room_user e,
      );
      size_le = omega (
        arith,
        length-append room.seq_ids (user.seq_id ∷ []),
        ids-erase 0 socket user room.room_user e,
      );
    }

    leave_found-Kept :
        (s socket : ℕ) (user : Option (RoomUser F)) (room : Room F) (sv : Server net)
        → find socket room.room_user ≡ user
        → Kept room (leave_found s socket user room sv).0
    unfolding leave_found leave_told
    leave_found-Kept s socket none room sv e = Kept-refl room
    leave_found-Kept s socket (some user) room sv e = told-Kept s socket user room _ e

    pub leave-Kept :
        (session : Option ℕ) (room : Room F) (sv : Server net) → Kept room (leave session room sv).0
    unfolding leave leave_session close
    leave-Kept none room sv = Kept-refl room
    leave-Kept (some s) room sv = elim (Bool-cases (sv.sessions s).connected) [
      | inl there ↦ rw there (leave_found-Kept s (sv.sessions s).socket _ room _ refl)
      | inr gone ↦ rw gone (Kept-refl room)
    ]

    pub move-Kept :
        (session : Option ℕ) (x y : F) (now : ℕ) (sv : Server net) (room : Room F)
        → Kept room (move float session x y now sv room)
    unfolding move move_session
    move-Kept none x y now sv room = Kept-refl room
    move-Kept (some s) x y now sv room = elim (Bool-cases (sv.sessions s).connected) [
      | inr off ↦ rw off (Kept-refl room)
      | inl on ↦
          rw on (elim (Bool-cases (is_target float x room.max_x && is_target float y room.max_y)) [
            | inr outside ↦ rw outside (Kept-refl room)
            | inl inside ↦ rw inside (
                updated-Kept room (sv.sessions s).socket (set_target float x y now)
                  (set_target-seq_id x y now))
          ])
    ]

    check_loop-ids :
        (now : ℕ) (users : List (RoomUser F)) (m : SocketMap (RoomUser F))
        (acc : ServerMoveAck F × Server net)
        → (ids (check_loop float now users m acc).0 ≡ ids m)
          × (length (check_loop float now users m acc).0 ≡ length m)
          × ((i : ℕ) → Above i m → Above i (check_loop float now users m acc).0)
    unfolding check_loop
    check_loop-ids now users [] acc = (refl, refl, λ i h. tt)
    check_loop-ids now users ((k, u) ∷ m) acc =
        let (same, size, above) = check_loop-ids now users m _ in
        (ap₂ ◌∷◌ (visited-seq_id u.is_move now u) same, ap suc size, λ i h. (h.0, above k h.1))

    check_loop-IsSorted :
        (now : ℕ) (users : List (RoomUser F)) (m : SocketMap (RoomUser F))
        (acc : ServerMoveAck F × Server net)
        → IsSorted m
        → IsSorted (check_loop float now users m acc).0
    unfolding check_loop
    check_loop-IsSorted now users [] acc h = tt
    check_loop-IsSorted now users ((k, u) ∷ m) acc h = (check_loop-ids now users m _).2 k h

    pub move_check_users-Kept :
        (now : ℕ) (room : Room F) (sv : Server net)
        → Kept room (move_check_users float now room sv).0
    unfolding move_check_users
    move_check_users-Kept now room sv = record {
      sorted = check_loop-IsSorted now (values room.room_user) room.room_user _;
      held_le = λ i.
          omega (
            arith,
            ap (count i) (check_loop-ids now (values room.room_user) room.room_user start).0,
          );
      size_le = omega (arith, check_loop-ids now (values room.room_user) room.room_user start);
    }
      where
        start : ServerMoveAck F × Server net
        start = (clear float, sv)
