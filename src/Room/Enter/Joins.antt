-- ===== src/Room/Enter/Joins.antt =====
-- What `Room::Enter` (jhshin_Server/jhshin_Server/Room.cpp) makes of the session and the map of users.
use jhshin_server.Common.{
  ℕ, ◌≡◌, refl, sym, ap, ◌∙◌, Bool, true, false, ◌&&◌, List, [], ◌∷◌, Option, none, some, ltb, ◌==◌,
  if◌then◌else◌, arith, Bool-cases, inl, inr,
}
use jhshin_server.Message.Float.{Float}
use jhshin_server.Message.Spawn
use jhshin_server.Message.Spawn.{ServerSpawn, add_spawn_data, packet_bytes}
use jhshin_server.Room.{Room, RoomUser, Server, SessionInfo, update_session}
use jhshin_server.Room.Outgoing.{Net}
use jhshin_server.Room.UserMap.{find, insert, is_new, values, find-insert}
use jhshin_server.Room.Enter.{
  is_some, spawn_data, insert_if, new_user, spawn_full, spawn_user, spawn_loop, send_to, spawn_rest,
  enter_new, enter_made, enter_with, enter_session, enter,
}

module _ (float : Float) {net : Net} where
  open float use {F}

  insert_if-sessions :
      (s : ℕ) (c : Option net.Chunk) (sv : Server net) → (insert_if s c sv).sessions ≡ sv.sessions
  unfolding insert_if
  insert_if-sessions s none sv = refl
  insert_if-sessions s (some c) sv = refl

  send_to-sessions :
      (s : ℕ) (r : Server net × Option net.Chunk) → (send_to float s r).sessions ≡ r.0.sessions
  unfolding send_to
  send_to-sessions s (sv, c) = insert_if-sessions s c sv

  spawn_full-sessions :
      (s : ℕ) (u : RoomUser F) (packet : ServerSpawn F) (r : Server net × Option net.Chunk)
      → (spawn_full float s u packet r).1.sessions ≡ r.0.sessions
  unfolding spawn_full insert_if
  spawn_full-sessions s u packet (sv, none) = refl
  spawn_full-sessions s u packet (sv, some c) = refl

  spawn_user-sessions :
      (s : ℕ) (c : Option net.Chunk) (u : RoomUser F) (packet : ServerSpawn F) (sv : Server net)
      → (spawn_user float s c u (packet, sv)).1.sessions ≡ sv.sessions
  unfolding spawn_user
  spawn_user-sessions s c u packet sv =
      elim (Bool-cases (add_spawn_data float (spawn_data u) packet).1) [
        | inl added ↦ rw added (insert_if-sessions u.session c sv)
        | inr full ↦ rw full (spawn_full-sessions s u _ _ ∙ insert_if-sessions u.session c sv)
      ]

  visit-sessions :
      (skip : Bool) (s : ℕ) (c : Option net.Chunk) (u : RoomUser F)
      (acc : ServerSpawn F × Server net)
      → (if skip then acc else spawn_user float s c u acc).1.sessions ≡ acc.1.sessions
  visit-sessions true s c u acc = refl
  visit-sessions false s c u (packet, sv) = spawn_user-sessions s c u packet sv

  spawn_loop-sessions :
      (s : ℕ) (c : Option net.Chunk) (us : List (RoomUser F)) (acc : ServerSpawn F × Server net)
      → (spawn_loop float s c us acc).1.sessions ≡ acc.1.sessions
  unfolding spawn_loop
  spawn_loop-sessions s c [] acc = refl
  spawn_loop-sessions s c (u ∷ us) acc =
      spawn_loop-sessions s c us _ ∙ visit-sessions (u.session == s) s c u acc

  spawn_rest-sessions :
      (s : ℕ) (acc : ServerSpawn F × Server net)
      → (spawn_rest float s acc).sessions ≡ acc.1.sessions
  unfolding spawn_rest
  spawn_rest-sessions s (packet, sv) = elim (Bool-cases (ltb 0 packet.count)) [
    | inl more ↦ rw more (send_to-sessions s _)
    | inr done ↦ rw done refl
  ]

  enter_new-sessions :
      (s : ℕ) (user : RoomUser F) (client broadcast : Option net.Chunk) (room : Room F)
      (sv : Server net)
      → (enter_new float s user client broadcast room sv).1.sessions ≡ (λ t.
          if s == t
          then record (sv.sessions t) { connected = true; room_id = room.room_id }
          else sv.sessions t)
  unfolding enter_new
  enter_new-sessions s user client broadcast room sv =
      spawn_rest-sessions s (spawn_loop float s broadcast users start)
      ∙ spawn_loop-sessions s broadcast users start
      ∙ insert_if-sessions s client now_in
    where
      now_in : Server net
      now_in = update_session s (λ i. record i { connected = true; room_id = room.room_id }) sv

      users : List (RoomUser F)
      users = values (insert (sv.sessions s).socket user room.room_user)

      start : ServerSpawn F × Server net
      start = (Spawn.clear float, insert_if s client now_in)

  -- The session is connected exactly if it has a user, which is in this room; other sockets and
  -- sessions are as they were.
  pub record Agrees (s socket : ℕ) (room : Room F) (sv : Server net) (r : Room F × Server net)
      : Type 0 where
    pub same_socket : (r.1.sessions s).socket ≡ socket
    pub user_there : is_some (find socket r.0.room_user) ≡ (r.1.sessions s).connected
    pub in_room :
        (if (r.1.sessions s).connected then (r.1.sessions s).room_id else room.room_id)
        ≡ room.room_id
    pub other_users :
        (j : ℕ)
        → (if socket == j then none else find j r.0.room_user)
          ≡ (if socket == j then none else find j room.room_user)
    pub other_sessions :
        (t : ℕ)
        → (if s == t then sv.sessions s else r.1.sessions t)
          ≡ (if s == t then sv.sessions s else sv.sessions t)

  module _ (s : ℕ) (room : Room F) (sv : Server net) (off : (sv.sessions s).connected ≡ false)
      (nobody : find (sv.sessions s).socket room.room_user ≡ none) where
    abbrev socket_of : ℕ
    socket_of = (sv.sessions s).socket

    -- Nothing has happened to sessions and users.
    unchanged-Agrees :
        (r : Room F × Server net)
        → r.0.room_user ≡ room.room_user
        → r.1.sessions ≡ sv.sessions
        → Agrees s socket_of room sv r
    unchanged-Agrees r users sessions = record {
      same_socket = ap (λ f. (f s).socket) sessions;
      user_there =
          ap (λ m. is_some (find socket_of m)) users
          ∙ ap is_some nobody
          ∙ sym off
          ∙ ap (λ f. (f s).connected) (sym sessions);
      in_room =
          ap (λ b. if b then (r.1.sessions s).room_id else room.room_id)
            (ap (λ f. (f s).connected) sessions ∙ off);
      other_users = λ j. ap (λ m. if socket_of == j then none else find j m) users;
      other_sessions = λ t. ap (λ f. if s == t then sv.sessions s else f t) sessions;
    }

    abbrev joined : ℕ → SessionInfo
    joined t =
        if s == t
        then record (sv.sessions t) { connected = true; room_id = room.room_id }
        else sv.sessions t

    -- The user is in the map and the session connected.
    joined-Agrees :
        (user : RoomUser F) (r : Room F × Server net)
        → r.0.room_user ≡ insert socket_of user room.room_user
        → r.1.sessions ≡ joined
        → Agrees s socket_of room sv r
    joined-Agrees user r users sessions = record {
      same_socket = ap (λ f. (f s).socket) sessions ∙ ground arith;
      user_there =
          ap (λ m. is_some (find socket_of m)) users
          ∙ ap is_some (find-insert socket_of socket_of user room.room_user nobody)
          ∙ ground arith
          ∙ ap (λ f. (f s).connected) (sym sessions);
      in_room =
          ap (λ f. if (f s).connected then (f s).room_id else room.room_id) sessions ∙ ground arith;
      other_users = λ j.
          ap (λ m. if socket_of == j then none else find j m) users
          ∙ ap (λ o. if socket_of == j then none else o)
              (find-insert socket_of j user room.room_user nobody)
          ∙ ground arith;
      other_sessions = λ t. ap (λ f. if s == t then sv.sessions s else f t) sessions ∙ ground arith;
    }

    enter_made-Agrees :
        (seq_id : ℕ) (rest : List ℕ) (client broadcast : Option net.Chunk) (st : net.State)
        → Agrees s socket_of room sv
            (enter_made float s seq_id rest client broadcast room (record sv { state = st }))
    unfolding enter_made enter_new
    enter_made-Agrees seq_id rest client broadcast st =
        elim (Bool-cases (is_some client && is_some broadcast)) [
          | inr failed ↦ rw failed (unchanged-Agrees _ refl refl)
          | inl made ↦ rw made (elim (Bool-cases (is_new socket_of room.room_user)) [
            | inr there ↦ rw there (unchanged-Agrees _ refl refl)
            | inl new ↦ rw new (
                joined-Agrees (new_user float s seq_id) _ refl (
                  enter_new-sessions s (new_user float s seq_id) client broadcast
                    (record room { seq_ids = rest }) (record sv { state = st })))
          ])
        ]

    enter_with-Agrees :
        (queue : List ℕ) → Agrees s socket_of room sv (enter_with float s queue room sv)
    unfolding enter_with
    enter_with-Agrees [] = unchanged-Agrees _ refl (send_to-sessions s _)
    enter_with-Agrees (seq_id ∷ rest) = enter_made-Agrees seq_id rest _ _ _

    -- Let a session that is not connected, and whose socket no user of the room has, go through
    -- `Enter`. Afterwards it is connected exactly if the room has a user on its socket, and then
    -- has this room's id; no user on another socket and no other session has changed. This holds
    -- on every branch: no free id, no send buffer, success.
    pub enter-Agrees : Agrees s (sv.sessions s).socket room sv (enter float (some s) room sv)
    unfolding enter enter_session
    enter-Agrees = rw off (enter_with-Agrees room.seq_ids)
