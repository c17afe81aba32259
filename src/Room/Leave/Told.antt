-- ===== src/Room/Leave/Told.antt =====
-- What `Room::Leave` (jhshin_Server/jhshin_Server/Room.cpp) leaves of the user, and who is told.
use jhshin_server.Common.{
  ℕ, ◌≡◌, refl, sym, ap, ◌∙◌, true, false, List, [], ◌∷◌, ◌++◌, append_assoc, append-nil, Option,
  none, some, ◌==◌, if◌then◌else◌, arith, Bool-cases, inl, inr,
}
use jhshin_server.Common.Int.{negsuc}
use jhshin_server.Packet.PacketType
use jhshin_server.Packet.Wire.{Frame}
use jhshin_server.Message.{leave_bytes}
use jhshin_server.Room.{Room, RoomUser, Server, update_session}
use jhshin_server.Room.Outgoing.{Net}
use jhshin_server.Room.UserMap.{SocketMap, find, erase, values, IsSorted, find-erase}
use jhshin_server.Room.Leave.{insert_others, close, leave_told, leave_found, leave_session, leave}

module _ {F : Type 0} where
  -- One packet for everybody but a session.
  abbrev pub to_others : ℕ → List (RoomUser F) → Frame → List (ℕ × Frame)
  to_others s [] frame = []
  to_others s (u ∷ us) frame =
      if u.session == s then to_others s us frame else (u.session, frame) ∷ to_others s us frame

  abbrev pub leave_frame : RoomUser F → Frame
  leave_frame user = record {
    type = PacketType.server_leave;
    body = leave_bytes (record { seq_id = user.seq_id });
  }

  -- Everybody else, if the packet could be made.
  abbrev pub told_if :
      {A : Type 0} → ℕ → RoomUser F → List (RoomUser F) → Option A → List (ℕ × Frame)
  told_if s user users none = []
  told_if s user users (some c) = to_others s users (leave_frame user)

  -- A socket that is not there is not there afterwards.
  not_there :
      (socket j : ℕ) (m : SocketMap (RoomUser F))
      → find socket m ≡ none
      → find j m ≡ (if socket == j then none else find j m)
  not_there socket j m e = elim (Bool-cases (socket == j)) [
    | inl same ↦ rw same (ap (λ k. find k m) (sym (equal same)) ∙ e)
    | inr other ↦ rw other refl
  ]
    where
      equal : socket == j ≡ true → socket ≡ j
      equal h = ground arith

  -- Who is told that a session's user goes.
  abbrev pub farewell :
      (net : Net) → ℕ → Option (RoomUser F) → List (RoomUser F) → net.State → List (ℕ × Frame)
  farewell net s none users st = []
  farewell net s (some user) users st =
      told_if s user users
        (net.make_send_packet PacketType.server_leave (leave_frame user).body st).1

  module _ {net : Net} where
    insert_others-outbox :
        (s : ℕ) (c : net.Chunk) (us : List (RoomUser F)) (sv : Server net)
        → (net.outbox (insert_others (some s) c us sv).state
            ≡ net.outbox sv.state ++ to_others s us (net.frame_of c))
          × (net.closed (insert_others (some s) c us sv).state ≡ net.closed sv.state)
          × ((insert_others (some s) c us sv).sessions ≡ sv.sessions)
    unfolding insert_others
    insert_others-outbox s c [] sv = (sym (append-nil (net.outbox sv.state)), refl, refl)
    insert_others-outbox s c (u ∷ us) sv = elim (Bool-cases (u.session == s)) [
      | inl self ↦ rw (self, insert_others) (insert_others-outbox s c us sv)
      | inr other ↦
          rw (other, insert_others)
            (let (out, closed, sessions) =
                insert_others-outbox s c us
                  (record sv { state = net.insert_send_queue u.session c sv.state }) in
              (
                out
                    ∙ ap (λ l. l ++ to_others s us (net.frame_of c))
                        (net.outbox-insert u.session c sv.state)
                    ∙ append_assoc (net.outbox sv.state) ((u.session, net.frame_of c) ∷ [])
                        (to_others s us (net.frame_of c)),
                closed ∙ net.closed-insert u.session c sv.state,
                sessions,
              ))
    ]

    -- `Leave` from `SetRoomID` on, with the user that was found.
    pub record Left (socket : ℕ) (sent : List (ℕ × Frame)) (room : Room F) (sv : Server net)
        (r : Room F × Server net) : Type 0 where
      pub others :
          (j : ℕ) → find j r.0.room_user ≡ (if socket == j then none else find j room.room_user)
      pub sends : net.outbox r.1.state ≡ net.outbox sv.state ++ sent
      pub closes : net.closed r.1.state ≡ net.closed sv.state
      pub same_sessions : r.1.sessions ≡ sv.sessions

    told-sends :
        (s : ℕ) (user : RoomUser F) (room : Room F) (sv : Server net) (c : Option net.Chunk)
        → ((d : net.Chunk) → c ≡ some d → net.frame_of d ≡ leave_frame user)
        → let r = leave_told s user room (sv, c) in
          (net.outbox r.1.state ≡ net.outbox sv.state ++ told_if s user (values room.room_user) c)
          × (net.closed r.1.state ≡ net.closed sv.state)
          × (r.1.sessions ≡ sv.sessions)
          × (r.0.room_user ≡ room.room_user)
    unfolding leave_told
    told-sends s user room sv none holds =
        (sym (append-nil (net.outbox sv.state)), refl, refl, refl)
    told-sends s user room sv (some c) holds =
        let (out, closed, sessions) = insert_others-outbox s c (values room.room_user) sv in
        (
          out
              ∙ ap (λ f. net.outbox sv.state ++ to_others s (values room.room_user) f)
                  (holds c refl),
          closed,
          sessions,
          refl,
        )

    leave_found-Left :
        (s socket : ℕ) (user : Option (RoomUser F)) (room : Room F) (sv : Server net)
        → IsSorted room.room_user
        → find socket room.room_user ≡ user
        → Left socket
            (farewell net s user (values room.room_user) sv.state)
            room
            sv
            (leave_found s socket user room sv)
    unfolding leave_found
    leave_found-Left s socket none room sv sorted e = record {
      others = λ j. not_there socket j room.room_user e;
      sends = sym (append-nil (net.outbox sv.state));
      closes = refl;
      same_sessions = refl;
    }
    leave_found-Left s socket (some user) room sv sorted e =
        let made = net.make_send_packet PacketType.server_leave (leave_frame user).body sv.state in
        let sv' : Server net = record sv { state = made.0 } in
        let (out, closed, sessions, users) =
          told-sends s user room sv' made.1
            (λ d. net.frame_of-make PacketType.server_leave (leave_frame user).body sv.state d) in
        record {
          others = λ j.
              ap (λ m. find j (erase socket m)) users ∙ find-erase socket j room.room_user sorted;
          sends =
              out
              ∙ ap (λ l. l ++ told_if s user (values room.room_user) made.1)
                  (net.outbox-make PacketType.server_leave (leave_frame user).body sv.state);
          closes =
              closed ∙ net.closed-make PacketType.server_leave (leave_frame user).body sv.state;
          same_sessions = sessions;
        }

    -- `Leave` of a connected session, in a room whose users are in the order of their sockets,
    -- erases the user on its socket and no other; puts the packet with the user's id into the
    -- queue of each other user's session, in order, unless there was no such user or
    -- `MakeSendPacket` fails for it; closes that session and no other; and leaves it unconnected
    -- and without a room.
    pub leave-Left :
        (s : ℕ) (room : Room F) (sv : Server net)
        → IsSorted room.room_user
        → (sv.sessions s).connected ≡ true
        → let socket = (sv.sessions s).socket in
          let (room', sv') = leave (some s) room sv in
          ((j : ℕ) → find j room'.room_user ≡ (if socket == j then none else find j room.room_user))
          × (net.outbox sv'.state
              ≡ net.outbox sv.state
                ++ farewell net s (find socket room.room_user) (values room.room_user) sv.state)
          × (net.closed sv'.state ≡ net.closed sv.state ++ s ∷ [])
          × ((sv'.sessions s).connected ≡ false)
          × ((sv'.sessions s).room_id ≡ negsuc 0)
    unfolding leave leave_session close
    leave-Left s room sv sorted on =
        rw (on, leave_session)
          (let gone : Server net =
              update_session s (λ i. record i { connected = false; room_id = negsuc 0 }) sv in
            let socket = (sv.sessions s).socket in
            let left = leave_found-Left s socket _ room gone sorted refl in
            let after = (leave_found s socket (find socket room.room_user) room gone).1 in
            (
              left.others,
              net.outbox-close s after.state ∙ left.sends,
              net.closed-close s after.state ∙ ap (λ l. l ++ s ∷ []) left.closes,
              ap (λ f. (f s).connected) left.same_sessions ∙ ground arith,
              ap (λ f. (f s).room_id) left.same_sessions ∙ ground arith,
            ))
