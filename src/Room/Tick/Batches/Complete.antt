-- ===== src/Room/Tick/Batches/Complete.antt =====
-- `Room::MoveCheckUsers` (jhshin_Server/jhshin_Server/Room.cpp) from its first line to its last.
use jhshin_server.Common.{
  ℕ, ◌≡◌, sym, ap, ◌∙◌, inl, inr, Bool, true, false, List, [], ◌∷◌, ◌++◌, append_assoc, append-nil,
  length, take, ltb, arith, Bool-cases,
}
use jhshin_server.Message.Float.{Float}
use jhshin_server.Message.MoveAck
use jhshin_server.Message.MoveAck.{
  MoveData, ServerMoveAck, add_move_data, packet_bytes, all_bytes, sent, IsValid,
  max_send_move_count, add_move_data-sent, add_move_data-clear, length-sent, clear-IsValid,
  sent-clear,
}
use jhshin_server.Room.{Room, RoomUser, Server}
use jhshin_server.Room.Outgoing.{Net}
use jhshin_server.Room.UserMap.{values}
use jhshin_server.Room.Tick.{send_move_data, flush, move_check_users}
use jhshin_server.Room.Tick.Batches.{
  delivered, moving, contents, AllSized, delivered-append, contents-append, AllSized-append,
}
use jhshin_server.Room.Tick.Batches.Collect.{Collected, send_move_data-outbox, check_loop-Collected}

module _ (float : Float) where
  open float use {F}

  module _ {net : Net} where
    -- What a tick sends: the positions of all who move, cut into packets that are neither empty
    -- nor too long, each to all users.
    pub record Broadcast (users : List (RoomUser F)) (positions : List (MoveData F))
        (sv sv' : Server net) : Type 0 where
      pub packets : List (List (MoveData F) × Bool)
      pub sized : AllSized float net packets
      pub parts : contents float packets ≡ positions
      pub sends : net.outbox sv'.state ≡ net.outbox sv.state ++ delivered float users packets

    flush-Broadcast :
        (users : List (RoomUser F)) (seen : List (MoveData F)) (sv : Server net)
        (packet : ServerMoveAck F) (sv' : Server net)
        → Collected float users (net.outbox sv.state) seen (packet, sv')
        → Broadcast users seen sv (flush float users (packet, sv'))
    unfolding flush
    flush-Broadcast users seen sv packet sv' c = elim (Bool-cases (ltb 0 packet.count)) [
      | inl more ↦ rw more (sent_last more)
      | inr none_left ↦ rw none_left (record {
        packets = c.gone;
        sized = c.sized;
        parts =
            sym (append-nil (contents float c.gone))
            ∙ ap (λ l. contents float c.gone ++ l) (sym (empty_packet none_left))
            ∙ c.parts;
        sends = c.sends;
      })
    ]
      where
        empty_packet : ltb 0 packet.count ≡ false → sent float packet ≡ []
        empty_packet h = ap (λ n. take n packet.entries) zero_count
          where
            zero_count : packet.count ≡ 0
            zero_count = ground arith

        sent_last :
            ltb 0 packet.count ≡ true
            → Broadcast users seen sv (send_move_data float users packet sv')
        sent_last more = record {
          packets = c.gone ++ (sent float packet, ok) ∷ [];
          sized = AllSized-append float net c.gone _ c.sized (
            ground (arith, size),
            ground (arith, size, c.valid),
            (sv'.state, (send_move_data-outbox float users packet sv' c.valid).1),
            tt,
          );
          parts =
              contents-append float c.gone ((sent float packet, ok) ∷ [])
              ∙ ap (λ l. contents float c.gone ++ l) (append-nil (sent float packet))
              ∙ c.parts;
          sends =
              e
              ∙ ap (λ l. l ++ delivered float users ((sent float packet, ok) ∷ [])) c.sends
              ∙ append_assoc (net.outbox sv.state) (delivered float users c.gone) _
              ∙ ap (λ l. net.outbox sv.state ++ l)
                  (sym (delivered-append float users c.gone ((sent float packet, ok) ∷ [])));
        }
          where
            size : length (sent float packet) ≡ packet.count
            size = length-sent float packet c.valid

            ok : Bool
            ok = (send_move_data-outbox float users packet sv' c.valid).0

            e :
                net.outbox (send_move_data float users packet sv').state
                ≡ net.outbox sv'.state ++ delivered float users ((sent float packet, ok) ∷ [])
            e = (send_move_data-outbox float users packet sv' c.valid).2

    start-Collected :
        (users : List (RoomUser F)) (sv : Server net)
        → Collected float users (net.outbox sv.state) [] (MoveAck.clear float, sv)
    start-Collected users sv = record {
      gone = [];
      valid = clear-IsValid float;
      sized = tt;
      parts = sent-clear float;
      sends = sym (append-nil (net.outbox sv.state));
    }

    -- A tick tells everybody in the room the position of everybody who moves, each exactly once
    -- and in the order of the users, in packets of one to `MaxSendMoveCount` positions. A packet
    -- goes to everybody or, when `MakeSendPacket` fails for it in some state, to nobody.
    pub move_check_users-Broadcast :
        (now : ℕ) (room : Room F) (sv : Server net)
        → Broadcast
            (values room.room_user)
            (moving float now room.room_user)
            sv
            (move_check_users float now room sv).1
    unfolding move_check_users
    move_check_users-Broadcast now room sv =
        flush-Broadcast (values room.room_user) (moving float now room.room_user) sv _ _ (
          check_loop-Collected float (values room.room_user) (net.outbox sv.state) now
            room.room_user [] (MoveAck.clear float, sv)
            (start-Collected (values room.room_user) sv))
