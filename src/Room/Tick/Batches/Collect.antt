-- ===== src/Room/Tick/Batches/Collect.antt =====
-- The loop of `Room::MoveCheckUsers` (jhshin_Server/jhshin_Server/Room.cpp) with its packet
-- half full.
use jhshin_server.Common.{
  ℕ, ◌+◌, ◌≡◌, refl, sym, ap, subst, ◌∙◌, inl, inr, Bool, true, false, not, List, [], ◌∷◌, ◌++◌,
  append_assoc, append-nil, Option, none, some, length, ltb, if◌then◌else◌, arith, Bool-cases,
}
use jhshin_server.Packet.PacketType
use jhshin_server.Packet.Wire.{Frame}
use jhshin_server.Message.Float.{Float}
use jhshin_server.Message.MoveAck
use jhshin_server.Message.MoveAck.{
  MoveData, ServerMoveAck, add_move_data, packet_bytes, all_bytes, sent, IsValid,
  max_send_move_count, add_move_data-sent, add_move_data-clear, length-sent, clear-IsValid,
  sent-clear,
}
use jhshin_server.Room.{RoomUser, Server, make_packet}
use jhshin_server.Room.Motion.{move_position}
use jhshin_server.Room.Outgoing.{Net}
use jhshin_server.Room.UserMap.{SocketMap}
use jhshin_server.Room.Tick.{move_data, insert_all, send_chunk, send_move_data, collect, check_loop}
use jhshin_server.Room.Tick.Batches.{
  is_made, move_frame, to_all, delivered, moving, contents, AllSized, delivered-append,
  contents-append, AllSized-append, packet_bytes-sent, moving_step,
}

module _ (float : Float) where
  open float use {F}

  module _ {net : Net} where
    insert_all-outbox :
        (c : net.Chunk) (us : List (RoomUser F)) (sv : Server net)
        → net.outbox (insert_all float c us sv).state
          ≡ net.outbox sv.state ++ to_all float us (net.frame_of c)
    unfolding insert_all
    insert_all-outbox c [] sv = sym (append-nil (net.outbox sv.state))
    insert_all-outbox c (u ∷ us) sv =
        insert_all-outbox c us _
        ∙ ap (λ l. l ++ to_all float us (net.frame_of c)) (net.outbox-insert u.session c sv.state)
        ∙ append_assoc (net.outbox sv.state) ((u.session, net.frame_of c) ∷ [])
            (to_all float us (net.frame_of c))

    send_chunk-outbox :
        (users : List (RoomUser F)) (b : List (MoveData F)) (sv : Server net) (r : Option net.Chunk)
        → ((c : net.Chunk) → r ≡ some c → net.frame_of c ≡ move_frame float b)
        → (ok : Bool) × (is_made r ≡ ok)
          × (net.outbox (send_chunk float users (sv, r)).state
              ≡ net.outbox sv.state ++ delivered float users ((b, ok) ∷ []))
    unfolding send_chunk
    send_chunk-outbox users b sv none h = (false, refl, sym (append-nil (net.outbox sv.state)))
    send_chunk-outbox users b sv (some c) h = (
      true,
      refl,
      insert_all-outbox c users sv
          ∙ ap (λ l. net.outbox sv.state ++ l)
              (ap (to_all float users) (h c refl)
                ∙ sym (append-nil (to_all float users (move_frame float b)))),
    )

    -- Sending a packet is a delivery to all or, with no send buffer, to nobody.
    pub send_move_data-outbox :
        (users : List (RoomUser F)) (packet : ServerMoveAck F) (sv : Server net)
        → IsValid float packet
        → (ok : Bool) × (is_made
              (net.make_send_packet PacketType.server_move
                (move_frame float (sent float packet)).body
                sv.state).1
            ≡ ok)
          × (net.outbox (send_move_data float users packet sv).state
              ≡ net.outbox sv.state ++ delivered float users ((sent float packet, ok) ∷ []))
    unfolding send_move_data
    send_move_data-outbox users packet sv v =
        let (ok, answered, e) = send_chunk-outbox users (sent float packet) made.0 made.1 holds in
        (
          ok,
          ap (λ b. is_made (net.make_send_packet PacketType.server_move b sv.state).1)
                (sym (packet_bytes-sent float packet v))
              ∙ answered,
          e ∙ ap (λ l. l ++ delivered float users ((sent float packet, ok) ∷ [])) quiet,
        )
      where
        made : Server net × Option net.Chunk
        made = make_packet PacketType.server_move (packet_bytes float packet) sv

        quiet : net.outbox made.0.state ≡ net.outbox sv.state
        quiet = net.outbox-make PacketType.server_move (packet_bytes float packet) sv.state

        holds :
            (c : net.Chunk)
            → made.1 ≡ some c
            → net.frame_of c ≡ move_frame float (sent float packet)
        holds c e =
            net.frame_of-make PacketType.server_move (packet_bytes float packet) sv.state c e
            ∙ ap (λ b. record { type = PacketType.server_move; body = b })
                (packet_bytes-sent float packet v)

    -- Where the loop stands when it has dealt with the positions `seen`: full packets have gone
    -- out, and the rest is in the one being filled.
    pub record Collected (users : List (RoomUser F)) (before : List (ℕ × Frame))
        (seen : List (MoveData F)) (acc : ServerMoveAck F × Server net) : Type 0 where
      pub gone : List (List (MoveData F) × Bool)
      pub valid : IsValid float acc.0
      pub sized : AllSized float net gone
      pub parts : contents float gone ++ sent float acc.0 ≡ seen
      pub sends : net.outbox acc.1.state ≡ before ++ delivered float users gone

    module _ (users : List (RoomUser F)) (before : List (ℕ × Frame)) (seen : List (MoveData F))
        (user : RoomUser F) (packet : ServerMoveAck F) (sv : Server net)
        (c : Collected users before seen (packet, sv)) where
      open c use {gone, valid}

      abbrev new : MoveData F
      new = move_data user

      abbrev added : ServerMoveAck F × Bool
      added = add_move_data float new packet

      added_lem :
          IsValid float added.0
          × (added.1 ≡ ltb packet.count max_send_move_count)
          × (sent float added.0
              ≡ (if added.1 then sent float packet ++ new ∷ [] else sent float packet))
          × (added.0.count ≡ (if added.1 then packet.count + 1 else packet.count))
      added_lem = add_move_data-sent float new packet valid

      -- The entry fits.
      collect_room : added.1 ≡ true → Collected users before (seen ++ new ∷ []) (added.0, sv)
      collect_room room = record {
        gone = gone;
        valid = added_lem.0;
        sized = c.sized;
        parts =
            ap (λ l. contents float gone ++ l)
              (added_lem.2
                ∙ ap (λ b. if b then sent float packet ++ new ∷ [] else sent float packet) room)
            ∙ sym (append_assoc (contents float gone) (sent float packet) (new ∷ []))
            ∙ ap (λ l. l ++ new ∷ []) c.parts;
        sends = c.sends;
      }

      -- A full packet goes out, and the entry is the first of the next.
      full_length : added.1 ≡ false → length (sent float added.0) ≡ max_send_move_count
      full_length full =
          ground
            (arith, length-sent float added.0 added_lem.0, added_lem.1, added_lem.3, full, valid)

      collect_full :
          added.1 ≡ false
          → Collected users before (seen ++ new ∷ []) (
            (add_move_data float new (MoveAck.clear float)).0,
            send_move_data float users added.0 sv,
          )
      collect_full full = record {
        gone = gone ++ (sent float added.0, ok) ∷ [];
        valid = (add_move_data-clear float new).0;
        sized = AllSized-append float net gone _ c.sized (
          omega (arith, full_length full),
          omega (arith, full_length full),
          (sv.state, (send_move_data-outbox users added.0 sv added_lem.0).1),
          tt,
        );
        parts =
            ap (λ l. contents float (gone ++ (sent float added.0, ok) ∷ []) ++ l)
              (add_move_data-clear float new).1
            ∙ ap (λ l. l ++ new ∷ [])
                (contents-append float gone ((sent float added.0, ok) ∷ [])
                  ∙ ap (λ l. contents float gone ++ l) (append-nil (sent float added.0) ∙ unchanged)
                  ∙ c.parts);
        sends =
            e
            ∙ ap (λ l. l ++ delivered float users ((sent float added.0, ok) ∷ [])) c.sends
            ∙ append_assoc before (delivered float users gone) _
            ∙ ap (λ l. before ++ l)
                (sym (delivered-append float users gone ((sent float added.0, ok) ∷ [])));
      }
        where
          unchanged : sent float added.0 ≡ sent float packet
          unchanged =
              added_lem.2
              ∙ ap (λ b. if b then sent float packet ++ new ∷ [] else sent float packet) full

          ok : Bool
          ok = (send_move_data-outbox users added.0 sv added_lem.0).0

          e :
              net.outbox (send_move_data float users added.0 sv).state
              ≡ net.outbox sv.state ++ delivered float users ((sent float added.0, ok) ∷ [])
          e = (send_move_data-outbox users added.0 sv added_lem.0).2

      collect-Collected :
          Collected users before (seen ++ new ∷ []) (collect float users user (packet, sv))
      unfolding collect
      collect-Collected = elim (Bool-cases added.1) [
        | inl room ↦ rw room (collect_room room)
        | inr full ↦ rw full (collect_full full)
      ]

    module _ (users : List (RoomUser F)) (before : List (ℕ × Frame)) where
      -- One user in the loop, with the flag `m_IsMove`.
      visit-Collected :
          (moves : Bool) (u u' : RoomUser F) (seen : List (MoveData F))
          (acc : ServerMoveAck F × Server net)
          → Collected users before seen acc
          → Collected users before
              (seen ++ (if moves then move_data u' ∷ [] else []))
              (if not moves then acc else collect float users (if not moves then u else u') acc)
      visit-Collected true u u' seen (packet, sv) c =
          collect-Collected users before seen u' packet sv c
      visit-Collected false u u' seen acc c =
          subst (λ l. Collected users before l acc) (sym (append-nil seen)) c

      pub check_loop-Collected :
          (now : ℕ) (m : SocketMap (RoomUser F)) (seen : List (MoveData F))
          (acc : ServerMoveAck F × Server net)
          → Collected users before seen acc
          → Collected users before (seen ++ moving float now m) (check_loop float now users m acc).1
      unfolding check_loop
      check_loop-Collected now [] seen acc c =
          subst (λ l. Collected users before l acc) (sym (append-nil seen)) c
      check_loop-Collected now ((k, u) ∷ m) seen acc c =
          subst (λ l. Collected users before l (check_loop float now users ((k, u) ∷ m) acc).1)
            (moving_step float u.is_move (move_data (move_position float now u)) seen
              (moving float now m))
            (check_loop-Collected now m _ _
              (visit-Collected u.is_move u (move_position float now u) seen acc c))
