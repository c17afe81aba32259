-- ===== src/PacketHandler/Requests/Answers.antt =====
-- What `PacketHandler::Dispatch` (jhshin_Server/jhshin_Server/PacketHandler.cpp) answers to a packet,
-- and what it puts into the queues of the rooms.
use jhshin_server.Common.{
  ℕ, zero, suc, ◌+◌, ◌%◌, ◌≡◌, refl, sym, ap, Bool, false, List, [], ◌∷◌, append-nil, length, take,
  drop, some, leb, ◌==◌, arith, Bool-cases, inl, inr,
}
use jhshin_server.Common.Int.{pos}
use jhshin_server.Message.Float.{Float}
use jhshin_server.Packet.PacketType
use jhshin_server.Packet.Wire.{Frame}
use jhshin_server.Room.{make_packet}
use jhshin_server.Room.Enter.{send_to}
use jhshin_server.Room.Jobs.{broadcast_job, enter_job, leave_job, move_job}
use jhshin_server.Room.Outgoing.{Net}
use jhshin_server.RoomManager.Routing.{jobs_at}
use jhshin_server.PacketHandler.{
  World, push_job, handle, handle_packet_echo, handle_packet_broadcast, handle_packet_enter,
  handle_packet_leave, handle_packet_move, dispatch_to, dispatch,
}
use jhshin_server.PacketHandler.Accepts.{filled_table, accepts, expected, handler_of-table}
use jhshin_server.PacketHandler.Requests.{
  send_to-sessions, request, draws, Routed, same-Routed, push_job-Routed,
}

module _ (float : Float) (rand : ℕ → ℕ) (s : ℕ) where
  open float use {F, of_bytes}

  module _ {net : Net} (j : ℕ) where
    -- The answer to a packet, and what it has put into the queue.
    abbrev pub Answered : Frame → World F net → World F net × Bool → Type 0
    Answered f w (w', ok) =
        (ok ≡ accepts f.type (length f.body))
        × Routed float rand s j (draws float rand s f)
            (request float rand s w.drawn (w.server.sessions s).room_id f) w w'

    echo-Routed :
        (body : List ℕ) (w : World F net)
        → Routed float rand s j 0 [] w (record w {
          server = send_to float s (make_packet PacketType.server_echo body w.server);
        })
    echo-Routed body w =
        let (sv, chunk) = make_packet PacketType.server_echo body w.server in
        record {
          queued = sym (append-nil (jobs_at j w.manager.rooms));
          same_stop = refl;
          same_rooms = refl;
          same_room = ap (λ f. (f s).room_id) (send_to-sessions float s sv chunk);
          drawn_now = omega arith;
        }

    enter-Routed :
        (w : World F net)
        → let index = pos (rand w.drawn % 5) in
          Routed float rand s j 1
            ((index, enter_job (some s)) ∷ [])
            w
            (push_job float rand (enter_job (some s)) index (record w { drawn = w.drawn + 1 }))
    enter-Routed w =
        let r =
          push_job-Routed float rand s j (enter_job (some s)) (pos (rand w.drawn % 5))
            (record w { drawn = w.drawn + 1 }) in
        record {
          queued = r.queued;
          same_stop = r.same_stop;
          same_rooms = r.same_rooms;
          same_room = r.same_room;
          drawn_now = omega (arith, r.drawn_now);
        }

    refused-Answered :
        (f : Frame) (w : World F net)
        → accepts f.type (length f.body) ≡ false
        → Answered f w (w, false)
    refused-Answered f w refusal =
        let no_draw : draws float rand s f ≡ 0 = ground arith in
        rw (refusal, no_draw) (refl, same-Routed float rand s j w)

    expected-Answered :
        (type : ℕ) (body : List ℕ) (w : World F net)
        → Answered
            (record { type = type; body = body })
            w
            (dispatch_to float rand (expected type) s body w)
    unfolding dispatch_to handle handle_packet_echo handle_packet_broadcast handle_packet_enter
        handle_packet_leave handle_packet_move
    expected-Answered zero body w = (refl, same-Routed float rand s j w)
    expected-Answered (suc zero) body w = elim (Bool-cases (length body == 64)) [
      | inl fits ↦ rw fits (refl, echo-Routed body w)
      | inr other ↦ rw other (refl, same-Routed float rand s j w)
    ]
    expected-Answered (suc (suc zero)) body w = elim (Bool-cases (length body == 64)) [
      | inl fits ↦ rw fits (
        refl,
        push_job-Routed float rand s j (broadcast_job (some s) body) (w.server.sessions s).room_id
            w,
      )
      | inr other ↦ rw other (refl, same-Routed float rand s j w)
    ]
    expected-Answered (suc (suc (suc zero))) body w = (refl, enter-Routed w)
    expected-Answered (suc (suc (suc (suc zero)))) body w =
        (refl, push_job-Routed float rand s j (leave_job (some s)) (w.server.sessions s).room_id w)
    expected-Answered (suc (suc (suc (suc (suc zero))))) body w =
        elim (Bool-cases (length body == 8)) [
          | inl fits ↦ rw fits (
            refl,
            push_job-Routed float rand s j
                (move_job (some s) (of_bytes (take 4 body)) (of_bytes (drop 4 body)))
                (w.server.sessions s).room_id w,
          )
          | inr other ↦ rw other (refl, same-Routed float rand s j w)
        ]
    expected-Answered (suc (suc (suc (suc (suc (suc n)))))) body w =
        refused-Answered (record { type = suc (suc (suc (suc (suc (suc n))))); body = body }) w
          (ground arith)

    pub dispatch-Answered :
        (f : Frame) (w : World F net)
        → Answered f w (dispatch float rand filled_table s f.type f.body w)
    unfolding dispatch
    dispatch-Answered f w = elim (Bool-cases (leb PacketType.client_end f.type)) [
      | inl beyond ↦ rw beyond (refused-Answered f w (ground arith))
      | inr below ↦ rw (below, handler_of-table f.type) (expected-Answered f.type f.body w)
    ]
