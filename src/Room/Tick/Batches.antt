-- ===== src/Room/Tick/Batches.antt =====
-- What `Room::MoveCheckUsers` (jhshin_Server/jhshin_Server/Room.cpp) sends: every position once, in
-- packets that are not too long, each to everybody.
mod Collect
pub mod Complete
use jhshin_server.Common.{
  ℕ, zero, suc, ◌+◌, ◌*◌, ◌≤◌, ◌<◌, ◌≡◌, refl, sym, ap, subst, ◌∙◌, ◌⊎◌, inl, inr, Bool, true,
  false, not, List, [], ◌∷◌, ◌++◌, append_assoc, append-nil, map, Option, none, some, length, take,
  length-take, ltb, leb, if◌then◌else◌, arith, Bool-cases,
}
use jhshin_server.Packet.PacketType
use jhshin_server.Packet.Wire.{Frame}
use jhshin_server.Message.{put_u32}
use jhshin_server.Message.Float.{Float}
use jhshin_server.Message.MoveAck
use jhshin_server.Message.MoveAck.{
  MoveData, ServerMoveAck, add_move_data, packet_bytes, all_bytes, sent, IsValid,
  max_send_move_count, add_move_data-sent, add_move_data-clear, length-sent, clear-IsValid,
  sent-clear,
}
use jhshin_server.Room.{Room, RoomUser, Server, make_packet}
use jhshin_server.Room.Motion.{move_position}
use jhshin_server.Room.Outgoing.{Net}
use jhshin_server.Room.UserMap.{SocketMap, values}
use jhshin_server.Room.Tick.{
  move_data, insert_all, send_chunk, send_move_data, collect, check_loop, flush, move_check_users,
}

-- Did `MakeSendPacket` find a send buffer?
abbrev pub is_made : {A : Type 0} → Option A → Bool
is_made none = false
is_made (some c) = true

module _ (float : Float) where
  open float use {F}

  -- The packet that tells of some positions.
  abbrev pub move_frame : List (MoveData F) → Frame
  move_frame b = record {
    type = PacketType.server_move;
    body = put_u32 (length b) ++ all_bytes float b;
  }

  -- One packet for everybody.
  abbrev pub to_all : List (RoomUser F) → Frame → List (ℕ × Frame)
  to_all users frame = map (λ u. (u.session, frame)) users

  -- Packets one after the other; one for which there was no send buffer goes to nobody.
  abbrev pub delivered : List (RoomUser F) → List (List (MoveData F) × Bool) → List (ℕ × Frame)
  delivered users [] = []
  delivered users ((b, true) ∷ bs) = to_all users (move_frame b) ++ delivered users bs
  delivered users ((b, false) ∷ bs) = delivered users bs

  -- The positions of those who move, at a tick.
  abbrev pub moving : ℕ → SocketMap (RoomUser F) → List (MoveData F)
  moving now [] = []
  moving now ((k, u) ∷ m) =
      if u.is_move then move_data (move_position float now u) ∷ moving now m else moving now m

  abbrev pub contents : List (List (MoveData F) × Bool) → List (MoveData F)
  contents [] = []
  contents ((b, ok) ∷ bs) = b ++ contents bs

  -- None is empty or too long, and the flag is what `MakeSendPacket` answered, in some state.
  abbrev pub AllSized : Net → List (List (MoveData F) × Bool) → Type 0
  AllSized net [] = Unit {0}
  AllSized net ((b, ok) ∷ bs) =
      (0 < length b)
      × (length b ≤ max_send_move_count)
      × ((s : net.State) × (is_made
              (net.make_send_packet PacketType.server_move (move_frame b).body s).1
            ≡ ok))
      × AllSized net bs

  pub delivered-append :
      (users : List (RoomUser F)) (bs cs : List (List (MoveData F) × Bool))
      → delivered users (bs ++ cs) ≡ delivered users bs ++ delivered users cs
  delivered-append users [] cs = refl
  delivered-append users ((b, true) ∷ bs) cs =
      ap (λ l. to_all users (move_frame b) ++ l) (delivered-append users bs cs)
      ∙ sym (append_assoc (to_all users (move_frame b)) (delivered users bs) (delivered users cs))
  delivered-append users ((b, false) ∷ bs) cs = delivered-append users bs cs

  pub contents-append :
      (bs cs : List (List (MoveData F) × Bool)) → contents (bs ++ cs) ≡ contents bs ++ contents cs
  contents-append [] cs = refl
  contents-append ((b, ok) ∷ bs) cs =
      ap (λ l. b ++ l) (contents-append bs cs) ∙ sym (append_assoc b (contents bs) (contents cs))

  pub AllSized-append :
      (net : Net) (bs cs : List (List (MoveData F) × Bool))
      → AllSized net bs
      → AllSized net cs
      → AllSized net (bs ++ cs)
  AllSized-append net [] cs h k = k
  AllSized-append net ((b, ok) ∷ bs) cs h k = (h.0, h.1, h.2, AllSized-append net bs cs h.3 k)

  pub packet_bytes-sent :
      (packet : ServerMoveAck F)
      → IsValid float packet
      → packet_bytes float packet ≡ (move_frame (sent float packet)).body
  unfolding packet_bytes
  packet_bytes-sent packet v = ap (λ n. put_u32 n ++ all_bytes float (sent float packet)) same
    where
      same : packet.count ≡ length (sent float packet)
      same = omega (arith, length-take packet.count packet.entries, v.capacity, v.within)

  pub moving_step :
      (moves : Bool) (x : MoveData F) (seen rest : List (MoveData F))
      → (seen ++ (if moves then x ∷ [] else [])) ++ rest
        ≡ seen ++ (if moves then x ∷ rest else rest)
  moving_step true x seen rest = append_assoc seen (x ∷ []) rest
  moving_step false x seen rest = ap (λ l. l ++ rest) (append-nil seen)
