-- ===== src/Client/Framing/Ends.antt =====
-- The reading loop of the clients (TestClient/LoadTestRoom.cpp) ends on every input, and keeps what
-- handling a packet and refusing a header keep.
use jhshin_server.Common.{
  ℕ, zero, suc, ◌+◌, ◌-◌, ◌≤◌, ◌<◌, ◌≡◌, refl, ap, Bool, not, List, length, take, drop, some, ltb,
  arith, inl, inr, Bool-cases,
}
use jhshin_server.Packet.{PacketId, packet_id_size, get_packet_id}
use jhshin_server.Packet.Wire.{Frame}
use jhshin_server.Client.Framing.{frame_loop, keep_rest, read_frames}

module _ {V : Type 0} (accepts : PacketId → Bool) (refuse : V → V) (handle : Frame → V → V)
    (P : V → Type 0) (handle_keeps : (f : Frame) (v : V) → P v → P (handle f v))
    (refuse_keeps : (v : V) → P v → P (refuse v)) where
  frame_loop-ends :
      (rounds : ℕ) (input : List ℕ) (at : ℕ) (v : V)
      → at ≤ length input
      → length input - at < rounds
      → P v
      → (stop : ℕ) × (v' : V) × (frame_loop accepts refuse handle rounds input at v
          ≡ some (stop, v'))
        × P v'
  unfolding frame_loop
  frame_loop-ends zero input at v le enough p = absurd (omega arith)
  frame_loop-ends (suc rounds) input at v le enough p =
      elim (Bool-cases (ltb (length input - at) packet_id_size)) [
        | inl short ↦ (at, v, rw short refl, p)
        | inr has_header ↦ elim (Bool-cases (not (accepts (get_packet_id (drop at input))))) [
          | inl refused ↦ (at, refuse v, rw (has_header, refused) refl, refuse_keeps v p)
          | inr accepted ↦ elim (Bool-cases (ltb (length input - at) (packet_id_size + size))) [
            | inl part ↦ (at, v, rw (has_header, accepted, part) refl, p)
            | inr whole ↦
                let later =
                  frame_loop-ends rounds input (at + (packet_id_size + size)) (handle frame v)
                    (ground arith) (ground arith) (handle_keeps frame v p) in
                (later.0, later.1, rw (has_header, accepted, whole) later.2, later.3)
          ]
        ]
      ]
    where
      size : ℕ
      size = (get_packet_id (drop at input)).size

      frame : Frame
      frame = record {
        type = (get_packet_id (drop at input)).type;
        body = take size (drop (at + packet_id_size) input);
      }

  -- Whatever bytes have come.
  pub read_frames-ends :
      (input : List ℕ) (v : V)
      → P v
      → (left : List ℕ) × (v' : V) × (read_frames accepts refuse handle input v ≡ some (left, v'))
        × P v'
  unfolding read_frames
  read_frames-ends input v p =
      let (stop, v', e, p') =
        frame_loop-ends (suc (length input)) input 0 v (omega arith) (omega arith) p in
      (drop stop input, v', ap (keep_rest accepts refuse handle input) e, p')
