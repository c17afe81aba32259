-- ===== src/Client/Framing.antt =====
-- The loop by which the clients of TestClient take packets out of the bytes that have come
-- (LoadTestRoom.cpp): a header, which may be refused, then the body, if it is there.
pub mod Pieces
pub mod Ends
use jhshin_server.Common.{
  ℕ, zero, suc, ◌+◌, ◌-◌, Bool, not, List, [], ◌∷◌, ◌++◌, length, take, drop, Option, none, some,
  ltb, if◌then◌else◌,
}
use jhshin_server.Packet.{PacketId, packet_id_size, get_packet_id}
use jhshin_server.Packet.Wire.{Frame}

module _ {V : Type 0} (accepts : PacketId → Bool) (refuse : V → V) (handle : Frame → V → V) where
  -- `at` is `pos`, the bytes of the input that have been read.
  unfoldable pub frame_loop : ℕ → List ℕ → ℕ → V → Option (ℕ × V)
  frame_loop zero input at v = none
  frame_loop (suc rounds) input at v =
      let header = get_packet_id (drop at input) in
      let total = packet_id_size + header.size in
      let body = take header.size (drop (at + packet_id_size) input) in
      let later =
        frame_loop rounds input (at + total)
          (handle (record { type = header.type; body = body }) v) in
      if ltb (length input - at) packet_id_size
      then some (at, v)
      else if not (accepts header)
      then some (at, refuse v)
      else if ltb (length input - at) total
      then some (at, v)
      else later

  -- `memmove` of what has not been read to the front.
  abbrev pub keep_rest : List ℕ → Option (ℕ × V) → Option (List ℕ × V)
  keep_rest input none = none
  keep_rest input (some (at, v)) = some (drop at input, v)

  -- Each round reads a header at least, so there are fewer rounds than bytes.
  unfoldable pub read_frames : List ℕ → V → Option (List ℕ × V)
  unfolding frame_loop
  read_frames input v = keep_rest input (frame_loop (suc (length input)) input 0 v)

  -- The bytes of each `recv` are put behind those that are left.
  unfoldable pub feed : List (List ℕ) → List ℕ → V → Option (List ℕ × V)
  unfolding read_frames
  feed [] input v = some (input, v)
  feed (piece ∷ pieces) input v = elim (read_frames (input ++ piece) v) [
    | none ↦ none
    | some (input', v') ↦ feed pieces input' v'
  ]
