-- ===== src/Session/Recv.antt =====
-- `SessionData::Recv` and `RecvStart` of jhshin_Server/jhshin_Server/SessionData.cpp: the loop that
-- hands every whole packet to `PacketHandler::Dispatch`, and the next `WSARecv`. What `Dispatch`
-- does to the rest of the server is a parameter, a function on a state `W`.
pub mod Refines
pub mod Stream
use jhshin_server.Common.{ℕ, zero, suc, ◌+◌, Bool, true, false, List, take, if◌then◌else◌}
use jhshin_server.Packet.{packet_id_size, u16_mod}
use jhshin_server.RecvBuffer.{
  RecvBuffer, divide_buffer, set_read_pos, get_read_data, get_write_buffer, get_write_buffer_size,
}

-- What `PacketHandler::Dispatch` returns and does: packet type, body, state.
abbrev pub Dispatch : Type 0 → Type 0
Dispatch W = ℕ → List ℕ → W → W × Bool

-- How the loop ends: at `RecvStart`, at the `return false` behind `Dispatch`, or without fuel.
pub data Outcome (W : Type 0) : Type 0 where
  waits : RecvBuffer → W → Outcome W
  refused : RecvBuffer → W → Outcome W
  out_of_fuel : Outcome W

-- The body of the packet that `DivideBuffer` has found: `GetReadData` and the header's size.
abbrev pub body_of : RecvBuffer → List ℕ
body_of rb = take rb.header.size (get_read_data rb)

module _ {W : Type 0} (dispatch : Dispatch W) where
  -- `while( DivideBuffer( divideByte ) )`, where `divideByte` is 0 from the second round on.
  unfoldable pub recv : ℕ → ℕ → RecvBuffer → W → Outcome W
  recv zero transfer rb w = out_of_fuel
  recv (suc fuel) transfer rb w =
      let (rb', whole) = divide_buffer transfer rb in
      let (w', accepted) = dispatch rb'.header.type (body_of rb') w in
      let rest = recv fuel 0 (set_read_pos (rb'.header.size + packet_id_size) rb') w' in
      if whole then (if accepted then rest else refused rb' w') else waits rb' w

-- What `RecvStart` hands to `WSARecv`: where the bytes go and how many may come.
pub record Posted : Type 0 where
  pub at : ℕ
  pub len : ℕ

unfoldable pub recv_start : RecvBuffer → Posted
recv_start rb = record { at = get_write_buffer rb; len = get_write_buffer_size rb }
