-- ===== src/Client/Echo.antt =====
-- TestClient/TestClient.cpp: `MakePacket`, `RecvPacket`, and the sending and receiving of
-- `Test_Batched`, which pushes several packets out at once and expects each body back in order.
pub mod Checks
pub mod Scenarios
pub mod Trip
use jhshin_server.Common.{
  ℕ, zero, suc, ◌+◌, ◌≤◌, ◌<◌, ◌≡◌, ◌≢◌, refl, sym, ap, ◌∙◌, Bool, true, false, ◌&&◌, List, [], ◌∷◌,
  ◌++◌, append_assoc, map, length, ltb, ◌==◌, ==_iff, if◌then◌else◌, arith, inl, inr, Bool-cases,
  subst,
}
use jhshin_server.Packet.{
  PacketId, packet_id, packet_id_size, u16_mod, put_packet_id, get_packet_id,
}
use jhshin_server.Packet.PacketType
use jhshin_server.Packet.Wire.{Frame, encode, encode_all, IsSendable, AllSendable}
use jhshin_server.Client.Socket.{Outcome, done, failed, unfinished, Socket, StaysUp}
use jhshin_server.Client.Transfer.{recv_exact, send_all, Obtains, recv_exact-Obtains}

-- `MakePacket`: an echo request around a body.
unfoldable pub make_packet : List ℕ → List ℕ
make_packet body = put_packet_id (packet_id PacketType.client_echo (length body)) ++ body

-- `all += MakePacket( ... )` for each body.
unfoldable pub make_packets : List (List ℕ) → List ℕ
unfolding make_packet
make_packets [] = []
make_packets (body ∷ bodies) = make_packet body ++ make_packets bodies

-- `echo == body`.
pub same_bytes : List ℕ → List ℕ → Bool
same_bytes [] [] = true
same_bytes [] (y ∷ ys) = false
same_bytes (x ∷ xs) [] = false
same_bytes (x ∷ xs) (y ∷ ys) = x == y && same_bytes xs ys

module _ (socket : Socket) where
  open socket use {S, coming}

  -- The code goes on only after a call that returned `true`.
  infixl 5 ◌>>=◌
  abbrev pub ◌>>=◌ : {A B : Type 0} → Outcome A × S → (A → S → Outcome B × S) → Outcome B × S
  (done a, s) >>= f = f a s
  (failed, s) >>= f = (failed, s)
  (unfinished, s) >>= f = (unfinished, s)

  -- `RecvPacket( s, header, body )` behind the header.
  pub recv_body : PacketId → S → Outcome (PacketId × List ℕ) × S
  recv_body header s =
      if ltb 0 header.size
      then (recv_exact socket header.size s >>= λ body s'. (done (header, body), s'))
      else (done (header, []), s)

  pub recv_packet : S → Outcome (PacketId × List ℕ) × S
  unfolding recv_body
  recv_packet s =
      recv_exact socket packet_id_size s >>= λ bytes s'. recv_body (get_packet_id bytes) s'

  -- The receiving loop of `Test_Batched`.
  pub recv_echoes : List (List ℕ) → S → Outcome (Unit {0}) × S
  recv_echoes [] s = (done tt, s)
  recv_echoes (body ∷ bodies) s = recv_packet s >>= λ packet s'.
      let rest = recv_echoes bodies s' in if same_bytes packet.1 body then rest else (failed, s')

  -- `Test_Batched` on the bodies, from a connection to its result.
  pub test_batched : List (List ℕ) → S → Outcome (Unit {0}) × S
  unfolding recv_echoes
  test_batched bodies s =
      send_all socket (make_packets bodies) (length (make_packets bodies)) s >>= λ _ s'.
      recv_echoes bodies s'
