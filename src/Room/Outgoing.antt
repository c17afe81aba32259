-- ===== src/Room/Outgoing.antt =====
-- What a room calls of the rest of the server: `ServiceManager::MakeSendPacket` and `CloseSession`
-- (jhshin_Server/jhshin_Server/ServiceManager.cpp) and `SessionData::InsertSendQueue`
-- (jhshin_Server/jhshin_Server/SessionData.cpp). A session is named by a number. The outbox is what
-- has been put into the sessions' send queues, in order.
use jhshin_server.Common.{ℕ, ◌≡◌, List, [], ◌∷◌, ◌++◌, Option, some}
use jhshin_server.Packet.Wire.{Frame}

pub record Net : Type 1 where
  pub State : Type 0
  pub Chunk : Type 0
  pub make_send_packet : ℕ → List ℕ → State → State × Option Chunk
  pub insert_send_queue : ℕ → Chunk → State → State
  pub close_session : ℕ → State → State
  pub outbox : State → List (ℕ × Frame)
  pub closed : State → List ℕ
  pub frame_of : Chunk → Frame
  -- A chunk holds the packet that was asked for, and making one sends nothing.
  pub frame_of-make :
      (type : ℕ) (body : List ℕ) (s : State) (c : Chunk)
      → (make_send_packet type body s).1 ≡ some c
      → frame_of c ≡ record { type = type; body = body }
  pub outbox-make :
      (type : ℕ) (body : List ℕ) (s : State) → outbox (make_send_packet type body s).0 ≡ outbox s
  pub closed-make :
      (type : ℕ) (body : List ℕ) (s : State) → closed (make_send_packet type body s).0 ≡ closed s
  -- A chunk goes to the end of a session's queue, and no session is closed by it.
  pub outbox-insert :
      (session : ℕ) (c : Chunk) (s : State)
      → outbox (insert_send_queue session c s) ≡ outbox s ++ (session, frame_of c) ∷ []
  pub closed-insert :
      (session : ℕ) (c : Chunk) (s : State) → closed (insert_send_queue session c s) ≡ closed s
  pub outbox-close : (session : ℕ) (s : State) → outbox (close_session session s) ≡ outbox s
  pub closed-close :
      (session : ℕ) (s : State) → closed (close_session session s) ≡ closed s ++ session ∷ []
