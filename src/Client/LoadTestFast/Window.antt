-- ===== src/Client/LoadTestFast/Window.antt =====
-- The load test of TestClient/LoadTestFast.cpp keeps its window: how many requests have been made.
pub mod Echoes
use jhshin_server.Common.{
  ℕ, zero, ◌*◌, ◌≤◌, ◌<◌, ◌≡◌, sym, ◌∙◌, List, [], ◌∷◌, length, length-append, take, replicate,
  Option, none, some,
}
use jhshin_server.Common.Int.{ℤ}
use jhshin_server.Packet.{packet_id, packet_id_size, put_packet_id, get_packet_id}
use jhshin_server.Packet.PacketType
use jhshin_server.Message.{put_u32}
use jhshin_server.Client.Socket.{positive}
use jhshin_server.Client.LoadTestFast.{
  echo_body_size, max_samples, Conn, put_i64, append_packet, Polled, append_now, echoed, echo_loop,
}
use jhshin_server.Client.LoadTestFast.Window.Echoes.{Windowed}

-- What is documented of `send`: it takes no more bytes than it is given.
abbrev pub IsDocumented : Polled → Type 0
IsDocumented p = (bytes : List ℕ) (n : ℕ) → positive (p.send bytes) ≡ some n → n ≤ length bytes

abbrev pub AllDocumented : List Polled → Type 0
AllDocumented [] = Unit {0}
AllDocumented (p ∷ ps) = IsDocumented p × AllDocumented ps

module _ {C : Type 0} (now_nanos : C → ℕ × C) where
  abbrev GoesOn : ℕ → Option (Conn C) → Type 0
  GoesOn window o = (c : Conn C) × (o ≡ some c) × Windowed now_nanos window c
