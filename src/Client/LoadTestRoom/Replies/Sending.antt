-- ===== src/Client/LoadTestRoom/Replies/Sending.antt =====
-- The requests of a connection of TestClient/LoadTestRoom.cpp: each that was counted is sent or waits
-- to be sent.
use jhshin_server.Common.{ℕ, ◌+◌, ◌-◌, ◌*◌, ◌≤◌, ◌≡◌, List, [], ◌∷◌, length, Option, none, some}
use jhshin_server.Client.LoadTestFast.{Polled}
use jhshin_server.Client.LoadTestFast.Window.{IsDocumented}
use jhshin_server.Client.LoadTestRoom.{Conn}
use jhshin_server.Client.LoadTestRoom.Replies.{Link}

-- The bytes that were taken and those that wait are those of the requests that were counted.
pub record Booked {C : Type 0} (taken : ℕ) (c : Conn C) : Type 0 where
  pub within : c.out_off ≤ length c.out
  pub counted : taken + (length c.out - c.out_off) ≡ 68 * c.sent

abbrev pub LinkBooked : {C : Type 0} → Link C → Type 0
LinkBooked l = Booked l.taken l.conn

module _ {C : Type 0} (now_nanos : C → ℕ × C) where
  abbrev StaysBooked : ℕ → Option (Conn C) → Type 0
  StaysBooked taken none = Unit {0}
  StaysBooked taken (some c) = Booked taken c

  abbrev GoesOn : Option (List ℕ × Link C) → Type 0
  GoesOn o = (input : List ℕ) × (l : Link C) × (o ≡ some (input, l)) × LinkBooked l

  abbrev pub AllDocumented : List (ℕ × Polled) → Type 0
  AllDocumented [] = Unit {0}
  AllDocumented ((now, p) ∷ ps) = IsDocumented p × AllDocumented ps
