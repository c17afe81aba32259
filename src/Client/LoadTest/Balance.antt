-- ===== src/Client/LoadTest/Balance.antt =====
-- The load test of TestClient/LoadTest.cpp keeps its window: one request for each answer.
use jhshin_server.Common.{ℕ, ◌+◌, ◌≤◌, ◌≡◌, false, List, [], ◌∷◌, ◌++◌, length}
use jhshin_server.Packet.{packet_id_size}
use jhshin_server.Client.Socket.{Outcome, done, failed, unfinished, Socket}
use jhshin_server.Client.Transfer.Silent.{RecvSendsNothing}
use jhshin_server.Client.LoadTest.Counted.{Noted}
use jhshin_server.Client.LoadTest.{Result, request}

-- The bytes of the requests that were made at these times.
abbrev pub requests : ℕ → List ℕ → List ℕ
requests body_size [] = []
requests body_size (now ∷ times) = request body_size now ++ requests body_size times

module _ (socket : Socket) (silent : RecvSendsNothing socket) {C : Type 0} (now_nanos : C → ℕ × C)
    (body_size : ℕ) (large : 8 ≤ body_size) (window : ℕ) (before : List ℕ) where
  open socket use {S, taken}

  abbrev pub size : ℕ
  size = packet_id_size + body_size

  -- Requests have been sent, so many, and whole.
  abbrev pub SentWhole : ℕ → S → Type 0
  SentWhole k s =
      (times : List ℕ) × (length times ≡ k) × (taken s ≡ before ++ requests body_size times)

  abbrev pub Even : ℕ → S → Result C → Type 0
  Even k s r = (r.broke_early ≡ false) × SentWhole k s × Noted r

  -- Not more than so many, the last one perhaps in part.
  abbrev pub Short : S → Result C → Type 0
  Short s r =
      (times rest : List ℕ) × (length times ≤ window + r.round_trips)
      × (taken s ++ rest ≡ before ++ requests body_size times)
      × Noted r

  -- What comes of calls: this, or a failure with `Short`.
  abbrev pub Ends : {A : Type 0} → (A → S → Result C → Type 0) → Outcome A × S × Result C → Type 0
  Ends P (done a, s, r) = P a s r
  Ends P (failed, s, r) = Short s r
  Ends P (unfinished, s, r) = ⊥

  -- All requests of the window and one for each answer.
  abbrev pub Level : S → Result C → Type 0
  Level s r = Even (window + r.round_trips) s r
