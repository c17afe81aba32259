-- ===== src/Client/LoadTestRoom/Replies/Measured.antt =====
-- The broadcasts that a connection of TestClient/LoadTestRoom.cpp is sent are counted, one by one.
use jhshin_server.Common.{
  ℕ, ◌+◌, ◌-◌, ◌%◌, ◌^◌, ltb→lt, ◌≤◌, ◌≡◌, refl, ◌∙◌, false, List, [], ◌∷◌, ◌++◌, length, some,
  length-append, ltb, min, arith, inl, inr, Bool-cases,
}
use jhshin_server.Packet.PacketType
use jhshin_server.Packet.Wire.{Frame, encode_all, AllSendable, is_whole}
use jhshin_server.Client.Framing.{feed}
use jhshin_server.Client.Framing.Pieces.{handle_all, AllAccepted, concat, feed-handle_all}
use jhshin_server.Client.LoadTestFast.{get_i64}
use jhshin_server.Client.LoadTestRoom.{broad_body}
use jhshin_server.Client.LoadTestRoom.Replies.{
  max_samples, Link, is_broadcast, refuse, on_broadcast,
}

-- What the server sends for a broadcast of another member.
abbrev pub AllBroadcasts : List Frame → Type 0
AllBroadcasts [] = Unit {0}
AllBroadcasts (f ∷ fs) =
    (f.type ≡ PacketType.server_broadcast) × (length f.body ≡ broad_body) × AllBroadcasts fs

broadcasts-AllSendable : (fs : List Frame) → AllBroadcasts fs → AllSendable fs
broadcasts-AllSendable [] b = tt
broadcasts-AllSendable (f ∷ fs) (type, size, b) = (
  record { type_fits = omega (arith, type); body_fits = omega (arith, size) },
  broadcasts-AllSendable fs b,
)

broadcasts-AllAccepted : (fs : List Frame) → AllBroadcasts fs → AllAccepted is_broadcast fs
broadcasts-AllAccepted [] b = tt
broadcasts-AllAccepted (f ∷ fs) (type, size, b) =
    (ground (arith, type, size), broadcasts-AllAccepted fs b)

module _ {C : Type 0} (now_nanos : C → ℕ × C) where
  -- So many broadcasts more have been counted, their times noted as far as there is room, and the
  -- connection is as it was.
  pub record Counted (n : ℕ) (l l' : Link C) : Type 0 where
    pub recved : l'.recved ≡ l.recved + n
    pub noted : length l.lat ≤ max_samples → length l'.lat ≡ min (length l.lat + n) max_samples
    pub mismatch : l'.mismatch ≡ l.mismatch
    pub dead : l'.dead ≡ l.dead
    pub broke : l'.broke ≡ l.broke

  on_broadcast-Counted : (f : Frame) (l : Link C) → Counted 1 l (on_broadcast now_nanos f l)
  unfolding on_broadcast
  on_broadcast-Counted f l = elim (Bool-cases (ltb (length l.lat) max_samples)) [
    | inl room ↦ rw room (record {
      recved = refl;
      noted = λ le.
          omega (arith, ltb→lt (length l.lat) max_samples room, length-append l.lat (stamp ∷ []));
      mismatch = refl;
      dead = refl;
      broke = refl;
    })
    | inr full ↦ rw full (record {
      recved = refl;
      noted = λ le. ground (arith, full);
      mismatch = refl;
      dead = refl;
      broke = refl;
    })
  ]
    where
      stamp : ℕ
      stamp = ((now_nanos l.conn.clock).0 + 2 ^ 64 - get_i64 f.body) % 2 ^ 64

  handle_all-Counted :
      (fs : List Frame) (l : Link C)
      → Counted (length fs) l (handle_all (on_broadcast now_nanos) fs l)
  handle_all-Counted [] l = record {
    recved = omega arith;
    noted = λ le. omega (arith, le);
    mismatch = refl;
    dead = refl;
    broke = refl;
  }
  handle_all-Counted (f ∷ fs) l =
      let first = on_broadcast-Counted f l in
      let more = handle_all-Counted fs (on_broadcast now_nanos f l) in
      record {
        recved = omega (arith, first.recved, more.recved);
        noted = λ le. omega (arith, first.noted le, more.noted (omega (arith, first.noted le)));
        mismatch = more.mismatch ∙ first.mismatch;
        dead = more.dead ∙ first.dead;
        broke = more.broke ∙ first.broke;
      }

  -- Let the bytes that are left be in no whole packet and become broadcasts of 64 bytes with
  -- those that come, in whatever pieces. Then the reading loop ends each time, each broadcast is
  -- counted once, its time is noted as long as less than 200,000 are, no byte is left, and the
  -- connection is not taken for a broken or mismatching one.
  pub feed-Counted :
      (pieces : List (List ℕ)) (fs : List Frame) (input : List ℕ) (l : Link C)
      → AllBroadcasts fs
      → is_whole input ≡ false
      → input ++ concat pieces ≡ encode_all fs
      → (l' : Link C) × (feed is_broadcast
            (refuse now_nanos)
            (on_broadcast now_nanos)
            pieces
            input
            l
          ≡ some ([], l'))
        × Counted (length fs) l l'
  feed-Counted pieces fs input l all short e = (
    handle_all (on_broadcast now_nanos) fs l,
    feed-handle_all is_broadcast (refuse now_nanos) (on_broadcast now_nanos) pieces fs input l
        (broadcasts-AllSendable fs all) (broadcasts-AllAccepted fs all) short e,
    handle_all-Counted fs l,
  )
