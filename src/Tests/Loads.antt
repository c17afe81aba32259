-- ===== src/Tests/Loads.antt =====
-- Connections of the load tests of TestClient for a round or two.
use jhshin_server.Common.{
  ℕ, ◌≡◌, refl, true, false, List, [], ◌∷◌, replicate, take, drop, min, ◌≤◌, ◌++◌, none, some,
  arith, length,
}
use jhshin_server.Common.Int.{pos}
use jhshin_server.Packet.{put_packet_id}
use jhshin_server.Packet.PacketType
use jhshin_server.Packet.Wire.{Frame, encode_all}
use jhshin_server.Message.{put_u32, put_i32, enter_ack_bytes}
use jhshin_server.Client.Framing.{feed}
use jhshin_server.Client.LoadTestFast
use jhshin_server.Client.LoadTestFast.{Polled, put_i64}
use jhshin_server.Client.LoadTestRoom
use jhshin_server.Client.LoadTestRoom.{pace}
use jhshin_server.Client.LoadTestRoom.Pace.{CaughtUp, pace_catches_up}
use jhshin_server.Client.LoadTestRoom.Replies
use jhshin_server.Client.LoadTestRoom.Replies.{
  Arrived, bytes, closed, fails, Entering, enter_rounds, Link, is_broadcast, refuse, on_broadcast,
}
use jhshin_server.Client.LoadTestRoom.Replies.Entered.{answer, placed, enter_rounds-placed}
use jhshin_server.Client.LoadTestRoom.Replies.Measured.{Counted, feed-Counted}
use jhshin_server.Tests.Clients.{ticking}

-- One round: the first requests go out in part and an echo comes in part.
abbrev busy : Polled
busy = record {
  failed = false;
  writable = true;
  send = λ offer. pos (min 100 (length offer));
  send_blocks = false;
  readable = true;
  recv = λ len. pos 5;
  received = 100 ∷ 0 ∷ 64 ∷ 0 ∷ 7 ∷ [];
  recv_blocks = false;
}

abbrev late : LoadTestRoom.Conn ℕ
late = record {
  id = 3;
  room_id = 1;
  out = [];
  out_off = 0;
  next_send_at = 1000;
  sent = 0;
  skipped = 0;
  sent_by_room = 0 ∷ 0 ∷ [];
  clock = 1450;
}

pace_catches_up_example : CaughtUp ticking 100 1450 10 late (pace ticking 12 100 1450 late)
pace_catches_up_example = pace_catches_up ticking 100 1450 late (omega arith)

-- A connection that is about to enter, and the answer in two pieces with a failed call between them.
abbrev waiting : Entering
waiting = record {
  input = [];
  dead = false;
  broke = 0;
  place = record { room_id = none; entered = 0; members = 0 ∷ 0 ∷ 0 ∷ [] };
}

abbrev gone : Frame
gone = record { type = PacketType.server_leave; body = 5 ∷ 0 ∷ 0 ∷ 0 ∷ [] }

abbrev answered : List ℕ
answered = encode_all (answer 2 7 ∷ gone ∷ [])

abbrev in_pieces : List Arrived
in_pieces = bytes (take 7 answered) ∷ fails ∷ bytes (drop 7 answered) ∷ fails ∷ []

enter_rounds-placed_example :
    (c : Entering) × (enter_rounds in_pieces waiting ≡ some c)
    × (c.place ≡ placed 2 waiting.place)
    × (c.dead ≡ false)
    × ◌≡◌ {A = ℕ} c.broke 0
unfolding put_packet_id enter_ack_bytes put_i32 put_u32
enter_rounds-placed_example =
    enter_rounds-placed 2 7 (omega arith) in_pieces (gone ∷ []) waiting tt
      (record { type_fits = omega arith; body_fits = omega arith }, tt) (refl, tt)
      (record { alive = refl; outside = refl; short = refl }) refl

abbrev entered : Link ℕ
entered = record {
  conn = late;
  dead = false;
  broke = 0;
  mismatch = 0;
  recved = 0;
  lat = [];
  taken = 0;
}

-- Two broadcasts, the first cut in its header.
abbrev told : Frame
told = record { type = PacketType.server_broadcast; body = replicate 64 7 }

abbrev told_bytes : List ℕ
told_bytes = encode_all (told ∷ told ∷ [])

feed-Counted_example :
    (l : Link ℕ) × (feed is_broadcast
        (refuse ticking)
        (on_broadcast ticking)
        (take 3 told_bytes ∷ drop 3 told_bytes ∷ [])
        []
        entered
      ≡ some ([], l))
    × Counted ticking 2 entered l
unfolding put_packet_id
feed-Counted_example =
    feed-Counted ticking (take 3 told_bytes ∷ drop 3 told_bytes ∷ []) (told ∷ told ∷ []) [] entered
      (refl, refl, (refl, refl, tt)) refl refl

-- One answer of eight bytes comes, then nothing.
abbrev answering : List ℕ × List ℕ
answering = ([], put_packet_id (record { type = 2; size = 8 }) ++ put_i64 5)

abbrev eight : 8 ≤ 8
eight = omega arith
