-- ===== src/Client/LoadTestRoom.antt =====
-- How a connection of the load test in TestClient/LoadTestRoom.cpp is paced: `AppendHeaderOnly`,
-- `AppendBroadcast` and the sending part of `Worker`.
pub mod Pace
pub mod Replies
use jhshin_server.Common.{
  ℕ, zero, suc, ◌+◌, ◌-◌, ◌*◌, ◌%◌, ◌/◌, ◌^◌, Bool, true, false, ◌&&◌, List, [], ◌∷◌, ◌++◌, length,
  replicate, Option, none, some, ltb, leb, if◌then◌else◌,
}
use jhshin_server.Packet.{packet_id, put_packet_id}
use jhshin_server.Packet.PacketType
use jhshin_server.Message.{put_u32}
use jhshin_server.ObjectPool.{modify}
use jhshin_server.Client.LoadTestFast.{put_i64}

-- `BROAD_BODY`, and `OUT_LIMIT` in `Worker`.
abbrev pub broad_body : ℕ
broad_body = 64

abbrev pub out_limit : ℕ
out_limit = 4352

-- `AppendHeaderOnly( out, type )`.
pub append_header_only : ℕ → List ℕ → List ℕ
append_header_only type out = out ++ put_packet_id (packet_id type 0)

-- `AppendBroadcast( out, connId )` at a time.
pub append_broadcast : ℕ → ℕ → List ℕ → List ℕ
append_broadcast now conn_id out =
    out
    ++ (put_packet_id (packet_id PacketType.client_broadcast broad_body)
        ++ (put_i64 now ++ (put_u32 conn_id ++ replicate (broad_body - 12) 120)))

-- A connection, and the counts of its thread; `clock` is what `NowNanos` reads.
pub record Conn (C : Type 0) : Type 0 where
  pub id : ℕ
  pub room_id : ℕ
  pub out : List ℕ
  pub out_off : ℕ
  pub next_send_at : ℕ
  pub sent : ℕ
  pub skipped : ℕ
  pub sent_by_room : List ℕ
  pub clock : C

module _ {C : Type 0} (now_nanos : C → ℕ × C) where
  -- A request, or none if too much is waiting to be sent.
  pub send_or_skip : Conn C → Conn C
  unfolding append_broadcast
  send_or_skip c =
      let (stamp, clock') = now_nanos c.clock in
      if ltb (length c.out - c.out_off) out_limit
      then record c {
        out = append_broadcast stamp c.id c.out;
        sent = c.sent + 1;
        sent_by_room = modify suc c.room_id c.sent_by_room;
        clock = clock';
      }
      else record c { skipped = c.skipped + 1 }

  -- The next time: one interval on, or from now on if that is more than eight intervals ago.
  abbrev pub next_time : ℕ → ℕ → ℕ → ℕ
  next_time interval now at =
      if ltb (at + interval + interval * 8) now then now + interval else at + interval

  -- `while( interval > 0 && now >= c.nextSendAt )`.
  pub pace : ℕ → ℕ → ℕ → Conn C → Option (Conn C)
  unfolding send_or_skip
  pace zero interval now c = none
  pace (suc rounds) interval now c =
      let c' = send_or_skip c in
      let later =
        pace rounds interval now
          (record c' { next_send_at = next_time interval now c.next_send_at }) in
      if ltb 0 interval && leb c.next_send_at now then later else some c
