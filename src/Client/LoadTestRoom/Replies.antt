-- ===== src/Client/LoadTestRoom/Replies.antt =====
-- What `Worker` of TestClient/LoadTestRoom.cpp does with the bytes that come for a connection: first
-- it waits for the answer to its request to enter, then it measures the broadcasts of the others,
-- while it sends its own.
pub mod Entered
pub mod Measured
pub mod Sending
use jhshin_server.Common.{
  ℕ, zero, suc, ◌+◌, ◌-◌, ◌%◌, ◌^◌, Bool, true, false, not, ◌&&◌, ◌||◌, List, [], ◌∷◌, ◌++◌, length,
  Option, none, some, ltb, ◌==◌, if◌then◌else◌, drop,
}
use jhshin_server.Common.Int.{ℤ, pos, negsuc}
use jhshin_server.ObjectPool.{modify}
use jhshin_server.Packet.{PacketId}
use jhshin_server.Packet.PacketType
use jhshin_server.Packet.Wire.{Frame}
use jhshin_server.Message.Read.{get_i32}
use jhshin_server.Client.Socket.{positive}
use jhshin_server.Client.Framing.{read_frames}
use jhshin_server.Client.LoadTestFast.{get_i64, Polled, is_zero}
use jhshin_server.Client.LoadTestRoom.{Conn, broad_body, pace}

-- `MAX_ROOMS`, `ENTER_ACK_BODY`, `MAX_SAMPLES` and `IN_CAP`.
abbrev pub max_rooms : ℕ
max_rooms = 64

abbrev pub enter_ack_body : ℕ
enter_ack_body = 8

abbrev pub max_samples : ℕ
max_samples = 200000

abbrev pub in_cap : ℕ
in_cap = 1048576

-- `c.roomId`, where `none` is -1, with the count of the thread and `g_roomMembers`.
pub record Place : Type 0 where
  pub room_id : Option ℕ
  pub entered : ℕ
  pub members : List ℕ

-- `rid >= 0 && rid < MAX_ROOMS`.
abbrev pub room_of : ℤ → Option ℕ
room_of (pos n) = if ltb n max_rooms then some n else none
room_of (negsuc n) = none

-- The body of the loop over the packets while a connection enters.
unfoldable pub on_answer : Frame → Place → Place
on_answer f c =
    if f.type == PacketType.server_enter && length f.body == enter_ack_body
    then elim (room_of (get_i32 f.body)) [
      | none ↦ c
      | some r ↦ record {
        room_id = some r;
        entered = c.entered + 1;
        members = modify suc r c.members;
      }
    ]
    else c

-- What `recv` comes to: bytes, the end of the connection, or an error, which is passed over.
pub data Arrived : Type 0 where
  bytes : List ℕ → Arrived
  closed : Arrived
  fails : Arrived

pub record Entering : Type 0 where
  pub input : List ℕ
  pub dead : Bool
  pub broke : ℕ
  pub place : Place

-- No header is refused.
abbrev pub any_header : PacketId → Bool
any_header id = true

abbrev pub with_rest : Entering → Option (List ℕ × Place) → Option Entering
with_rest c none = none
with_rest c (some (input, place)) = some (record c { input = input; place = place })

abbrev pub is_in : Option ℕ → Bool
is_in none = false
is_in (some r) = true

-- One round for a connection, unless it is dead or has entered.
unfoldable pub on_arrived : Arrived → Entering → Option Entering
on_arrived (bytes new) c =
    with_rest c (read_frames any_header (λ v. v) on_answer (c.input ++ new) c.place)
on_arrived closed c = some (record c { dead = true; broke = c.broke + 1 })
on_arrived fails c = some c

unfoldable pub enter_round : Arrived → Entering → Option Entering
unfolding on_arrived
enter_round a c = if c.dead || is_in c.place.room_id then some c else on_arrived a c

unfoldable pub enter_rounds : List Arrived → Entering → Option Entering
unfolding enter_round
enter_rounds [] c = some c
enter_rounds (a ∷ more) c = elim (enter_round a c) [ none ↦ none | some c' ↦ enter_rounds more c' ]

-- A connection that has entered, with the counts of its thread; `taken` counts the bytes that `send`
-- has taken.
pub record Link (C : Type 0) : Type 0 where
  pub conn : Conn C
  pub dead : Bool
  pub broke : ℕ
  pub mismatch : ℕ
  pub recved : ℕ
  pub lat : List ℕ
  pub taken : ℕ

abbrev pub is_broadcast : PacketId → Bool
is_broadcast id = id.type == PacketType.server_broadcast && id.size == broad_body

-- The loop that paces the requests comes to its end within so many tests.
abbrev pub pace_rounds : ℕ
pace_rounds = 12

module _ {C : Type 0} (now_nanos : C → ℕ × C) where
  abbrev pub kill : Link C → Link C
  kill l = record l { dead = true; broke = l.broke + 1 }

  abbrev pub refuse : Link C → Link C
  refuse l = kill (record l { mismatch = l.mismatch + 1 })

  -- A broadcast of another member has come: how long it took is noted.
  unfoldable pub on_broadcast : Frame → Link C → Link C
  on_broadcast f l =
      let (now, clock') = now_nanos l.conn.clock in
      let noted =
        if ltb (length l.lat) max_samples
        then record l {
          lat = l.lat ++ (now + 2 ^ 64 - get_i64 f.body) % 2 ^ 64 ∷ [];
          conn = record l.conn { clock = clock' };
        }
        else l in
      record noted { recved = noted.recved + 1 }

  -- The sending; does the round go on with this connection?
  unfoldable pub on_writable : Polled → Link C → Link C × Bool
  on_writable p l =
      let c = l.conn in
      let r = p.send (drop c.out_off c.out) in
      if p.writable && ltb c.out_off (length c.out)
      then elim (positive r) [
        | some n ↦ (
          (if c.out_off + n == length c.out
              then record l { conn = record c { out = []; out_off = 0 }; taken = l.taken + n }
              else record l { conn = record c { out_off = c.out_off + n }; taken = l.taken + n }),
          true,
        )
        | none ↦ if is_zero r || not p.send_blocks then (kill l, false) else (l, true)
      ]
      else (l, true)

  -- The receiving.
  unfoldable pub on_readable : Polled → List ℕ → Link C → Option (List ℕ × Link C)
  unfolding on_broadcast
  on_readable p input l =
      let r = p.recv (in_cap - length input) in
      if p.readable
      then elim (positive r) [
        | some n ↦ read_frames is_broadcast refuse on_broadcast (input ++ p.received) l
        | none ↦ some (input, if is_zero r || not p.recv_blocks then kill l else l)
      ]
      else some (input, l)

  unfoldable pub poll : Polled → List ℕ → Link C → Option (List ℕ × Link C)
  unfolding on_writable on_readable
  poll p input l =
      if p.failed
      then some (input, kill l)
      else let (l', goes_on) = on_writable p l in
        if goes_on then on_readable p input l' else some (input, l')

  -- One round at a time: the requests that are due, then what the system says of the connection.
  unfoldable pub round : ℕ → ℕ × Polled → List ℕ → Link C → Option (List ℕ × Link C)
  unfolding poll
  round interval (now, p) input l =
      if l.dead then some (input, l) else elim (pace now_nanos pace_rounds interval now l.conn) [
        | none ↦ none
        | some c ↦ poll p input (record l { conn = c })
      ]

  unfoldable pub rounds : ℕ → List (ℕ × Polled) → List ℕ → Link C → Option (List ℕ × Link C)
  unfolding round
  rounds interval [] input l = some (input, l)
  rounds interval (p ∷ ps) input l = elim (round interval p input l) [
    | none ↦ none
    | some (input', l') ↦ rounds interval ps input' l'
  ]
