-- ===== src/Client/LoadTestFast.antt =====
-- One connection of the load test in TestClient/LoadTestFast.cpp: `Conn`, `AppendPacket`, and what
-- `Worker` does with a connection in each round of its polling.
pub mod Window
use jhshin_server.Common.{
  ℕ, zero, suc, ◌+◌, ◌-◌, ◌*◌, ◌/◌, ◌%◌, ◌^◌, Bool, true, false, not, ◌&&◌, ◌||◌, List, [], ◌∷◌,
  ◌++◌, length, take, drop, replicate, Option, none, some, ltb, ◌==◌, if◌then◌else◌,
}
use jhshin_server.Common.Int.{ℤ, pos, negsuc}
use jhshin_server.Packet.{packet_id, packet_id_size, put_packet_id, get_packet_id}
use jhshin_server.Packet.PacketType
use jhshin_server.Message.{put_u32}
use jhshin_server.Message.Read.{get_u32}
use jhshin_server.Client.Socket.{positive}

-- `ECHO_BODY_SIZE`, the only size that `main` passes on, `MAX_SAMPLES` and `IN_CAP`.
abbrev pub echo_body_size : ℕ
echo_body_size = 64

abbrev pub max_samples : ℕ
max_samples = 50000

abbrev pub in_cap : ℕ
in_cap = 262144

-- `input` is the part of the buffer that is used. The thread's counts are here for the connection
-- alone; `taken` counts the bytes that `send` has taken, and `clock` is what `NowNanos` reads.
pub record Conn (C : Type 0) : Type 0 where
  pub input : List ℕ
  pub out : List ℕ
  pub out_off : ℕ
  pub dead : Bool
  pub round_trips : ℕ
  pub broke : ℕ
  pub rtts : List ℕ
  pub taken : ℕ
  pub clock : C

-- The bytes of an `int64`, by its bit pattern, and back.
unfoldable pub put_i64 : ℕ → List ℕ
put_i64 n = put_u32 (n % 2 ^ 32) ++ put_u32 (n / 2 ^ 32 % 2 ^ 32)

pub get_i64 : List ℕ → ℕ
get_i64 bytes = get_u32 bytes + 2 ^ 32 * get_u32 (drop 4 bytes)

-- `AppendPacket( out, bodySize )` at a time.
pub append_packet : ℕ → List ℕ → List ℕ
append_packet now out =
    out
    ++ (put_packet_id (packet_id PacketType.client_echo echo_body_size)
        ++ (put_i64 now ++ replicate (echo_body_size - 8) 120))

-- What the system says of a connection in one round: `POLLERR` and the like; `POLLWRNORM`, and
-- what `send` returns for these bytes; `POLLRDNORM`, and what `recv` returns and writes. A
-- failed call may be one that would block.
pub record Polled : Type 0 where
  pub failed : Bool
  pub writable : Bool
  pub send : List ℕ → ℤ
  pub send_blocks : Bool
  pub readable : Bool
  pub recv : ℕ → ℤ
  pub received : List ℕ
  pub recv_blocks : Bool

-- `n == 0`.
abbrev pub is_zero : ℤ → Bool
is_zero (pos zero) = true
is_zero (pos (suc n)) = false
is_zero (negsuc n) = false

module _ {C : Type 0} (now_nanos : C → ℕ × C) where
  abbrev pub kill : Conn C → Conn C
  kill c = record c { dead = true; broke = c.broke + 1 }

  pub append_now : Conn C → Conn C
  append_now c =
      let (now, clock') = now_nanos c.clock in
      record c { out = append_packet now c.out; clock = clock' }

  -- The first window of requests.
  pub fill : ℕ → Conn C → Conn C
  fill zero c = c
  fill (suc window) c = fill window (append_now c)

  -- An echo has come back: its time is noted, it is counted, and another request goes out.
  pub echoed : List ℕ → Conn C → Conn C
  unfolding append_now
  echoed body c =
      let (now, clock') = now_nanos c.clock in
      let noted =
        if ltb (length c.rtts) max_samples
        then record c {
          rtts = c.rtts ++ (now + 2 ^ 64 - get_i64 body) % 2 ^ 64 ∷ [];
          clock = clock';
        }
        else c in
      append_now (record noted { round_trips = c.round_trips + 1 })

  -- The loop over the received bytes, `at` bytes into the input.
  pub echo_loop : ℕ → ℕ → Conn C → Option (ℕ × Conn C)
  echo_loop zero at c = none
  echo_loop (suc rounds) at c =
      let header = get_packet_id (drop at c.input) in
      let total = packet_id_size + header.size in
      let later = echo_loop rounds (at + total) (echoed (drop (at + packet_id_size) c.input) c) in
      if ltb (length c.input - at) packet_id_size
      then some (at, c)
      else if not (header.size == echo_body_size) || not (header.type == PacketType.server_echo)
      then some (at, kill c)
      else if ltb (length c.input - at) total
      then some (at, c)
      else later

  -- `memmove` of what was not read to the front.
  abbrev pub keep_rest : Option (ℕ × Conn C) → Option (Conn C)
  keep_rest none = none
  keep_rest (some (at, c)) = some (record c { input = drop at c.input })

  -- The sending; does the round go on with this connection?
  pub on_writable : Polled → Conn C → Conn C × Bool
  on_writable p c =
      let r = p.send (drop c.out_off c.out) in
      if p.writable && ltb c.out_off (length c.out)
      then elim (positive r) [
        | some n ↦ (
          (if c.out_off + n == length c.out
              then record c { out = []; out_off = 0; taken = c.taken + n }
              else record c { out_off = c.out_off + n; taken = c.taken + n }),
          true,
        )
        | none ↦ if is_zero r || not p.send_blocks then (kill c, false) else (c, true)
      ]
      else (c, true)

  -- The receiving.
  pub on_readable : Polled → Conn C → Option (Conn C)
  unfolding echo_loop
  on_readable p c =
      let r = p.recv (in_cap - length c.input) in
      let c' = record c { input = c.input ++ p.received } in
      if p.readable
      then elim (positive r) [
        | some n ↦ keep_rest (echo_loop (suc (length c'.input)) 0 c')
        | none ↦ some (if is_zero r || not p.recv_blocks then kill c else c)
      ]
      else some c

  -- One round: a dead connection is not polled.
  pub poll_round : Polled → Conn C → Option (Conn C)
  unfolding on_writable on_readable
  poll_round p c =
      if c.dead
      then some c
      else if p.failed
      then some (kill c)
      else let (c', goes_on) = on_writable p c in if goes_on then on_readable p c' else some c'

  pub rounds : List Polled → Conn C → Option (Conn C)
  unfolding poll_round
  rounds [] c = some c
  rounds (p ∷ ps) c = elim (poll_round p c) [ none ↦ none | some c' ↦ rounds ps c' ]

-- A connection that has just been made.
abbrev pub fresh : {C : Type 0} → C → Conn C
fresh clock = record {
  input = [];
  out = [];
  out_off = 0;
  dead = false;
  round_trips = 0;
  broke = 0;
  rtts = [];
  taken = 0;
  clock = clock;
}
