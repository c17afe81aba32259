-- ===== src/Client/LoadTest.antt =====
-- One connection of the load test in TestClient/LoadTest.cpp: `Worker` sends a window of requests, and
-- another for each answer that comes.
pub mod Balance
pub mod Counted
use jhshin_server.Common.{
  ℕ, zero, suc, ◌+◌, ◌-◌, ◌%◌, ◌^◌, Bool, true, false, List, [], ◌∷◌, ◌++◌, length, replicate, ltb,
  ◌==◌, if◌then◌else◌,
}
use jhshin_server.Packet.{packet_id, packet_id_size, put_packet_id, get_packet_id}
use jhshin_server.Client.Socket.{Outcome, done, failed, unfinished, Socket}
use jhshin_server.Client.Transfer.{send_all, recv_exact}
use jhshin_server.Client.LoadTestFast.{put_i64, get_i64}

-- `PacketType_Client` of the enumeration in LoadTest.cpp, and `MAX_SAMPLES`.
abbrev pub packet_client : ℕ
packet_client = 2

abbrev pub max_samples : ℕ
max_samples = 50000

-- `clock` is what `NowNanos` reads.
pub record Result (C : Type 0) : Type 0 where
  pub round_trips : ℕ
  pub broke_early : Bool
  pub rtts : List ℕ
  pub clock : C

abbrev pub no_result : {C : Type 0} → C → Result C
no_result clock = record { round_trips = 0; broke_early = false; rtts = []; clock = clock }

-- `packet` with the time put in; `main` lets no body of less than 8 bytes pass.
unfoldable pub request : ℕ → ℕ → List ℕ
request body_size now =
    put_packet_id (packet_id packet_client body_size)
    ++ (put_i64 now ++ replicate (body_size - 8) 120)

module _ (socket : Socket) {C : Type 0} (now_nanos : C → ℕ × C) where
  open socket use {S}

  -- Wherever a call returns `false`, or an answer has another size, `brokeEarly` is set and the work
  -- ends: that is the outcome `failed` here, of the calls and of the test of the size.
  infixl 5 ◌>>=◌
  abbrev pub ◌>>=◌ :
      {A B : Type 0}
      → Outcome A × S × Result C
      → (A → S → Result C → Outcome B × S × Result C)
      → Outcome B × S × Result C
  (done a, s, r) >>= f = f a s r
  (failed, s, r) >>= f = (failed, s, record r { broke_early = true })
  (unfinished, s, r) >>= f = (unfinished, s, r)

  -- A call on the connection.
  abbrev pub on : {A : Type 0} → Result C → Outcome A × S → Outcome A × S × Result C
  on r (o, s) = (o, s, r)

  -- `sendOne()`.
  unfoldable pub send_one : ℕ → S → Result C → Outcome (Unit {0}) × S × Result C
  unfolding request
  send_one body_size s r =
      let (now, clock') = now_nanos r.clock in
      on (record r { clock = clock' })
        (send_all socket (request body_size now) (packet_id_size + body_size) s)

  -- The first window of requests.
  unfoldable pub fill : ℕ → ℕ → S → Result C → Outcome (Unit {0}) × S × Result C
  unfolding send_one
  fill body_size zero s r = (done tt, s, r)
  fill body_size (suc window) s r =
      send_one body_size s r >>= λ _ s' r'. fill body_size window s' r'

  -- An answer has come: it is counted, its time is noted.
  unfoldable pub count_answer : List ℕ → Result C → Result C
  count_answer body r =
      let (now, clock') = now_nanos r.clock in
      let counted = record r { round_trips = r.round_trips + 1 } in
      if ltb (length r.rtts) max_samples
      then record counted {
        rtts = r.rtts ++ (now + 2 ^ 64 - get_i64 body) % 2 ^ 64 ∷ [];
        clock = clock';
      }
      else counted

  -- `h._size != bodySize`, where the loop breaks off.
  unfoldable pub check_size : ℕ → ℕ → S → Result C → Outcome (Unit {0}) × S × Result C
  check_size body_size size s r = if size == body_size then (done tt, s, r) else (failed, s, r)

  -- The loop once.
  unfoldable pub exchange : ℕ → S → Result C → Outcome (Unit {0}) × S × Result C
  unfolding count_answer check_size send_one
  exchange body_size s r = on r (recv_exact socket packet_id_size s) >>= λ header s1 r1.
      check_size body_size (get_packet_id header).size s1 r1 >>= λ _ s2 r2.
      on r2 (recv_exact socket (get_packet_id header).size s2) >>= λ body s3 r3.
      send_one body_size s3 (count_answer body r3)

  -- The loop; its test of the deadline holds so many times.
  unfoldable pub exchanges : ℕ → ℕ → S → Result C → Outcome (Unit {0}) × S × Result C
  unfolding exchange
  exchanges body_size zero s r = (done tt, s, r)
  exchanges body_size (suc in_time) s r =
      exchange body_size s r >>= λ _ s' r'. exchanges body_size in_time s' r'

  -- `Worker`, from a connection on.
  unfoldable pub worker : ℕ → ℕ → ℕ → S → Result C → Outcome (Unit {0}) × S × Result C
  unfolding fill exchanges
  worker window body_size in_time s r =
      fill body_size window s r >>= λ _ s' r'. exchanges body_size in_time s' r'
