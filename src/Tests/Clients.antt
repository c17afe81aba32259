-- ===== src/Tests/Clients.antt =====
-- The clients of TestClient on a slow connection and on what a server sends.
use jhshin_server.Common.{
  ℕ, zero, suc, ◌+◌, ◌≤◌, ◌<◌, ◌≡◌, refl, sym, ap, ◌∙◌, false, List, [], ◌∷◌, ◌++◌, append-nil,
  nil_of_length, length, length-take, take, drop, take-append-drop, map, min, none, some, arith,
}
use jhshin_server.Common.Int.{pos, negsuc}
use jhshin_server.Packet.{put_packet_id}
use jhshin_server.Packet.PacketType
use jhshin_server.Packet.Wire.{Frame, encode_all, AllSendable, split}
use jhshin_server.Message.MoveAck.{
  ServerMoveAck, MoveData, clear, add_move_data, add_move_data-clear, packet_bytes, sent,
}
use jhshin_server.Client.Socket.{positive, Socket, StaysUp}
use jhshin_server.Client.Transfer.{
  send_all, recv_exact, Sent, Received, send_all-Sent, recv_exact-Received,
}
use jhshin_server.Client.Echo.{recv_echoes}
use jhshin_server.Client.Echo.Checks.{Judged, recv_echoes-Judged}
use jhshin_server.Client.MoveTest.{View, handle, parse_client, pump}
use jhshin_server.Client.MoveTest.Parsing.{handle_all, parse_client-split, pump-handle_all}
use jhshin_server.Client.MoveTest.Reading.{sampled, handle-move_ack}
use jhshin_server.Tests.Samples.{whole_numbers, two_packets, two_packets-AllSendable}

pub positive-pos : (k n : ℕ) → positive (pos k) ≡ some n → (k ≡ n) × (0 < n)
positive-pos zero n e = cc
positive-pos (suc k) n e = let same : suc k ≡ n = cc in (same, omega (arith, same))

positive-none : (k : ℕ) → positive (pos k) ≡ none → k ≡ 0
positive-none zero e = refl
positive-none (suc k) e = cc

-- Each call moves three bytes at most. The state is what was taken and what is still to come.
pub slow_recv :
    (len : ℕ) (coming : List ℕ) (n : ℕ)
    → positive (pos (min len (min 3 (length coming)))) ≡ some n
    → (0 < n)
      × (n ≤ len)
      × (length (take (min len (min 3 (length coming))) coming) ≡ n)
      × (coming
          ≡ take (min len (min 3 (length coming))) coming
            ++ drop (min len (min 3 (length coming))) coming)
slow_recv len coming n e =
    let k = min len (min 3 (length coming)) in
    let (same, some_bytes) = positive-pos k n e in
    (
      some_bytes,
      omega (arith, same),
      omega (arith, same, length-take k coming),
      sym (take-append-drop k coming),
    )

pub slow_send :
    (bytes taken : List ℕ) (n : ℕ)
    → positive (pos (min 3 (length bytes))) ≡ some n
    → (0 < n)
      × (n ≤ length bytes)
      × (taken ++ take (min 3 (length bytes)) bytes ≡ taken ++ take n bytes)
slow_send bytes taken n e =
    let (same, some_bytes) = positive-pos (min 3 (length bytes)) n e in
    (some_bytes, omega (arith, same), ap (λ k. taken ++ take k bytes) same)

pub slow_send_none :
    (bytes taken : List ℕ)
    → positive (pos (min 3 (length bytes))) ≡ none
    → taken ++ take (min 3 (length bytes)) bytes ≡ taken
slow_send_none bytes taken e =
    ap (λ k. taken ++ take k bytes) (positive-none (min 3 (length bytes)) e) ∙ append-nil taken

abbrev pub slow : Socket
slow = record {
  S = List ℕ × List ℕ;
  send = λ bytes s. (pos (min 3 (length bytes)), (s.0 ++ take (min 3 (length bytes)) bytes, s.1));
  recv = λ len s. let k = min len (min 3 (length s.1)) in (pos k, take k s.1, (s.0, drop k s.1));
  taken = λ s. s.0;
  coming = λ s. s.1;
  send_some = λ bytes s n e. slow_send bytes s.0 n e;
  send_none = λ bytes s e. slow_send_none bytes s.0 e;
  recv_some = λ len s n e. slow_recv len s.1 n e;
}

pub slow-StaysUp : StaysUp slow
slow-StaysUp len s some_room some_bytes e =
    let k : min len (min 3 (length s.1)) ≡ 0 = positive-none (min len (min 3 (length s.1))) e in
    some_bytes (nil_of_length s.1 (omega (arith, k, some_room)))

abbrev five_bytes : List ℕ
five_bytes = 1 ∷ 2 ∷ 3 ∷ 4 ∷ 5 ∷ []

send_all-Sent_example : Sent slow five_bytes 5 [] (send_all slow five_bytes 5 ([], []))
send_all-Sent_example = send_all-Sent slow five_bytes 5 ([], []) (omega arith)

recv_exact-Received_example : Received slow 4 five_bytes (recv_exact slow 4 ([], five_bytes))
recv_exact-Received_example = recv_exact-Received slow 4 ([], five_bytes)

abbrev two_bodies : List (List ℕ)
two_bodies = (104 ∷ 105 ∷ []) ∷ [] ∷ []

recv_echoes-Judged_example :
    Judged slow two_packets two_bodies [] (recv_echoes slow two_bodies ([], encode_all two_packets))
recv_echoes-Judged_example =
    recv_echoes-Judged slow slow-StaysUp two_packets two_bodies [] ([], encode_all two_packets) refl
      two_packets-AllSendable (sym (append-nil (encode_all two_packets)))

-- A clock that goes on by one each time it is read.
abbrev pub ticking : ℕ → ℕ × ℕ
ticking n = (n, n + 1)

abbrev nothing_seen : View ℕ ℕ ℕ
nothing_seen = record {
  room_id = negsuc 0;
  seq_id = 0;
  entered = false;
  moves = [];
  spawns = [];
  leaves = 0;
  clock = 0;
}

abbrev told : List Frame
told =
    record { type = 102; body = 3 ∷ 0 ∷ 0 ∷ 0 ∷ 9 ∷ 0 ∷ 0 ∷ 0 ∷ [] }
    ∷ record { type = 104; body = 5 ∷ 0 ∷ 0 ∷ 0 ∷ [] }
    ∷ []

told-AllSendable : AllSendable told
told-AllSendable = (
  record { type_fits = omega arith; body_fits = omega arith },
  (record { type_fits = omega arith; body_fits = omega arith }, tt),
)

parse_client-split_example :
    let (fs, left) = split 16 (take 15 (encode_all told)) in
    parse_client whole_numbers ticking []
      (record { input = take 15 (encode_all told); view = nothing_seen })
    ≡ some (record { input = left; view = handle_all whole_numbers ticking [] fs nothing_seen })
unfolding put_packet_id
parse_client-split_example =
    parse_client-split whole_numbers ticking []
      (record { input = take 15 (encode_all told); view = nothing_seen })

pump-handle_all_example :
    pump whole_numbers ticking []
      (take 5 (encode_all told) ∷ [] ∷ drop 5 (encode_all told) ∷ [])
      (record { input = []; view = nothing_seen })
    ≡ some (record { input = []; view = handle_all whole_numbers ticking [] told nothing_seen })
unfolding put_packet_id
pump-handle_all_example =
    pump-handle_all whole_numbers ticking []
      (take 5 (encode_all told) ∷ [] ∷ drop 5 (encode_all told) ∷ []) told
      (record { input = []; view = nothing_seen }) told-AllSendable refl refl

abbrev one_move : MoveData ℕ
one_move = record { seq_id = 9; pos_x = 1; pos_y = 2 }

abbrev moved : ServerMoveAck ℕ
moved = (add_move_data whole_numbers one_move (clear whole_numbers)).0

handle-move_ack_example :
    handle whole_numbers ticking []
      (record { type = PacketType.server_move; body = packet_bytes whole_numbers moved })
      nothing_seen
    ≡ record nothing_seen {
      moves = map (sampled whole_numbers ticking [] 0) (sent whole_numbers moved);
      clock = 1;
    }
unfolding add_move_data clear
handle-move_ack_example =
    handle-move_ack whole_numbers ticking [] (λ x. refl) moved nothing_seen
      (add_move_data-clear whole_numbers one_move).0 (omega arith, tt)
