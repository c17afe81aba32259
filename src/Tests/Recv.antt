-- ===== src/Tests/Recv.antt =====
-- Two packets of a client through `SessionData::Recv`
-- (jhshin_Server/jhshin_Server/SessionData.cpp).
use jhshin_server.Common.{ℕ, ◌≡◌, refl, true, false, some, List, [], ◌∷◌, ◌++◌, arith}
use jhshin_server.Packet.{put_packet_id}
use jhshin_server.Packet.Wire.{encode_all, split}
use jhshin_server.RecvBuffer.{RecvBuffer}
use jhshin_server.RecvBuffer.Invariant.{IsValid, kept}
use jhshin_server.SendBuffer.{memcpy}
use jhshin_server.Session.Recv.{recv}
use jhshin_server.Session.Recv.Refines.{Served, recv-Served}
use jhshin_server.Session.Recv.Stream.{run}
use jhshin_server.Session.Recv.Stream.Fragments.{AllServed, run-AllServed}
use jhshin_server.Worker
use jhshin_server.Worker.{Receiving, brings, fails}
use jhshin_server.Worker.Attended.{Attended, run-Attended}
use jhshin_server.Tests.Samples.{
  put_bytes, put_bytes-Delivers, first_buffer, first_buffer-IsValid, first_buffer-Between,
  two_packets, noting,
}

-- Pieces of one, two, ... bytes.
abbrev pieces : List ℕ
pieces = 0 ∷ 1 ∷ 0 ∷ 2 ∷ 0 ∷ 0 ∷ 0 ∷ 0 ∷ 0 ∷ 0 ∷ []

run-AllServed_example :
    AllServed noting two_packets []
      (run noting put_bytes pieces (encode_all two_packets) first_buffer [])
unfolding put_packet_id
run-AllServed_example =
    run-AllServed noting put_bytes put_bytes-Delivers pieces two_packets (encode_all two_packets)
      first_buffer [] first_buffer-Between (omega arith)

-- Both packets have just arrived, and a byte of a third.
abbrev arrived : List ℕ
arrived = encode_all two_packets ++ 1 ∷ []

abbrev arrived_buffer : RecvBuffer
arrived_buffer = record first_buffer { buffer = memcpy first_buffer.buffer 0 arrived }

arrived_buffer-IsValid : IsValid arrived_buffer
unfolding put_packet_id
arrived_buffer-IsValid = record {
  capacity = refl;
  at_front = refl;
  within = omega arith;
  header_fits = omega arith;
}

recv-Served_example :
    Served noting
      (split 12 arrived).0
      (kept (split 12 arrived).1)
      []
      (recv noting 12 11 arrived_buffer [])
unfolding put_packet_id
recv-Served_example =
    recv-Served noting 12 11 arrived_buffer [] arrived arrived_buffer-IsValid (omega arith) refl
      (omega arith)

-- The first packet is consumed.
abbrev full_buffer : RecvBuffer
full_buffer = record arrived_buffer { write_pos = 11; header = record { type = 5; size = 2 } }

abbrev first_receiving : Receiving (List ℕ)
first_receiving = record {
  buffer = first_buffer;
  world = [];
  has_session = true;
  posted = true;
  left = 0;
}

first_receiving-Attended : Attended first_receiving
first_receiving-Attended = record {
  open_buffer = λ e. (first_buffer-IsValid, omega arith);
  kept_session = refl;
  one_job = omega arith;
}

-- The state notes the packets and the jobs; bytes come, then a failed completion, then the end.
run-Attended_example :
    (r : Receiving (List ℕ)) × (Worker.run noting put_bytes
        (λ w. 0 ∷ w)
        (brings true (encode_all two_packets) ∷ fails true ∷ brings true [] ∷ fails false ∷ [])
        first_receiving
      ≡ some r)
    × Attended r
run-Attended_example =
    run-Attended noting put_bytes put_bytes-Delivers (λ w. 0 ∷ w)
      (brings true (encode_all two_packets) ∷ fails true ∷ brings true [] ∷ fails false ∷ [])
      first_receiving first_receiving-Attended
