-- ===== src/Tests/Trip.antt =====
-- Two requests for an echo, on their way to the server and back.
use jhshin_server.Common.{ℕ, refl, List, [], ◌∷◌, ◌++◌, replicate, arith}
use jhshin_server.Packet.{put_packet_id}
use jhshin_server.Packet.Wire.{encode_all}
use jhshin_server.Session.Recv.Stream.{run}
use jhshin_server.PacketHandler.Requests.Queued.{dispatching}
use jhshin_server.Client.Echo.{make_packet, make_packets, recv_echoes}
use jhshin_server.Client.Echo.Trip.{Echoed, Passed, sent_since, echo_trip}
use jhshin_server.Tests.Samples.{
  whole_numbers, put_bytes, put_bytes-Delivers, first_buffer, first_buffer-IsValid,
}
use jhshin_server.Tests.Clients.{slow, slow-StaysUp}
use jhshin_server.Tests.Routing.{first_world}

abbrev texts : List (List ℕ)
texts = replicate 64 7 ∷ replicate 64 8 ∷ []

-- What the client receives: what the server has sent, with a byte behind it.
abbrev back : List ℕ × List ℕ
back = (
  [],
  encode_all (
        sent_since whole_numbers (λ n. n) 7 first_world
          (run (dispatching whole_numbers (λ n. n) 7) put_bytes (replicate 140 3)
            (make_packets texts) first_buffer first_world))
      ++ 9 ∷ [],
)

echo_trip_example :
    Echoed whole_numbers
      (λ n. n)
      7
      texts
      first_world
      (run
        (dispatching whole_numbers (λ n. n) 7)
        put_bytes
        (replicate 140 3)
        (make_packets texts)
        first_buffer
        first_world)
    × Passed slow (9 ∷ []) (recv_echoes slow texts back)
unfolding make_packets make_packet put_packet_id
echo_trip_example =
    echo_trip whole_numbers (λ n. n) 7 put_bytes put_bytes-Delivers (replicate 140 3) texts
      (refl, (refl, tt)) first_buffer first_world ((_, refl), ((_, refl), tt)) first_buffer-IsValid
      refl (omega arith) slow slow-StaysUp (9 ∷ []) back refl
