-- ===== src/Tests/Routing.antt =====
-- Packets through `PacketHandler::Dispatch` and `RoomManager::PushJobByRooms`
-- (jhshin_Server/jhshin_Server/PacketHandler.cpp and RoomManager.cpp).
use jhshin_server.Common.{
  refl, arith, ℕ, zero, suc, Bool, ◌==◌, ◌≡◌, List, [], ◌∷◌, ◌++◌, some, replicate, length,
  if◌then◌else◌,
}
use jhshin_server.Common.Int.{ℤ, pos, negsuc}
use jhshin_server.PacketHandler.{World, dispatch}
use jhshin_server.PacketHandler.Accepts.{filled_table, accepts, Dispatched, dispatch-Dispatched}
use jhshin_server.Room.Jobs.{Job, leave_job, session_of}
use jhshin_server.RoomManager.{RoomManager, initialize, push_job_by_rooms}
use jhshin_server.RoomManager.Routing.{jobs_at, takes, dropped, closing, push_job_by_rooms-jobs}
use jhshin_server.Packet.{put_packet_id}
use jhshin_server.Packet.Wire.{Frame, encode_all, AllSendable}
use jhshin_server.Session.Recv.Stream.{run}
use jhshin_server.PacketHandler.Requests.Queued.{Queued, dispatching_meanwhile, run-Queued}
use jhshin_server.Tests.Samples.{
  put_bytes, put_bytes-Delivers, first_buffer, first_buffer-IsValid, whole_numbers, ledger,
  quiet_server,
}

abbrev pub five_rooms : RoomManager ℕ
five_rooms = initialize 5

abbrev pub first_world : World ℕ ledger
first_world = record { manager = five_rooms; server = quiet_server; drawn = 0 }

abbrev text : List ℕ
text = replicate 64 7

-- An echo of 64 bytes.
dispatch-Dispatched_example :
    Dispatched
      (accepts 1 (length text))
      first_world
      (dispatch whole_numbers (λ n. n) filled_table 7 1 text first_world)
dispatch-Dispatched_example = dispatch-Dispatched whole_numbers (λ n. n) 7 1 text first_world

abbrev leaves : Job ℕ
leaves = leave_job (some 7)

push_job_by_rooms-jobs_example :
    let (m, sv) = push_job_by_rooms leaves (pos 3) (five_rooms, quiet_server) in
    (jobs_at 3 m.rooms ≡ (
      if takes (pos 3) 3 five_rooms
      then jobs_at 3 five_rooms.rooms ++ leaves ∷ []
      else jobs_at 3 five_rooms.rooms))
    × (ledger.closed sv.state ≡ (
        if dropped (pos 3) five_rooms
        then ledger.closed quiet_server.state ++ closing (session_of leaves)
        else ledger.closed quiet_server.state))
push_job_by_rooms-jobs_example = push_job_by_rooms-jobs leaves (pos 3) 3 five_rooms quiet_server

-- Session 7 sends an enter and a leave in pieces.
abbrev in_and_out : List Frame
in_and_out = record { type = 3; body = [] } ∷ record { type = 4; body = [] } ∷ []

in_and_out-AllSendable : AllSendable in_and_out
in_and_out-AllSendable = (
  record { type_fits = omega arith; body_fits = omega arith },
  (record { type_fits = omega arith; body_fits = omega arith }, tt),
)

abbrev cuts : List ℕ
cuts = 0 ∷ 1 ∷ 2 ∷ 0 ∷ 3 ∷ 1 ∷ 0 ∷ 0 ∷ []

-- When the leave is handled, the thread of room 0 has taken out the enter and let the session in.
abbrev room_at : ℕ → ℤ
room_at zero = negsuc 0
room_at (suc i) = pos 0

abbrev pops_at : ℕ → Bool
pops_at i = i == 1

run-Queued_example :
    Queued whole_numbers
      (λ n. n)
      7
      0
      room_at
      pops_at
      in_and_out
      (first_world, 0, [])
      (run
        (dispatching_meanwhile whole_numbers (λ n. n) 7 0 room_at pops_at)
        put_bytes
        cuts
        (encode_all in_and_out)
        first_buffer
        (first_world, 0, []))
unfolding put_packet_id
run-Queued_example =
    run-Queued whole_numbers (λ n. n) 7 0 room_at pops_at put_bytes put_bytes-Delivers cuts
      in_and_out (encode_all in_and_out) first_buffer (first_world, 0, [])
      (record {
        valid = first_buffer-IsValid;
        not_full = omega arith;
        short = refl;
        goes_on = refl;
        sendable = in_and_out-AllSendable;
      })
      (omega arith)
