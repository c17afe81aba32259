-- ===== src/Tests/Rooms.antt =====
-- A room (`Room` of jhshin_Server/jhshin_Server/Room.cpp) with a user who walks and one who sits.
use jhshin_server.Common.{
  ℕ, ◌+◌, ◌≤◌, refl, false, List, [], ◌∷◌, length, some, ltb, if◌then◌else◌, arith,
}
use jhshin_server.Room.{new_room}
use jhshin_server.Room.UserMap.{IsSorted, values}
use jhshin_server.Room.Motion.{move}
use jhshin_server.Room.Motion.Arrival.{HasArrived, at_ticks, arrival}
use jhshin_server.Room.Motion.Bounds.{AllHeadInside, move-AllHeadInside}
use jhshin_server.Room.Tick.{move_check_users}
use jhshin_server.Room.Tick.Batches.{moving}
use jhshin_server.Room.Tick.Batches.Complete.{Broadcast, move_check_users-Broadcast}
use jhshin_server.Room.Jobs.{enter_job, move_job, leave_job}
use jhshin_server.Room.Jobs.Ids.{held}
use jhshin_server.Room.Jobs.Ids.History.{Round, rounds, rounds-held}
use jhshin_server.Tests.Samples.{whole_numbers, quiet_server, busy_server, walker, small_room}

move_check_users-Broadcast_example :
    Broadcast whole_numbers
      (values small_room.room_user)
      (moving whole_numbers 200 small_room.room_user)
      quiet_server
      (move_check_users whole_numbers 200 small_room quiet_server).1
move_check_users-Broadcast_example =
    move_check_users-Broadcast whole_numbers 200 small_room quiet_server

-- Session 7 enters and heads for (3, 4), then leaves.
abbrev history : List (Round ℕ)
history =
    record {
      queue = record { job_queue = enter_job (some 7) ∷ move_job (some 7) 3 4 ∷ []; stop = false };
      clock = λ i. 1000 + i;
    }
    ∷ record {
      queue = record { job_queue = leave_job (some 7) ∷ []; stop = false };
      clock = λ i. 2000 + i;
    }
    ∷ []

rounds-held_example :
    IsSorted (rounds whole_numbers history (new_room, quiet_server)).0.room_user
    × (held 0 (rounds whole_numbers history (new_room, quiet_server)).0
        ≤ (if ltb 0 1000 then 1 else 0))
    × (length (rounds whole_numbers history (new_room, quiet_server)).0.seq_ids
          + length (rounds whole_numbers history (new_room, quiet_server)).0.room_user
        ≤ 1000)
rounds-held_example = rounds-held whole_numbers history quiet_server 0

arrival_example :
    HasArrived whole_numbers 3 4 (at_ticks whole_numbers (150 ∷ 250 ∷ 350 ∷ []) walker)
arrival_example =
    arrival whole_numbers 150 (250 ∷ 350 ∷ []) walker refl
      (omega arith, (omega arith, (omega arith, tt))) (omega arith)

small_room-AllHeadInside : AllHeadInside whole_numbers 10 10 small_room.room_user
small_room-AllHeadInside = (
  (λ m. (
    record { finite = refl; not_below = refl; not_beyond = refl },
    record { finite = refl; not_below = refl; not_beyond = refl },
  )),
  ((λ m. cc), tt),
)

move-AllHeadInside_example :
    let room = move whole_numbers (some 8) 5 6 400 busy_server small_room in
    AllHeadInside whole_numbers room.max_x room.max_y room.room_user
move-AllHeadInside_example =
    move-AllHeadInside whole_numbers (some 8) 5 6 400 busy_server small_room
      small_room-AllHeadInside
