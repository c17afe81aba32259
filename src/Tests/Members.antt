-- ===== src/Tests/Members.antt =====
-- Session 7 enters a room where session 8 is, and leaves a room where both are
-- (jhshin_Server/jhshin_Server/Room.cpp).
use jhshin_server.Common.{ℕ, ◌≡◌, refl, false, [], ◌∷◌, none, some, if◌then◌else◌, ◌==◌, arith}
use jhshin_server.Common.Int.{negsuc}
use jhshin_server.Room.{Room}
use jhshin_server.Room.Enter.{enter}
use jhshin_server.Room.Enter.Joins.{Agrees, enter-Agrees}
use jhshin_server.Room.Leave.{leave}
use jhshin_server.Room.Leave.Told.{farewell, leave-Left}
use jhshin_server.Room.UserMap.{find, values}
use jhshin_server.Tests.Samples.{
  whole_numbers, ledger, quiet_server, busy_server, sitter, small_room,
}

abbrev one_user : Room ℕ
one_user = record small_room { room_user = (80, sitter) ∷ [] }

enter-Agrees_example :
    Agrees whole_numbers 7 70 one_user quiet_server
      (enter whole_numbers (some 7) one_user quiet_server)
unfolding find
enter-Agrees_example = enter-Agrees whole_numbers 7 one_user quiet_server refl refl

leave-Left_example :
    let (room, sv) = leave (some 7) small_room busy_server in
    ((j : ℕ) → find j room.room_user ≡ (if 70 == j then none else find j small_room.room_user))
    × (ledger.outbox sv.state
        ≡ farewell ledger 7
            (find 70 small_room.room_user)
            (values small_room.room_user)
            busy_server.state)
    × (ledger.closed sv.state ≡ 7 ∷ [])
    × ((sv.sessions 7).connected ≡ false)
    × ((sv.sessions 7).room_id ≡ negsuc 0)
leave-Left_example = leave-Left 7 small_room busy_server (omega arith, tt) refl
