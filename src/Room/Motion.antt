-- ===== src/Room/Motion.antt =====
-- `Room::Move` and `Room::MovePosition` of jhshin_Server/jhshin_Server/Room.cpp. The tick that
-- `GetTickCount64` returns is an argument.
pub mod Arrival
pub mod Bounds
use jhshin_server.Common.{
  ℕ, ◌+◌, ◌-◌, ◌%◌, ◌^◌, Bool, true, false, not, ◌&&◌, ◌||◌, Option, none, some, ltb, leb, ◌==◌,
  if◌then◌else◌,
}
use jhshin_server.Message.Float.{Float}
use jhshin_server.Room.{Room, RoomUser, Server}
use jhshin_server.Room.Outgoing.{Net}
use jhshin_server.Room.UserMap.{find, update}

-- `const float MoveSpeed = 1.0f`.
abbrev pub move_speed : ℕ
move_speed = 1

module _ (float : Float) where
  open float use {F, of_nat, add, sub, mul, div, sqrt, is_finite, lt, le, to_nat}

  -- `m_pos + ( m_destPos - m_pos ) * ratio`.
  abbrev pub lerp : F → F → F → F
  lerp pos dest ratio = add pos (mul (sub dest pos) ratio)

  -- `MovePosition` behind its first two tests, on the way.
  unfoldable pub move_on : ℕ → RoomUser F → RoomUser F
  move_on now u =
      let total = u.end_move_tick - u.start_move_tick in
      let ratio = div (of_nat ((now + 2 ^ 64 - u.start_move_tick) % 2 ^ 64)) (of_nat total) in
      if ltb u.end_move_tick u.start_move_tick
      then record u { is_move = false }
      else if total == 0
      then record u { is_move = false }
      else record u {
        pos_x = lerp u.pos_x u.dest_pos_x ratio;
        pos_y = lerp u.pos_y u.dest_pos_y ratio;
        start_move_tick = now;
      }

  unfoldable pub move_position : ℕ → RoomUser F → RoomUser F
  unfolding move_on
  move_position now u =
      if not u.is_move
      then u
      else if leb u.end_move_tick now
      then record u {
        pos_x = u.dest_pos_x;
        pos_y = u.dest_pos_y;
        start_move_tick = now;
        is_move = false;
      }
      else move_on now u

  -- The target passes the three tests at the top of `Move`.
  unfoldable pub is_target : F → ℕ → Bool
  is_target pos max = is_finite pos && not (lt pos (of_nat 0) || le (of_nat max) pos)

  -- `nowTick + ( dist / MoveSpeed ) * 1000`, a sum of `float`s.
  abbrev pub end_tick : ℕ → F → ℕ
  end_tick now dist = to_nat (add (of_nat now) (mul (div dist (of_nat move_speed)) (of_nat 1000)))

  -- `Move` from the call of `MovePosition` on, for the user that was found.
  unfoldable pub set_target : F → F → ℕ → RoomUser F → RoomUser F
  unfolding move_position
  set_target pos_x pos_y now user =
      let u = move_position now user in
      let dx = sub pos_x u.pos_x in
      let dy = sub pos_y u.pos_y in
      let dist = sqrt (add (mul dx dx) (mul dy dy)) in
      if le dist (of_nat 0) then u else record u {
        is_move = true;
        dest_pos_x = pos_x;
        dest_pos_y = pos_y;
        start_move_tick = now;
        end_move_tick = end_tick now dist;
      }

  module _ {net : Net} where
    -- `Move` for a session that is there.
    unfoldable pub move_session : ℕ → F → F → ℕ → Server net → Room F → Room F
    unfolding is_target set_target
    move_session s pos_x pos_y now sv room =
        if not (sv.sessions s).connected
        then room
        else if not (is_target pos_x room.max_x && is_target pos_y room.max_y)
        then room
        else record room {
          room_user = update (sv.sessions s).socket (set_target pos_x pos_y now) room.room_user;
        }

    unfoldable pub move : Option ℕ → F → F → ℕ → Server net → Room F → Room F
    unfolding move_session
    move none pos_x pos_y now sv room = room
    move (some s) pos_x pos_y now sv room = move_session s pos_x pos_y now sv room
