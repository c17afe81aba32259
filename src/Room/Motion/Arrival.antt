-- ===== src/Room/Motion/Arrival.antt =====
-- A user on the move (jhshin_Server/jhshin_Server/Room.cpp, `Room::MovePosition`) arrives, at
-- whatever moments its position is asked for.
use jhshin_server.Common.{ℕ, ◌≤◌, ◌<◌, ◌≡◌, ◌∙◌, true, false, List, [], ◌∷◌, arith, dec_le}
use jhshin_server.Message.Float.{Float}
use jhshin_server.Room.{RoomUser}
use jhshin_server.Room.Motion.{move_position}

module _ (float : Float) where
  open float use {F}

  -- `MovePosition` at each of some ticks.
  abbrev pub at_ticks : List ℕ → RoomUser F → RoomUser F
  at_ticks [] u = u
  at_ticks (t ∷ ts) u = at_ticks ts (move_position float t u)

  -- The clock does not run backwards, from a first tick on.
  abbrev pub Rising : ℕ → List ℕ → Type 0
  Rising from [] = Unit {0}
  Rising from (t ∷ ts) = (from ≤ t) × Rising t ts

  abbrev pub last : ℕ → List ℕ → ℕ
  last t [] = t
  last t (s ∷ ts) = last s ts

  -- What moves with no call of `Move`: only the position, the flag and the starting tick.
  pub move_position-keeps :
      (now : ℕ) (u : RoomUser F)
      → let v = move_position float now u in
        (v.session ≡ u.session)
        × (v.seq_id ≡ u.seq_id)
        × (v.dest_pos_x ≡ u.dest_pos_x)
        × (v.dest_pos_y ≡ u.dest_pos_y)
        × (v.end_move_tick ≡ u.end_move_tick)
        × (u.is_move ≡ false → v ≡ u)
  unfolding move_position
  move_position-keeps now u = ground arith

  -- Standing still at the destination.
  pub record HasArrived (dest_x dest_y : F) (u : RoomUser F) : Type 0 where
    pub stopped : u.is_move ≡ false
    pub at_x : u.pos_x ≡ dest_x
    pub at_y : u.pos_y ≡ dest_y

  arrived_stays :
      (ts : List ℕ) (x y : F) (u : RoomUser F) → HasArrived x y u → HasArrived x y (at_ticks ts u)
  arrived_stays [] x y u h = h
  arrived_stays (t ∷ ts) x y u h = arrived_stays ts x y (move_position float t u) step
    where
      step : HasArrived x y (move_position float t u)
      step = rw ((move_position-keeps t u).5 h.stopped) h

  move_position_end :
      (t : ℕ) (u : RoomUser F)
      → u.is_move ≡ true
      → u.end_move_tick ≤ t
      → HasArrived u.dest_pos_x u.dest_pos_y (move_position float t u)
  unfolding move_position
  move_position_end t u m h = ground arith

  move_position_way :
      (t : ℕ) (u : RoomUser F)
      → u.is_move ≡ true
      → u.start_move_tick ≤ t
      → t < u.end_move_tick
      → ((move_position float t u).is_move ≡ true) × ((move_position float t u).start_move_tick ≡ t)
  unfolding move_position
  move_position_way t u m h k = ground arith

  same_place :
      {x y x' y' : F} {u : RoomUser F} → HasArrived x y u → x ≡ x' → y ≡ y' → HasArrived x' y' u
  same_place h e f = record { stopped = h.stopped; at_x = h.at_x ∙ e; at_y = h.at_y ∙ f }

  -- Let a user be on the move and the ticks at which the position is computed rise from the
  -- starting tick. However many they are, if the last of them is not before the end of the move,
  -- the user then stands still exactly at the destination.
  pub arrival :
      (t : ℕ) (ts : List ℕ) (u : RoomUser F)
      → u.is_move ≡ true
      → Rising u.start_move_tick (t ∷ ts)
      → u.end_move_tick ≤ last t ts
      → HasArrived u.dest_pos_x u.dest_pos_y (at_ticks (t ∷ ts) u)
  arrival t [] u m rise h = move_position_end t u m h
  arrival t (s ∷ ts) u m rise h = elim (dec_le u.end_move_tick t) [
    | yes over ↦ arrived_stays (s ∷ ts) _ _ _ (move_position_end t u m over)
    | no way ↦
        let (m', started) = move_position_way t u m rise.0 (omega arith) in
        let kept = move_position-keeps t u in
        let later = arrival s ts (move_position float t u) m' (rw started rise.1) (rw kept.4 h) in
        same_place later kept.2 kept.3
  ]
