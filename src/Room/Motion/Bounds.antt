-- ===== src/Room/Motion/Bounds.antt =====
-- What `Room::Move` (jhshin_Server/jhshin_Server/Room.cpp) lets through.
use jhshin_server.Common.{
  ℕ, ◌≡◌, inl, inr, true, false, ◌&&◌, [], ◌∷◌, Option, none, some, ◌==◌, arith, Bool-cases,
}
use jhshin_server.Message.Float.{Float}
use jhshin_server.Room.{Room, RoomUser, Server}
use jhshin_server.Room.Outgoing.{Net}
use jhshin_server.Room.UserMap.{SocketMap, update}
use jhshin_server.Room.Motion.{is_target, move_position, set_target, move_session, move}

module _ (float : Float) where
  open float use {F, of_nat, is_finite, lt, le}

  -- What the tests are there for: a finite number in `[0, max)`.
  pub record IsInside (pos : F) (max : ℕ) : Type 0 where
    pub finite : is_finite pos ≡ true
    pub not_below : lt pos (of_nat 0) ≡ false
    pub not_beyond : le (of_nat max) pos ≡ false

  is_target-IsInside : (pos : F) (max : ℕ) → is_target float pos max ≡ true → IsInside pos max
  unfolding is_target
  is_target-IsInside pos max h = ground arith

  -- Where a user heads for, or has arrived at, lies in the room.
  abbrev pub HeadsInside : ℕ → ℕ → RoomUser F → Type 0
  HeadsInside max_x max_y u =
      u.is_move ≡ true → IsInside u.dest_pos_x max_x × IsInside u.dest_pos_y max_y

  abbrev pub AllHeadInside : ℕ → ℕ → SocketMap (RoomUser F) → Type 0
  AllHeadInside max_x max_y [] = Unit {0}
  AllHeadInside max_x max_y ((k, u) ∷ m) = HeadsInside max_x max_y u × AllHeadInside max_x max_y m

  pub move_position-HeadsInside :
      (max_x max_y now : ℕ) (u : RoomUser F)
      → HeadsInside max_x max_y u
      → HeadsInside max_x max_y (move_position float now u)
  unfolding move_position
  move_position-HeadsInside max_x max_y now u h = ground arith

  set_target-HeadsInside :
      (max_x max_y now : ℕ) (x y : F) (u : RoomUser F)
      → IsInside x max_x
      → IsInside y max_y
      → HeadsInside max_x max_y u
      → HeadsInside max_x max_y (set_target float x y now u)
  unfolding set_target
  set_target-HeadsInside max_x max_y now x y u hx hy h = ground arith

  update-AllHeadInside :
      (max_x max_y k : ℕ) (f : RoomUser F → RoomUser F) (m : SocketMap (RoomUser F))
      → ((u : RoomUser F) → HeadsInside max_x max_y u → HeadsInside max_x max_y (f u))
      → AllHeadInside max_x max_y m
      → AllHeadInside max_x max_y (update k f m)
  unfolding update
  update-AllHeadInside max_x max_y k f [] keep h = tt
  update-AllHeadInside max_x max_y k f ((j, u) ∷ m) keep h = elim (Bool-cases (j == k)) [
    | inl hit ↦ rw hit (keep u h.0, h.1)
    | inr miss ↦ rw miss (h.0, update-AllHeadInside max_x max_y k f m keep h.1)
  ]

  module _ {net : Net} where
    -- If every user of a room who moves heads for a finite place inside it, this is so after
    -- `Move` with any two numbers, NaN and infinities included, from any session.
    pub move-AllHeadInside :
        (session : Option ℕ) (x y : F) (now : ℕ) (sv : Server net) (room : Room F)
        → AllHeadInside room.max_x room.max_y room.room_user
        → let room' = move float session x y now sv room in
          AllHeadInside room'.max_x room'.max_y room'.room_user
    unfolding move move_session
    move-AllHeadInside none x y now sv room h = h
    move-AllHeadInside (some s) x y now sv room h = elim (Bool-cases (sv.sessions s).connected) [
      | inr off ↦ rw off h
      | inl on ↦
          rw on (elim (Bool-cases (is_target float x room.max_x && is_target float y room.max_y)) [
            | inr outside ↦ rw outside h
            | inl inside ↦ rw inside (
                update-AllHeadInside room.max_x room.max_y (sv.sessions s).socket _ room.room_user
                  (λ u.
                    set_target-HeadsInside room.max_x room.max_y now x y u
                      (is_target-IsInside x room.max_x (ground arith))
                      (is_target-IsInside y room.max_y (ground arith)))
                  h)
          ])
    ]
