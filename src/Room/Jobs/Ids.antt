-- ===== src/Room/Jobs/Ids.antt =====
-- The object ids of a room (`m_seqIDs` and the users' `m_seqID`), through every job
-- (jhshin_Server/jhshin_Server/Room.cpp).
mod Steps
pub mod History
use jhshin_server.Common.{
  ℕ, zero, suc, ◌+◌, ◌≤◌, ◌<◌, ◌≡◌, refl, sym, ap, ◌∙◌, Bool, true, false, List, [], ◌∷◌, ◌++◌,
  length, length-append, Option, none, some, ◌==◌, ltb, if◌then◌else◌, arith, Bool-cases, inl, inr,
}
use jhshin_server.Room.{Room, RoomUser, first_seq_ids, new_room, max_room_user_count}
use jhshin_server.Room.UserMap.{SocketMap, find, insert, erase, update, values, IsSorted}

abbrev pub count : ℕ → List ℕ → ℕ
count a [] = 0
count a (x ∷ xs) = (if x == a then 1 else 0) + count a xs

module _ {F : Type 0} where
  -- The ids of the users.
  abbrev pub ids : SocketMap (RoomUser F) → List ℕ
  ids [] = []
  ids ((k, u) ∷ m) = u.seq_id ∷ ids m

  -- How often the room has an id, in the queue and among the users.
  abbrev pub held : ℕ → Room F → ℕ
  held i room = count i room.seq_ids + count i (ids room.room_user)

  -- From one room to another no user and no id comes from nowhere.
  pub record Kept (room room' : Room F) : Type 0 where
    pub sorted : IsSorted room.room_user → IsSorted room'.room_user
    pub held_le : (i : ℕ) → held i room' ≤ held i room
    pub size_le :
        length room'.seq_ids + length room'.room_user ≤ length room.seq_ids + length room.room_user

  pub Kept-refl : (room : Room F) → Kept room room
  Kept-refl room = record { sorted = λ s. s; held_le = λ i. omega arith; size_le = omega arith }

  pub Kept-trans : {r s t : Room F} → Kept r s → Kept s t → Kept r t
  Kept-trans k l = record {
    sorted = λ h. l.sorted (k.sorted h);
    held_le = λ i. omega (arith, k.held_le i, l.held_le i);
    size_le = omega (arith, k.size_le, l.size_le);
  }

pub count-append : (i : ℕ) (xs ys : List ℕ) → count i (xs ++ ys) ≡ count i xs + count i ys
count-append i [] ys = omega arith
count-append i (x ∷ xs) ys = omega (arith, count-append i xs ys)

module _ {F : Type 0} where
  pub ids-insert :
      (i k : ℕ) (u : RoomUser F) (m : SocketMap (RoomUser F))
      → find k m ≡ none
      → count i (ids (insert k u m)) ≡ (if u.seq_id == i then 1 else 0) + count i (ids m)
  unfolding find insert
  ids-insert i k u [] h = refl
  ids-insert i k u ((j, w) ∷ m) h = ground (arith, ids-insert i k u m)

  pub length-insert :
      (k : ℕ) (u : RoomUser F) (m : SocketMap (RoomUser F)) → length (insert k u m) ≤ suc (length m)
  unfolding insert
  length-insert k u [] = omega arith
  length-insert k u ((j, w) ∷ m) = ground (arith, length-insert k u m)

  -- Erasing a user that is there takes exactly its id.
  pub ids-erase :
      (i k : ℕ) (u : RoomUser F) (m : SocketMap (RoomUser F))
      → find k m ≡ some u
      → (count i (ids (erase k m)) + (if u.seq_id == i then 1 else 0) ≡ count i (ids m))
        × (suc (length (erase k m)) ≡ length m)
  unfolding find erase
  ids-erase i k u [] h = cc
  ids-erase i k u ((j, w) ∷ m) h = ground (arith, ids-erase i k u m)

  pub ids-update :
      (k : ℕ) (f : RoomUser F → RoomUser F) (m : SocketMap (RoomUser F))
      → ((u : RoomUser F) → (f u).seq_id ≡ u.seq_id)
      → (ids (update k f m) ≡ ids m) × (length (update k f m) ≡ length m)
  unfolding update
  ids-update k f [] h = (refl, refl)
  ids-update k f ((j, u) ∷ m) h = ground (arith, h u, ids-update k f m h)
