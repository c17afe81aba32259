-- ===== src/Room/UserMap.antt =====
-- `map<SOCKET, RoomUser>` of jhshin_Server/jhshin_Server/Room.h: the entries in the order of the
-- keys, which is the order in which the loops of Room.cpp visit them.
use jhshin_server.Common.{
  ℕ, ◌≤◌, ◌<◌, ◌≡◌, refl, Bool, true, false, List, [], ◌∷◌, Option, none, some, ltb, ◌==◌,
  if◌then◌else◌, arith,
}

abbrev pub SocketMap : Type 0 → Type 0
SocketMap V = List (ℕ × V)

module _ {V : Type 0} where
  -- `find`.
  unfoldable pub find : ℕ → SocketMap V → Option V
  find k [] = none
  find k ((j, v) ∷ m) = if j == k then some v else find k m

  -- `insert`, whose `second` says whether the key was new; an entry that is there stays.
  unfoldable pub insert : ℕ → V → SocketMap V → SocketMap V
  insert k v [] = (k, v) ∷ []
  insert k v ((j, w) ∷ m) =
      if ltb k j then (k, v) ∷ (j, w) ∷ m else if j == k then (j, w) ∷ m else (j, w) ∷ insert k v m

  unfoldable pub is_new : ℕ → SocketMap V → Bool
  unfolding find
  is_new k m = elim (find k m) [ none ↦ true | some v ↦ false ]

  unfoldable pub erase : ℕ → SocketMap V → SocketMap V
  erase k [] = []
  erase k ((j, v) ∷ m) = if j == k then m else (j, v) ∷ erase k m

  -- A write through the reference that `find` gives.
  unfoldable pub update : ℕ → (V → V) → SocketMap V → SocketMap V
  update k f [] = []
  update k f ((j, v) ∷ m) = if j == k then (j, f v) ∷ m else (j, v) ∷ update k f m

  abbrev pub values : SocketMap V → List V
  values [] = []
  values ((k, v) ∷ m) = v ∷ values m

  -- The keys rise, above a bound.
  abbrev pub Above : ℕ → SocketMap V → Type 0
  Above k [] = Unit {0}
  Above k ((j, v) ∷ m) = (k < j) × Above j m

  abbrev pub IsSorted : SocketMap V → Type 0
  IsSorted [] = Unit {0}
  IsSorted ((k, v) ∷ m) = Above k m

  Above-mono : (i k : ℕ) (m : SocketMap V) → i ≤ k → Above k m → Above i m
  Above-mono i k [] h a = tt
  Above-mono i k ((j, v) ∷ m) h a = (omega arith, a.1)

  insert-Above : (i k : ℕ) (v : V) (m : SocketMap V) → i < k → Above i m → Above i (insert k v m)
  unfolding insert
  insert-Above i k v [] h a = (h, tt)
  insert-Above i k v ((j, w) ∷ m) h a = ground (arith, insert-Above j k v m)

  pub insert-IsSorted : (k : ℕ) (v : V) (m : SocketMap V) → IsSorted m → IsSorted (insert k v m)
  unfolding insert
  insert-IsSorted k v [] s = tt
  insert-IsSorted k v ((j, w) ∷ m) s = ground (arith, insert-Above j k v m)

  erase-Above : (i k : ℕ) (m : SocketMap V) → Above i m → Above i (erase k m)
  unfolding erase
  erase-Above i k [] a = tt
  erase-Above i k ((j, v) ∷ m) a = ground (arith, erase-Above j k m, Above-mono i j m)

  pub erase-IsSorted : (k : ℕ) (m : SocketMap V) → IsSorted m → IsSorted (erase k m)
  unfolding erase
  erase-IsSorted k [] s = tt
  erase-IsSorted k ((j, v) ∷ []) s = ground arith
  erase-IsSorted k ((j, v) ∷ (i, w) ∷ m) s = ground (arith, erase-Above j k ((i, w) ∷ m))

  find-Above : (k i : ℕ) (m : SocketMap V) → Above i m → k ≤ i → find k m ≡ none
  unfolding find
  find-Above k i [] a h = refl
  find-Above k i ((j, v) ∷ m) a h = ground (arith, find-Above k j m)

  -- A new key is found afterwards, and every other key as before.
  pub find-insert :
      (k j : ℕ) (v : V) (m : SocketMap V)
      → find k m ≡ none
      → find j (insert k v m) ≡ (if k == j then some v else find j m)
  unfolding find insert
  find-insert k j v [] h = ground arith
  find-insert k j v ((i, w) ∷ m) h = ground (arith, find-insert k j v m)

  Above-IsSorted : (k : ℕ) (m : SocketMap V) → Above k m → IsSorted m
  Above-IsSorted k [] a = tt
  Above-IsSorted k ((j, v) ∷ m) a = a.1

  -- An erased key is not found, and every other key as before.
  pub find-erase :
      (k j : ℕ) (m : SocketMap V)
      → IsSorted m
      → find j (erase k m) ≡ (if k == j then none else find j m)
  unfolding find erase
  find-erase k j [] s = ground arith
  find-erase k j ((i, v) ∷ m) s =
      ground (arith, find-erase k j m (Above-IsSorted i m s), find-Above k i m s)

  update-Above : (i k : ℕ) (f : V → V) (m : SocketMap V) → Above i m → Above i (update k f m)
  unfolding update
  update-Above i k f [] a = tt
  update-Above i k f ((j, v) ∷ m) a = ground (arith, update-Above j k f m)

  pub update-IsSorted : (k : ℕ) (f : V → V) (m : SocketMap V) → IsSorted m → IsSorted (update k f m)
  unfolding update
  update-IsSorted k f [] s = tt
  update-IsSorted k f ((j, v) ∷ m) s = ground (arith, update-Above j k f m)

  pub is_new-find : (k : ℕ) (m : SocketMap V) → is_new k m ≡ true → find k m ≡ none
  unfolding is_new
  is_new-find k m h = ground arith
