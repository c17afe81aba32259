-- ===== src/Message/Spawn.antt =====
-- `SpawnData` and `Server_Spawn` of jhshin_Server/jhshin_Server/PacketStruct.h: at most
-- `MaxSendSpawnCount` entries in an array, of which the first `m_count` are sent.
use jhshin_server.Common.{
  ℕ, ◌+◌, ◌*◌, ◌≤◌, ◌≡◌, refl, ◌∙◌, Bool, true, false, List, [], ◌∷◌, ◌++◌, Option, none, get_elem?,
  length, set, take, replicate, length-take, length-replicate, length-set, take-set, ltb,
  if◌then◌else◌, arith, Bool-cases, inl, inr,
}
use jhshin_server.Message.{put_u32}
use jhshin_server.Message.Float.{Float}

abbrev pub max_send_spawn_count : ℕ
max_send_spawn_count = 100

pub record SpawnData (F : Type 0) : Type 0 where
  pub seq_id : ℕ
  pub pos_x : F
  pub pos_y : F

-- The array is `entries`.
pub record ServerSpawn (F : Type 0) : Type 0 where
  pub count : ℕ
  pub entries : List (SpawnData F)

module _ (float : Float) where
  open float use {F, of_nat, bytes}

  abbrev null_entry : SpawnData F
  null_entry = record { seq_id = 0; pos_x = of_nat 0; pos_y = of_nat 0 }

  -- A new object, and `Clear`.
  unfoldable pub clear : ServerSpawn F
  clear = record { count = 0; entries = replicate max_send_spawn_count null_entry }

  -- `AddSpawnData`; the test is `0 <= m_count && m_count < MaxSendSpawnCount`.
  unfoldable pub add_spawn_data : SpawnData F → ServerSpawn F → ServerSpawn F × Bool
  add_spawn_data entry packet =
      if ltb packet.count max_send_spawn_count
      then (
        record packet { count = packet.count + 1; entries = set packet.entries packet.count entry },
        true,
      )
      else (packet, false)

  unfoldable pub get_spawn_data : ℕ → ServerSpawn F → Option (SpawnData F)
  get_spawn_data index packet =
      if ltb index packet.count then get_elem? packet.entries index else none

  -- `sizeof( m_count ) + ( sizeof( SpawnData ) * m_count )`.
  abbrev pub get_size : ServerSpawn F → ℕ
  get_size packet = 4 + 12 * packet.count

  abbrev pub entry_bytes : SpawnData F → List ℕ
  entry_bytes e = put_u32 e.seq_id ++ (bytes e.pos_x ++ bytes e.pos_y)

  abbrev pub all_bytes : List (SpawnData F) → List ℕ
  all_bytes [] = []
  all_bytes (e ∷ es) = entry_bytes e ++ all_bytes es

  -- The first `GetSize()` bytes of the structure.
  unfoldable pub packet_bytes : ServerSpawn F → List ℕ
  packet_bytes packet = put_u32 packet.count ++ all_bytes (take packet.count packet.entries)

  -- The entries that are sent.
  abbrev pub sent : ServerSpawn F → List (SpawnData F)
  sent packet = take packet.count packet.entries

  pub record IsValid (packet : ServerSpawn F) : Type 0 where
    pub capacity : length packet.entries ≡ max_send_spawn_count
    pub within : packet.count ≤ max_send_spawn_count

  pub clear-IsValid : IsValid clear
  unfolding clear
  clear-IsValid = record {
    capacity = length-replicate max_send_spawn_count null_entry;
    within = omega arith;
  }

  pub sent-clear : sent clear ≡ []
  unfolding clear
  sent-clear = refl

  -- `AddSpawnData` on a valid message keeps it valid; it refuses an entry exactly when the array
  -- is full, changing nothing of what is sent, and otherwise puts it behind the entries to send
  -- and counts it.
  pub add_spawn_data-sent :
      (entry : SpawnData F) (packet : ServerSpawn F)
      → IsValid packet
      → let (packet', added) = add_spawn_data entry packet in
        IsValid packet'
        × (added ≡ ltb packet.count max_send_spawn_count)
        × (sent packet' ≡ (if added then sent packet ++ entry ∷ [] else sent packet))
        × (packet'.count ≡ (if added then packet.count + 1 else packet.count))
  unfolding add_spawn_data
  add_spawn_data-sent entry packet v = elim (Bool-cases (ltb packet.count max_send_spawn_count)) [
    | inl t ↦ rw t (
      record {
        capacity = length-set packet.entries packet.count entry ∙ v.capacity;
        within = ground arith;
      },
      ground arith,
      take-set packet.entries packet.count entry (ground (arith, v.capacity)),
      refl,
    )
    | inr f ↦ rw f (v, ground (arith, v.within), refl, refl)
  ]

  -- Into an empty packet an entry always goes.
  pub add_spawn_data-clear :
      (entry : SpawnData F)
      → IsValid (add_spawn_data entry clear).0
        × (sent (add_spawn_data entry clear).0 ≡ entry ∷ [])
        × ((add_spawn_data entry clear).1 ≡ true)
  unfolding clear add_spawn_data
  add_spawn_data-clear entry = (
    record {
      capacity =
          length-set (replicate max_send_spawn_count null_entry) 0 entry
          ∙ length-replicate max_send_spawn_count null_entry;
      within = omega arith;
    },
    refl,
    refl,
  )

  pub length-sent : (packet : ServerSpawn F) → IsValid packet → length (sent packet) ≡ packet.count
  length-sent packet v =
      omega (arith, length-take packet.count packet.entries, v.capacity, v.within)
