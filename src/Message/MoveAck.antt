-- ===== src/Message/MoveAck.antt =====
-- `MoveData` and `Server_Move_Ack` of jhshin_Server/jhshin_Server/PacketStruct.h: at most
-- `MaxSendMoveCount` entries in an array, of which the first `m_count` are sent.
use jhshin_server.Common.{
  ℕ, ◌+◌, ◌*◌, ◌≤◌, ◌≡◌, refl, ◌∙◌, Bool, true, false, List, [], ◌∷◌, ◌++◌, Option, none, get_elem?,
  length, set, take, replicate, length-take, length-replicate, length-set, take-set, ltb, leb,
  if◌then◌else◌, arith, Bool-cases, inl, inr,
}
use jhshin_server.Message.{put_u32}
use jhshin_server.Message.Float.{Float}

abbrev pub max_send_move_count : ℕ
max_send_move_count = 100

pub record MoveData (F : Type 0) : Type 0 where
  pub seq_id : ℕ
  pub pos_x : F
  pub pos_y : F

-- The array is `entries`.
pub record ServerMoveAck (F : Type 0) : Type 0 where
  pub count : ℕ
  pub entries : List (MoveData F)

module _ (float : Float) where
  open float use {F, of_nat, bytes}

  abbrev null_entry : MoveData F
  null_entry = record { seq_id = 0; pos_x = of_nat 0; pos_y = of_nat 0 }

  -- A new object, and `Clear`.
  unfoldable pub clear : ServerMoveAck F
  clear = record { count = 0; entries = replicate max_send_move_count null_entry }

  -- `AddMoveData`; the test is `m_count >= MaxSendMoveCount`.
  unfoldable pub add_move_data : MoveData F → ServerMoveAck F → ServerMoveAck F × Bool
  add_move_data entry packet = if leb max_send_move_count packet.count then (packet, false) else (
    record packet { count = packet.count + 1; entries = set packet.entries packet.count entry },
    true,
  )

  unfoldable pub get_move_data : ℕ → ServerMoveAck F → Option (MoveData F)
  get_move_data index packet =
      if ltb index packet.count then get_elem? packet.entries index else none

  -- `sizeof( m_count ) + ( sizeof( MoveData ) * m_count )`.
  abbrev pub get_size : ServerMoveAck F → ℕ
  get_size packet = 4 + 12 * packet.count

  abbrev pub entry_bytes : MoveData F → List ℕ
  entry_bytes e = put_u32 e.seq_id ++ (bytes e.pos_x ++ bytes e.pos_y)

  abbrev pub all_bytes : List (MoveData F) → List ℕ
  all_bytes [] = []
  all_bytes (e ∷ es) = entry_bytes e ++ all_bytes es

  -- The first `GetSize()` bytes of the structure.
  unfoldable pub packet_bytes : ServerMoveAck F → List ℕ
  packet_bytes packet = put_u32 packet.count ++ all_bytes (take packet.count packet.entries)

  -- The entries that are sent.
  abbrev pub sent : ServerMoveAck F → List (MoveData F)
  sent packet = take packet.count packet.entries

  pub record IsValid (packet : ServerMoveAck F) : Type 0 where
    pub capacity : length packet.entries ≡ max_send_move_count
    pub within : packet.count ≤ max_send_move_count

  pub clear-IsValid : IsValid clear
  unfolding clear
  clear-IsValid = record {
    capacity = length-replicate max_send_move_count null_entry;
    within = omega arith;
  }

  pub sent-clear : sent clear ≡ []
  unfolding clear
  sent-clear = refl

  -- `AddMoveData` on a valid message keeps it valid; it refuses an entry exactly when the array
  -- is full, changing nothing of what is sent, and otherwise puts it behind the entries to send
  -- and counts it.
  pub add_move_data-sent :
      (entry : MoveData F) (packet : ServerMoveAck F)
      → IsValid packet
      → let (packet', added) = add_move_data entry packet in
        IsValid packet'
        × (added ≡ ltb packet.count max_send_move_count)
        × (sent packet' ≡ (if added then sent packet ++ entry ∷ [] else sent packet))
        × (packet'.count ≡ (if added then packet.count + 1 else packet.count))
  unfolding add_move_data
  add_move_data-sent entry packet v = elim (Bool-cases (leb max_send_move_count packet.count)) [
    | inl t ↦ rw t (v, ground (arith, v.within), refl, refl)
    | inr f ↦ rw f (
      record {
        capacity = length-set packet.entries packet.count entry ∙ v.capacity;
        within = ground arith;
      },
      ground arith,
      take-set packet.entries packet.count entry (ground (arith, v.capacity)),
      refl,
    )
  ]

  -- Into an empty packet an entry always goes.
  pub add_move_data-clear :
      (entry : MoveData F)
      → IsValid (add_move_data entry clear).0
        × (sent (add_move_data entry clear).0 ≡ entry ∷ [])
        × ((add_move_data entry clear).1 ≡ true)
  unfolding clear add_move_data
  add_move_data-clear entry = (
    record {
      capacity =
          length-set (replicate max_send_move_count null_entry) 0 entry
          ∙ length-replicate max_send_move_count null_entry;
      within = omega arith;
    },
    refl,
    refl,
  )

  pub length-sent :
      (packet : ServerMoveAck F) → IsValid packet → length (sent packet) ≡ packet.count
  length-sent packet v =
      omega (arith, length-take packet.count packet.entries, v.capacity, v.within)
