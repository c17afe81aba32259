-- ===== src/Message.antt =====
-- The bodies of the server's packets, in jhshin_Server/jhshin_Server/PacketStruct.h (packed
-- structures on a little-endian machine).
pub mod Float
pub mod Spawn
pub mod MoveAck
pub mod Read
use jhshin_server.Common.{ℕ, ◌+◌, ◌-◌, ◌/◌, ◌%◌, ◌^◌, List, [], ◌∷◌, ◌++◌}
use jhshin_server.Common.Int.{ℤ, pos, negsuc}

-- The bytes of an `unsigned int`.
unfoldable pub put_u32 : ℕ → List ℕ
put_u32 n = n % 256 ∷ n / 256 % 256 ∷ n / 65536 % 256 ∷ n / 16777216 % 256 ∷ []

-- The bytes of an `int`, in two's complement.
unfoldable pub put_i32 : ℤ → List ℕ
unfolding put_u32
put_i32 (pos n) = put_u32 n
put_i32 (negsuc n) = put_u32 (2 ^ 32 - 1 - n)

-- `Server_Enter_Ack` with `Set( roomID, seqID )`.
pub record ServerEnterAck : Type 0 where
  pub room_id : ℤ
  pub seq_id : ℕ

unfoldable pub enter_ack_bytes : ServerEnterAck → List ℕ
unfolding put_u32 put_i32
enter_ack_bytes ack = put_i32 ack.room_id ++ put_u32 ack.seq_id

-- `Server_Leave`.
pub record ServerLeave : Type 0 where
  pub seq_id : ℕ

unfoldable pub leave_bytes : ServerLeave → List ℕ
unfolding put_u32
leave_bytes m = put_u32 m.seq_id
