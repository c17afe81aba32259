-- ===== src/Packet.antt =====
-- The packet header: `PacketType` and `PacketID` of jhshin_Server/jhshin_Server/PacketStruct.h and
-- the sizes of RSDefine.h and Buffer.h. A byte is a number; the machine is little-endian.
pub mod Wire
pub mod Split
pub mod PacketType
use jhshin_server.Common.{
  ℕ, ◌+◌, ◌*◌, ◌/◌, ◌%◌, List, [], ◌∷◌, ◌++◌, get_or, length, take, drop, Option, none, some, leb,
  if◌then◌else◌, ◌&&◌,
}

-- `const int PACKET_SIZE`.
abbrev pub packet_size : ℕ
packet_size = 4096

-- `const uint16 PacketID_SIZE = sizeof( PacketID )`, packed.
abbrev pub packet_id_size : ℕ
packet_id_size = 4

abbrev pub u16_mod : ℕ
u16_mod = 65536

pub record PacketId : Type 0 where
  pub type : ℕ
  pub size : ℕ

-- The default constructor.
abbrev pub null_id : PacketId
null_id = record { type = PacketType.null; size = 0 }

-- `PacketID( PacketType type, uint16 size )`, called with an `int` for the size.
abbrev pub packet_id : ℕ → ℕ → PacketId
packet_id type size = record { type = type; size = size % u16_mod }

-- The bytes of a `uint16` in memory, and back.
unfoldable pub put_u16 : ℕ → List ℕ
put_u16 n = n % 256 ∷ n / 256 % 256 ∷ []

unfoldable pub get_u16 : List ℕ → ℕ → ℕ
get_u16 bytes i = get_or bytes i 0 + 256 * get_or bytes (i + 1) 0

-- The bytes of a `PacketID`, as `memcpy` takes them.
unfoldable pub put_packet_id : PacketId → List ℕ
unfolding put_u16
put_packet_id id = put_u16 id.type ++ put_u16 id.size

-- `*reinterpret_cast<PacketID*>( p )`, `p` at the front of `bytes`.
unfoldable pub get_packet_id : List ℕ → PacketId
unfolding get_u16
get_packet_id bytes = record { type = get_u16 bytes 0; size = get_u16 bytes 2 }
