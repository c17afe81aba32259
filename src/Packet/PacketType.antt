-- ===== src/Packet/PacketType.antt =====
-- The enumerators of `PacketType`, an `enum class : uint16`, of
-- jhshin_Server/jhshin_Server/PacketStruct.h. A value that came over the wire need not be one of them.
use jhshin_server.Common.{ℕ}

abbrev pub null : ℕ
null = 0

abbrev pub client_echo : ℕ
client_echo = 1

abbrev pub client_broadcast : ℕ
client_broadcast = 2

abbrev pub client_enter : ℕ
client_enter = 3

abbrev pub client_leave : ℕ
client_leave = 4

abbrev pub client_move : ℕ
client_move = 5

abbrev pub client_end : ℕ
client_end = 99

abbrev pub server_echo : ℕ
server_echo = 100

abbrev pub server_broadcast : ℕ
server_broadcast = 101

abbrev pub server_enter : ℕ
server_enter = 102

abbrev pub server_spawn : ℕ
server_spawn = 103

abbrev pub server_leave : ℕ
server_leave = 104

abbrev pub server_despawn : ℕ
server_despawn = 105

abbrev pub server_move : ℕ
server_move = 106

abbrev pub max : ℕ
max = 999
