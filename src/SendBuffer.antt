-- ===== src/SendBuffer.antt =====
-- `SendBuffer` of jhshin_Server/jhshin_Server/Buffer.h and Buffer.cpp: a block of memory that is
-- filled from the front with packets, which many sessions then share.
pub mod Laws
use jhshin_server.Common.{
  ℕ, ◌+◌, ◌*◌, Bool, true, false, List, ◌++◌, length, take, drop, replicate, Option, none, some,
  ltb, if◌then◌else◌,
}
use jhshin_server.Packet.{packet_size, packet_id_size, packet_id, put_packet_id}

-- `sizeof( m_chunk )`, which is `PACKET_SIZE * 10`.
abbrev pub chunk_size : ℕ
chunk_size = 40960

pub record SendBuffer : Type 0 where
  pub chunk : List ℕ
  pub pointer : ℕ

-- A new object, and `Reset`.
unfoldable pub reset : SendBuffer → SendBuffer
reset sb = record { chunk = replicate chunk_size 0; pointer = 0 }

-- `memcpy( &m_chunk[p], bytes, size )`.
abbrev pub memcpy : List ℕ → ℕ → List ℕ → List ℕ
memcpy mem p bytes = take p mem ++ (bytes ++ drop (p + length bytes) mem)

abbrev pub is_copy : SendBuffer → ℕ → Bool
is_copy sb size = if ltb chunk_size (sb.pointer + size) then false else true

-- `m_pointer` moves behind what was copied.
abbrev pub append : SendBuffer → List ℕ → SendBuffer
append sb bytes = record sb {
  chunk = memcpy sb.chunk sb.pointer bytes;
  pointer = sb.pointer + length bytes;
}

-- `CopyBuffer`: the header, then the body. `none` is `( -1, 0 )`, else where the packet stands and
-- its size.
unfoldable pub copy_buffer : ℕ → List ℕ → SendBuffer → SendBuffer × Option (ℕ × ℕ)
copy_buffer type copy_data sb =
    let header = put_packet_id (packet_id type (length copy_data)) in
    if is_copy sb (packet_id_size + length copy_data)
    then (append (append sb header) copy_data, some (sb.pointer, length copy_data + length header))
    else (sb, none)

-- The bytes that a `WSABUF` with `GetSendBuffer( pointer )` and a length names.
abbrev pub slice : SendBuffer → ℕ → ℕ → List ℕ
slice sb pointer size = take size (drop pointer sb.chunk)
