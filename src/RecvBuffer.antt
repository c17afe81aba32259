-- ===== src/RecvBuffer.antt =====
-- `RecvBuffer` of jhshin_Server/jhshin_Server/Buffer.h and Buffer.cpp. The positions are `uint16`;
-- `int` sums are exact in the range that occurs.
pub mod Invariant
use jhshin_server.Common.{
  ℕ, ◌+◌, ◌-◌, ◌%◌, ◌^◌, Bool, true, false, ◌||◌, List, [], ◌∷◌, ◌++◌, length, take, drop,
  replicate, ltb, leb, ◌==◌, if◌then◌else◌,
}
use jhshin_server.Packet.{PacketId, null_id, packet_id_size, u16_mod, get_packet_id}

pub record RecvBuffer : Type 0 where
  pub buffer : List ℕ
  pub write_pos : ℕ
  pub read_pos : ℕ
  pub header : PacketId

-- The constructor.
abbrev pub empty : RecvBuffer
empty = record { buffer = []; write_pos = 0; read_pos = 0; header = null_id }

-- `m_buffer.resize( bufferSize, 0 )`: it cuts or pads, and touches no position.
unfoldable pub initialize : ℕ → RecvBuffer → RecvBuffer
initialize n rb = record rb { buffer = take n rb.buffer ++ replicate (n - length rb.buffer) 0 }

-- What `GetReadBuffer` points at: the bytes from `m_readPos` on.
abbrev pub get_read_buffer : RecvBuffer → List ℕ
get_read_buffer rb = drop rb.read_pos rb.buffer

-- What `GetReadData` points at: the bytes behind the header.
abbrev pub get_read_data : RecvBuffer → List ℕ
get_read_data rb = drop (rb.read_pos + packet_id_size) rb.buffer

-- The index that `GetWriteBuffer` points at.
abbrev pub get_write_buffer : RecvBuffer → ℕ
get_write_buffer rb = rb.write_pos

abbrev pub get_write_buffer_size : RecvBuffer → ℕ
get_write_buffer_size rb = (length rb.buffer % u16_mod + u16_mod - rb.write_pos) % u16_mod

abbrev pub get_buffer_size : RecvBuffer → ℕ
get_buffer_size rb = (rb.write_pos + u16_mod - rb.read_pos) % u16_mod

abbrev pub is_check_data : RecvBuffer → Bool
is_check_data rb = if rb.read_pos == rb.write_pos then false else true

-- `m_buffer.size() - PacketID_SIZE` is a `size_t`.
abbrev too_large : RecvBuffer → Bool
too_large rb = ltb ((length rb.buffer + 2 ^ 64 - packet_id_size) % 2 ^ 64) rb.header.size

-- The two branches of `Clear`: all to zero, or `memmove` of the unread bytes to the front.
abbrev reset_all : RecvBuffer → RecvBuffer
reset_all rb = record rb { read_pos = 0; write_pos = 0; header = null_id }

abbrev compact : RecvBuffer → RecvBuffer
compact rb =
    let n = get_buffer_size rb in
    record rb {
      buffer = take n (get_read_buffer rb) ++ drop n rb.buffer;
      write_pos = (rb.write_pos + u16_mod - rb.read_pos) % u16_mod;
      read_pos = 0;
    }

unfoldable pub clear : RecvBuffer → RecvBuffer
clear rb =
    if too_large rb then reset_all rb else if is_check_data rb then compact rb else reset_all rb

-- `m_writePos += transferbyte`, then the header is read when there is one.
unfoldable pub receive : ℕ → RecvBuffer → RecvBuffer
receive transfer rb =
    let grown = record rb { write_pos = (rb.write_pos + transfer) % u16_mod } in
    if leb packet_id_size (get_buffer_size grown)
    then record grown { header = get_packet_id (get_read_buffer grown) }
    else grown

-- More bytes are needed.
abbrev pub is_short : RecvBuffer → Bool
is_short rb =
    ltb (get_buffer_size rb) packet_id_size
    || ltb (get_buffer_size rb - packet_id_size) rb.header.size

-- `DivideBuffer`: is there a whole packet at the front?
unfoldable pub divide_buffer : ℕ → RecvBuffer → RecvBuffer × Bool
unfolding receive clear
divide_buffer transfer rb =
    let rb' = receive transfer rb in if is_short rb' then (clear rb', false) else (rb', true)

-- `SetReadPos`: give up the packet at the front.
unfoldable pub set_read_pos : ℕ → RecvBuffer → RecvBuffer
unfolding clear
set_read_pos n rb =
    if leb n 0 || ltb rb.write_pos (rb.read_pos + n)
    then rb
    else clear (record rb { read_pos = (rb.read_pos + n) % u16_mod })
