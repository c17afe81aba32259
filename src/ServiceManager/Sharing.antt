-- ===== src/ServiceManager/Sharing.antt =====
-- The send buffers that threads and sessions share
-- (jhshin_Server/jhshin_Server/ServiceManager.cpp): every thread has an `LSendBuffer` of its own,
-- and every copy of a `SendChunk` holds a `SendBufferRef`. A buffer is written to by the thread that
-- has it at hand alone, and the pool has its lock, so a call of `MakeSendPacket` is one step.
pub mod Counts
pub mod Copies
pub mod Renews
pub mod Safe
pub mod Untouched
use jhshin_server.Common.{
  ℕ, zero, suc, ◌+◌, ◌==◌, if◌then◌else◌, List, [], ◌∷◌, replicate, Option, none, some, get_elem?,
  set,
}
use jhshin_server.ObjectPool.{empty, init_object_pool}
use jhshin_server.Packet.Wire.{Frame, encode}
use jhshin_server.SendBuffer.{SendBuffer, reset}
use jhshin_server.ServiceManager.{Buffers, SendChunk, release, release_if, make_send_packet}

-- A copy of a chunk, with the bytes of the packet that it was made for, which the source does not
-- keep.
pub record Held : Type 0 where
  pub chunk : SendChunk
  pub packet : List ℕ

-- The `LSendBuffer` of each thread, and the copies of chunks that are held anywhere. Between two
-- calls the thread of `buffers` has none at hand.
pub record Shared : Type 0 where
  pub buffers : Buffers
  pub locals : List (Option ℕ)
  pub chunks : List Held

-- A thread calls `MakeSendPacket`; a chunk is copied, into the queue of a session or its send
-- object; a copy is destroyed; a thread ends. Threads and copies are named by their places.
pub data Event : Type 0 where
  makes : ℕ → ℕ → List ℕ → Event
  copies : ℕ → Event
  drops : ℕ → Event
  ends : ℕ → Event

-- What `MakeSendPacket` returns to a thread.
abbrev pub store : ℕ → List ℕ → Buffers × Option SendChunk → Shared → Shared
store thread packet (st, none) sh = record sh {
  buffers = record st { local = none };
  locals = set sh.locals thread st.local;
}
store thread packet (st, some c) sh = record sh {
  buffers = record st { local = none };
  locals = set sh.locals thread st.local;
  chunks = record { chunk = c; packet = packet } ∷ sh.chunks;
}

unfoldable pub make : ℕ → ℕ → List ℕ → Option (Option ℕ) → Shared → Shared
make thread type body none sh = sh
make thread type body (some local) sh =
    store thread (encode (record { type = type; body = body }))
      (make_send_packet type body (record sh.buffers { local = local })) sh

-- A copied `SendBufferRef` counts itself.
unfoldable pub copy : Option Held → Shared → Shared
copy none sh = sh
copy (some h) sh = record sh {
  buffers = record sh.buffers {
    refs = λ b. (if h.chunk.send_buffer == b then 1 else 0) + sh.buffers.refs b;
  };
  chunks = h ∷ sh.chunks;
}

abbrev pub remove : ℕ → List Held → List Held
remove i [] = []
remove zero (h ∷ hs) = hs
remove (suc i) (h ∷ hs) = h ∷ remove i hs

unfoldable pub drop : ℕ → Option Held → Shared → Shared
drop i none sh = sh
drop i (some h) sh = record sh {
  buffers = release h.chunk.send_buffer sh.buffers;
  chunks = remove i sh.chunks;
}

unfoldable pub end : ℕ → Option (Option ℕ) → Shared → Shared
end thread none sh = sh
end thread (some local) sh = record sh {
  buffers = release_if local sh.buffers;
  locals = set sh.locals thread none;
}

unfoldable pub step : Event → Shared → Shared
unfolding make copy drop end
step (makes thread type body) sh = make thread type body (get_elem? sh.locals thread) sh
step (copies i) sh = copy (get_elem? sh.chunks i) sh
step (drops i) sh = drop i (get_elem? sh.chunks i) sh
step (ends thread) sh = end thread (get_elem? sh.locals thread) sh

unfoldable pub run : List Event → Shared → Shared
unfolding step
run [] sh = sh
run (e ∷ es) sh = run es (step e sh)

-- A new object: all bytes are zero, as after `Reset`.
abbrev pub new_buffer : SendBuffer
new_buffer = reset (record { chunk = []; pointer = 0 })

-- `m_SendBuffer.InitObjectPool( n )` at an address, and so many threads.
abbrev pub initial : ℕ → ℕ → ℕ → Shared
initial base n threads = record {
  buffers = record { pool = init_object_pool base new_buffer n empty; refs = λ b. 0; local = none };
  locals = replicate threads none;
  chunks = [];
}
