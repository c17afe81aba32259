-- ===== src/ServiceManager.antt =====
-- `MakeSendPacket` and `GetSendBuffer` of jhshin_Server/jhshin_Server/ServiceManager.cpp, called by
-- one thread: the shared pointers to the send buffers of the pool are counted by address.
pub mod Monitor
pub mod Packets
pub mod Sessions
pub mod Sharing
use jhshin_server.Common.{
  ℕ, ◌+◌, ◌-◌, Bool, true, false, List, [], ◌∷◌, Option, none, some, get_elem?, ◌==◌, if◌then◌else◌,
}
use jhshin_server.ObjectPool.{ObjectPool, modify, pop, push}
use jhshin_server.SendBuffer.{SendBuffer, reset, copy_buffer, slice}

-- `refs` counts the `SendBufferRef`s to a buffer, `local` is `LSendBuffer`.
pub record Buffers : Type 0 where
  pub pool : ObjectPool SendBuffer
  pub refs : ℕ → ℕ
  pub local : Option ℕ

-- `SendChunk`: the buffer, where the packet stands in it, and its size.
pub record SendChunk : Type 0 where
  pub send_buffer : ℕ
  pub pointer : ℕ
  pub size : ℕ

-- The object at an address.
unfoldable pub buffer_at : ℕ → Buffers → Option SendBuffer
buffer_at a st = get_elem? st.pool.storage (a - st.pool.base)

unfoldable pub set_refs : ℕ → ℕ → Buffers → Buffers
set_refs a n st = record st { refs = λ b. if a == b then n else st.refs b }

-- A `SendBufferRef` ends; the deleter of the last one pushes the buffer into the pool.
unfoldable pub release : ℕ → Buffers → Buffers
unfolding set_refs
release a st =
    let left = st.refs a - 1 in
    let st' = set_refs a left st in
    if left == 0 then record st' { pool = (push reset a st.pool).0 } else st'

abbrev pub release_if : Option ℕ → Buffers → Buffers
release_if none st = st
release_if (some a) st = release a st

-- The first `SendBufferRef` of a buffer.
abbrev pub count_first : Option ℕ → Buffers → Buffers
count_first none st = st
count_first (some a) st = set_refs a 1 st

-- `GetSendBuffer`.
unfoldable pub get_send_buffer : Buffers → Buffers × Option ℕ
get_send_buffer st = let (p, a) = pop st.pool in (count_first a (record st { pool = p }), a)

-- `LSendBuffer = GetSendBuffer()`: what it pointed at is let go afterwards.
unfoldable pub renew : Buffers → Buffers × Option ℕ
unfolding get_send_buffer
renew st = let (st', a) = get_send_buffer st in (release_if st.local (record st' { local = a }), a)

-- `sendChunk.Set`, with the reference that the chunk holds.
abbrev pub set_chunk : ℕ → Option (ℕ × ℕ) → Buffers → Buffers × Option SendChunk
set_chunk a none st = (st, none)
set_chunk a (some (pointer, size)) st = (
  set_refs a (st.refs a + 1) st,
  some (record { send_buffer = a; pointer = pointer; size = size }),
)

-- `LSendBuffer->CopyBuffer`, on the buffer that was found.
unfoldable pub copy_found :
    ℕ → ℕ → List ℕ → Option SendBuffer → Buffers → Buffers × Option SendChunk
copy_found a type body none st = (st, none)
copy_found a type body (some sb) st =
    let (sb', place) = copy_buffer type body sb in
    set_chunk a place (record st {
      pool = record st.pool { storage = modify (λ old. sb') (a - st.pool.base) st.pool.storage };
    })

unfoldable pub copy_at : ℕ → ℕ → List ℕ → Buffers → Buffers × Option SendChunk
unfolding copy_found buffer_at
copy_at a type body st = copy_found a type body (buffer_at a st) st

-- With a new buffer, if there is one.
unfoldable pub copy_new : ℕ → List ℕ → Buffers × Option ℕ → Buffers × Option SendChunk
unfolding copy_at
copy_new type body (st, none) = (st, none)
copy_new type body (st, some a) = copy_at a type body st

-- What the first attempt came to.
unfoldable pub retry : ℕ → List ℕ → Buffers × Option SendChunk → Buffers × Option SendChunk
unfolding copy_new renew
retry type body (st, some c) = (st, some c)
retry type body (st, none) = copy_new type body (renew st)

-- `MakeSendPacket`, with `LSendBuffer` at hand.
unfoldable pub make_with : ℕ → List ℕ → Buffers × Option ℕ → Buffers × Option SendChunk
unfolding retry copy_at
make_with type body (st, none) = (st, none)
make_with type body (st, some a) = retry type body (copy_at a type body st)

-- `LSendBuffer`, fetched if there is none.
unfoldable pub local_buffer : Option ℕ → Buffers → Buffers × Option ℕ
unfolding renew
local_buffer none st = renew st
local_buffer (some a) st = (st, some a)

unfoldable pub make_send_packet : ℕ → List ℕ → Buffers → Buffers × Option SendChunk
unfolding make_with local_buffer
make_send_packet type body st = make_with type body (local_buffer st.local st)
