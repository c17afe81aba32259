-- ===== src/ServiceManager/Packets/Making.antt =====
-- `MakeSendPacket` from its first line to its last
-- (jhshin_Server/jhshin_Server/ServiceManager.cpp).
use jhshin_server.Common.{
  ℕ, ◌+◌, ◌<◌, ◌≡◌, refl, sym, subst, List, length, Option, none, some, ◌⊎◌, arith, inl, inr,
  Option-cases,
}
use jhshin_server.Packet.{packet_id_size}
use jhshin_server.SendBuffer.{chunk_size}
use jhshin_server.Packet.Wire.{encode}
use jhshin_server.ServiceManager.{
  Buffers, SendChunk, buffer_at, renew, copy_at, copy_new, retry, make_with, local_buffer,
  make_send_packet,
}
use jhshin_server.ServiceManager.Packets.{
  IsLocal, IsReady, bytes_in, LacksRoom, CopiedAt, copy_at-CopiedAt, FreeAreEmpty, Unchanged,
  copy_at-Unchanged,
}
use jhshin_server.ServiceManager.Packets.Renewal.{
  Renewed, renew-Renewed, EmptyAt, Fetched, renew-Fetched,
}

-- A packet with this body does not fit into an empty buffer.
abbrev pub IsTooBig : List ℕ → Type 0
IsTooBig body = chunk_size < packet_id_size + length body

-- What `MakeSendPacket` comes to: no buffer was free, or the packet is too big for any; or a chunk
-- that names the packet.
abbrev pub Made : Buffers → ℕ → List ℕ → Buffers × Option SendChunk → Type 0
Made before type body (st, none) = (before.pool.free_count ≡ 0) ⊎ IsTooBig body
Made before type body (st, some c) =
    IsReady st
    × (bytes_in c (buffer_at c.send_buffer st) ≡ encode (record { type = type; body = body }))

LacksRoom-IsTooBig :
    (a : ℕ) (st : Buffers) (body : List ℕ)
    → EmptyAt a st
    → LacksRoom body (buffer_at a st)
    → IsTooBig body
LacksRoom-IsTooBig a st body empty lacks = elim (Option-cases (buffer_at a st)) [
  | inl nothing ↦ absurd (subst (LacksRoom body) nothing lacks)
  | inr (sb, there) ↦
      let full = subst (LacksRoom body) there lacks in omega (arith, full, empty sb there)
]

-- An attempt with a buffer just fetched.
fresh-Made :
    (before : Buffers) (a type : ℕ) (body : List ℕ) (st : Buffers) (r : Buffers × Option SendChunk)
    → EmptyAt a st
    → CopiedAt a type body r
    → IsReady r.0
    → Unchanged st r
    → Made before type body r
fresh-Made before a type body st (st', none) empty lacks ready same =
    inr
      (LacksRoom-IsTooBig a st body empty (subst (λ s. LacksRoom body (buffer_at a s)) same lacks))
fresh-Made before a type body st (st', some c) empty holds ready same = (ready, holds)

copy_new-Made :
    (before : Buffers) (type : ℕ) (body : List ℕ) (st : Buffers) (r : Buffers × Option ℕ)
    → (st.pool.free_count ≡ 0 → (before.pool.free_count ≡ 0) ⊎ IsTooBig body)
    → Renewed st r
    → Fetched r
    → Made before type body (copy_new type body r)
unfolding copy_new
copy_new-Made before type body st (st', none) reason none_free fetched = reason none_free
copy_new-Made before type body st (st', some a) reason (ready, inside, at_hand, more) empty =
    let (copied, still, count, kept) = copy_at-CopiedAt a st' ready inside type body in
    fresh-Made before a type body st' (copy_at a type body st') empty copied still
      (copy_at-Unchanged a st' ready inside type body)

-- The first attempt was with the buffer that was at hand.
again-Made :
    (before : Buffers) (a type : ℕ) (body : List ℕ) (r : Buffers × Option SendChunk)
    → IsReady before
    → FreeAreEmpty before
    → CopiedAt a type body r
    → IsReady r.0
    → Unchanged before r
    → Made before type body (retry type body r)
unfolding retry
again-Made before a type body (st, none) ready empty copied still same =
    subst (λ s. Made before type body (copy_new type body (renew s))) (sym same)
      (copy_new-Made before type body before (renew before) (λ e. inl e)
        (renew-Renewed before ready) (renew-Fetched before ready empty))
again-Made before a type body (st, some c) ready empty copied still same = (still, copied)

-- The first attempt was with a buffer just fetched: if it fails the packet is too big.
big-Made :
    (before st : Buffers) (type : ℕ) (body : List ℕ) (r : Buffers × Option ℕ)
    → IsTooBig body
    → Renewed st r
    → Made before type body (copy_new type body r)
unfolding copy_new
big-Made before st type body (st', none) big renewed = inr big
big-Made before st type body (st', some a) big (ready, inside, at_hand, more) =
    let (copied, still, count, kept) = copy_at-CopiedAt a st' ready inside type body in
    either (copy_at a type body st') copied still
  where
    either :
        (r : Buffers × Option SendChunk)
        → CopiedAt a type body r
        → IsReady r.0
        → Made before type body r
    either (st'', none) copied still = inr big
    either (st'', some c) copied still = (still, copied)

first-Made :
    (before : Buffers) (a type : ℕ) (body : List ℕ) (st : Buffers) (r : Buffers × Option SendChunk)
    → EmptyAt a st
    → CopiedAt a type body r
    → IsReady r.0
    → Unchanged st r
    → Made before type body (retry type body r)
unfolding retry
first-Made before a type body st (st', none) empty lacks ready same =
    big-Made before st' type body (renew st')
      (LacksRoom-IsTooBig a st body empty (subst (λ s. LacksRoom body (buffer_at a s)) same lacks))
      (renew-Renewed st' ready)
first-Made before a type body st (st', some c) empty copied ready same = (ready, copied)

module _ (before : Buffers) (type : ℕ) (body : List ℕ) (ready : IsReady before)
    (empty : FreeAreEmpty before) where
  Fetched-Made :
      (r : Buffers × Option ℕ)
      → Renewed before r
      → Fetched r
      → Made before type body (make_with type body r)
  unfolding make_with
  Fetched-Made (st', none) none_free fetched = inl none_free
  Fetched-Made (st', some a) (ready', inside, at_hand, more) fetched =
      let (copied, still, count, kept) = copy_at-CopiedAt a st' ready' inside type body in
      first-Made before a type body st' (copy_at a type body st') fetched copied still
        (copy_at-Unchanged a st' ready' inside type body)

  make_with-Made :
      (local : Option ℕ)
      → before.local ≡ local
      → Made before type body (make_with type body (local_buffer local before))
  unfolding make_with local_buffer
  make_with-Made none e =
      Fetched-Made (renew before) (renew-Renewed before ready) (renew-Fetched before ready empty)
  make_with-Made (some a) e =
      let inside =
        subst (λ l. IsLocal l before.pool.base before.pool.max_size) e ready.local_there in
      let (copied, still, count, kept) = copy_at-CopiedAt a before ready inside type body in
      again-Made before a type body (copy_at a type body before) ready empty copied still
        (copy_at-Unchanged a before ready inside type body)

-- With a valid pool whose free buffers are empty, valid send buffers and `LSendBuffer` null or
-- one of the pool's, `MakeSendPacket` gives a chunk that names exactly the packet, with pool and
-- buffers still valid and `LSendBuffer` one of the pool's or null; or it gives none, and then no
-- buffer of the pool was free, or the packet is too big even for an empty buffer.
pub make_send_packet-Made :
    (type : ℕ) (body : List ℕ) (st : Buffers)
    → IsReady st
    → FreeAreEmpty st
    → Made st type body (make_send_packet type body st)
unfolding make_send_packet
make_send_packet-Made type body st ready empty =
    make_with-Made st type body ready empty st.local refl
