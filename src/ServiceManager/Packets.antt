-- ===== src/ServiceManager/Packets.antt =====
-- What a chunk of `MakeSendPacket` (jhshin_Server/jhshin_Server/ServiceManager.cpp) holds.
pub mod Renewal
pub mod Making
use jhshin_server.Common.{
  ℕ, zero, suc, ◌+◌, ◌-◌, ◌<◌, ◌≤◌, ◌≡◌, refl, sym, ap, subst, ◌∙◌, Bool, true, false, List, [],
  ◌∷◌, ◌++◌, length, Option, none, some, get_elem?, get_or, ◌==◌, leb, ltb, ◌&&◌, ◌⊎◌,
  if◌then◌else◌, arith, Bool-cases, inl, inr,
}
use jhshin_server.ObjectPool.{ObjectPool, in_storage, modify, pop, push}
use jhshin_server.ObjectPool.Invariant
use jhshin_server.ObjectPool.Invariant.{length-modify, lent}
use jhshin_server.ObjectPool.Calls.{Popped, pop-Popped, push-IsValid, push_in_use, push_refused}
use jhshin_server.Packet.{packet_id_size}
use jhshin_server.Packet.Wire.{Frame, encode}
use jhshin_server.SendBuffer.{SendBuffer, chunk_size, reset, copy_buffer, slice}
use jhshin_server.SendBuffer.Laws
use jhshin_server.SendBuffer.Laws.{Copied, copy_buffer-Copied, reset-IsValid}
use jhshin_server.ServiceManager.{
  Buffers, SendChunk, buffer_at, set_refs, release, release_if, count_first, get_send_buffer, renew,
  set_chunk, copy_found, copy_at, copy_new, retry, make_with, local_buffer, make_send_packet,
}

abbrev pub AllValid : List SendBuffer → Type 0
AllValid [] = Unit {0}
AllValid (sb ∷ sbs) = Laws.IsValid sb × AllValid sbs

-- The address is one of the pool's, which has `max_size` objects from `base` on.
abbrev pub IsLocal : Option ℕ → ℕ → ℕ → Type 0
IsLocal none base max_size = Unit {0}
IsLocal (some a) base max_size = leb base a && ltb (a - base) max_size ≡ true

pub record IsReady (st : Buffers) : Type 0 where
  pub pool_valid : Invariant.IsValid st.pool
  pub buffers_valid : AllValid st.pool.storage
  pub local_there : IsLocal st.local st.pool.base st.pool.max_size

-- The bytes that a chunk names.
abbrev pub bytes_in : SendChunk → Option SendBuffer → List ℕ
bytes_in c none = []
bytes_in c (some sb) = slice sb c.pointer c.size

-- The buffer at an address has no room for a body.
abbrev pub LacksRoom : List ℕ → Option SendBuffer → Type 0
LacksRoom body none = ⊥
LacksRoom body (some sb) = chunk_size < sb.pointer + packet_id_size + length body

-- What copying into a buffer comes to: a chunk with the packet, or no room.
abbrev pub CopiedAt : ℕ → ℕ → List ℕ → Buffers × Option SendChunk → Type 0
CopiedAt a type body (st, none) = LacksRoom body (buffer_at a st)
CopiedAt a type body (st, some c) =
    bytes_in c (buffer_at c.send_buffer st) ≡ encode (record { type = type; body = body })

pub AllValid-modify :
    (f : SendBuffer → SendBuffer) (i : ℕ) (sbs : List SendBuffer)
    → ((sb : SendBuffer) → Laws.IsValid sb → Laws.IsValid (f sb))
    → AllValid sbs
    → AllValid (modify f i sbs)
AllValid-modify f i [] keep v = tt
AllValid-modify f zero (sb ∷ sbs) keep v = (keep sb v.0, v.1)
AllValid-modify f (suc i) (sb ∷ sbs) keep v = (v.0, AllValid-modify f i sbs keep v.1)

pub get_elem?-modify :
    (sb : SendBuffer) (i : ℕ) (sbs : List SendBuffer)
    → i < length sbs
    → get_elem? (modify (λ old. sb) i sbs) i ≡ some sb
get_elem?-modify sb i [] h = absurd (omega arith)
get_elem?-modify sb zero (x ∷ sbs) h = refl
get_elem?-modify sb (suc i) (x ∷ sbs) h = get_elem?-modify sb i sbs (omega arith)

pub get_elem?-IsValid :
    (i : ℕ) (sbs : List SendBuffer) (sb : SendBuffer)
    → AllValid sbs
    → get_elem? sbs i ≡ some sb
    → Laws.IsValid sb
get_elem?-IsValid i [] sb v e = cc
get_elem?-IsValid zero (x ∷ sbs) sb v e = subst Laws.IsValid (some_eq e) v.0
  where
    some_eq : some x ≡ some sb → x ≡ sb
    some_eq e = cc
get_elem?-IsValid (suc i) (x ∷ sbs) sb v e = get_elem?-IsValid i sbs sb v.1 e

pub get_elem?-none : (i : ℕ) (sbs : List SendBuffer) → get_elem? sbs i ≡ none → i < length sbs → ⊥
get_elem?-none i [] e h = omega arith
get_elem?-none zero (x ∷ sbs) e h = cc
get_elem?-none (suc i) (x ∷ sbs) e h = get_elem?-none i sbs e (omega arith)

-- Every buffer that is free is empty.
abbrev pub FreeAreEmpty : Buffers → Type 0
FreeAreEmpty st =
    (i : ℕ) (sb : SendBuffer)
    → get_elem? st.pool.storage i ≡ some sb
    → get_or st.pool.is_use i false ≡ false
    → sb.pointer ≡ 0

modify_same :
    (sb : SendBuffer) (i : ℕ) (sbs : List SendBuffer)
    → get_elem? sbs i ≡ some sb
    → modify (λ old. sb) i sbs ≡ sbs
modify_same sb i [] e = refl
modify_same sb zero (x ∷ sbs) e = ap (λ y. y ∷ sbs) same
  where
    same : sb ≡ x
    same = cc
modify_same sb (suc i) (x ∷ sbs) e = ap (◌∷◌ x) (modify_same sb i sbs e)

-- A failure has changed nothing.
abbrev pub Unchanged : Buffers → Buffers × Option SendChunk → Type 0
Unchanged before (st, none) = st ≡ before
Unchanged before (st, some c) = Unit {0}

module _ (a : ℕ) (st : Buffers) (ready : IsReady st) (inside : in_storage st.pool a ≡ true) where
  at_storage : a - st.pool.base < length st.pool.storage
  at_storage = ground (arith, ready.pool_valid.objects)

  abbrev stored : SendBuffer → Buffers
  stored sb = record st {
    pool = record st.pool { storage = modify (λ old. sb) (a - st.pool.base) st.pool.storage };
  }

  stored-IsReady : (sb : SendBuffer) → Laws.IsValid sb → IsReady (stored sb)
  stored-IsReady sb v = record {
    pool_valid = record {
      flags = ready.pool_valid.flags;
      objects =
          length-modify (λ old. sb) (a - st.pool.base) st.pool.storage ∙ ready.pool_valid.objects;
      counted = ready.pool_valid.counted;
      balance = ready.pool_valid.balance;
      in_range = ready.pool_valid.in_range;
      free_once = ready.pool_valid.free_once;
    };
    buffers_valid =
        AllValid-modify (λ old. sb) (a - st.pool.base) st.pool.storage (λ old w. v)
          ready.buffers_valid;
    local_there = ready.local_there;
  }

  buffer_at-stored : (sb : SendBuffer) → buffer_at a (stored sb) ≡ some sb
  unfolding buffer_at
  buffer_at-stored sb = get_elem?-modify sb (a - st.pool.base) st.pool.storage at_storage

  set_chunk-CopiedAt :
      (type : ℕ) (body : List ℕ) (sb : SendBuffer) (r : SendBuffer × Option (ℕ × ℕ))
      → Copied type body sb r
      → CopiedAt a type body (set_chunk a r.1 (stored r.0))
  unfolding set_refs buffer_at
  set_chunk-CopiedAt type body sb (sb', none) (same, full) =
      rw (buffer_at-stored sb') (rw same full)
  set_chunk-CopiedAt type body sb (sb', some (pointer, size)) (v, place, u, holds) =
      ap (bytes_in (record { send_buffer = a; pointer = pointer; size = size }))
        (buffer_at-stored sb')
      ∙ holds

  copy_found-CopiedAt :
      (type : ℕ) (body : List ℕ) (o : Option SendBuffer)
      → buffer_at a st ≡ o
      → CopiedAt a type body (copy_found a type body o st)
        × IsReady (copy_found a type body o st).0
        × ((copy_found a type body o st).0.pool.free_count ≡ st.pool.free_count)
        × ((copy_found a type body o st).0.local ≡ st.local)
  unfolding copy_found buffer_at set_refs
  copy_found-CopiedAt type body none e =
      absurd (get_elem?-none (a - st.pool.base) st.pool.storage e at_storage)
  copy_found-CopiedAt type body (some sb) e =
      let v = get_elem?-IsValid (a - st.pool.base) st.pool.storage sb ready.buffers_valid e in
      let copied = copy_buffer-Copied type body sb v in
      let (still, count, same) =
        chunk-kept (copy_buffer type body sb).1 (copy_buffer type body sb).0
          (Copied-IsValid type body sb (copy_buffer type body sb) v copied) in
      (set_chunk-CopiedAt type body sb (copy_buffer type body sb) copied, still, count, same)
    where
      Copied-IsValid :
          (type : ℕ) (body : List ℕ) (sb : SendBuffer) (r : SendBuffer × Option (ℕ × ℕ))
          → Laws.IsValid sb
          → Copied type body sb r
          → Laws.IsValid r.0
      Copied-IsValid type body sb (sb', none) v c = subst Laws.IsValid (sym c.0) v
      Copied-IsValid type body sb (sb', some place) v c = c.0

      chunk-kept :
          (place : Option (ℕ × ℕ)) (sb : SendBuffer)
          → Laws.IsValid sb
          → let r = set_chunk a place (stored sb) in
            IsReady r.0 × (r.0.pool.free_count ≡ st.pool.free_count) × (r.0.local ≡ st.local)
      chunk-kept none sb v = (stored-IsReady sb v, refl, refl)
      chunk-kept (some (pointer, size)) sb v = (same_ready (stored-IsReady sb v), refl, refl)
        where
          same_ready : IsReady (stored sb) → IsReady (set_refs a (st.refs a + 1) (stored sb))
          same_ready r = record {
            pool_valid = r.pool_valid;
            buffers_valid = r.buffers_valid;
            local_there = r.local_there;
          }

  pub copy_at-CopiedAt :
      (type : ℕ) (body : List ℕ)
      → CopiedAt a type body (copy_at a type body st)
        × IsReady (copy_at a type body st).0
        × ((copy_at a type body st).0.pool.free_count ≡ st.pool.free_count)
        × ((copy_at a type body st).0.local ≡ st.local)
  unfolding copy_at
  copy_at-CopiedAt type body = copy_found-CopiedAt type body (buffer_at a st) refl

  set_chunk-Unchanged :
      (type : ℕ) (body : List ℕ) (sb : SendBuffer) (r : SendBuffer × Option (ℕ × ℕ))
      → get_elem? st.pool.storage (a - st.pool.base) ≡ some sb
      → Copied type body sb r
      → Unchanged st (set_chunk a r.1 (stored r.0))
  set_chunk-Unchanged type body sb (sb', some place) e copied = tt
  set_chunk-Unchanged type body sb (sb', none) e (same, full) =
      ap stored same
      ∙ ap (λ storage. record st { pool = record st.pool { storage = storage } })
          (modify_same sb (a - st.pool.base) st.pool.storage e)

  copy_found-Unchanged :
      (type : ℕ) (body : List ℕ) (o : Option SendBuffer)
      → buffer_at a st ≡ o
      → Unchanged st (copy_found a type body o st)
  unfolding copy_found buffer_at
  copy_found-Unchanged type body none e = refl
  copy_found-Unchanged type body (some sb) e =
      set_chunk-Unchanged type body sb (copy_buffer type body sb) e (
        copy_buffer-Copied type body sb
          (get_elem?-IsValid (a - st.pool.base) st.pool.storage sb ready.buffers_valid e))

  pub copy_at-Unchanged : (type : ℕ) (body : List ℕ) → Unchanged st (copy_at a type body st)
  unfolding copy_at
  copy_at-Unchanged type body = copy_found-Unchanged type body (buffer_at a st) refl
