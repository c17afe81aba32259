-- ===== src/ServiceManager/Sharing/Copies.antt =====
-- A packet is copied into the buffer at hand (jhshin_Server/jhshin_Server/ServiceManager.cpp,
-- `MakeSendPacket`): nothing that is referred to changes.
use jhshin_server.Common.{
  ℕ, ◌+◌, ◌-◌, ◌≤◌, ◌<◌, ◌≡◌, ◌≢◌, refl, sym, ap, ◌∙◌, true, List, length, Option, none, some,
  get_elem?, ◌==◌, ==_iff, arith, Bool-cases, Option-cases, inl, inr,
}
use jhshin_server.ObjectPool.{in_storage, modify}
use jhshin_server.ObjectPool.Invariant.{lent}
use jhshin_server.Packet.{packet_id_size}
use jhshin_server.Packet.Wire.{encode}
use jhshin_server.SendBuffer.{SendBuffer, is_copy, copy_buffer, slice}
use jhshin_server.SendBuffer.Laws
use jhshin_server.SendBuffer.Laws.{Copied, copy_buffer-Copied, copy_buffer-slice}
use jhshin_server.ServiceManager.{
  Buffers, SendChunk, buffer_at, set_refs, set_chunk, copy_found, copy_at,
}
use jhshin_server.ServiceManager.Packets.{
  IsReady, get_elem?-modify, get_elem?-IsValid, get_elem?-none, copy_at-CopiedAt,
}
use jhshin_server.ServiceManager.Sharing.Counts.{
  plus, at_hand, Holds, Names, Keeps, KeepsBytes, get_elem?-modify_other, apart,
}

-- What an attempt to make a chunk with these bytes comes to.
abbrev pub Comes : (ℕ → ℕ) → List ℕ → Buffers → Buffers × Option SendChunk → Type 0
Comes held bytes st (st', none) = Holds held st' × Keeps held st st'
Comes held bytes st (st', some c) =
    Holds (plus c.send_buffer held) st'
    × Keeps held st st'
    × Names c.send_buffer c.pointer c.size bytes st'

-- Where `CopyBuffer` puts a packet, and where its end is.
abbrev Placed : SendBuffer → SendBuffer × Option (ℕ × ℕ) → Type 0
Placed sb (sb', none) = sb'.pointer ≡ sb.pointer
Placed sb (sb', some (pointer, size)) = (pointer ≡ sb.pointer) × (pointer + size ≡ sb'.pointer)

copy_buffer-Placed :
    (type : ℕ) (body : List ℕ) (sb : SendBuffer) → Placed sb (copy_buffer type body sb)
unfolding copy_buffer
copy_buffer-Placed type body sb = elim (Bool-cases (is_copy sb (packet_id_size + length body))) [
  | inl fits ↦ rw fits (refl, omega arith)
  | inr full ↦ rw full refl
]

Placed-grows :
    (sb : SendBuffer) (r : SendBuffer × Option (ℕ × ℕ)) → Placed sb r → sb.pointer ≤ r.0.pointer
Placed-grows sb (sb', none) e = omega arith
Placed-grows sb (sb', some (pointer, size)) e = omega arith

some_eq : {x y : SendBuffer} → some x ≡ some y → x ≡ y
some_eq e = cc

module _ (held : ℕ → ℕ) (a : ℕ) (st : Buffers) (h : Holds held st) (local : st.local ≡ some a) where
  one_at_hand : at_hand st.local a ≡ 1
  one_at_hand = ap (λ l. at_hand l a) local ∙ ground arith

  a_lent : lent st.pool a ≡ true
  a_lent = ground (arith, h.in_use a, h.counts a, one_at_hand)

  inside : in_storage st.pool a ≡ true
  inside = ground (arith, a_lent)

  at_storage : a - st.pool.base < length st.pool.storage
  at_storage = ground (arith, h.ready.pool_valid.objects, inside)

  abbrev stored : SendBuffer → Buffers
  stored sb = record st {
    pool = record st.pool { storage = modify (λ old. sb) (a - st.pool.base) st.pool.storage };
  }

  module _ (type : ℕ) (body : List ℕ) (sb : SendBuffer) (found : buffer_at a st ≡ some sb) where
    abbrev r : SendBuffer × Option (ℕ × ℕ)
    r = copy_buffer type body sb

    copy_at-stored : copy_at a type body st ≡ set_chunk a r.1 (stored r.0)
    unfolding copy_at copy_found
    copy_at-stored = rw found refl

    sb-IsValid : Laws.IsValid sb
    unfolding buffer_at
    sb-IsValid = get_elem?-IsValid (a - st.pool.base) st.pool.storage sb h.ready.buffers_valid found

    stored-KeepsBytes : KeepsBytes held st (stored r.0)
    unfolding buffer_at
    stored-KeepsBytes b pointer size bytes some_held (old, e, within, holds) =
        elim (Bool-cases (a == b)) [
          | inl same ↦
              let eq : a ≡ b = (==_iff a b).0 same in
              let old_eq : old ≡ sb =
                some_eq (
                  sym e
                  ∙ ap (λ k. get_elem? st.pool.storage (k - st.pool.base)) (sym eq)
                  ∙ found) in
              (
                r.0,
                ap
                      (λ k.
                        get_elem? (modify (λ x. r.0) (a - st.pool.base) st.pool.storage)
                          (k - st.pool.base))
                      (sym eq)
                    ∙ get_elem?-modify r.0 (a - st.pool.base) st.pool.storage at_storage,
                omega (
                  arith,
                  Placed-grows sb r (copy_buffer-Placed type body sb),
                  within,
                  ap (λ x. x.pointer) old_eq,
                ),
                copy_buffer-slice type body sb pointer size sb-IsValid
                      (omega (arith, within, ap (λ x. x.pointer) old_eq))
                    ∙ ap (λ x. slice x pointer size) (sym old_eq)
                    ∙ holds,
              )
          | inr other ↦
              let ne : a ≢ b = λ eq. ground (arith, eq, other) in
              (
                old,
                get_elem?-modify_other (λ x. r.0) (a - st.pool.base) (b - st.pool.base)
                      st.pool.storage
                      (apart st a b a_lent (ground (arith, h.in_use b, h.counts b)) ne)
                    ∙ e,
                within,
                holds,
              )
        ]

    set_chunk-Comes :
        (x : SendBuffer × Option (ℕ × ℕ))
        → Copied type body sb x
        → Placed sb x
        → buffer_at a (stored x.0) ≡ some x.0
        → Keeps held st (stored x.0)
        → IsReady (set_chunk a x.1 (stored x.0)).0
        → Comes held
            (encode (record { type = type; body = body }))
            st
            (set_chunk a x.1 (stored x.0))
    unfolding set_refs buffer_at
    set_chunk-Comes (sb', none) copied placed new keeps ready =
        (record { ready = ready; counts = h.counts; in_use = h.in_use }, keeps)
    set_chunk-Comes (sb', some (pointer, size)) (v, place, u, holds) placed new keeps ready = (
      record {
        ready = ready;
        counts = λ b. ground (arith, h.counts b, h.counts a);
        in_use = λ b. ground (arith, h.in_use b, h.in_use a, a_lent);
      },
      keeps,
      (sb', new, omega (arith, placed), holds),
    )

    found-Comes :
        Comes held (encode (record { type = type; body = body })) st (copy_at a type body st)
    unfolding buffer_at
    found-Comes = rw copy_at-stored (
        set_chunk-Comes r (copy_buffer-Copied type body sb sb-IsValid)
          (copy_buffer-Placed type body sb)
          (get_elem?-modify r.0 (a - st.pool.base) st.pool.storage at_storage)
          (stored-KeepsBytes, λ b some_held. omega arith)
          (rw copy_at-stored at ((copy_at-CopiedAt a st h.ready inside type body).1)))

  pub copy_at-Comes :
      (type : ℕ) (body : List ℕ)
      → Comes held (encode (record { type = type; body = body })) st (copy_at a type body st)
  unfolding buffer_at
  copy_at-Comes type body = elim (Option-cases (buffer_at a st)) [
    | inl nothing ↦ absurd (get_elem?-none (a - st.pool.base) st.pool.storage nothing at_storage)
    | inr (sb, found) ↦ found-Comes type body sb found
  ]
