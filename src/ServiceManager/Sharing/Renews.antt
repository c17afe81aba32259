-- ===== src/ServiceManager/Sharing/Renews.antt =====
-- Another buffer from the pool (jhshin_Server/jhshin_Server/ServiceManager.cpp, `GetSendBuffer`), and
-- `MakeSendPacket` as a whole, among the references that others hold.
use jhshin_server.Common.{
  ℕ, ◌+◌, ◌-◌, ◌≤◌, ◌<◌, ◌≡◌, refl, sym, ap, subst, ◌∙◌, false, List, Option, none, some, get_elem?,
  ◌==◌, ==_iff, Bool-cases, inl, inr, if◌then◌else◌, arith,
}
use jhshin_server.ObjectPool.{ObjectPool, pop}
use jhshin_server.ObjectPool.Invariant.{lent}
use jhshin_server.ObjectPool.Calls.{Popped, pop-Popped, pop-base}
use jhshin_server.Packet.Wire.{encode}
use jhshin_server.SendBuffer.{SendBuffer}
use jhshin_server.ServiceManager.{
  Buffers, SendChunk, buffer_at, set_refs, release_if, count_first, get_send_buffer, renew, copy_at,
  copy_new, retry, make_with, local_buffer, make_send_packet,
}
use jhshin_server.ServiceManager.Packets.{AllValid}
use jhshin_server.ServiceManager.Packets.Renewal.{release_if-IsReady}
use jhshin_server.ServiceManager.Sharing.Counts.{
  at_hand, Holds, Keeps, Keeps-trans, Keeps-refl, release-Holds,
}
use jhshin_server.ServiceManager.Sharing.Copies.{Comes, copy_at-Comes}

-- `LSendBuffer` points elsewhere, and the reference that it held is let go.
pub release_if-Holds :
    (old : Option ℕ) (held : ℕ → ℕ) (st : Buffers)
    → Holds (λ b. at_hand old b + held b) st
    → Holds held (release_if old st) × Keeps held st (release_if old st)
release_if-Holds none held st h = (
  record { ready = h.ready; counts = λ a. omega (arith, h.counts a); in_use = h.in_use },
  Keeps-refl held st,
)
release_if-Holds (some a) held st h = release-Holds held a st h

module _ (held : ℕ → ℕ) (st : Buffers) (h : Holds held st) where
  abbrev after_pop : ObjectPool SendBuffer × Option ℕ → Buffers
  after_pop (p, a) = record (count_first a (record st { pool = p })) { local = a }

  new_counts :
      (a b : ℕ)
      → lent st.pool a ≡ false
      → (if a == b then 1 else st.refs b) ≡ at_hand st.local b + held b + (if a == b then 1 else 0)
  new_counts a b free = elim (Bool-cases (a == b)) [
    | inr other ↦ rw other (omega (arith, h.counts b))
    | inl same ↦
        rw same
          (ground (arith, h.counts b, h.in_use b, ap (λ k. lent st.pool k) ((==_iff a b).0 same)))
  ]

  not_held :
      (a b : ℕ)
      → lent st.pool a ≡ false
      → 0 < held b
      → (if a == b then 1 else 0) ≤ at_hand st.local b
  not_held a b free some_held = elim (Bool-cases (a == b)) [
    | inr other ↦ rw other (omega arith)
    | inl same ↦
        ground (arith, h.counts b, h.in_use b, ap (λ k. lent st.pool k) ((==_iff a b).0 same))
  ]

  none_popped :
      Holds (λ b. at_hand st.local b + held b) (after_pop (st.pool, none))
      × Keeps held st (after_pop (st.pool, none))
  unfolding buffer_at
  none_popped = (
    record {
      ready = record {
        pool_valid = h.ready.pool_valid;
        buffers_valid = h.ready.buffers_valid;
        local_there = tt;
      };
      counts = λ b. omega (arith, h.counts b);
      in_use = h.in_use;
    },
    (λ b pointer size bytes some_held names. names, λ b some_held. omega arith),
  )

  after_pop-Holds :
      (r : ObjectPool SendBuffer × Option ℕ)
      → Popped st.pool r
      → r.0.base ≡ st.pool.base
      → Holds (λ b. at_hand st.local b + held b) (after_pop r) × Keeps held st (after_pop r)
  unfolding set_refs buffer_at
  after_pop-Holds (p, none) (same, empty) base =
      subst
        (λ q.
          Holds (λ b. at_hand st.local b + held b) (after_pop (q, none))
          × Keeps held st (after_pop (q, none)))
        (sym same) none_popped
  after_pop-Holds (p, some a) (valid, inside, free, lends, count, storage) base = (
    record {
      ready = record {
        pool_valid = valid;
        buffers_valid = subst AllValid (sym storage) h.ready.buffers_valid;
        local_there = ground (arith, lends a);
      };
      counts = λ b. new_counts a b free;
      in_use = λ b. ground (arith, lends b, h.in_use b);
    },
    (
      λ b pointer size bytes some_held (sb, e, within, holds). (
        sb,
        ap (λ l. get_elem? l (b - p.base)) storage
            ∙ ap (λ k. get_elem? st.pool.storage (b - k)) base
            ∙ e,
        within,
        holds,
      ),
      λ b some_held. not_held a b free some_held,
    ),
  )

  pub renew-Holds :
      Holds held (renew st).0 × Keeps held st (renew st).0 × ((renew st).0.local ≡ (renew st).1)
  unfolding renew get_send_buffer
  renew-Holds =
      let r = pop st.pool in
      let popped = after_pop-Holds r (pop-Popped st.pool h.ready.pool_valid) (pop-base st.pool) in
      let let_go = release_if-Holds st.local held (after_pop r) popped.0 in
      (
        let_go.0,
        Keeps-trans held st (after_pop r) (renew st).0 popped.1 let_go.1,
        (release_if-IsReady st.local (after_pop r) popped.0.ready).1,
      )

-- After a change that keeps what is held.
Comes-after :
    (held : ℕ → ℕ) (bytes : List ℕ) (st st' : Buffers) (r : Buffers × Option SendChunk)
    → Keeps held st st'
    → Comes held bytes st' r
    → Comes held bytes st r
Comes-after held bytes st st' (st'', none) before (h, keeps) =
    (h, Keeps-trans held st st' st'' before keeps)
Comes-after held bytes st st' (st'', some c) before (h, keeps, new) =
    (h, Keeps-trans held st st' st'' before keeps, new)

module _ (held : ℕ → ℕ) (type : ℕ) (body : List ℕ) where
  abbrev bytes : List ℕ
  bytes = encode (record { type = type; body = body })

  copy_new-Comes :
      (r : Buffers × Option ℕ)
      → Holds held r.0
      → r.0.local ≡ r.1
      → Comes held bytes r.0 (copy_new type body r)
  unfolding copy_new
  copy_new-Comes (st, none) h local = (h, Keeps-refl held st)
  copy_new-Comes (st, some a) h local = copy_at-Comes held a st h local type body

  retry-Comes :
      (st : Buffers) (r : Buffers × Option SendChunk)
      → Comes held bytes st r
      → Comes held bytes st (retry type body r)
  unfolding retry
  retry-Comes st (st', some c) comes = comes
  retry-Comes st (st', none) (h, keeps) =
      let (h', keeps', local) = renew-Holds held st' h in
      Comes-after held bytes st st' (copy_new type body (renew st')) keeps (
        Comes-after held bytes st' (renew st').0 (copy_new type body (renew st')) keeps'
          (copy_new-Comes (renew st') h' local))

  make_with-Comes :
      (r : Buffers × Option ℕ)
      → Holds held r.0
      → r.0.local ≡ r.1
      → Comes held bytes r.0 (make_with type body r)
  unfolding make_with
  make_with-Comes (st, none) h local = (h, Keeps-refl held st)
  make_with-Comes (st, some a) h local =
      retry-Comes st (copy_at a type body st) (copy_at-Comes held a st h local type body)

  local_buffer-Comes :
      (local : Option ℕ) (st : Buffers)
      → st.local ≡ local
      → Holds held st
      → Comes held bytes st (make_with type body (local_buffer local st))
  unfolding local_buffer
  local_buffer-Comes (some a) st e h = make_with-Comes (st, some a) h e
  local_buffer-Comes none st e h =
      let (h', keeps, local) = renew-Holds held st h in
      Comes-after held bytes st (renew st).0 (make_with type body (renew st)) keeps
        (make_with-Comes (renew st) h' local)

  -- `MakeSendPacket` among the references that others hold.
  pub make_send_packet-Comes :
      (st : Buffers) → Holds held st → Comes held bytes st (make_send_packet type body st)
  unfolding make_send_packet
  make_send_packet-Comes st h = local_buffer-Comes st.local st refl h
