-- ===== src/ServiceManager/Packets/Renewal.antt =====
-- `LSendBuffer` let go and fetched anew (jhshin_Server/jhshin_Server/ServiceManager.cpp,
-- `GetSendBuffer`).
use jhshin_server.Common.{
  ℕ, zero, suc, ◌+◌, ◌-◌, ◌≤◌, ◌≡◌, refl, sym, ap, ap₂, subst, ◌∙◌, true, List, [], ◌∷◌, get_elem?,
  Option, none, some, ◌==◌, arith, Bool-cases, inl, inr,
}
use jhshin_server.ObjectPool.{ObjectPool, in_storage, modify, pop, push}
use jhshin_server.ObjectPool.Invariant.{lent}
use jhshin_server.ObjectPool.Calls.{
  Popped, pop-Popped, push-IsValid, push_in_use, push_refused, pop-base,
}
use jhshin_server.SendBuffer.{SendBuffer, reset}
use jhshin_server.SendBuffer.Laws.{reset-IsValid}
use jhshin_server.ServiceManager.{
  Buffers, buffer_at, set_refs, release, release_if, count_first, get_send_buffer, renew,
}
use jhshin_server.ServiceManager.Packets.{AllValid, IsLocal, IsReady, FreeAreEmpty, AllValid-modify}

-- A buffer that comes back is reset.
pub push-AllValid :
    (a : ℕ) (p : ObjectPool SendBuffer)
    → AllValid p.storage
    → let p' = (push reset a p).0 in
      AllValid p'.storage
      × (p'.base ≡ p.base)
      × (p'.max_size ≡ p.max_size)
      × (p.free_count ≤ p'.free_count)
push-AllValid a p v = elim (Bool-cases (lent p a)) [
  | inl used ↦ rw (push_in_use reset a p used) (
    AllValid-modify reset (a - p.base) p.storage (λ sb w. reset-IsValid sb) v,
    refl,
    refl,
    omega arith,
  )
  | inr free ↦ rw (push_refused reset a p free) (v, refl, refl, omega arith)
]

pub release-IsReady : (a : ℕ) (st : Buffers) → IsReady st → IsReady (release a st)
unfolding release set_refs
release-IsReady a st ready = elim (Bool-cases (st.refs a - 1 == 0)) [
  | inr more ↦ rw more (record {
    pool_valid = ready.pool_valid;
    buffers_valid = ready.buffers_valid;
    local_there = ready.local_there;
  })
  | inl last ↦
      let (valid, base, max_size, count) = push-AllValid a st.pool ready.buffers_valid in
      rw last (record {
        pool_valid = push-IsValid reset a st.pool ready.pool_valid;
        buffers_valid = valid;
        local_there =
            subst (λ b. IsLocal st.local b (push reset a st.pool).0.max_size) (sym base)
              (subst (λ m. IsLocal st.local st.pool.base m) (sym max_size) ready.local_there);
      })
]

pub release-local : (a : ℕ) (st : Buffers) → (release a st).local ≡ st.local
unfolding release set_refs
release-local a st = elim (Bool-cases (st.refs a - 1 == 0)) [
  | inr more ↦ rw more refl
  | inl last ↦ rw last refl
]

pub release-free_count :
    (a : ℕ) (st : Buffers) → IsReady st → st.pool.free_count ≤ (release a st).pool.free_count
unfolding release set_refs
release-free_count a st ready = elim (Bool-cases (st.refs a - 1 == 0)) [
  | inr more ↦ rw more (omega arith)
  | inl last ↦ rw last (push-AllValid a st.pool ready.buffers_valid).3
]

pub release_if-IsReady :
    (old : Option ℕ) (st : Buffers)
    → IsReady st
    → IsReady (release_if old st)
      × ((release_if old st).local ≡ st.local)
      × (st.pool.free_count ≤ (release_if old st).pool.free_count)
release_if-IsReady none st ready = (ready, refl, omega arith)
release_if-IsReady (some a) st ready =
    (release-IsReady a st ready, release-local a st, release-free_count a st ready)

-- What a new `LSendBuffer` comes to.
abbrev pub Renewed : Buffers → Buffers × Option ℕ → Type 0
Renewed st (st', none) = st.pool.free_count ≡ 0
Renewed st (st', some a) =
    IsReady st'
    × (in_storage st'.pool a ≡ true)
    × (st'.local ≡ some a)
    × (st.pool.free_count ≤ st'.pool.free_count + 1)

module _ (st : Buffers) (ready : IsReady st) where
  abbrev after_pop : ObjectPool SendBuffer × Option ℕ → Buffers
  after_pop (p, a) = record (count_first a (record st { pool = p })) { local = a }

  Popped-Renewed :
      (r : ObjectPool SendBuffer × Option ℕ)
      → Popped st.pool r
      → Renewed st (release_if st.local (after_pop r), r.1)
  unfolding set_refs
  Popped-Renewed (p, none) popped = popped.1
  Popped-Renewed (p, some a) (valid, inside, free, lends, count, storage) = (
    kept.0,
    subst (λ l. IsLocal l kept_pool.base kept_pool.max_size) kept.1 kept.0.local_there,
    kept.1,
    omega (arith, kept.2, count),
  )
    where
      there : lent p a ≡ true
      there = lends a ∙ ground arith

      kept :
          IsReady (release_if st.local (after_pop (p, some a)))
          × ((release_if st.local (after_pop (p, some a))).local ≡ some a)
          × (p.free_count ≤ (release_if st.local (after_pop (p, some a))).pool.free_count)
      kept = release_if-IsReady st.local (after_pop (p, some a)) (record {
        pool_valid = valid;
        buffers_valid = subst AllValid (sym storage) ready.buffers_valid;
        local_there = ground (arith, there);
      })

      kept_pool : ObjectPool SendBuffer
      kept_pool = (release_if st.local (after_pop (p, some a))).pool

  pub renew-Renewed : Renewed st (renew st)
  unfolding renew get_send_buffer
  renew-Renewed = Popped-Renewed (pop st.pool) (pop-Popped st.pool ready.pool_valid)

-- The buffer at an address is empty.
abbrev pub EmptyAt : ℕ → Buffers → Type 0
EmptyAt a st = (sb : SendBuffer) → buffer_at a st ≡ some sb → sb.pointer ≡ 0

modify-pointer :
    (i j : ℕ) (sbs : List SendBuffer)
    → ((sb : SendBuffer) → get_elem? sbs j ≡ some sb → sb.pointer ≡ 0)
    → (sb : SendBuffer) → get_elem? (modify reset i sbs) j ≡ some sb
    → sb.pointer ≡ 0
unfolding reset
modify-pointer i j [] empty sb e = empty sb e
modify-pointer zero zero (x ∷ sbs) empty sb e = ap (λ b. b.pointer) (sym is_reset)
  where
    is_reset : reset x ≡ sb
    is_reset = cc
modify-pointer zero (suc j) (x ∷ sbs) empty sb e = empty sb e
modify-pointer (suc i) zero (x ∷ sbs) empty sb e = empty sb e
modify-pointer (suc i) (suc j) (x ∷ sbs) empty sb e = modify-pointer i j sbs empty sb e

release-EmptyAt : (a b : ℕ) (st : Buffers) → EmptyAt a st → EmptyAt a (release b st)
unfolding release set_refs buffer_at
release-EmptyAt a b st empty = elim (Bool-cases (st.refs b - 1 == 0)) [
  | inr more ↦ rw more empty
  | inl last ↦ rw last (elim (Bool-cases (lent st.pool b)) [
    | inl used ↦
        rw (push_in_use reset b st.pool used)
          (modify-pointer (b - st.pool.base) (a - st.pool.base) st.pool.storage empty)
    | inr free ↦ rw (push_refused reset b st.pool free) empty
  ])
]

release_if-EmptyAt :
    (a : ℕ) (old : Option ℕ) (st : Buffers) → EmptyAt a st → EmptyAt a (release_if old st)
release_if-EmptyAt a none st empty = empty
release_if-EmptyAt a (some b) st empty = release-EmptyAt a b st empty

-- A buffer just fetched is empty.
abbrev pub Fetched : Buffers × Option ℕ → Type 0
Fetched (st, none) = Unit {0}
Fetched (st, some a) = EmptyAt a st

module _ (st : Buffers) (ready : IsReady st) (free_empty : FreeAreEmpty st) where
  Popped-Fetched :
      (r : ObjectPool SendBuffer × Option ℕ)
      → Popped st.pool r
      → r.0.base ≡ st.pool.base
      → Fetched (release_if st.local (after_pop st ready r), r.1)
  unfolding set_refs buffer_at
  Popped-Fetched (p, none) popped base = tt
  Popped-Fetched (p, some a) (valid, inside, free, lends, count, storage) base =
      release_if-EmptyAt a st.local (after_pop st ready (p, some a)) (λ sb e.
        free_empty (a - st.pool.base) sb
          (ap₂ get_elem? (sym storage) (ap (λ b. a - b) (sym base)) ∙ e)
          (ground (arith, inside, free)))

  pub renew-Fetched : Fetched (renew st)
  unfolding renew get_send_buffer
  renew-Fetched =
      Popped-Fetched (pop st.pool) (pop-Popped st.pool ready.pool_valid) (pop-base st.pool)
