-- ===== src/ServiceManager/Sharing/Counts.antt =====
-- The references to the send buffers while `ServiceManager`
-- (jhshin_Server/jhshin_Server/ServiceManager.cpp) lets one go: `SendBufferRef` and its deleter.
use jhshin_server.Common.{
  ℕ, zero, suc, ◌+◌, ◌-◌, ◌≤◌, ◌<◌, ◌≡◌, ◌≢◌, refl, sym, ap, ◌∙◌, true, List, [], ◌∷◌, Option, none,
  some, get_elem?, ltb, ◌==◌, if◌then◌else◌, arith, Bool-cases, inl, inr,
}
use jhshin_server.ObjectPool.{modify}
use jhshin_server.ObjectPool.Invariant.{lent}
use jhshin_server.ObjectPool.Calls.{push-lent, push_in_use}
use jhshin_server.SendBuffer.{SendBuffer, reset, slice}
use jhshin_server.ServiceManager.{Buffers, buffer_at, set_refs, release}
use jhshin_server.ServiceManager.Packets.{IsReady}
use jhshin_server.ServiceManager.Packets.Renewal.{release-IsReady, release-local}

-- One reference to a buffer more.
abbrev pub plus : ℕ → (ℕ → ℕ) → ℕ → ℕ
plus a held b = (if a == b then 1 else 0) + held b

-- The reference of `LSendBuffer`.
abbrev pub at_hand : Option ℕ → ℕ → ℕ
at_hand none b = 0
at_hand (some a) b = if a == b then 1 else 0

-- The references are those that `held` counts and that of `LSendBuffer`, and the buffers of the
-- pool that are in use are those that are referred to.
pub record Holds (held : ℕ → ℕ) (st : Buffers) : Type 0 where
  pub ready : IsReady st
  pub counts : (a : ℕ) → st.refs a ≡ held a + at_hand st.local a
  pub in_use : (a : ℕ) → lent st.pool a ≡ ltb 0 (st.refs a)

-- So many bytes of the buffer at an address, from a place on that is in use.
abbrev pub Names : ℕ → ℕ → ℕ → List ℕ → Buffers → Type 0
Names a pointer size bytes st =
    (sb : SendBuffer) × (buffer_at a st ≡ some sb)
    × (pointer + size ≤ sb.pointer)
    × (slice sb pointer size ≡ bytes)

-- Where `held` counts a reference, the bytes stay, and `LSendBuffer` does not come to point there.
abbrev pub KeepsBytes : (ℕ → ℕ) → Buffers → Buffers → Type 0
KeepsBytes held st st' =
    (b pointer size : ℕ) (bytes : List ℕ)
    → 0 < held b
    → Names b pointer size bytes st
    → Names b pointer size bytes st'

abbrev pub StaysApart : (ℕ → ℕ) → Buffers → Buffers → Type 0
StaysApart held st st' = (b : ℕ) → 0 < held b → at_hand st'.local b ≤ at_hand st.local b

abbrev pub Keeps : (ℕ → ℕ) → Buffers → Buffers → Type 0
Keeps held st st' = KeepsBytes held st st' × StaysApart held st st'

pub Keeps-trans :
    (held : ℕ → ℕ) (st st' st'' : Buffers)
    → Keeps held st st'
    → Keeps held st' st''
    → Keeps held st st''
Keeps-trans held st st' st'' k k' = (
  λ b pointer size bytes some_held names.
      k'.0 b pointer size bytes some_held (k.0 b pointer size bytes some_held names),
  λ b some_held. omega (arith, k.1 b some_held, k'.1 b some_held),
)

pub Keeps-refl : (held : ℕ → ℕ) (st : Buffers) → Keeps held st st
Keeps-refl held st = (λ b pointer size bytes some_held names. names, λ b some_held. omega arith)

pub get_elem?-modify_other :
    (f : SendBuffer → SendBuffer) (i j : ℕ) (sbs : List SendBuffer)
    → i ≢ j
    → get_elem? (modify f i sbs) j ≡ get_elem? sbs j
get_elem?-modify_other f i j [] ne = refl
get_elem?-modify_other f zero zero (sb ∷ sbs) ne = absurd (ne refl)
get_elem?-modify_other f zero (suc j) (sb ∷ sbs) ne = refl
get_elem?-modify_other f (suc i) zero (sb ∷ sbs) ne = refl
get_elem?-modify_other f (suc i) (suc j) (sb ∷ sbs) ne =
    get_elem?-modify_other f i j sbs (λ e. ne (ap suc e))

-- Two buffers in use stand at different places of the storage.
pub apart :
    (st : Buffers) (a b : ℕ)
    → lent st.pool a ≡ true
    → lent st.pool b ≡ true
    → a ≢ b
    → a - st.pool.base ≢ b - st.pool.base
apart st a b la lb ne e = ne (ground arith)

module _ (held : ℕ → ℕ) (a : ℕ) (st : Buffers) (h : Holds (plus a held) st) where
  a_lent : lent st.pool a ≡ true
  a_lent = ground (arith, h.in_use a, h.counts a)

  release-refs : (b : ℕ) → (release a st).refs b ≡ (if a == b then st.refs a - 1 else st.refs b)
  unfolding release set_refs
  release-refs b = elim (Bool-cases (st.refs a - 1 == 0)) [
    | inr more ↦ rw more refl
    | inl last ↦ rw last refl
  ]

  release-lent : (b : ℕ) → lent (release a st).pool b ≡ ltb 0 ((release a st).refs b)
  unfolding release set_refs
  release-lent b = elim (Bool-cases (st.refs a - 1 == 0)) [
    | inr more ↦ rw more (ground (arith, h.in_use b, h.in_use a))
    | inl last ↦ rw last (
        (push-lent reset a b st.pool h.ready.pool_valid).1
        ∙ ground (arith, h.in_use b, ltb 0 (st.refs b), last))
  ]

  release-KeepsBytes : KeepsBytes held st (release a st)
  unfolding release set_refs buffer_at
  release-KeepsBytes b pointer size bytes some_held (sb, e, within, holds) =
      elim (Bool-cases (st.refs a - 1 == 0)) [
        | inr more ↦ rw more (sb, e, within, holds)
        | inl last ↦
            let b_lent : lent st.pool b ≡ true = ground (arith, h.in_use b, h.counts b) in
            let other : a ≢ b = λ same. ground (arith, h.counts b, ap st.refs same, last) in
            rw (last, push_in_use reset a st.pool a_lent)
              (
                sb,
                get_elem?-modify_other reset (a - st.pool.base) (b - st.pool.base) st.pool.storage
                      (apart st a b a_lent b_lent other)
                    ∙ e,
                within,
                holds,
              )
      ]

  -- A reference is let go that nobody counts any more.
  pub release-Holds : Holds held (release a st) × Keeps held st (release a st)
  release-Holds = (
    record {
      ready = release-IsReady a st h.ready;
      counts = λ b.
          release-refs b
          ∙ ground (arith, h.counts b, h.counts a)
          ∙ ap (λ l. held b + at_hand l b) (sym (release-local a st));
      in_use = release-lent;
    },
    (release-KeepsBytes, λ b some_held. omega (arith, ap (λ l. at_hand l b) (release-local a st))),
  )
