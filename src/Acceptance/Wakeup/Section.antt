-- ===== src/Acceptance/Wakeup/Section.antt =====
-- One section of the accept path (jhshin_Server/jhshin_Server/SessionManager.cpp, ListenManager.cpp)
-- and the sessions that are free while accept objects wait.
use jhshin_server.Common.{
  ℕ, ◌+◌, ◌-◌, ◌≤◌, ◌≡◌, inl, inr, refl, sym, ap, subst, Bool, true, false, List, [], ◌∷◌, length,
  length-append, min, Option, none, some, if◌then◌else◌, arith, Bool-cases,
}
use jhshin_server.ObjectPool.{ObjectPool, pop}
use jhshin_server.ObjectPool.Invariant.{IsValid, flag-le, lent}
use jhshin_server.ObjectPool.Calls.{Popped, pop-Popped}
use jhshin_server.Acceptance.Threads.{sum}
use jhshin_server.Acceptance.{
  Phase, rechecks, looks, pops, takes, drops, accepts, enters, pops_for, posts, inserts, rearms,
  Accepting, with_session, look, take_waiting, retire, section,
}
use jhshin_server.Acceptance.Sections.{give_back-IsValid, give_back-lent}

-- The phases of a `ReWaiting` that may still hand a session to a waiting accept object, and the
-- one that has taken a session for it.
abbrev pub wakes : Phase → ℕ
wakes rechecks = 1
wakes looks = 1
wakes pops = 1
wakes _ = 0

abbrev pub holds : Phase → ℕ
holds (takes session) = 1
holds _ = 0

-- Let `k` phases be about to look and `h` hold a session for the queue: then not more accept
-- objects than that wait while sessions are free.
abbrev pub Covered : {T : Type 0} → ℕ → ℕ → Accepting T → Type 0
Covered k h a =
    IsValid a.pool × (a.stopped ≡ false → min (length a.wait_queue - h) a.pool.free_count ≤ k)

module _ {T : Type 0} (reset : T → T) where
  abbrev pub AfterSection : ℕ → ℕ → Accepting T × List Phase → Type 0
  AfterSection k h (a, next) = Covered (k + sum wakes next) (h + sum holds next) a

  -- `PopSession` in `ReWaiting`, and in `Accept`.
  after_pops :
      (k h : ℕ) (a : Accepting T) (r : ObjectPool T × Option ℕ)
      → Covered (k + 1) h a
      → Popped a.pool r
      → AfterSection k h (with_session reset (λ session. takes session ∷ []) [] a r)
  unfolding with_session
  after_pops k h a (p, none) (v, c) (same, nothing) =
      (subst IsValid (sym same) v, λ e. omega (arith, ap (λ q. q.free_count) same, nothing))
  after_pops k h a (p, some session) (v, c) (v', _, _, _, fewer, _) =
      (v', λ e. omega (arith, c e, fewer))

  after_pops_for :
      (object k h : ℕ) (a : Accepting T) (r : ObjectPool T × Option ℕ)
      → Covered k h a
      → Popped a.pool r
      → AfterSection k h
          (with_session reset (λ session. posts object session ∷ []) (inserts object ∷ []) a r)
  unfolding with_session
  after_pops_for object k h a (p, none) (v, c) (same, nothing) =
      (subst IsValid (sym same) v, λ e. omega (arith, ap (λ q. q.free_count) same, nothing))
  after_pops_for object k h a (p, some session) (v, c) (v', _, _, _, fewer, _) =
      (v', λ e. omega (arith, c e, fewer))

  after_looks :
      (k h : ℕ) (a : Accepting T) (queue : List ℕ)
      → a.wait_queue ≡ queue
      → Covered (k + 1) h a
      → AfterSection k h (a, look reset queue)
  unfolding look
  after_looks k h a [] empty_queue (v, c) = (v, λ e. omega (arith, ap length empty_queue))
  after_looks k h a (object ∷ queue) same (v, c) = (v, λ e. omega (arith, c e))

  after_takes :
      (session k h : ℕ) (a : Accepting T) (queue : List ℕ)
      → a.wait_queue ≡ queue
      → Covered k (h + 1) a
      → AfterSection k h (take_waiting reset session queue a)
  unfolding take_waiting
  after_takes session k h a [] empty_queue (v, c) = (v, λ e. omega (arith, ap length empty_queue))
  after_takes session k h a (object ∷ queue) same (v, c) =
      (v, λ e. omega (arith, c e, ap length same))

  -- A test of `m_Stop`: only what follows if it is not set matters.
  after_test :
      (k h : ℕ) (a b : Accepting T) (stop go : List Phase) (stopped : Bool)
      → b.stopped ≡ stopped
      → IsValid b.pool
      → AfterSection k h (a, go)
      → AfterSection k h (if stopped then (b, stop) else (a, go))
  after_test k h a b stop go true is_set v after =
      (v, λ e. let never : ⊥ = cc (e, is_set) in absurd never)
  after_test k h a b stop go false is_clear v after = after

  pub section-Covered :
      (k h : ℕ) (ok : Bool) (p : Phase) (a : Accepting T)
      → Covered (k + wakes p) (h + holds p) a
      → AfterSection k h (section reset ok p a)
  unfolding section
  section-Covered k h ok rechecks a (v, c) =
      after_test k h a a [] (looks ∷ []) a.stopped refl v (v, λ e. omega (arith, c e))
  section-Covered k h ok looks a (v, c) =
      after_looks k h a a.wait_queue refl (v, λ e. omega (arith, c e))
  section-Covered k h ok pops a (v, c) =
      after_pops k h a (pop a.pool) (v, λ e. omega (arith, c e)) (pop-Popped a.pool v)
  section-Covered k h ok (takes session) a (v, c) =
      after_takes session k h a a.wait_queue refl (v, λ e. omega (arith, c e))
  section-Covered k h ok (drops session) a (v, c) = (
    give_back-IsValid reset session a.pool v,
    λ e.
        omega
          (arith, c e, (give_back-lent reset session a.pool v 0).1, flag-le (lent a.pool session)),
  )
  section-Covered k h ok (accepts object session) a (v, c) =
      after_test k h a (retire reset object a) (drops session ∷ []) (posts object session ∷ [])
        a.stopped refl v (v, λ e. omega (arith, c e))
  section-Covered k h ok (enters object) a (v, c) =
      after_test k h a (retire reset object a) [] (pops_for object ∷ []) a.stopped refl v
        (v, λ e. omega (arith, c e))
  section-Covered k h ok (pops_for object) a (v, c) =
      after_pops_for object k h a (pop a.pool) (v, λ e. omega (arith, c e)) (pop-Popped a.pool v)
  section-Covered k h ok (posts object session) a (v, c) = elim (Bool-cases ok) [
    | inl taken ↦ rw taken (v, λ e. omega (arith, c e))
    | inr not_taken ↦ rw not_taken (v, λ e. omega (arith, c e))
  ]
  section-Covered k h ok (inserts object) a (v, c) =
      (v, λ e. omega (arith, c e, length-append a.wait_queue (object ∷ [])))
  section-Covered k h ok (rearms object) a (v, c) =
      after_test k h a (retire reset object a) [] (enters object ∷ []) a.stopped refl v
        (v, λ e. omega (arith, c e))
