-- ===== src/Acceptance/Holders/Section.antt =====
-- One section of the accept path (jhshin_Server/jhshin_Server/SessionManager.cpp, ListenManager.cpp)
-- and the holders of a session and of an accept object.
use jhshin_server.Common.{
  ℕ, ◌+◌, ◌≡◌, refl, sym, ap, subst, Bool, true, false, List, [], ◌∷◌, Option, none, some, ◌==◌,
  if◌then◌else◌, arith,
}
use jhshin_server.ObjectPool.{ObjectPool, pop}
use jhshin_server.ObjectPool.Invariant.{IsValid, flag, flag-le, lent, count, count-append}
use jhshin_server.ObjectPool.Calls.{Popped, pop-Popped}
use jhshin_server.Acceptance.Threads.{sum}
use jhshin_server.Acceptance.{
  Phase, rechecks, looks, pops, takes, drops, accepts, enters, pops_for, posts, inserts, rearms,
  Accepting, with_session, look, take_waiting, retire, section, give_back,
}
use jhshin_server.Acceptance.Sections.{give_back-IsValid, give_back-lent}

abbrev pub is_it : ℕ → ℕ → ℕ
is_it x y = flag (x == y)

-- How often the thread's phase has the session, and the accept object, in hand.
abbrev pub session_in : ℕ → Phase → ℕ
session_in s (takes session) = is_it session s
session_in s (drops session) = is_it session s
session_in s (accepts object session) = is_it session s
session_in s (posts object session) = is_it session s
session_in s _ = 0

abbrev pub object_in : ℕ → Phase → ℕ
object_in o (accepts object session) = is_it object o
object_in o (enters object) = is_it object o
object_in o (pops_for object) = is_it object o
object_in o (posts object session) = is_it object o
object_in o (inserts object) = is_it object o
object_in o (rearms object) = is_it object o
object_in o _ = 0

abbrev pub session_of : ℕ → ℕ × ℕ → ℕ
session_of s (object, session) = is_it session s

abbrev pub object_of : ℕ → ℕ × ℕ → ℕ
object_of o (object, session) = is_it object o

module _ {T : Type 0} (reset : T → T) where
  -- How many places hold the session outside of the threads; how many the accept object.
  abbrev pub session_held : ℕ → Accepting T → ℕ
  session_held s a = sum (session_of s) a.posted + sum (session_of s) a.refused + count s a.serving

  abbrev pub object_held : ℕ → Accepting T → ℕ
  object_held o a =
      count o a.wait_queue
      + sum (object_of o) a.posted
      + sum (object_of o) a.refused
      + count o a.retired

  -- Beside `n` holders of the session and `m` of the accept object in what the threads have still
  -- to do.
  abbrev pub Held : ℕ → ℕ → ℕ → ℕ → ℕ → Accepting T → Type 0
  Held s o n m k a =
      IsValid a.pool × (session_held s a + n ≡ flag (lent a.pool s)) × (object_held o a + m ≡ k)

  module _ (s o k : ℕ) where
    abbrev pub AfterSection : ℕ → ℕ → Accepting T × List Phase → Type 0
    AfterSection n m (a, next) =
        Held s o (n + sum (session_in s) next) (m + sum (object_in o) next) k a

    after_pops :
        (n m : ℕ) (a : Accepting T) (r : ObjectPool T × Option ℕ)
        → Held s o n m k a
        → Popped a.pool r
        → AfterSection n m (with_session reset (λ session. takes session ∷ []) [] a r)
    unfolding with_session
    after_pops n m a (p, none) (v, hs, ho) (same, nothing) = (
      subst IsValid (sym same) v,
      omega (arith, hs, ap (λ q. flag (lent q s)) same),
      omega (arith, ho),
    )
    after_pops n m a (p, some session) (v, hs, ho) (v', inside, free, lent', fewer, _) =
        (v', ground (arith, lent' s), omega (arith, ho))

    after_pops_for :
        (object n m : ℕ) (a : Accepting T) (r : ObjectPool T × Option ℕ)
        → Held s o n (m + is_it object o) k a
        → Popped a.pool r
        → AfterSection n m
            (with_session reset (λ session. posts object session ∷ []) (inserts object ∷ []) a r)
    unfolding with_session
    after_pops_for object n m a (p, none) (v, hs, ho) (same, nothing) = (
      subst IsValid (sym same) v,
      omega (arith, hs, ap (λ q. flag (lent q s)) same),
      omega (arith, ho),
    )
    after_pops_for object n m a (p, some session) (v, hs, ho) (v', inside, free, lent', fewer, _) =
        (v', ground (arith, lent' s), omega (arith, ho))

    after_looks :
        (n m : ℕ) (a : Accepting T) (queue : List ℕ)
        → Held s o n m k a
        → AfterSection n m (a, look reset queue)
    unfolding look
    after_looks n m a [] (v, hs, ho) = (v, omega (arith, hs), omega (arith, ho))
    after_looks n m a (object ∷ queue) (v, hs, ho) = (v, omega (arith, hs), omega (arith, ho))

    after_takes :
        (session n m : ℕ) (a : Accepting T) (queue : List ℕ)
        → a.wait_queue ≡ queue
        → Held s o (n + is_it session s) m k a
        → AfterSection n m (take_waiting reset session queue a)
    unfolding take_waiting
    after_takes session n m a [] e (v, hs, ho) = (v, omega (arith, hs), omega (arith, ho))
    after_takes session n m a (object ∷ queue) e (v, hs, ho) =
        (v, omega (arith, hs), omega (arith, ho, ap (count o) e))

    -- Both ways of a test of `m_Stop`.
    after_test :
        (n m : ℕ) (x y : Accepting T × List Phase) (stopped : Bool)
        → AfterSection n m x
        → AfterSection n m y
        → AfterSection n m (if stopped then x else y)
    after_test n m x y true hx hy = hx
    after_test n m x y false hx hy = hy

    after_drops :
        (session n : ℕ) (a : Accepting T)
        → IsValid a.pool
        → session_held s a + (n + is_it session s) ≡ flag (lent a.pool s)
        → session_held s a + (n + 0) ≡ flag (lent (give_back reset session a.pool) s)
    after_drops session n a v hs =
        ground (arith, (give_back-lent reset session a.pool v s).0, flag-le (lent a.pool s))

    pub section-Held :
        (n m : ℕ) (ok : Bool) (p : Phase) (a : Accepting T)
        → Held s o (n + session_in s p) (m + object_in o p) k a
        → AfterSection n m (section reset ok p a)
    unfolding section retire
    section-Held n m ok rechecks a (v, hs, ho) =
        after_test n m (a, []) (a, looks ∷ []) a.stopped (v, omega (arith, hs), omega (arith, ho))
          (v, omega (arith, hs), omega (arith, ho))
    section-Held n m ok looks a (v, hs, ho) =
        after_looks n m a a.wait_queue (v, omega (arith, hs), omega (arith, ho))
    section-Held n m ok pops a (v, hs, ho) =
        after_pops n m a (pop a.pool) (v, omega (arith, hs), omega (arith, ho))
          (pop-Popped a.pool v)
    section-Held n m ok (takes session) a (v, hs, ho) =
        after_takes session n m a a.wait_queue refl (v, hs, omega (arith, ho))
    section-Held n m ok (drops session) a (v, hs, ho) =
        (give_back-IsValid reset session a.pool v, after_drops session n a v hs, omega (arith, ho))
    section-Held n m ok (accepts object session) a (v, hs, ho) =
        after_test n m (retire reset object a, drops session ∷ []) (a, posts object session ∷ [])
          a.stopped (v, omega (arith, hs), omega (arith, ho))
          (v, omega (arith, hs), omega (arith, ho))
    section-Held n m ok (enters object) a (v, hs, ho) =
        after_test n m (retire reset object a, []) (a, pops_for object ∷ []) a.stopped
          (v, omega (arith, hs), omega (arith, ho)) (v, omega (arith, hs), omega (arith, ho))
    section-Held n m ok (pops_for object) a (v, hs, ho) =
        after_pops_for object n m a (pop a.pool) (v, omega (arith, hs), ho) (pop-Popped a.pool v)
    section-Held n m ok (posts object session) a (v, hs, ho) =
        after_test n m (record a { posted = (object, session) ∷ a.posted }, [])
          (record a { refused = (object, session) ∷ a.refused }, []) ok
          (v, omega (arith, hs), omega (arith, ho)) (v, omega (arith, hs), omega (arith, ho))
    section-Held n m ok (inserts object) a (v, hs, ho) =
        (v, omega (arith, hs), omega (arith, ho, count-append a.wait_queue (object ∷ []) o))
    section-Held n m ok (rearms object) a (v, hs, ho) =
        after_test n m (retire reset object a, []) (a, enters object ∷ []) a.stopped
          (v, omega (arith, hs), omega (arith, ho)) (v, omega (arith, hs), omega (arith, ho))
