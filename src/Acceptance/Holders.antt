-- ===== src/Acceptance/Holders.antt =====
-- Who holds a session and where an accept object is, through every interleaving of
-- jhshin_Server/jhshin_Server/SessionManager.cpp, ListenManager.cpp and IOCP.cpp.
mod Section
use jhshin_server.Common.{
  ℕ, zero, suc, ◌+◌, ◌-◌, ◌≤◌, ◌<◌, ◌≡◌, refl, sym, ap, subst, ◌∙◌, Bool, true, false, List, [],
  ◌∷◌, ◌++◌, get_or-replicate, Option, none, some, get_elem?, ◌==◌, if◌then◌else◌, arith, inl, inr,
  Bool-cases,
}
use jhshin_server.ObjectPool.{ObjectPool, init_object_pool, empty, pop, push}
use jhshin_server.ObjectPool.Invariant.{
  IsValid, flag, flag-le, lent, init-IsValid, count, count-append,
}
use jhshin_server.ObjectPool.Calls.{Popped, pop-Popped}
use jhshin_server.Acceptance.Threads.{
  top, advance, sum, total, total-advance, sum-append, sum-without,
}
use jhshin_server.Acceptance.{
  Phase, rechecks, looks, pops, takes, drops, accepts, enters, pops_for, posts, inserts, rearms,
  Accepting, Completion, served, not_served, error, Event, goes_on, starts, completes, leaves,
  stops, clears, System, with_session, look, take_waiting, retire, section, completed, complete,
  leave, go_on, step, run, initial, give_back,
}
use jhshin_server.Acceptance.Sections.{give_back-IsValid, give_back-lent}
use jhshin_server.Acceptance.Holders.Section.{
  is_it, session_in, object_in, session_of, object_of, session_held, object_held, Held,
  section-Held,
}

-- How often the accept object was made.
abbrev pub started : ℕ → List Event → ℕ
started o [] = 0
started o (starts object ∷ es) = is_it object o + started o es
started o (goes_on i ok ∷ es) = started o es
started o (completes i result ∷ es) = started o es
started o (leaves i ∷ es) = started o es
started o (stops ∷ es) = started o es
started o (clears ∷ es) = started o es

module _ {T : Type 0} (reset : T → T) where
  -- In a whole system, the threads included.
  pub sessions : ℕ → System T → ℕ
  sessions s (a, ts) = session_held reset s a + total (session_in s) ts

  pub objects : ℕ → System T → ℕ
  objects o (a, ts) = object_held reset o a + total (object_in o) ts

  module _ (s o : ℕ) where
    abbrev Kept : ℕ → System T → Type 0
    Kept k (a, ts) = Held reset s o (total (session_in s) ts) (total (object_in o) ts) k a

    go_on-Kept :
        (k i : ℕ) (ok : Bool) (next : Option Phase) (x : System T)
        → top i x.1 ≡ next
        → Kept k x
        → Kept k (go_on reset i ok next x)
    unfolding go_on
    go_on-Kept k i ok none (a, ts) e kept = kept
    go_on-Kept k i ok (some p) (a, ts) e (v, hs, ho) =
        let n = total (session_in s) ts - session_in s p in
        let m = total (object_in o) ts - object_in o p in
        let has_session = total-advance (session_in s) i [] ts p e in
        let has_object = total-advance (object_in o) i [] ts p e in
        let next = (section reset ok p a).1 in
        let after =
          section-Held reset s o k n m ok p a
            (v, omega (arith, hs, has_session), omega (arith, ho, has_object)) in
        (
          after.0,
          omega (arith, after.1, has_session, total-advance (session_in s) i next ts p e),
          omega (arith, after.2, has_object, total-advance (object_in o) i next ts p e),
        )

    complete-Kept :
        (k i : ℕ) (result : Completion) (next : Option (ℕ × ℕ)) (x : System T)
        → get_elem? x.0.posted i ≡ next
        → Kept k x
        → Kept k (complete reset i result next x)
    unfolding complete
    complete-Kept k i result none x e kept = kept
    complete-Kept k i served (some (object, session)) (a, ts) e (v, hs, ho) = (
      v,
      omega (arith, hs, sum-without (session_of s) i a.posted (object, session) e),
      omega (arith, ho, sum-without (object_of o) i a.posted (object, session) e),
    )
    complete-Kept k i not_served (some (object, session)) (a, ts) e (v, hs, ho) = (
      v,
      omega (arith, hs, sum-without (session_of s) i a.posted (object, session) e),
      omega (arith, ho, sum-without (object_of o) i a.posted (object, session) e),
    )
    complete-Kept k i error (some (object, session)) (a, ts) e (v, hs, ho) = (
      v,
      omega (arith, hs, sum-without (session_of s) i a.posted (object, session) e),
      omega (arith, ho, sum-without (object_of o) i a.posted (object, session) e),
    )

    leave-Kept :
        (k i : ℕ) (next : Option ℕ) (x : System T)
        → get_elem? x.0.serving i ≡ next
        → Kept k x
        → Kept k (leave reset i next x)
    unfolding leave
    leave-Kept k i none x e kept = kept
    leave-Kept k i (some session) (a, ts) e (v, hs, ho) = (
      v,
      omega (arith, hs, sum-without (λ x. is_it x s) i a.serving session e),
      omega (arith, ho),
    )

    step-Kept :
        (k : ℕ) (e : Event) (x : System T)
        → Kept k x
        → Kept (k + started o (e ∷ [])) (step reset e x)
    unfolding step
    step-Kept k (goes_on i ok) (a, ts) kept =
        let after = go_on-Kept k i ok (top i ts) (a, ts) refl kept in
        (after.0, after.1, omega (arith, after.2))
    step-Kept k (starts object) (a, ts) (v, hs, ho) = (v, omega (arith, hs), omega (arith, ho))
    step-Kept k (completes i result) (a, ts) kept =
        let after = complete-Kept k i result (get_elem? a.posted i) (a, ts) refl kept in
        (after.0, after.1, omega (arith, after.2))
    step-Kept k (leaves i) (a, ts) kept =
        let after = leave-Kept k i (get_elem? a.serving i) (a, ts) refl kept in
        (after.0, after.1, omega (arith, after.2))
    step-Kept k stops (a, ts) (v, hs, ho) = (v, hs, omega (arith, ho))
    step-Kept k clears (a, ts) (v, hs, ho) =
        (v, hs, omega (arith, ho, count-append a.wait_queue a.retired o))

    started_cons :
        (e : Event) (es : List Event) → started o (e ∷ es) ≡ started o (e ∷ []) + started o es
    started_cons (goes_on i ok) es = omega arith
    started_cons (starts object) es = omega arith
    started_cons (completes i result) es = omega arith
    started_cons (leaves i) es = omega arith
    started_cons stops es = omega arith
    started_cons clears es = omega arith

    run-Kept :
        (k : ℕ) (es : List Event) (x : System T)
        → Kept k x
        → Kept (k + started o es) (run reset es x)
    unfolding run
    run-Kept k [] (a, ts) (v, hs, ho) = (v, hs, omega (arith, ho))
    run-Kept k (e ∷ es) x kept =
        let after = run-Kept (k + started o (e ∷ [])) es (step reset e x) (step-Kept k e x kept) in
        (after.0, after.1, omega (arith, after.2, started_cons e es))

    initial-Kept : (base : ℕ) (fresh : T) (n : ℕ) → Kept 0 (initial reset base fresh n)
    unfolding initial init_object_pool
    initial-Kept base fresh n = (
      init-IsValid base n fresh empty refl,
      ground (arith, get_or-replicate n (s - base) false),
      omega arith,
    )

  module _ (base : ℕ) (fresh : T) (n : ℕ) (es : List Event) where
    -- In any interleaving after `Initialize`, a session is in use in the pool exactly as often,
    -- once or not at all, as it is held: by a posted accept object, by one whose `AcceptEx`
    -- failed at once, by a connection, or by a thread. No session is given to two holders, and
    -- none that is in use is without a holder.
    pub run-sessions :
        (s : ℕ)
        → let x = run reset es (initial reset base fresh n) in sessions s x ≡ flag (lent x.0.pool s)
    unfolding sessions
    run-sessions s =
        (run-Kept s 0 0 es (initial reset base fresh n) (initial-Kept s 0 base fresh n)).1

    -- In any interleaving after `Initialize`, the number of places where an accept object is (the
    -- wait queue, posted, failed at once, retired, in the hands of a thread) is the number of
    -- times it was made: none is lost or posted twice.
    pub run-objects : (o : ℕ) → objects o (run reset es (initial reset base fresh n)) ≡ started o es
    unfolding objects
    run-objects o =
        (run-Kept 0 o 0 es (initial reset base fresh n) (initial-Kept 0 o base fresh n)).2
        ∙ omega arith
