-- ===== src/Worker/Stopping/LeftBehind.antt =====
-- What is left in the completion port after `Stop` (jhshin_Server/jhshin_Server/IOCP.cpp).
use jhshin_server.Common.{
  ℕ, zero, suc, ◌+◌, ◌≤◌, ◌≡◌, refl, ap, true, List, [], ◌∷◌, ◌++◌, Option, none, some, get_elem?,
  if◌then◌else◌, arith,
}
use jhshin_server.Worker.Stopping.{
  Status, tests, waits, handles, ended, Queued, null, object, Port, Event, completes, stops, posts,
  goes, post, take_queued, go, step, run,
}
use jhshin_server.Worker.Stopping.Threads.{total, is_waiting, total-set}

abbrev is_object : Queued → ℕ
is_object null = 0
is_object object = 1

-- The completions of objects in a queue.
abbrev pub objects : List Queued → ℕ
objects [] = 0
objects (q ∷ qs) = is_object q + objects qs

-- How many completions of objects come.
abbrev pub came : List Event → ℕ
came [] = 0
came (completes ∷ es) = 1 + came es
came (stops ∷ es) = came es
came (posts ∷ es) = came es
came (goes i ∷ es) = came es

objects-append : (xs ys : List Queued) → objects (xs ++ ys) ≡ objects xs + objects ys
objects-append [] ys = omega arith
objects-append (x ∷ xs) ys = omega (arith, objects-append xs ys)

-- Completions that have come and not been taken, and threads that can take one.
abbrev Kept : ℕ → Port → Port → Type 0
Kept more p p' =
    (p'.stop ≡ true)
    × (objects p.queue + more + total is_waiting p'.threads
        ≤ objects p'.queue + total is_waiting p.threads)

module _ (p : Port) (stop : p.stop ≡ true) where
  post-Kept : (n : ℕ) → Kept 0 p (post n p)
  unfolding post
  post-Kept zero = (stop, omega arith)
  post-Kept (suc n) = (stop, omega (arith, objects-append p.queue (null ∷ [])))

  module _ (i : ℕ) where
    take_queued-Kept :
        (queue : List Queued)
        → p.queue ≡ queue
        → get_elem? p.threads i ≡ some waits
        → Kept 0 p (take_queued i queue p)
    unfolding take_queued
    take_queued-Kept [] e there = (stop, omega arith)
    take_queued-Kept (null ∷ queue) e there =
        (stop, omega (arith, ap objects e, total-set is_waiting p.threads i waits tests there))
    take_queued-Kept (object ∷ queue) e there =
        (stop, omega (arith, ap objects e, total-set is_waiting p.threads i waits handles there))

    go-Kept : (t : Option Status) → get_elem? p.threads i ≡ t → Kept 0 p (go i t p)
    unfolding go
    go-Kept none there = (stop, omega arith)
    go-Kept (some tests) there = (
      stop,
      omega (
        arith,
        total-set is_waiting p.threads i tests (if p.stop then ended else waits) there,
        ap (λ b. is_waiting (if b then ended else waits)) stop,
      ),
    )
    go-Kept (some waits) there = take_queued-Kept p.queue refl there
    go-Kept (some handles) there =
        (stop, omega (arith, total-set is_waiting p.threads i handles tests there))
    go-Kept (some ended) there = (stop, omega arith)

  step-Kept : (e : Event) → Kept (came (e ∷ [])) p (step e p)
  unfolding step
  step-Kept completes = (stop, omega (arith, objects-append p.queue (object ∷ [])))
  step-Kept stops = (refl, omega arith)
  step-Kept posts = post-Kept p.to_post
  step-Kept (goes i) = go-Kept i (get_elem? p.threads i) refl

came-cons : (e : Event) (es : List Event) → came (e ∷ es) ≡ came (e ∷ []) + came es
came-cons completes es = omega arith
came-cons stops es = omega arith
came-cons posts es = omega arith
came-cons (goes i) es = omega arith

run-Kept : (es : List Event) (p : Port) → p.stop ≡ true → Kept (came es) p (run es p)
unfolding run
run-Kept [] p stop = (stop, omega arith)
run-Kept (e ∷ es) p stop =
    let (still, first) = step-Kept p stop e in
    let (last, rest) = run-Kept es (step e p) still in
    (last, omega (arith, first, rest, came-cons e es))

-- From a moment when `m_Stop` is set, whatever comes after it in whatever order: of the
-- completions of objects that are in the port then and that still come, all but one for each
-- thread that is in `GetQueuedCompletionStatus` at that moment are left in the port.
pub run-takes :
    (es : List Event) (p : Port)
    → p.stop ≡ true
    → objects p.queue + came es ≤ objects (run es p).queue + total is_waiting p.threads
run-takes es p stop = omega (arith, (run-Kept es p stop).1)
