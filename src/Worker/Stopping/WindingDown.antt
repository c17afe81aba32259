-- ===== src/Worker/Stopping/WindingDown.antt =====
-- After `Stop` (jhshin_Server/jhshin_Server/IOCP.cpp) no thread is left waiting, and so `Join` comes
-- to its end.
use jhshin_server.Common.{
  ℕ, zero, suc, ◌+◌, ◌≤◌, ◌<◌, ◌≡◌, ◌≢◌, refl, ap, true, List, [], ◌∷◌, ◌++◌, length, Option, none,
  some, get_elem?, if◌then◌else◌, arith,
}
use jhshin_server.Worker.Stopping.Threads.{total, steps_left, is_waiting, total-set, total-in}
use jhshin_server.Worker.Stopping.{
  Status, tests, waits, handles, ended, Queued, null, object, Port, Event, completes, stops, posts,
  goes, post, take_queued, go, step, run, started,
}

abbrev is_null : Queued → ℕ
is_null null = 1
is_null object = 0

abbrev nulls : List Queued → ℕ
nulls [] = 0
nulls (q ∷ qs) = is_null q + nulls qs

nulls-append : (xs ys : List Queued) → nulls (xs ++ ys) ≡ nulls xs + nulls ys
nulls-append [] ys = omega arith
nulls-append (x ∷ xs) ys = omega (arith, nulls-append xs ys)

waiting-le : (ts : List Status) → total is_waiting ts ≤ length ts
waiting-le [] = omega arith
waiting-le (tests ∷ ts) = omega (arith, waiting-le ts)
waiting-le (waits ∷ ts) = omega (arith, waiting-le ts)
waiting-le (handles ∷ ts) = omega (arith, waiting-le ts)
waiting-le (ended ∷ ts) = omega (arith, waiting-le ts)

-- Once `m_Stop` is set, every thread that waits has a completion posted for it, or to be posted.
record IsCovered (p : Port) : Type 0 where
  covered : p.stop ≡ true → total is_waiting p.threads ≤ nulls p.queue + p.to_post

module _ (p : Port) (v : IsCovered p) where
  post-IsCovered : (n : ℕ) → p.to_post ≡ n → IsCovered (post n p)
  unfolding post
  post-IsCovered zero e = v
  post-IsCovered (suc n) e = record {
    covered = λ stop. omega (arith, v.covered stop, nulls-append p.queue (null ∷ []), e);
  }

  module _ (i : ℕ) where
    take_queued-IsCovered :
        (queue : List Queued)
        → p.queue ≡ queue
        → get_elem? p.threads i ≡ some waits
        → IsCovered (take_queued i queue p)
    unfolding take_queued
    take_queued-IsCovered [] e there = v
    take_queued-IsCovered (null ∷ queue) e there = record {
      covered = λ stop.
          omega
            (arith, v.covered stop, ap nulls e, total-set is_waiting p.threads i waits tests there);
    }
    take_queued-IsCovered (object ∷ queue) e there = record {
      covered = λ stop.
          omega (
            arith,
            v.covered stop,
            ap nulls e,
            total-set is_waiting p.threads i waits handles there,
          );
    }

    go-IsCovered : (t : Option Status) → get_elem? p.threads i ≡ t → IsCovered (go i t p)
    unfolding go
    go-IsCovered none there = v
    go-IsCovered (some tests) there = record {
      covered = λ stop. omega (
        arith,
        v.covered stop,
        total-set is_waiting p.threads i tests (if p.stop then ended else waits) there,
        ap (λ b. is_waiting (if b then ended else waits)) stop,
      );
    }
    go-IsCovered (some waits) there = take_queued-IsCovered p.queue refl there
    go-IsCovered (some handles) there = record {
      covered = λ stop.
          omega (arith, v.covered stop, total-set is_waiting p.threads i handles tests there);
    }
    go-IsCovered (some ended) there = v

step-IsCovered : (e : Event) (p : Port) → IsCovered p → IsCovered (step e p)
unfolding step
step-IsCovered completes p v = record {
  covered = λ stop. omega (arith, v.covered stop, nulls-append p.queue (object ∷ []));
}
step-IsCovered stops p v = record { covered = λ stop. omega (arith, waiting-le p.threads) }
step-IsCovered posts p v = post-IsCovered p v p.to_post refl
step-IsCovered (goes i) p v = go-IsCovered p v i (get_elem? p.threads i) refl

all_keep : (es : List Event) (p : Port) → IsCovered p → IsCovered (run es p)
unfolding run
all_keep [] p v = v
all_keep (e ∷ es) p v = all_keep es (step e p) (step-IsCovered e p v)

module _ (p : Port) (v : IsCovered p) (stop : p.stop ≡ true) (posted : p.to_post ≡ 0) (i : ℕ) where
  taken_less :
      (queue : List Queued)
      → p.queue ≡ queue
      → get_elem? p.threads i ≡ some waits
      → total steps_left (take_queued i queue p).threads < total steps_left p.threads
  unfolding take_queued
  taken_less [] e there = absurd (
      omega
        (arith, v.covered stop, ap nulls e, posted, total-in is_waiting p.threads i waits there))
  taken_less (null ∷ queue) e there =
      omega (arith, total-set steps_left p.threads i waits tests there)
  taken_less (object ∷ queue) e there =
      omega (arith, total-set steps_left p.threads i waits handles there)

  go_less :
      (t : Status)
      → get_elem? p.threads i ≡ some t
      → t ≢ ended
      → total steps_left (go i (some t) p).threads < total steps_left p.threads
  unfolding go
  go_less tests there ne = omega (
    arith,
    total-set steps_left p.threads i tests (if p.stop then ended else waits) there,
    ap (λ b. steps_left (if b then ended else waits)) stop,
  )
  go_less waits there ne = taken_less p.queue refl there
  go_less handles there ne = omega (arith, total-set steps_left p.threads i handles tests there)
  go_less ended there ne = absurd (ne refl)

-- Take the threads of a completion port from their start, with completions, one or more calls of
-- Stop, its posts and the steps of the threads in any order. When Stop has been called and all
-- that it posts has been posted, no thread can wait for ever: whichever thread has not ended, its
-- next step makes the number of steps that are left to all threads together smaller.
pub run-winds_down :
    (n : ℕ) (es : List Event) (i : ℕ) (t : Status)
    → let p = run es (started n) in
      p.stop ≡ true
      → p.to_post ≡ 0
      → get_elem? p.threads i ≡ some t
      → t ≢ ended
      → total steps_left (step (goes i) p).threads < total steps_left p.threads
unfolding step
run-winds_down n es i t stop posted there ne =
    let p = run es (started n) in
    let v =
      all_keep es (started n) (record { covered = λ e. let never : ⊥ = cc in absurd never }) in
    rw there (go_less p v stop posted i t there ne)
