-- ===== src/Tests/Accepting.antt =====
-- Two accept objects and one session (jhshin_Server/jhshin_Server/SessionManager.cpp): the second
-- waits until the first connection has ended.
use jhshin_server.Common.{ℕ, ◌≡◌, ◌⊎◌, refl, true, List, [], ◌∷◌, length}
use jhshin_server.ObjectPool.Invariant.{flag, lent}
use jhshin_server.Acceptance.{
  Event, goes_on, starts, completes, leaves, served, run, initial, give_back,
}
use jhshin_server.Acceptance.Threads.{top, advance, without}
use jhshin_server.ObjectPool.{pop, push, init_object_pool}
use jhshin_server.Acceptance.Wakeup.{run-none_waits}
use jhshin_server.Acceptance.Holders.{sessions, objects, started, run-sessions, run-objects}

abbrev reset : ℕ → ℕ
reset n = 0

abbrev goes_on_times : List Event → List Event
goes_on_times es =
    goes_on 0 true
    ∷ goes_on 0 true
    ∷ goes_on 0 true
    ∷ goes_on 0 true
    ∷ goes_on 0 true
    ∷ goes_on 0 true
    ∷ goes_on 0 true
    ∷ es

abbrev one_session : List Event
one_session =
    starts 10
    ∷ goes_on_times (
        starts 11
        ∷ goes_on_times (
            completes 0 served
            ∷ leaves 0
            ∷ goes_on_times (
                goes_on 1 true
                ∷ goes_on 1 true
                ∷ goes_on 1 true
                ∷ goes_on 1 true
                ∷ goes_on 1 true
                ∷ goes_on 1 true
                ∷ [])))

run-none_waits_example :
    let (a, ts) = run reset one_session (initial reset 100 7 1) in
    (length a.wait_queue ≡ 0) ⊎ (a.pool.free_count ≡ 0)
unfolding run initial give_back top advance without pop push init_object_pool
run-none_waits_example =
    run-none_waits reset 100 7 1 one_session (refl, (refl, (refl, (refl, tt)))) refl

run-sessions_example :
    let x = run reset one_session (initial reset 100 7 1) in
    sessions reset 100 x ≡ flag (lent x.0.pool 100)
run-sessions_example = run-sessions reset 100 7 1 one_session 100

run-objects_example :
    objects reset 11 (run reset one_session (initial reset 100 7 1)) ≡ started 11 one_session
run-objects_example = run-objects reset 100 7 1 one_session 11
