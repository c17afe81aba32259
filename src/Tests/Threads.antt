-- ===== src/Tests/Threads.antt =====
-- The threads of the server at their end: a room that is stopped, and two workers.
use jhshin_server.Common.{ℕ, ◌+◌, ◌≡◌, ◌<◌, ◌≤◌, refl, true, false, List, [], ◌∷◌, some, length}
use jhshin_server.Room.{new_room}
use jhshin_server.Room.Jobs.{enter_job, leave_job}
use jhshin_server.Room.Jobs.Loop
use jhshin_server.Room.Jobs.Loop.{pushes, works}
use jhshin_server.Room.Jobs.Loop.Drained.{Drained, run-Drained}
use jhshin_server.Common.Int.{pos}
use jhshin_server.ServiceManager.Monitor
use jhshin_server.ServiceManager.Monitor.{Line, initial, starts, wakes, reads, joins}
use jhshin_server.ServiceManager.Monitor.Printed.{ending_events}
use jhshin_server.ServiceManager.Monitor.Ends.{IsGone, run-IsGone}
use jhshin_server.Worker.Stopping
use jhshin_server.Worker.Stopping.{Status, waits, ended, completes, posts, goes}
use jhshin_server.Worker.Stopping.LeftBehind.{objects, came, run-takes}
use jhshin_server.Worker.Stopping.Threads.{total, steps_left, is_waiting}
use jhshin_server.Worker.Stopping.WindingDown.{run-winds_down}
use jhshin_server.Tests.Samples.{whole_numbers, quiet_server}

-- Session 7 enters; the room is stopped; a job comes too late.
abbrev room_events : List (Loop.Event ℕ)
room_events =
    pushes (enter_job (some 7))
    ∷ works (λ i. 100)
    ∷ pushes (leave_job (some 7))
    ∷ Loop.stops
    ∷ works (λ i. 200)
    ∷ pushes (leave_job (some 7))
    ∷ []

run-Drained_example :
    let l = Loop.run whole_numbers room_events (Loop.started (new_room, quiet_server)) in
    Drained whole_numbers (new_room, quiet_server) l
    × ((Loop.run whole_numbers (Loop.stops ∷ works (λ i. 300) ∷ []) l).running ≡ false)
run-Drained_example = run-Drained whole_numbers (new_room, quiet_server) room_events (λ i. 300)

-- One of two workers waits, then `Stop` has run.
abbrev stopping : List Stopping.Event
stopping = goes 0 ∷ Stopping.stops ∷ posts ∷ posts ∷ []

run-winds_down_example :
    total steps_left (Stopping.step (goes 0) (Stopping.run stopping (Stopping.started 2))).threads
    < total steps_left (Stopping.run stopping (Stopping.started 2)).threads
unfolding Stopping.run Stopping.step Stopping.go Stopping.post
run-winds_down_example =
    run-winds_down 2 stopping 0 waits refl refl refl (λ e. let never : ⊥ = cc in never)

-- Three completions come behind the posts.
abbrev after_stop : List Stopping.Event
after_stop = completes ∷ completes ∷ completes ∷ goes 0 ∷ goes 0 ∷ goes 0 ∷ goes 1 ∷ []

run-takes_example :
    objects (Stopping.run stopping (Stopping.started 2)).queue + came after_stop
    ≤ objects (Stopping.run after_stop (Stopping.run stopping (Stopping.started 2))).queue
      + total is_waiting (Stopping.run stopping (Stopping.started 2)).threads
unfolding Stopping.run Stopping.step Stopping.go Stopping.post
run-takes_example = run-takes after_stop (Stopping.run stopping (Stopping.started 2)) refl

abbrev quiet_line : Line
quiet_line = record {
  conn_count = 0;
  session_free = 10000;
  session_max = 10000;
  chunk_free = 1024;
  chunk_max = 1024;
}

-- A monitor that has come to its end, and a second one.
abbrev twice : List Monitor.Event
twice =
    starts (pos 2) true
    ∷ wakes
    ∷ Monitor.stops
    ∷ reads quiet_line
    ∷ wakes
    ∷ reads quiet_line
    ∷ joins
    ∷ starts (pos 2) true
    ∷ wakes
    ∷ []

run-IsGone_example :
    let m = Monitor.run twice initial in
    let m' = Monitor.run (ending_events quiet_line quiet_line) m in
    IsGone m' × (length m'.lines ≤ length m.lines + 2)
unfolding Monitor.step Monitor.go_on Monitor.start_monitor Monitor.create_event
    Monitor.assign_thread Monitor.set_event Monitor.join_monitor Monitor.monitor_wait
    Monitor.end_wait Monitor.monitor_print
run-IsGone_example = run-IsGone twice quiet_line quiet_line (refl, (refl, tt))
