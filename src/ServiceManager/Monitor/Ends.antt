-- ===== src/ServiceManager/Monitor/Ends.antt =====
-- What `StopMonitor` leaves behind (jhshin_Server/jhshin_Server/ServiceManager.cpp).
use jhshin_server.Common.{
  ℕ, zero, suc, ◌+◌, ◌≤◌, ◌≡◌, refl, subst, Bool, true, false, List, [], ◌∷◌, length, Option, none,
  some, arith,
}
use jhshin_server.Common.Int.{ℤ, pos, negsuc}
use jhshin_server.ServiceManager.Monitor.{
  Thread, not_joinable, waits, prints, returned, Line, Monitor, initial, Event, starts, stops,
  joins, wakes, reads, assign_thread, create_event, start_monitor, set_event, join_monitor,
  end_wait, monitor_wait, monitor_print, go_on, step, run,
}
use jhshin_server.ServiceManager.Monitor.Printed.{ending_events, ends-Within}

-- `StartMonitor` is called only when there is no event.
abbrev pub OneAtATime : List Event → Monitor → Type 0
OneAtATime [] m = Unit {0}
OneAtATime (starts interval created ∷ es) m =
    (m.monitor_stop ≡ none) × OneAtATime es (step (starts interval created) m)
OneAtATime (stops ∷ es) m = OneAtATime es (step stops m)
OneAtATime (joins ∷ es) m = OneAtATime es (step joins m)
OneAtATime (wakes ∷ es) m = OneAtATime es (step wakes m)
OneAtATime (reads line ∷ es) m = OneAtATime es (step (reads line) m)

-- No monitor; one that waits, or prints; and behind `SetEvent` one that waits, prints after a wait
-- that ran out, prints for the last time, or has returned.
data Stage : Type 0 where
  off : Stage
  running : Stage
  reading : Stage
  ending : Stage
  late : Stage
  final : Stage
  over : Stage

abbrev event_of : Stage → Option Bool
event_of off = none
event_of running = some false
event_of reading = some false
event_of ending = some true
event_of late = some true
event_of final = some true
event_of over = some true

abbrev thread_of : Stage → Thread
thread_of off = not_joinable
thread_of running = waits
thread_of reading = prints false
thread_of ending = waits
thread_of late = prints false
thread_of final = prints true
thread_of over = returned

abbrev stopping_of : Stage → Bool
stopping_of off = false
stopping_of running = false
stopping_of reading = false
stopping_of ending = true
stopping_of late = true
stopping_of final = true
stopping_of over = true

abbrev open_of : Stage → ℕ
open_of off = 0
open_of running = 1
open_of reading = 1
open_of ending = 1
open_of late = 1
open_of final = 1
open_of over = 1

-- The stages after a step.
abbrev stopped : Stage → Stage
stopped off = off
stopped running = ending
stopped reading = late
stopped ending = ending
stopped late = late
stopped final = final
stopped over = over

abbrev joined : Stage → Stage
joined off = off
joined running = running
joined reading = reading
joined ending = ending
joined late = late
joined final = final
joined over = off

abbrev woken : Stage → Stage
woken off = off
woken running = reading
woken reading = reading
woken ending = final
woken late = late
woken final = final
woken over = over

abbrev printed : Stage → Stage
printed off = off
printed running = running
printed reading = running
printed ending = ending
printed late = ending
printed final = over
printed over = over

record IsAt (g : Stage) (m : Monitor) : Type 0 where
  event : m.monitor_stop ≡ event_of g
  thread : m.monitor_thread ≡ thread_of g
  stopping : m.stopping ≡ stopping_of g
  alive : m.aborted ≡ false
  handles : m.opened ≡ m.closed + open_of g

parts-IsAt :
    {g : Stage} {m : Monitor}
    → m.monitor_stop ≡ event_of g
    → m.monitor_thread ≡ thread_of g
    → m.stopping ≡ stopping_of g
    → m.aborted ≡ false
    → m.opened ≡ m.closed + open_of g
    → IsAt g m
parts-IsAt event thread stopping alive handles = record {
  event = event;
  thread = thread;
  stopping = stopping;
  alive = alive;
  handles = handles;
}

abbrev started : ℤ → Bool → Stage
started (pos (suc n)) true = running
started (pos (suc n)) false = off
started (pos zero) created = off
started (negsuc n) created = off

start-IsAt :
    (interval : ℤ) (created : Bool) (m : Monitor)
    → IsAt off m
    → IsAt (started interval created) (step (starts interval created) m)
unfolding step go_on start_monitor create_event assign_thread
start-IsAt (pos (suc n)) true m v =
    rw (v.alive, v.stopping, v.thread) (parts-IsAt refl refl refl refl (omega (arith, v.handles)))
start-IsAt (pos (suc n)) false m v =
    rw (v.alive, v.stopping) (parts-IsAt refl v.thread refl refl v.handles)
start-IsAt (pos zero) created m v =
    rw (v.alive, v.stopping) (parts-IsAt v.event v.thread refl refl v.handles)
start-IsAt (negsuc n) created m v =
    rw (v.alive, v.stopping) (parts-IsAt v.event v.thread refl refl v.handles)

stop-IsAt : (g : Stage) (m : Monitor) → IsAt g m → IsAt (stopped g) (step stops m)
unfolding step go_on set_event
stop-IsAt off m v = rw (v.alive, v.stopping, v.event) (parts-IsAt refl v.thread refl refl v.handles)
stop-IsAt running m v =
    rw (v.alive, v.stopping, v.event) (parts-IsAt refl v.thread refl refl v.handles)
stop-IsAt reading m v =
    rw (v.alive, v.stopping, v.event) (parts-IsAt refl v.thread refl refl v.handles)
stop-IsAt ending m v = rw (v.alive, v.stopping) (parts-IsAt v.event v.thread refl refl v.handles)
stop-IsAt late m v = rw (v.alive, v.stopping) (parts-IsAt v.event v.thread refl refl v.handles)
stop-IsAt final m v = rw (v.alive, v.stopping) (parts-IsAt v.event v.thread refl refl v.handles)
stop-IsAt over m v = rw (v.alive, v.stopping) (parts-IsAt v.event v.thread refl refl v.handles)

join-IsAt : (g : Stage) (m : Monitor) → IsAt g m → IsAt (joined g) (step joins m)
unfolding step go_on join_monitor
join-IsAt off m v = rw (v.alive, v.stopping) (parts-IsAt v.event v.thread refl refl v.handles)
join-IsAt running m v = rw (v.alive, v.stopping) (parts-IsAt v.event v.thread refl refl v.handles)
join-IsAt reading m v = rw (v.alive, v.stopping) (parts-IsAt v.event v.thread refl refl v.handles)
join-IsAt ending m v =
    rw (v.alive, v.stopping, v.thread) (parts-IsAt v.event refl refl refl v.handles)
join-IsAt late m v =
    rw (v.alive, v.stopping, v.thread) (parts-IsAt v.event refl refl refl v.handles)
join-IsAt final m v =
    rw (v.alive, v.stopping, v.thread) (parts-IsAt v.event refl refl refl v.handles)
join-IsAt over m v =
    rw (v.alive, v.stopping, v.thread) (parts-IsAt refl refl refl refl (omega (arith, v.handles)))

wake-IsAt : (g : Stage) (m : Monitor) → IsAt g m → IsAt (woken g) (step wakes m)
unfolding step go_on monitor_wait end_wait
wake-IsAt off m v = rw (v.alive, v.thread) (parts-IsAt v.event refl v.stopping refl v.handles)
wake-IsAt running m v =
    rw (v.alive, v.thread, v.event) (parts-IsAt refl refl v.stopping refl v.handles)
wake-IsAt reading m v = rw (v.alive, v.thread) (parts-IsAt v.event refl v.stopping refl v.handles)
wake-IsAt ending m v =
    rw (v.alive, v.thread, v.event) (parts-IsAt refl refl v.stopping refl v.handles)
wake-IsAt late m v = rw (v.alive, v.thread) (parts-IsAt v.event refl v.stopping refl v.handles)
wake-IsAt final m v = rw (v.alive, v.thread) (parts-IsAt v.event refl v.stopping refl v.handles)
wake-IsAt over m v = rw (v.alive, v.thread) (parts-IsAt v.event refl v.stopping refl v.handles)

print-IsAt :
    (line : Line) (g : Stage) (m : Monitor) → IsAt g m → IsAt (printed g) (step (reads line) m)
unfolding step go_on monitor_print
print-IsAt line off m v = rw (v.alive, v.thread) (parts-IsAt v.event refl v.stopping refl v.handles)
print-IsAt line running m v =
    rw (v.alive, v.thread) (parts-IsAt v.event refl v.stopping refl v.handles)
print-IsAt line reading m v =
    rw (v.alive, v.thread) (parts-IsAt v.event refl v.stopping refl v.handles)
print-IsAt line ending m v =
    rw (v.alive, v.thread) (parts-IsAt v.event refl v.stopping refl v.handles)
print-IsAt line late m v =
    rw (v.alive, v.thread) (parts-IsAt v.event refl v.stopping refl v.handles)
print-IsAt line final m v =
    rw (v.alive, v.thread) (parts-IsAt v.event refl v.stopping refl v.handles)
print-IsAt line over m v =
    rw (v.alive, v.thread) (parts-IsAt v.event refl v.stopping refl v.handles)

-- A stage without an event is that without a monitor.
is_off : (g : Stage) (m : Monitor) → IsAt g m → m.monitor_stop ≡ none → IsAt off m
is_off off m v none_there = v
is_off running m v none_there = let e = v.event in let never : ⊥ = cc in absurd never
is_off reading m v none_there = let e = v.event in let never : ⊥ = cc in absurd never
is_off ending m v none_there = let e = v.event in let never : ⊥ = cc in absurd never
is_off late m v none_there = let e = v.event in let never : ⊥ = cc in absurd never
is_off final m v none_there = let e = v.event in let never : ⊥ = cc in absurd never
is_off over m v none_there = let e = v.event in let never : ⊥ = cc in absurd never

run-IsAt :
    (es : List Event) (g : Stage) (m : Monitor)
    → IsAt g m
    → OneAtATime es m
    → (g' : Stage) × IsAt g' (run es m)
unfolding run
run-IsAt [] g m v ok = (g, v)
run-IsAt (starts interval created ∷ es) g m v (none_there, ok) =
    run-IsAt es (started interval created) (step (starts interval created) m)
      (start-IsAt interval created m (is_off g m v none_there)) ok
run-IsAt (stops ∷ es) g m v ok = run-IsAt es (stopped g) (step stops m) (stop-IsAt g m v) ok
run-IsAt (joins ∷ es) g m v ok = run-IsAt es (joined g) (step joins m) (join-IsAt g m v) ok
run-IsAt (wakes ∷ es) g m v ok = run-IsAt es (woken g) (step wakes m) (wake-IsAt g m v) ok
run-IsAt (reads line ∷ es) g m v ok =
    run-IsAt es (printed g) (step (reads line) m) (print-IsAt line g m v) ok

-- Nothing is left of a monitor.
abbrev pub IsGone : Monitor → Type 0
IsGone m =
    (m.monitor_stop ≡ none)
    × (m.monitor_thread ≡ not_joinable)
    × (m.opened ≡ m.closed)
    × (m.aborted ≡ false)

gone : (m : Monitor) → IsAt off m → IsGone m
gone m v = (v.event, v.thread, omega (arith, v.handles), v.alive)

comes_off : (g : Stage) → joined (printed (woken (printed (woken (stopped g))))) ≡ off
comes_off off = refl
comes_off running = refl
comes_off reading = refl
comes_off ending = refl
comes_off late = refl
comes_off final = refl
comes_off over = refl

module _ (line line' : Line) (g : Stage) (m : Monitor) (v : IsAt g m) where
  ends-IsAt : IsAt off (run (ending_events line line') m)
  unfolding run
  ends-IsAt =
      subst (λ s. IsAt s (run (ending_events line line') m)) (comes_off g)
        (join-IsAt _ _ (
          print-IsAt line' _ _
            (wake-IsAt _ _ (print-IsAt line _ _ (wake-IsAt _ _ (stop-IsAt g m v))))))

-- Take any calls of StartMonitor, each at a moment when there is no event, and of StopMonitor,
-- with any results of CreateEvent, and the waits and lines of MonitorLoop between them in any
-- order. When StopMonitor is called then, or was called already, and the loop goes through the
-- rest of the round that it is in and one round more, the thread has been joined, there is no
-- event, each handle that was opened has been closed, and at most two lines more have been
-- printed; and no thread was assigned to one that is joinable.
pub run-IsGone :
    (es : List Event) (line line' : Line)
    → OneAtATime es initial
    → IsGone (run (ending_events line line') (run es initial))
      × (length (run (ending_events line line') (run es initial)).lines
          ≤ length (run es initial).lines + 2)
unfolding run
run-IsGone es line line' ok =
    let m = run es initial in
    let (g, v) = run-IsAt es off initial (parts-IsAt refl refl refl refl refl) ok in
    (gone (run (ending_events line line') m) (ends-IsAt line line' g m v), ends-Within line line' m)
