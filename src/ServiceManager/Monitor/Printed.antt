-- ===== src/ServiceManager/Monitor/Printed.antt =====
-- How much a monitor prints (jhshin_Server/jhshin_Server/ServiceManager.cpp).
use jhshin_server.Common.{
  ℕ, ◌+◌, ◌≤◌, Bool, true, false, List, [], ◌∷◌, length, length-append, Option, none, some,
  if◌then◌else◌, arith,
}
use jhshin_server.ServiceManager.Monitor.{
  Thread, not_joinable, waits, prints, returned, Line, Monitor, Event, stops, joins, wakes, reads,
  set_event, join_monitor, end_wait, monitor_wait, monitor_print, go_on, step, run,
}

-- `StopMonitor`, with the rest of the round that the loop is in, and one round more.
abbrev pub ending_events : Line → Line → List Event
ending_events line line' = stops ∷ wakes ∷ reads line ∷ wakes ∷ reads line' ∷ joins ∷ []

-- At most so many lines more.
abbrev pub Within : ℕ → Monitor → Monitor → Type 0
Within n m m' = length m'.lines ≤ length m.lines + n

if-Within :
    (n : ℕ) (b : Bool) (m x y : Monitor)
    → Within n m x
    → Within n m y
    → Within n m (if b then x else y)
if-Within n true m x y p q = p
if-Within n false m x y p q = q

same-Within : (m : Monitor) → Within 0 m m
same-Within m = omega arith

stop-Within : (m : Monitor) → Within 0 m (step stops m)
unfolding step go_on set_event
stop-Within m =
    if-Within 0 m.aborted m _ _ (same-Within m)
      (if-Within 0 m.stopping m _ _ (same-Within m) (go m.monitor_stop))
  where
    go : (o : Option Bool) → Within 0 m (set_event o m)
    go none = same-Within m
    go (some signalled) = omega arith

join-Within : (m : Monitor) → Within 0 m (step joins m)
unfolding step go_on join_monitor
join-Within m =
    if-Within 0 m.aborted m _ _ (same-Within m)
      (if-Within 0 m.stopping m _ _ (go m.monitor_thread) (same-Within m))
  where
    go : (t : Thread) → Within 0 m (join_monitor t m)
    go not_joinable = omega arith
    go waits = same-Within m
    go (prints last) = same-Within m
    go returned = omega arith

wake-Within : (m : Monitor) → Within 0 m (step wakes m)
unfolding step go_on monitor_wait end_wait
wake-Within m = if-Within 0 m.aborted m _ _ (same-Within m) (go m.monitor_thread)
  where
    ended : (o : Option Bool) → Within 0 m (end_wait o m)
    ended none = same-Within m
    ended (some signalled) = omega arith

    go : (t : Thread) → Within 0 m (monitor_wait t m)
    go not_joinable = same-Within m
    go waits = ended m.monitor_stop
    go (prints last) = same-Within m
    go returned = same-Within m

print-Within : (line : Line) (m : Monitor) → Within 1 m (step (reads line) m)
unfolding step go_on monitor_print
print-Within line m = if-Within 1 m.aborted m _ _ (omega arith) (go m.monitor_thread)
  where
    go : (t : Thread) → Within 1 m (monitor_print line t m)
    go not_joinable = omega arith
    go waits = omega arith
    go (prints last) = omega (arith, length-append m.lines (line ∷ []))
    go returned = omega arith

pub ends-Within : (line line' : Line) (m : Monitor) → Within 2 m (run (ending_events line line') m)
unfolding run
ends-Within line line' m =
    let m1 = step stops m in
    let m2 = step wakes m1 in
    let m3 = step (reads line) m2 in
    let m4 = step wakes m3 in
    let m5 = step (reads line') m4 in
    omega (
      arith,
      stop-Within m,
      wake-Within m1,
      print-Within line m2,
      wake-Within m3,
      print-Within line' m4,
      join-Within m5,
    )
