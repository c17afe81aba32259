-- ===== src/ServiceManager/Monitor.antt =====
-- The monitor of `ServiceManager` (jhshin_Server/jhshin_Server/ServiceManager.cpp): `StartMonitor`
-- and `StopMonitor`, which the thread of `main` calls, beside
-- `MonitorLoop`, whose wait and whose printing are steps of their own.
pub mod Ends
pub mod Printed
use jhshin_server.Common.{
  ℕ, zero, suc, ◌+◌, Bool, true, false, List, [], ◌∷◌, ◌++◌, Option, none, some, if◌then◌else◌,
}
use jhshin_server.Common.Int.{ℤ, pos, negsuc}

-- `m_MonitorThread`: not joinable; in `WaitForSingleObject`, or before it; behind it, with whether
-- the event was signalled; or returned.
pub data Thread : Type 0 where
  not_joinable : Thread
  waits : Thread
  prints : Bool → Thread
  returned : Thread

-- What a round reads and prints, less the use of the CPU.
pub record Line : Type 0 where
  pub conn_count : ℕ
  pub session_free : ℕ
  pub session_max : ℕ
  pub chunk_free : ℕ
  pub chunk_max : ℕ

-- `monitor_stop` is null, or an event that is signalled or not; `stopping`: `main` is in
-- `StopMonitor` behind `SetEvent`; `aborted`: a thread was assigned to one that is joinable, which
-- ends the program. `opened` and `closed` count the handles.
pub record Monitor : Type 0 where
  pub monitor_stop : Option Bool
  pub monitor_thread : Thread
  pub stopping : Bool
  pub aborted : Bool
  pub opened : ℕ
  pub closed : ℕ
  pub lines : List Line

abbrev pub initial : Monitor
initial = record {
  monitor_stop = none;
  monitor_thread = not_joinable;
  stopping = false;
  aborted = false;
  opened = 0;
  closed = 0;
  lines = [];
}

-- `StartMonitor`, with whether `CreateEvent` succeeds; `StopMonitor` up to `SetEvent`; the rest of
-- it; the end of the wait in `MonitorLoop`; the line that it then prints, with the test behind it.
pub data Event : Type 0 where
  starts : ℤ → Bool → Event
  stops : Event
  joins : Event
  wakes : Event
  reads : Line → Event

-- `m_MonitorThread = thread( ... )`.
unfoldable pub assign_thread : Thread → Monitor → Monitor
assign_thread not_joinable m = record m { monitor_thread = waits }
assign_thread waits m = record m { aborted = true }
assign_thread (prints last) m = record m { aborted = true }
assign_thread returned m = record m { aborted = true }

unfoldable pub create_event : Bool → Monitor → Monitor
unfolding assign_thread
create_event false m = record m { monitor_stop = none }
create_event true m =
    assign_thread m.monitor_thread (record m { monitor_stop = some false; opened = m.opened + 1 })

unfoldable pub start_monitor : ℤ → Bool → Monitor → Monitor
unfolding create_event
start_monitor (pos (suc n)) created m = create_event created m
start_monitor (pos zero) created m = m
start_monitor (negsuc n) created m = m

-- The test of `m_MonitorStop`, and `SetEvent`.
unfoldable pub set_event : Option Bool → Monitor → Monitor
set_event none m = m
set_event (some signalled) m = record m { monitor_stop = some true; stopping = true }

abbrev close_handle : Monitor → Monitor
close_handle m = record m {
  monitor_stop = none;
  monitor_thread = not_joinable;
  stopping = false;
  closed = m.closed + 1;
}

-- `join` waits for the thread to return, if it is joinable; `CloseHandle` follows.
unfoldable pub join_monitor : Thread → Monitor → Monitor
join_monitor not_joinable m = close_handle m
join_monitor waits m = m
join_monitor (prints last) m = m
join_monitor returned m = close_handle m

-- `WaitForSingleObject`: it ends at once if the event is signalled, else when the time is over.
unfoldable pub end_wait : Option Bool → Monitor → Monitor
end_wait none m = m
end_wait (some signalled) m = record m { monitor_thread = prints signalled }

unfoldable pub monitor_wait : Thread → Monitor → Monitor
unfolding end_wait
monitor_wait not_joinable m = m
monitor_wait waits m = end_wait m.monitor_stop m
monitor_wait (prints last) m = m
monitor_wait returned m = m

-- The rest of a round: a line, and the test of what the wait has found.
unfoldable pub monitor_print : Line → Thread → Monitor → Monitor
monitor_print line not_joinable m = m
monitor_print line waits m = m
monitor_print line (prints last) m = record m {
  lines = m.lines ++ line ∷ [];
  monitor_thread = if last then returned else waits;
}
monitor_print line returned m = m

unfoldable pub go_on : Event → Monitor → Monitor
unfolding start_monitor set_event join_monitor monitor_wait monitor_print
go_on (starts interval created) m = if m.stopping then m else start_monitor interval created m
go_on stops m = if m.stopping then m else set_event m.monitor_stop m
go_on joins m = if m.stopping then join_monitor m.monitor_thread m else m
go_on wakes m = monitor_wait m.monitor_thread m
go_on (reads line) m = monitor_print line m.monitor_thread m

unfoldable pub step : Event → Monitor → Monitor
unfolding go_on
step e m = if m.aborted then m else go_on e m

unfoldable pub run : List Event → Monitor → Monitor
unfolding step
run [] m = m
run (e ∷ es) m = run es (step e m)
