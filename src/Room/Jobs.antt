-- ===== src/Room/Jobs.antt =====
-- `JobQueue` of jhshin_Server/jhshin_Server/JobQueue.h and JobQueue.cpp, the jobs of JobObject.h and
-- JobObject.cpp, and `Room::StartJob`, `PushJob` and `Stop` of Room.cpp. A call of the queue is one
-- step: it holds the lock. How long `PopAll` waits is not modelled, only what it then finds.
pub mod Ids
pub mod Loop
use jhshin_server.Common.{
  ℕ, zero, suc, ◌+◌, Bool, true, false, not, List, [], ◌∷◌, ◌++◌, length, Option, none, some, leb,
  if◌then◌else◌,
}
use jhshin_server.Message.Float.{Float}
use jhshin_server.Room.{Room, Server}
use jhshin_server.Room.Enter.{enter}
use jhshin_server.Room.Leave.{leave, broad_cast}
use jhshin_server.Room.Motion.{move}
use jhshin_server.Room.Outgoing.{Net}
use jhshin_server.Room.Tick.{move_check_users}

-- The classes derived from `JobObject`, with `m_session` and their own fields.
pub data Job (F : Type 0) : Type 0 where
  broadcast_job : Option ℕ → List ℕ → Job F
  enter_job : Option ℕ → Job F
  leave_job : Option ℕ → Job F
  move_job : Option ℕ → F → F → Job F

-- `GetSession`.
abbrev pub session_of : {F : Type 0} → Job F → Option ℕ
session_of (broadcast_job s text) = s
session_of (enter_job s) = s
session_of (leave_job s) = s
session_of (move_job s x y) = s

pub record JobQueue (F : Type 0) : Type 0 where
  pub job_queue : List (Job F)
  pub stop : Bool

module _ {F : Type 0} where
  unfoldable pub push : Job F → JobQueue F → JobQueue F
  push job q = record q { job_queue = q.job_queue ++ job ∷ [] }

  unfoldable pub stop_queue : JobQueue F → JobQueue F
  stop_queue q = record q { stop = true }

  -- `PopAll` into an empty queue: the jobs are swapped out, and `m_Stop` is returned.
  unfoldable pub pop_all : JobQueue F → JobQueue F × List (Job F) × Bool
  pop_all q = (record q { job_queue = [] }, q.job_queue, q.stop)

-- `const int MinMoveTick`.
abbrev pub min_move_tick : ℕ
min_move_tick = 100

module _ (float : Float) {net : Net} where
  open float use {F}

  -- `JobObject::Dispatch`, at a tick.
  unfoldable pub dispatch : ℕ → Job F → Room F × Server net → Room F × Server net
  dispatch now (broadcast_job s text) (room, sv) = (room, broad_cast s text room sv)
  dispatch now (enter_job s) (room, sv) = enter float s room sv
  dispatch now (leave_job s) (room, sv) = leave s room sv
  dispatch now (move_job s x y) (room, sv) = (move float s x y now sv room, sv)

  -- The jobs one by one. `clock i` is the tick after `i` of them.
  unfoldable pub run_jobs : (ℕ → ℕ) → ℕ → List (Job F) → Room F × Server net → Room F × Server net
  unfolding dispatch
  run_jobs clock i [] r = r
  run_jobs clock i (job ∷ jobs) r = run_jobs clock (suc i) jobs (dispatch (clock i) job r)

  -- The tick, if `MinMoveTick` has passed since the last.
  unfoldable pub tick : ℕ → Room F × Server net → Room F × Server net
  tick now (room, sv) =
      if leb (room.last_tick + min_move_tick) now
      then move_check_users float now (record room { last_tick = now }) sv
      else (room, sv)

  -- One round of the room's thread, and whether there is another.
  unfoldable pub start_job :
      (ℕ → ℕ) → JobQueue F → Room F × Server net → JobQueue F × (Room F × Server net) × Bool
  unfolding pop_all run_jobs tick
  start_job clock q r =
      let (q', jobs, stop) = pop_all q in
      (q', tick (clock (length jobs)) (run_jobs clock 0 jobs r), not stop)
