-- ===== src/Room/Jobs/Loop.antt =====
-- The thread of a room, `RoomManager::Work` (jhshin_Server/jhshin_Server/RoomManager.cpp), beside those
-- that push jobs and the one that stops the room: each call of the queue is one step, and they come
-- in any order.
pub mod Drained
use jhshin_server.Common.{ℕ, Bool, true, false, List, [], ◌∷◌, ◌++◌, if◌then◌else◌}
use jhshin_server.Message.Float.{Float}
use jhshin_server.Room.{Room, Server}
use jhshin_server.Room.Jobs.{Job, JobQueue, push, stop_queue, start_job}
use jhshin_server.Room.Outgoing.{Net}

-- `running`: has `Work` not returned? The source does not keep the lists: all jobs that were pushed,
-- and those of them that came before `Stop`, in order.
pub record Loop (F : Type 0) (N : Net) : Type 0 where
  pub queue : JobQueue F
  pub room : Room F × Server N
  pub running : Bool
  pub pushed : List (Job F)
  pub in_time : List (Job F)

-- `PushJob`, `Stop`, and one round of `Work` with the ticks that it reads.
pub data Event (F : Type 0) : Type 0 where
  pushes : Job F → Event F
  stops : Event F
  works : (ℕ → ℕ) → Event F

module _ (float : Float) {net : Net} where
  open float use {F}

  unfoldable pub push_job : Job F → Loop F net → Loop F net
  push_job job l = record l {
    queue = push job l.queue;
    pushed = l.pushed ++ job ∷ [];
    in_time = if l.queue.stop then l.in_time else l.in_time ++ job ∷ [];
  }

  -- `while( true ) { if( false == room->StartJob() ) return; }`, once.
  unfoldable pub work : (ℕ → ℕ) → Loop F net → Loop F net
  work clock l =
      let (q, r, goes_on) = start_job float clock l.queue l.room in
      record l { queue = q; room = r; running = goes_on }

  unfoldable pub step : Event F → Loop F net → Loop F net
  unfolding push_job work
  step (pushes job) l = push_job job l
  step stops l = record l { queue = stop_queue l.queue }
  step (works clock) l = if l.running then work clock l else l

  unfoldable pub run : List (Event F) → Loop F net → Loop F net
  unfolding step
  run [] l = l
  run (e ∷ es) l = run es (step e l)

-- The thread has just been started.
abbrev pub started : {F : Type 0} {net : Net} → Room F × Server net → Loop F net
started r = record {
  queue = record { job_queue = []; stop = false };
  room = r;
  running = true;
  pushed = [];
  in_time = [];
}
