-- ===== src/RoomManager/Routing.antt =====
-- Where `PushJobByRooms` (jhshin_Server/jhshin_Server/RoomManager.cpp) puts a job.
use jhshin_server.Common.{
  ℕ, zero, suc, ◌≡◌, sym, Bool, true, false, not, ◌&&◌, ◌||◌, List, [], ◌∷◌, ◌++◌, length,
  append-nil, Option, none, some, ltb, ◌==◌, if◌then◌else◌, arith,
}
use jhshin_server.Common.Int.{ℤ, pos, negsuc}
use jhshin_server.ObjectPool.{modify}
use jhshin_server.Room.{Server}
use jhshin_server.Room.Jobs.{Job, push, session_of}
use jhshin_server.Room.Outgoing.{Net}
use jhshin_server.RoomManager.{
  Hosted, RoomManager, push_job, is_outside, push_at, close_session, push_job_by_rooms,
}

-- Who is closed.
abbrev pub closing : Option ℕ → List ℕ
closing none = []
closing (some s) = s ∷ []

close_session-closed :
    {net : Net} (s : Option ℕ) (sv : Server net)
    → net.closed (close_session s sv).state ≡ net.closed sv.state ++ closing s
unfolding close_session
close_session-closed {net} none sv = sym (append-nil (net.closed sv.state))
close_session-closed {net} (some s) sv = net.closed-close s sv.state

module _ {F : Type 0} where
  -- The jobs that wait in a room, if there is one of that number.
  abbrev pub jobs_at : ℕ → List (Hosted F) → List (Job F)
  jobs_at j [] = []
  jobs_at zero (h ∷ hs) = h.job_queue.job_queue
  jobs_at (suc j) (h ∷ hs) = jobs_at j hs

  -- Is it the room that takes a job for an index?
  abbrev pub takes : ℤ → ℕ → RoomManager F → Bool
  takes (pos i) j m = not m.stop && (i == j && ltb j (length m.rooms))
  takes (negsuc i) j m = false

  -- A job that no room takes costs its session the connection.
  abbrev pub dropped : ℤ → RoomManager F → Bool
  dropped (pos i) m = m.stop || not (ltb i (length m.rooms))
  dropped (negsuc i) m = true

  jobs_at-modify :
      (job : Job F) (i j : ℕ) (hs : List (Hosted F))
      → jobs_at j (modify (push_job job) i hs)
        ≡ (if i == j && ltb j (length hs) then jobs_at j hs ++ job ∷ [] else jobs_at j hs)
  unfolding push_job push
  jobs_at-modify job i j [] = ground arith
  jobs_at-modify job zero zero (h ∷ hs) = ground arith
  jobs_at-modify job zero (suc j) (h ∷ hs) = ground arith
  jobs_at-modify job (suc i) zero (h ∷ hs) = ground arith
  jobs_at-modify job (suc i) (suc j) (h ∷ hs) = ground (arith, jobs_at-modify job i j hs)

  module _ {net : Net} where
    -- `PushJobByRooms` puts a job at the end of the queue of the room with that index, if there
    -- is one and the rooms are not stopped, and changes no other queue; otherwise no queue
    -- changes and the job's session, if it has one, is closed.
    pub push_job_by_rooms-jobs :
        (job : Job F) (index : ℤ) (j : ℕ) (m : RoomManager F) (sv : Server net)
        → let (m', sv') = push_job_by_rooms job index (m, sv) in
          (jobs_at j m'.rooms
            ≡ (if takes index j m then jobs_at j m.rooms ++ job ∷ [] else jobs_at j m.rooms))
          × (net.closed sv'.state ≡ (
              if dropped index m
              then net.closed sv.state ++ closing (session_of job)
              else net.closed sv.state))
    unfolding push_job_by_rooms is_outside push_at
    push_job_by_rooms-jobs job (pos i) j m sv =
        ground (arith, jobs_at-modify job i j m.rooms, close_session-closed (session_of job) sv)
    push_job_by_rooms-jobs job (negsuc i) j m sv =
        ground (arith, close_session-closed (session_of job) sv)
