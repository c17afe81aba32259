-- ===== src/Worker/Stopping.antt =====
-- The threads of a completion port and their end: `Worker`, `Start` and `Stop` of
-- jhshin_Server/jhshin_Server/IOCP.cpp.
pub mod Threads
pub mod WindingDown
pub mod LeftBehind
use jhshin_server.Common.{
  ℕ, zero, suc, ◌+◌, Bool, true, false, List, [], ◌∷◌, ◌++◌, replicate, length, Option, none, some,
  get_elem?, set, if◌then◌else◌,
}

-- Where a thread is in `Worker`: before the test of `m_Stop`, in `GetQueuedCompletionStatus`, with a
-- completion of an object, or behind the loop.
pub data Status : Type 0 where
  tests : Status
  waits : Status
  handles : Status
  ended : Status

-- A completion with a null pointer, as `Stop` posts it, or of an object.
pub data Queued : Type 0 where
  null : Queued
  object : Queued

-- `to_post` are the calls of `PostQueuedCompletionStatus` that `Stop` has before it.
pub record Port : Type 0 where
  pub stop : Bool
  pub queue : List Queued
  pub to_post : ℕ
  pub threads : List Status

-- A completion of an object comes; `Stop` is called; it posts once; a thread goes on.
pub data Event : Type 0 where
  completes : Event
  stops : Event
  posts : Event
  goes : ℕ → Event

unfoldable pub post : ℕ → Port → Port
post zero p = p
post (suc n) p = record p { queue = p.queue ++ null ∷ []; to_post = n }

-- What a thread takes from the port, the first completion; with none it stays.
unfoldable pub take_queued : ℕ → List Queued → Port → Port
take_queued i [] p = p
take_queued i (null ∷ queue) p = record p { queue = queue; threads = set p.threads i tests }
take_queued i (object ∷ queue) p = record p { queue = queue; threads = set p.threads i handles }

unfoldable pub go : ℕ → Option Status → Port → Port
unfolding take_queued
go i none p = p
go i (some tests) p = record p { threads = set p.threads i (if p.stop then ended else waits) }
go i (some waits) p = take_queued i p.queue p
go i (some handles) p = record p { threads = set p.threads i tests }
go i (some ended) p = p

unfoldable pub step : Event → Port → Port
unfolding post go
step completes p = record p { queue = p.queue ++ object ∷ [] }
step stops p = record p { stop = true; to_post = p.to_post + length p.threads }
step posts p = post p.to_post p
step (goes i) p = go i (get_elem? p.threads i) p

unfoldable pub run : List Event → Port → Port
unfolding step
run [] p = p
run (e ∷ es) p = run es (step e p)

-- `Start`, with so many threads.
abbrev pub started : ℕ → Port
started n = record { stop = false; queue = []; to_post = 0; threads = replicate n tests }
