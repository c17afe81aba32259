-- ===== src/Acceptance.antt =====
-- How the server keeps accepting: `SessionManager::PopSession`, `PushSession`, `InsertWait`,
-- `ReWaiting` and `ClearWaitQueue` (jhshin_Server/jhshin_Server/SessionManager.cpp),
-- `ListenManager::Accept`, `Error` and `Shutdown` (jhshin_Server/jhshin_Server/ListenManager.cpp)
-- and `AcceptObject::Execute` (jhshin_Server/jhshin_Server/IOCP.cpp). The calls of several threads
-- interleave between the sections that a lock, the pool or a flag makes atomic; a phase names the
-- section that a thread comes to next. Accept objects and sessions are named by their addresses.
pub mod Threads
mod Sections
pub mod Wakeup
pub mod Holders
use jhshin_server.Common.{
  ℕ, zero, suc, ◌+◌, ◌-◌, Bool, true, false, List, [], ◌∷◌, ◌++◌, Option, none, some, get_elem?,
  if◌then◌else◌,
}
use jhshin_server.ObjectPool.{ObjectPool, modify, init_object_pool, pop, push, empty}
use jhshin_server.Acceptance.Threads.{top, advance, without}

pub data Phase : Type 0 where
  -- `ReWaiting`: the test of `IsStopped`, the first lock, `PopSession`, the second lock with the
  -- session in hand
  rechecks : Phase
  looks : Phase
  pops : Phase
  takes : ℕ → Phase
  -- `PushSession`, when the last reference to a session goes
  drops : ℕ → Phase
  -- `Accept( acceptObject, false )` with its session, and `Accept( acceptObject )`, at the test of
  -- `m_Stop`
  accepts : ℕ → ℕ → Phase
  enters : ℕ → Phase
  -- then `PopSession`, `AcceptEx`, `InsertWait`
  pops_for : ℕ → Phase
  posts : ℕ → ℕ → Phase
  inserts : ℕ → Phase
  -- `Error` behind `Clear`, at the test of `m_Stop`
  rearms : ℕ → Phase

-- `posted`: accept objects that `AcceptEx` has taken, with their sessions; `refused`: those that
-- it has not taken, with the sessions that they keep; `serving`: sessions that connections hold;
-- `retired`: accept objects that are not used again.
pub record Accepting (T : Type 0) : Type 0 where
  pub stopped : Bool
  pub wait_queue : List ℕ
  pub pool : ObjectPool T
  pub posted : List (ℕ × ℕ)
  pub refused : List (ℕ × ℕ)
  pub serving : List ℕ
  pub retired : List ℕ

-- What the completion of an `AcceptEx` comes to: the connection holds the session; it does not,
-- since `RecvStart` fails; or the accept failed and `Error` is called.
pub data Completion : Type 0 where
  served : Completion
  not_served : Completion
  error : Completion

-- What happens next: the top section of a thread, with `AcceptEx` taking its request or not; a
-- new accept object (`Accept( acceptCount )`); the completion of a posted one; the end of a
-- connection's references to its session; `Shutdown`; `ClearWaitQueue`.
pub data Event : Type 0 where
  goes_on : ℕ → Bool → Event
  starts : ℕ → Event
  completes : ℕ → Completion → Event
  leaves : ℕ → Event
  stops : Event
  clears : Event

abbrev pub System : Type 0 → Type 0
System T = Accepting T × List (List Phase)

-- `reset` is `SessionData::Reset`.
module _ {T : Type 0} (reset : T → T) where
  -- `PushSession` up to `ReWaiting`: `Reset`, and `Push` of the pool.
  unfoldable pub give_back : ℕ → ObjectPool T → ObjectPool T
  give_back session p =
      (push reset session (record p { storage = modify reset (session - p.base) p.storage })).0

  -- `PopSession`, and what is done with a session and without.
  pub with_session :
      (ℕ → List Phase)
      → List Phase
      → Accepting T
      → ObjectPool T × Option ℕ
      → Accepting T × List Phase
  with_session found missing a (p, none) = (record a { pool = p }, missing)
  with_session found missing a (p, some session) = (record a { pool = p }, found session)

  -- The first lock of `ReWaiting`.
  pub look : List ℕ → List Phase
  look [] = []
  look (object ∷ queue) = pops ∷ []

  -- The second lock of `ReWaiting`: if the queue has become empty, the session goes.
  pub take_waiting : ℕ → List ℕ → Accepting T → Accepting T × List Phase
  take_waiting session [] a = (a, drops session ∷ [])
  take_waiting session (object ∷ queue) a =
      (record a { wait_queue = queue }, accepts object session ∷ [])

  pub retire : ℕ → Accepting T → Accepting T
  retire object a = record a { retired = object ∷ a.retired }

  -- `Accept( acceptObject, false )` up to `AcceptEx`: `ReWaiting` lets go of its session if the
  -- accept object does not keep it.
  pub accept_with : ℕ → ℕ → Accepting T → Accepting T × List Phase
  unfolding retire
  accept_with object session a =
      if a.stopped then (retire object a, drops session ∷ []) else (a, posts object session ∷ [])

  -- `Accept( acceptObject )` up to `PopSession`.
  pub accept_anew : ℕ → Accepting T → Accepting T × List Phase
  unfolding retire
  accept_anew object a = if a.stopped then (retire object a, []) else (a, pops_for object ∷ [])

  -- `AcceptEx`; whether it took the request is not looked at.
  pub post : Bool → ℕ → ℕ → Accepting T → Accepting T × List Phase
  post ok object session a =
      if ok
      then (record a { posted = (object, session) ∷ a.posted }, [])
      else (record a { refused = (object, session) ∷ a.refused }, [])

  -- `InsertWait` up to `ReWaiting`.
  pub insert_wait : ℕ → Accepting T → Accepting T × List Phase
  insert_wait object a = (record a { wait_queue = a.wait_queue ++ object ∷ [] }, rechecks ∷ [])

  -- `Error` behind `Clear`.
  pub rearm : ℕ → Accepting T → Accepting T × List Phase
  unfolding retire
  rearm object a = if a.stopped then (retire object a, []) else (a, enters object ∷ [])

  -- One section of a thread, and what the thread does next.
  pub section : Bool → Phase → Accepting T → Accepting T × List Phase
  unfolding with_session look take_waiting accept_with accept_anew post insert_wait rearm
  section ok rechecks a = if a.stopped then (a, []) else (a, looks ∷ [])
  section ok looks a = (a, look a.wait_queue)
  section ok pops a = with_session (λ session. takes session ∷ []) [] a (pop a.pool)
  section ok (takes session) a = take_waiting session a.wait_queue a
  section ok (drops session) a = (record a { pool = give_back session a.pool }, rechecks ∷ [])
  section ok (accepts object session) a = accept_with object session a
  section ok (enters object) a = accept_anew object a
  section ok (pops_for object) a =
      with_session (λ session. posts object session ∷ []) (inserts object ∷ []) a (pop a.pool)
  section ok (posts object session) a = post ok object session a
  section ok (inserts object) a = insert_wait object a
  section ok (rearms object) a = rearm object a

  -- `AcceptObject::Execute` and the failed completion in `IOCP::Worker`: what the session becomes,
  -- and the thread.
  pub completed : Completion → ℕ → ℕ → Accepting T → Accepting T × List Phase
  completed served object session a =
      (record a { serving = session ∷ a.serving }, enters object ∷ [])
  completed not_served object session a = (a, drops session ∷ enters object ∷ [])
  completed error object session a = (a, drops session ∷ rearms object ∷ [])

  -- `ClearWaitQueue`: `swap`, and `Clear` of each accept object.
  pub clear_wait_queue : Accepting T → Accepting T
  clear_wait_queue a = record a { wait_queue = []; retired = a.wait_queue ++ a.retired }

  pub go_on : ℕ → Bool → Option Phase → System T → System T
  unfolding section
  go_on i ok none x = x
  go_on i ok (some p) (a, ts) = let (a', next) = section ok p a in (a', advance i next ts)

  pub complete : ℕ → Completion → Option (ℕ × ℕ) → System T → System T
  unfolding completed
  complete i result none x = x
  complete i result (some (object, session)) (a, ts) =
      let (a', thread) =
        completed result object session (record a { posted = without i a.posted }) in
      (a', thread ∷ ts)

  pub leave : ℕ → Option ℕ → System T → System T
  leave i none x = x
  leave i (some session) (a, ts) =
      (record a { serving = without i a.serving }, (drops session ∷ []) ∷ ts)

  pub step : Event → System T → System T
  unfolding go_on complete leave clear_wait_queue
  step (goes_on i ok) (a, ts) = go_on i ok (top i ts) (a, ts)
  step (starts object) (a, ts) = (a, (enters object ∷ []) ∷ ts)
  step (completes i result) (a, ts) = complete i result (get_elem? a.posted i) (a, ts)
  step (leaves i) (a, ts) = leave i (get_elem? a.serving i) (a, ts)
  step stops (a, ts) = (record a { stopped = true }, ts)
  step clears (a, ts) = (clear_wait_queue a, ts)

  -- Events in the order in which they happen.
  unfoldable pub run : List Event → System T → System T
  unfolding step
  run [] x = x
  run (e ∷ es) x = run es (step e x)

  -- After `SessionManager::Initialize( sessionCount )`: `base` and `fresh` are the storage's
  -- address and a new session.
  unfoldable pub initial : ℕ → T → ℕ → System T
  initial base fresh session_count = (
    record {
      stopped = false;
      wait_queue = [];
      pool = init_object_pool base fresh session_count empty;
      posted = [];
      refused = [];
      serving = [];
      retired = [];
    },
    [],
  )
