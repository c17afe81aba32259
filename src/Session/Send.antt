-- ===== src/Session/Send.antt =====
-- The sending side of `SessionData` (`InsertSendQueue`, `Send` and `CheckSendComplete` of
-- jhshin_Server/jhshin_Server/SessionData.cpp) and `SendObject::Execute`
-- (jhshin_Server/jhshin_Server/IOCP.cpp), called by any threads at once. What stands between two
-- locks or calls of the system is one section. An activity is a thread inside `Send` or
-- `CheckSendComplete` that has still something to do there, or a `WSASend` whose completion has not
-- been handled. Behind a `WSASend` that was accepted `Send` only returns: it reads and writes nothing
-- that another thread has, so the thread is no activity from there on.
pub mod Order
use jhshin_server.Common.{
  ℕ, zero, suc, ◌+◌, Bool, true, false, List, [], ◌∷◌, ◌++◌, Option, none, some, if◌then◌else◌,
}

-- What an activity does next.
pub data Phase : Type 0 where
  -- `m_Send.Clear()` at the top of `Send`
  clears : Phase
  -- the first lock of `Send`: the queue goes into `m_Send`
  drains : Phase
  -- the second lock of `Send`: is `m_Send` empty?
  looks : Phase
  -- the call of `WSASend`
  posts : Phase
  -- `WSASend` has failed: `m_Send.Clear()`, and then the lock
  gives_up : Phase
  lowers : Phase
  -- `WSASend` is under way; its completion calls `SendObject::Execute`
  waits : Phase
  -- the lock of `CheckSendComplete`
  checks : Phase

-- The fields of `SessionData`, with `m_SendChunks` of `m_Send`. `given` is all that was handed to
-- `WSASend`, in order, `refusals` how often that failed at once, and `failures` how often a `WSASend`
-- completed without success.
pub record SendSide (C : Type 0) : Type 0 where
  pub send_queue : List C
  pub send : List C
  pub send_flag : Bool
  pub given : List C
  pub refusals : ℕ
  pub failures : ℕ

abbrev pub is_empty {ℓ} : {A : Type ℓ} → List A → Bool
is_empty [] = true
is_empty (x ∷ xs) = false

abbrev pub ahead : Option Phase → List Phase → List Phase
ahead none ps = ps
ahead (some p) ps = p ∷ ps

-- A call of `InsertSendQueue`, or a section of an activity.
pub data Event (C : Type 0) : Type 0 where
  insert : C → Event C
  goes_on : ℕ → Bool → Event C

module _ {C : Type 0} where
  -- `InsertSendQueue`, and whether the caller goes on into `Send`.
  unfoldable pub insert_send_queue : C → SendSide C → SendSide C × Bool
  insert_send_queue chunk s =
      if s.send_flag
      then (record s { send_queue = s.send_queue ++ chunk ∷ [] }, false)
      else (record s { send_queue = s.send_queue ++ chunk ∷ []; send_flag = true }, true)

  -- `SendObject::Clear`.
  abbrev pub clear_send : SendSide C → SendSide C
  clear_send s = record s { send = [] }

  -- The loop of `Send` under its first lock.
  abbrev pub drain : SendSide C → SendSide C
  drain s = record s { send = s.send ++ s.send_queue; send_queue = [] }

  abbrev pub lower_flag : SendSide C → SendSide C
  lower_flag s = record s { send_flag = false }

  -- The second lock of `Send`.
  abbrev pub look : SendSide C → SendSide C × Option Phase
  look s = if is_empty s.send then (lower_flag s, none) else (s, some posts)

  -- `WSASend`, accepted or failed.
  abbrev pub post : Bool → SendSide C → SendSide C × Option Phase
  post true s = (record s { given = s.given ++ s.send }, some waits)
  post false s = (record s { given = s.given ++ s.send; refusals = s.refusals + 1 }, some gives_up)

  -- `SendObject::Execute`, and the failed completion in `IOCP::Worker`: there nobody goes on, and
  -- the flag stays up.
  abbrev pub execute : Bool → SendSide C → SendSide C × Option Phase
  execute true s = (clear_send s, some checks)
  execute false s = (record (clear_send s) { failures = s.failures + 1 }, none)

  -- `CheckSendComplete`.
  abbrev pub check_send_complete : SendSide C → SendSide C × Option Phase
  check_send_complete s = if is_empty s.send_queue then (lower_flag s, none) else (s, some clears)

  -- One section of an activity and what it does next. `ok` is the answer of the system: did
  -- `WSASend` accept, did bytes go out?
  unfoldable pub section : Bool → Phase → SendSide C → SendSide C × Option Phase
  section ok clears s = (clear_send s, some drains)
  section ok drains s = (drain s, some looks)
  section ok looks s = look s
  section ok posts s = post ok s
  section ok gives_up s = (clear_send s, some lowers)
  section ok lowers s = (lower_flag s, none)
  section ok waits s = execute ok s
  section ok checks s = check_send_complete s

  -- The next section of one of the activities.
  unfoldable pub turn : ℕ → Bool → List Phase → SendSide C → SendSide C × List Phase
  unfolding section
  turn i ok [] s = (s, [])
  turn zero ok (p ∷ ps) s = let (s', next) = section ok p s in (s', ahead next ps)
  turn (suc i) ok (p ∷ ps) s = let (s', ps') = turn i ok ps s in (s', p ∷ ps')

  unfoldable pub step : Event C → SendSide C × List Phase → SendSide C × List Phase
  unfolding insert_send_queue turn
  step (insert chunk) (s, ps) =
      let (s', sends) = insert_send_queue chunk s in (s', if sends then clears ∷ ps else ps)
  step (goes_on i ok) (s, ps) = turn i ok ps s

  -- Events in the order in which they happen.
  unfoldable pub run : List (Event C) → SendSide C × List Phase → SendSide C × List Phase
  unfolding step
  run [] x = x
  run (e ∷ es) x = run es (step e x)

  -- After `Reset` on a new session.
  abbrev pub fresh : SendSide C × List Phase
  fresh = (
    record {
      send_queue = [];
      send = [];
      send_flag = false;
      given = [];
      refusals = 0;
      failures = 0;
    },
    [],
  )

  abbrev pub inserted : List (Event C) → List C
  inserted [] = []
  inserted (insert chunk ∷ es) = chunk ∷ inserted es
  inserted (goes_on i ok ∷ es) = inserted es
