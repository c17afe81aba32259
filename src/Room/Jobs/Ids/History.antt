-- ===== src/Room/Jobs/Ids/History.antt =====
-- A room from its constructor on (jhshin_Server/jhshin_Server/Room.h), through any rounds of its
-- thread (`Room::StartJob` in Room.cpp).
use jhshin_server.Common.{
  ℕ, zero, suc, ◌+◌, ◌≤◌, ◌≡◌, refl, ap, ◌&&◌, List, [], ◌∷◌, length, ltb, leb, if◌then◌else◌,
  arith, Bool-cases, inl, inr,
}
use jhshin_server.Message.Float.{Float}
use jhshin_server.Room.{Room, Server, first_seq_ids, new_room, max_room_user_count}
use jhshin_server.Room.Outgoing.{Net}
use jhshin_server.Room.UserMap.{IsSorted}
use jhshin_server.Room.Jobs.{
  Job, broadcast_job, enter_job, leave_job, move_job, JobQueue, pop_all, dispatch, run_jobs, tick,
  min_move_tick, start_job,
}
use jhshin_server.Room.Jobs.Ids.{count, held, Kept, Kept-refl, Kept-trans}
use jhshin_server.Room.Jobs.Ids.Steps.{enter-Kept, leave-Kept, move-Kept, move_check_users-Kept}

-- One round: the jobs that `PopAll` finds, and the clock.
pub record Round (F : Type 0) : Type 0 where
  pub queue : JobQueue F
  pub clock : ℕ → ℕ

module _ (float : Float) {net : Net} where
  open float use {F}

  pub rounds : List (Round F) → Room F × Server net → Room F × Server net
  rounds [] r = r
  rounds (x ∷ xs) r = rounds xs (start_job float x.clock x.queue r).1

  dispatch-Kept :
      (now : ℕ) (job : Job F) (room : Room F) (sv : Server net)
      → Kept room (dispatch float now job (room, sv)).0
  unfolding dispatch
  dispatch-Kept now (broadcast_job s text) room sv = Kept-refl room
  dispatch-Kept now (enter_job s) room sv = enter-Kept float s room sv
  dispatch-Kept now (leave_job s) room sv = leave-Kept float s room sv
  dispatch-Kept now (move_job s x y) room sv = move-Kept float s x y now sv room

  run_jobs-Kept :
      (clock : ℕ → ℕ) (i : ℕ) (jobs : List (Job F)) (room : Room F) (sv : Server net)
      → Kept room (run_jobs float clock i jobs (room, sv)).0
  unfolding run_jobs
  run_jobs-Kept clock i [] room sv = Kept-refl room
  run_jobs-Kept clock i (job ∷ jobs) room sv =
      let (room', sv') = dispatch float (clock i) job (room, sv) in
      Kept-trans (dispatch-Kept (clock i) job room sv) (run_jobs-Kept clock (suc i) jobs room' sv')

  tick-Kept : (now : ℕ) (room : Room F) (sv : Server net) → Kept room (tick float now (room, sv)).0
  unfolding tick
  tick-Kept now room sv = elim (Bool-cases (leb (room.last_tick + min_move_tick) now)) [
    | inl due ↦
        rw due (same_room (move_check_users-Kept float now (record room { last_tick = now }) sv))
    | inr early ↦ rw early (Kept-refl room)
  ]
    where
      same_room : {r : Room F} → Kept (record room { last_tick = now }) r → Kept room r
      same_room k = record { sorted = k.sorted; held_le = k.held_le; size_le = k.size_le }

  rounds-Kept :
      (xs : List (Round F)) (room : Room F) (sv : Server net) → Kept room (rounds xs (room, sv)).0
  unfolding rounds start_job pop_all
  rounds-Kept [] room sv = Kept-refl room
  rounds-Kept (x ∷ xs) room sv =
      let (room', sv') = run_jobs float x.clock 0 x.queue.job_queue (room, sv) in
      let now = x.clock (length x.queue.job_queue) in
      let (after, sv'') = tick float now (room', sv') in
      Kept-trans (run_jobs-Kept x.clock 0 x.queue.job_queue room sv)
        (Kept-trans (tick-Kept now room' sv') (rounds-Kept xs after sv''))

count-first_seq_ids :
    (i from n : ℕ)
    → count i (first_seq_ids from n) ≡ (if leb from i && ltb i (from + n) then 1 else 0)
count-first_seq_ids i from zero = ground arith
count-first_seq_ids i from (suc n) = ground (arith, count-first_seq_ids i (suc from) n)

length-first_seq_ids : (from n : ℕ) → length (first_seq_ids from n) ≡ n
length-first_seq_ids from zero = refl
length-first_seq_ids from (suc n) = ap suc (length-first_seq_ids (suc from) n)

≤-at : {a b c : ℕ} → a ≤ b → b ≡ c → a ≤ c
≤-at h e = omega (arith, h, e)

count-ids : (i n : ℕ) → count i (first_seq_ids 0 n) + 0 ≡ (if ltb i n then 1 else 0)
count-ids i n = ground (arith, count-first_seq_ids i 0 n)

new_room-IsSorted : (F : Type 0) → IsSorted (new_room {F = F}).room_user
unfolding new_room
new_room-IsSorted F = tt

first_ids :
    (F : Type 0) (i : ℕ) → held i (new_room {F = F}) ≡ (if ltb i max_room_user_count then 1 else 0)
unfolding new_room
first_ids F i = count-ids i max_room_user_count

count_plus_none : (n : ℕ) → length (first_seq_ids 0 n) + 0 ≡ n
count_plus_none n = omega (arith, length-first_seq_ids 0 n)

first_size :
    (F : Type 0)
    → length (new_room {F = F}).seq_ids + length (new_room {F = F}).room_user ≡ max_room_user_count
unfolding new_room
first_size F = count_plus_none max_room_user_count

-- After any rounds of the thread of a new room, whatever jobs came in them and whatever the clock
-- showed, the users are in the order of their sockets, each socket once; an id is in the queue
-- and among the users at most once together, and not at all from 1000 on; and users and free ids
-- together are at most 1000.
pub rounds-held :
    (float : Float) {net : Net} (xs : List (Round float.F)) (sv : Server net) (i : ℕ)
    → let room = (rounds float xs (new_room, sv)).0 in
      IsSorted room.room_user
      × (held i room ≤ (if ltb i max_room_user_count then 1 else 0))
      × (length room.seq_ids + length room.room_user ≤ max_room_user_count)
rounds-held float xs sv i =
    let kept = rounds-Kept float xs new_room sv in
    (
      kept.sorted (new_room-IsSorted float.F),
      ≤-at (kept.held_le i) (first_ids float.F i),
      ≤-at kept.size_le (first_size float.F),
    )
