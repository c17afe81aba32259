-- ===== src/Room/Jobs/Loop/Drained.antt =====
-- No job that comes before `Stop` is lost (jhshin_Server/jhshin_Server/RoomManager.cpp, JobQueue.cpp).
use jhshin_server.Common.{
  ℕ, suc, ◌+◌, length, arith, ◌≡◌, refl, sym, ap, ◌∙◌, Bool, true, false, not, List, [], ◌∷◌, ◌++◌,
  append_assoc, append-nil, if◌then◌else◌, inl, inr, Bool-cases,
}
use jhshin_server.Message.Float.{Float}
use jhshin_server.Room.{Room, Server}
use jhshin_server.Room.Jobs.{Job, push, stop_queue, pop_all, start_job, dispatch, run_jobs, tick}
use jhshin_server.Room.Jobs.Loop.{
  Loop, Event, pushes, stops, works, push_job, work, step, run, started,
}
use jhshin_server.Room.Outgoing.{Net}

-- A round of the thread: the ticks that it reads, and the jobs that it dispatches.
abbrev pub Round : Type 0 → Type 0
Round F = (ℕ → ℕ) × List (Job F)

abbrev pub jobs_of : {F : Type 0} → List (Round F) → List (Job F)
jobs_of [] = []
jobs_of ((clock, jobs) ∷ rounds) = jobs ++ jobs_of rounds

jobs_of-snoc :
    {F : Type 0} (rounds : List (Round F)) (clock : ℕ → ℕ) (jobs : List (Job F))
    → jobs_of (rounds ++ (clock, jobs) ∷ []) ≡ jobs_of rounds ++ jobs
jobs_of-snoc [] clock jobs = append-nil jobs
jobs_of-snoc ((clock', jobs') ∷ rounds) clock jobs =
    ap (λ later. jobs' ++ later) (jobs_of-snoc rounds clock jobs)
    ∙ sym (append_assoc jobs' (jobs_of rounds) jobs)

-- What the jobs of the rounds make of a room: each is dispatched once, at its tick, and the tick of
-- the room ends the round.
module _ (float : Float) {net : Net} where
  open float use {F}

  abbrev pub dispatch_each : (ℕ → ℕ) → ℕ → List (Job F) → Room F × Server net → Room F × Server net
  dispatch_each clock i [] r = r
  dispatch_each clock i (job ∷ jobs) r =
      dispatch_each clock (i + 1) jobs (dispatch float (clock i) job r)

  abbrev pub replay : List (Round F) → Room F × Server net → Room F × Server net
  replay [] r = r
  replay ((clock, jobs) ∷ rounds) r =
      replay rounds (tick float (clock (length jobs)) (dispatch_each clock 0 jobs r))

  replay-snoc :
      (rounds : List (Round F)) (clock : ℕ → ℕ) (jobs : List (Job F)) (r : Room F × Server net)
      → replay (rounds ++ (clock, jobs) ∷ []) r
        ≡ tick float (clock (length jobs)) (dispatch_each clock 0 jobs (replay rounds r))
  replay-snoc [] clock jobs r = refl
  replay-snoc ((clock', jobs') ∷ rounds) clock jobs r =
      replay-snoc rounds clock jobs
        (tick float (clock' (length jobs')) (dispatch_each clock' 0 jobs' r))

  run_jobs-each :
      (clock : ℕ → ℕ) (i : ℕ) (jobs : List (Job F)) (r : Room F × Server net)
      → run_jobs float clock i jobs r ≡ dispatch_each clock i jobs r
  unfolding run_jobs
  run_jobs-each clock i [] r = refl
  run_jobs-each clock i (job ∷ jobs) r =
      run_jobs-each clock (suc i) jobs (dispatch float (clock i) job r)
      ∙ ap (λ k. dispatch_each clock k jobs (dispatch float (clock i) job r)) (omega arith)

-- The room is what the rounds so far make of the first one. The jobs that were pushed are those of
-- the rounds and those in the queue, in order; those that came before `Stop` are the first of them;
-- and a thread that has ended was stopped, and its rounds had all that came before.
pub record Drained (float : Float) {net : Net} (r : Room float.F × Server net)
    (l : Loop float.F net) : Type 0 where
  pub rounds : List (Round float.F)
  pub replayed : l.room ≡ replay float rounds r
  pub in_order : l.pushed ≡ jobs_of rounds ++ l.queue.job_queue
  pub late : List (Job float.F)
  pub first : l.pushed ≡ l.in_time ++ late
  pub none_late : l.queue.stop ≡ false → late ≡ []
  pub stopped : l.running ≡ false → l.queue.stop ≡ true
  pub drained :
      l.running ≡ false → (more : List (Job float.F)) × (jobs_of rounds ≡ l.in_time ++ more)

is_true : (b : Bool) → not b ≡ false → b ≡ true
is_true true e = refl
is_true false e = cc

-- The two outcomes of a test.
test {ℓ} :
    {A : Type ℓ} (b : Bool) (x y : A)
    → (b ≡ true → (if b then x else y) ≡ x) × (b ≡ false → (if b then x else y) ≡ y)
test true x y = (λ e. refl, λ e. let never : ⊥ = cc in absurd never)
test false x y = (λ e. let never : ⊥ = cc in absurd never, λ e. refl)

module _ (float : Float) {net : Net} (r : Room float.F × Server net) where
  open float use {F}

  module _ (job : Job F) (l : Loop F net) (v : Drained float r l) where
    abbrev one : List (Job F)
    one = job ∷ []

    push_late : l.queue.stop ≡ true → Drained float r (push_job float job l)
    unfolding push_job push
    push_late stop =
        let same = (test l.queue.stop l.in_time (l.in_time ++ one)).0 stop in
        record {
          rounds = v.rounds;
          replayed = v.replayed;
          in_order =
              ap (λ x. x ++ one) v.in_order ∙ append_assoc (jobs_of v.rounds) l.queue.job_queue one;
          late = v.late ++ one;
          first =
              ap (λ x. x ++ one) v.first
              ∙ append_assoc l.in_time v.late one
              ∙ ap (λ x. x ++ (v.late ++ one)) (sym same);
          none_late = λ e. let never : ⊥ = cc in absurd never;
          stopped = v.stopped;
          drained = λ e. let (more, d) = v.drained e in (more, d ∙ ap (λ x. x ++ more) (sym same));
        }

    push_in_time : l.queue.stop ≡ false → Drained float r (push_job float job l)
    unfolding push_job push
    push_in_time going =
        let longer = (test l.queue.stop l.in_time (l.in_time ++ one)).1 going in
        record {
          rounds = v.rounds;
          replayed = v.replayed;
          in_order =
              ap (λ x. x ++ one) v.in_order ∙ append_assoc (jobs_of v.rounds) l.queue.job_queue one;
          late = [];
          first =
              ap (λ x. x ++ one)
                (v.first ∙ ap (◌++◌ l.in_time) (v.none_late going) ∙ append-nil l.in_time)
              ∙ sym (append-nil (l.in_time ++ one))
              ∙ ap (λ x. x ++ []) (sym longer);
          none_late = λ e. refl;
          stopped = v.stopped;
          drained = λ e. let never : ⊥ = cc (v.stopped e) in absurd never;
        }

    push_job-Drained : Drained float r (push_job float job l)
    push_job-Drained = elim (Bool-cases l.queue.stop) [
      | inl stop ↦ push_late stop
      | inr going ↦ push_in_time going
    ]

  work-Drained :
      (clock : ℕ → ℕ) (l : Loop F net) → Drained float r l → Drained float r (work float clock l)
  unfolding work start_job pop_all
  work-Drained clock l v =
      let jobs = l.queue.job_queue in
      let all = jobs_of-snoc v.rounds clock jobs in
      record {
        rounds = v.rounds ++ (clock, jobs) ∷ [];
        replayed =
            ap (tick float (clock (length jobs))) (
              run_jobs-each float clock 0 jobs l.room
              ∙ ap (dispatch_each float clock 0 jobs) v.replayed)
            ∙ sym (replay-snoc float v.rounds clock jobs r);
        in_order =
            v.in_order ∙ sym all ∙ sym (append-nil (jobs_of (v.rounds ++ (clock, jobs) ∷ [])));
        late = v.late;
        first = v.first;
        none_late = v.none_late;
        stopped = is_true l.queue.stop;
        drained = λ e. (v.late, all ∙ sym v.in_order ∙ v.first);
      }

  when_running :
      (running : Bool) (l l' : Loop F net)
      → Drained float r l
      → Drained float r l'
      → Drained float r (if running then l' else l)
  when_running true l l' v v' = v'
  when_running false l l' v v' = v

  step-Drained :
      (e : Event F) (l : Loop F net) → Drained float r l → Drained float r (step float e l)
  unfolding step stop_queue
  step-Drained (pushes job) l v = push_job-Drained job l v
  step-Drained stops l v = record {
    rounds = v.rounds;
    replayed = v.replayed;
    in_order = v.in_order;
    late = v.late;
    first = v.first;
    none_late = λ e. let never : ⊥ = cc in absurd never;
    stopped = λ e. refl;
    drained = v.drained;
  }
  step-Drained (works clock) l v =
      when_running l.running l (work float clock l) v (work-Drained clock l v)

  all_keep :
      (es : List (Event F)) (l : Loop F net) → Drained float r l → Drained float r (run float es l)
  unfolding run
  all_keep [] l v = v
  all_keep (e ∷ es) l v = all_keep es (step float e l) (step-Drained e l v)

  stopped_ends :
      (running : Bool) (clock : ℕ → ℕ) (l : Loop F net)
      → l.running ≡ running
      → l.queue.stop ≡ true
      → (if running then work float clock l else l).running ≡ false
  unfolding work start_job pop_all
  stopped_ends true clock l e stop = ap not stop
  stopped_ends false clock l e stop = e

  -- Take the thread of a room from its start, and let PushJob, Stop and the rounds of Work come
  -- in any order. The room is then what comes of rounds in which each job is dispatched once, at
  -- its tick, and each round ends with the tick of the room; the jobs of these rounds are the
  -- first of those pushed, in the order in which they were pushed, and the others are in the
  -- queue. Once the thread has ended, its rounds had every job that was pushed before Stop. And
  -- whatever has come before, the thread has ended after Stop and one round more.
  pub run-Drained :
      (es : List (Event F)) (clock : ℕ → ℕ)
      → let l = run float es (started r) in
        Drained float r l × ((run float (stops ∷ works clock ∷ []) l).running ≡ false)
  unfolding run step stop_queue
  run-Drained es clock =
      let l = run float es (started r) in
      (
        all_keep es (started r) (record {
          rounds = [];
          replayed = refl;
          in_order = refl;
          late = [];
          first = refl;
          none_late = λ e. refl;
          stopped = λ e. let never : ⊥ = cc in absurd never;
          drained = λ e. let never : ⊥ = cc in absurd never;
        }),
        stopped_ends l.running clock (record l { queue = stop_queue l.queue }) refl refl,
      )
