-- ===== src/Acceptance/Wakeup.antt =====
-- No accept object waits while a session is free: why `InsertWait` and `PushSession` both call
-- `ReWaiting` (jhshin_Server/jhshin_Server/SessionManager.cpp).
mod Section
use jhshin_server.Common.{
  ℕ, zero, suc, ◌+◌, ◌-◌, ◌≤◌, ◌<◌, ◌≡◌, ◌⊎◌, inl, inr, refl, sym, ap, subst, ◌∙◌, Bool, true,
  false, List, [], ◌∷◌, ◌++◌, length, length-append, min, Option, none, some, get_elem?,
  if◌then◌else◌, arith, Bool-cases, Option-cases, dec_lt,
}
use jhshin_server.ObjectPool.{ObjectPool, empty, pop, push}
use jhshin_server.ObjectPool.Invariant.{IsValid, flag, flag-le, lent, init-IsValid}
use jhshin_server.ObjectPool.Calls.{Popped, pop-Popped}
use jhshin_server.Acceptance.Threads.{top, advance, sum, total, total-advance}
use jhshin_server.Acceptance.{
  Phase, rechecks, looks, pops, takes, drops, accepts, enters, pops_for, posts, inserts, rearms,
  Accepting, Completion, served, not_served, error, Event, goes_on, starts, completes, leaves,
  stops, clears, System, with_session, look, take_waiting, retire, section, completed, complete,
  leave, go_on, step, run, initial, give_back,
}
use jhshin_server.Acceptance.Sections.{give_back-IsValid, give_back-lent}
use jhshin_server.Acceptance.Wakeup.Section.{wakes, holds, Covered, section-Covered}

module _ {T : Type 0} (reset : T → T) where
  -- The same for a whole system.
  abbrev Awake : System T → Type 0
  Awake (a, ts) = Covered (total wakes ts) (total holds ts) a

  -- The section of a thread stands beside all others.
  go_on-Awake :
      (i : ℕ) (ok : Bool) (next : Option Phase) (x : System T)
      → top i x.1 ≡ next
      → Awake x
      → Awake (go_on reset i ok next x)
  unfolding go_on
  go_on-Awake i ok none (a, ts) e awake = awake
  go_on-Awake i ok (some p) (a, ts) e (v, c) =
      let k = total wakes ts - wakes p in
      let h = total holds ts - holds p in
      let wakes_in = total-advance wakes i [] ts p e in
      let holds_in = total-advance holds i [] ts p e in
      let next = (section reset ok p a).1 in
      let after =
        section-Covered reset k h ok p a
          (v, λ running. omega (arith, c running, wakes_in, holds_in)) in
      (
        after.0,
        λ running. omega (
          arith,
          after.1 running,
          wakes_in,
          holds_in,
          total-advance wakes i next ts p e,
          total-advance holds i next ts p e,
        ),
      )

  complete-Awake :
      (i : ℕ) (result : Completion) (next : Option (ℕ × ℕ)) (x : System T)
      → Awake x
      → Awake (complete reset i result next x)
  unfolding complete
  complete-Awake i result none x awake = awake
  complete-Awake i served (some (object, session)) (a, ts) (v, c) = (v, λ e. omega (arith, c e))
  complete-Awake i not_served (some (object, session)) (a, ts) (v, c) = (v, λ e. omega (arith, c e))
  complete-Awake i error (some (object, session)) (a, ts) (v, c) = (v, λ e. omega (arith, c e))

  leave-Awake : (i : ℕ) (next : Option ℕ) (x : System T) → Awake x → Awake (leave reset i next x)
  unfolding leave
  leave-Awake i none x awake = awake
  leave-Awake i (some session) (a, ts) (v, c) = (v, λ e. omega (arith, c e))

  step-Awake : (e : Event) (x : System T) → Awake x → Awake (step reset e x)
  unfolding step
  step-Awake (goes_on i ok) (a, ts) (v, c) = go_on-Awake i ok (top i ts) (a, ts) refl (v, c)
  step-Awake (starts object) (a, ts) (v, c) = (v, λ e. omega (arith, c e))
  step-Awake (completes i result) (a, ts) (v, c) =
      complete-Awake i result (get_elem? a.posted i) (a, ts) (v, c)
  step-Awake (leaves i) (a, ts) (v, c) = leave-Awake i (get_elem? a.serving i) (a, ts) (v, c)
  step-Awake stops (a, ts) (v, c) = (v, λ e. let never : ⊥ = cc in absurd never)
  step-Awake clears (a, ts) (v, c) = (v, λ e. omega arith)

  run-Awake : (es : List Event) (x : System T) → Awake x → Awake (run reset es x)
  unfolding run
  run-Awake [] x awake = awake
  run-Awake (e ∷ es) x awake = run-Awake es (step reset e x) (step-Awake e x awake)

  initial-Awake : (base : ℕ) (fresh : T) (count : ℕ) → Awake (initial reset base fresh count)
  unfolding initial
  initial-Awake base fresh count = (init-IsValid base count fresh empty refl, λ e. omega arith)

  -- No thread has anything to do.
  abbrev pub AllIdle : List (List Phase) → Type 0
  AllIdle [] = Unit {0}
  AllIdle (t ∷ ts) = (t ≡ []) × AllIdle ts

  total-AllIdle : (w : Phase → ℕ) (ts : List (List Phase)) → AllIdle ts → total w ts ≡ 0
  total-AllIdle w [] idle = refl
  total-AllIdle w (t ∷ ts) (none_left, idle) =
      omega (arith, ap (sum w) none_left, total-AllIdle w ts idle)

  -- However the sections of `ReWaiting`, `PushSession`, `InsertWait`, `Accept` and `Error`
  -- interleave after `Initialize`, with new accept objects, completions and ends of connections
  -- at any time: when no thread has anything left to do and the server is not stopped, no accept
  -- object waits or no session is free.
  pub run-none_waits :
      (base : ℕ) (fresh : T) (session_count : ℕ) (es : List Event)
      → let (a, ts) = run reset es (initial reset base fresh session_count) in
        AllIdle ts → a.stopped ≡ false → (length a.wait_queue ≡ 0) ⊎ (a.pool.free_count ≡ 0)
  run-none_waits base fresh session_count es idle running =
      let (a, ts) = run reset es (initial reset base fresh session_count) in
      let (v, c) =
        run-Awake es (initial reset base fresh session_count)
          (initial-Awake base fresh session_count) in
      let bound : min (length a.wait_queue) a.pool.free_count ≡ 0 =
        omega (arith, c running, total-AllIdle wakes ts idle, total-AllIdle holds ts idle) in
      elim (dec_lt 0 (length a.wait_queue)) [
        | yes some_wait ↦ inr (omega (arith, bound, some_wait))
        | no none_wait ↦ inl (omega (arith, none_wait))
      ]
