-- ===== src/Worker/Stopping/Threads.antt =====
-- Sums over the threads of a completion port (jhshin_Server/jhshin_Server/IOCP.cpp).
use jhshin_server.Common.{
  ℕ, zero, suc, ◌+◌, ◌≤◌, ◌≡◌, ap, List, [], ◌∷◌, some, get_elem?, set, arith,
}
use jhshin_server.Worker.Stopping.{Status, tests, waits, handles, ended}

-- A sum over the threads.
abbrev pub total : (Status → ℕ) → List Status → ℕ
total weight [] = 0
total weight (t ∷ ts) = weight t + total weight ts

-- How many steps a thread has before it at most, once `m_Stop` is set.
abbrev pub steps_left : Status → ℕ
steps_left tests = 1
steps_left waits = 3
steps_left handles = 2
steps_left ended = 0

-- Is it in `GetQueuedCompletionStatus`?
abbrev pub is_waiting : Status → ℕ
is_waiting tests = 0
is_waiting waits = 1
is_waiting handles = 0
is_waiting ended = 0

-- After one of them has gone on.
pub total-set :
    (weight : Status → ℕ) (ts : List Status) (i : ℕ) (t t' : Status)
    → get_elem? ts i ≡ some t
    → total weight (set ts i t') + weight t ≡ total weight ts + weight t'
total-set weight [] i t t' e = cc
total-set weight (x ∷ ts) zero t t' e = omega (arith, ap weight (same e))
  where
    same : some x ≡ some t → x ≡ t
    same e = cc
total-set weight (x ∷ ts) (suc i) t t' e = omega (arith, total-set weight ts i t t' e)

pub total-in :
    (weight : Status → ℕ) (ts : List Status) (i : ℕ) (t : Status)
    → get_elem? ts i ≡ some t
    → weight t ≤ total weight ts
total-in weight [] i t e = cc
total-in weight (x ∷ ts) zero t e = omega (arith, ap weight (same e))
  where
    same : some x ≡ some t → x ≡ t
    same e = cc
total-in weight (x ∷ ts) (suc i) t e = omega (arith, total-in weight ts i t e)
