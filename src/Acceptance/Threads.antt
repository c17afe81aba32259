-- ===== src/Acceptance/Threads.antt =====
-- Threads as stacks of what they do next, and sums over them and over lists from which one element
-- is taken.
use jhshin_server.Common.{
  ℕ, zero, suc, ◌+◌, ◌≡◌, List, [], ◌∷◌, ◌++◌, Option, none, some, arith, get_elem?,
}

module _ {P : Type 0} where
  -- What the i-th thread does next.
  unfoldable pub top : ℕ → List (List P) → Option P
  top i [] = none
  top zero ([] ∷ ts) = none
  top zero ((p ∷ stack) ∷ ts) = some p
  top (suc i) (t ∷ ts) = top i ts

  -- The i-th thread has done it, and has `next` to do before the rest.
  unfoldable pub advance : ℕ → List P → List (List P) → List (List P)
  advance i next [] = []
  advance zero next ([] ∷ ts) = [] ∷ ts
  advance zero next ((p ∷ stack) ∷ ts) = (next ++ stack) ∷ ts
  advance (suc i) next (t ∷ ts) = t ∷ advance i next ts

  abbrev pub sum : (P → ℕ) → List P → ℕ
  sum w [] = 0
  sum w (p ∷ ps) = w p + sum w ps

  abbrev pub total : (P → ℕ) → List (List P) → ℕ
  total w [] = 0
  total w (t ∷ ts) = sum w t + total w ts

  pub sum-append : (w : P → ℕ) (ps qs : List P) → sum w (ps ++ qs) ≡ sum w ps + sum w qs
  sum-append w [] qs = omega arith
  sum-append w (p ∷ ps) qs = omega (arith, sum-append w ps qs)

  pub total-advance :
      (w : P → ℕ) (i : ℕ) (next : List P) (ts : List (List P)) (p : P)
      → top i ts ≡ some p
      → total w (advance i next ts) + w p ≡ total w ts + sum w next
  unfolding top advance
  total-advance w i next [] p e = cc
  total-advance w zero next ([] ∷ ts) p e = cc
  total-advance w zero next ((q ∷ stack) ∷ ts) p e =
      let same : w q ≡ w p = cc in omega (arith, same, sum-append w next stack)
  total-advance w (suc i) next (t ∷ ts) p e = omega (arith, total-advance w i next ts p e)

  unfoldable pub without : ℕ → List P → List P
  without i [] = []
  without zero (p ∷ ps) = ps
  without (suc i) (p ∷ ps) = p ∷ without i ps

  pub sum-without :
      (w : P → ℕ) (i : ℕ) (ps : List P) (p : P)
      → get_elem? ps i ≡ some p
      → sum w (without i ps) + w p ≡ sum w ps
  unfolding without
  sum-without w i [] p e = cc
  sum-without w zero (q ∷ ps) p e = let same : w q ≡ w p = cc in omega (arith, same)
  sum-without w (suc i) (q ∷ ps) p e = omega (arith, sum-without w i ps p e)
