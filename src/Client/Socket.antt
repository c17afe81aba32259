-- ===== src/Client/Socket.antt =====
-- The Winsock connection that the clients of TestClient use: what `send` and `recv` are relied on
-- for, and what a loop over them may come to.
use jhshin_server.Common.{
  ℕ, zero, suc, ◌≤◌, ◌<◌, ◌≡◌, ◌≢◌, List, [], ◌++◌, length, take, Option, none, some,
}
use jhshin_server.Common.Int.{ℤ, pos, negsuc}

-- `done`: the loop ended and returned `true`; `failed`: it returned `false`; `unfinished`: it was
-- still running when the bound on its rounds was reached.
pub data Outcome {ℓ} (A : Type ℓ) : Type ℓ where
  done : A → Outcome A
  failed : Outcome A
  unfinished : Outcome A

-- The number in `n` where it is positive: the code tests `n <= 0`.
abbrev pub positive : ℤ → Option ℕ
positive (pos zero) = none
positive (pos (suc n)) = some (suc n)
positive (negsuc n) = none

-- `send` is given the bytes from its pointer on, as many as its `len`; `recv` is given `len` and
-- returns, beside its result, the bytes that it wrote.
pub record Socket : Type 1 where
  pub S : Type 0
  pub send : List ℕ → S → ℤ × S
  pub recv : ℕ → S → ℤ × List ℕ × S
  -- the bytes that the connection has taken so far, and those that are still to be received
  pub taken : S → List ℕ
  pub coming : S → List ℕ
  -- `send` takes as many of the bytes as it says, from the front on, and none if it fails.
  pub send_some :
      (data' : List ℕ) (s : S) (n : ℕ)
      → positive (send data' s).0 ≡ some n
      → (0 < n) × (n ≤ length data') × (taken (send data' s).1 ≡ taken s ++ take n data')
  pub send_none :
      (data' : List ℕ) (s : S) → positive (send data' s).0 ≡ none → taken (send data' s).1 ≡ taken s
  -- `recv` hands over as many of the next bytes as it says.
  pub recv_some :
      (len : ℕ) (s : S) (n : ℕ)
      → positive (recv len s).0 ≡ some n
      → (0 < n)
        × (n ≤ len)
        × (length (recv len s).1 ≡ n)
        × (coming s ≡ (recv len s).1 ++ coming (recv len s).2)

-- The peer keeps the connection up: as long as bytes are to come, `recv` of some waits for them
-- and does not fail.
abbrev pub StaysUp : Socket → Type 0
StaysUp socket =
    (len : ℕ) (s : socket.S)
    → 0 < len
    → socket.coming s ≢ []
    → positive (socket.recv len s).0 ≢ none
