-- ===== src/Client/Transfer/Silent.antt =====
-- Receiving (`RecvExact` of TestClient/TestClient.cpp and TestClient/LoadTest.cpp) sends nothing.
use jhshin_server.Common.{
  ℕ, zero, suc, ◌-◌, ◌≡◌, refl, ◌∙◌, List, [], ◌++◌, length, ltb, inl, inr, Bool-cases,
  Option-cases,
}
use jhshin_server.Client.Socket.{positive, Socket}
use jhshin_server.Client.Transfer.{recv_loop, recv_exact}

-- `recv` sends nothing.
abbrev pub RecvSendsNothing : Socket → Type 0
RecvSendsNothing socket =
    (len : ℕ) (s : socket.S) → socket.taken (socket.recv len s).2 ≡ socket.taken s

module _ (socket : Socket) (silent : RecvSendsNothing socket) where
  open socket use {S, recv, taken}

  recv_loop-taken :
      (rounds len : ℕ) (got : List ℕ) (s : S)
      → taken (recv_loop socket rounds len got s).1 ≡ taken s
  unfolding recv_loop
  recv_loop-taken zero len got s = refl
  recv_loop-taken (suc rounds) len got s = elim (Bool-cases (ltb (length got) len)) [
    | inr all ↦ rw (all, recv_loop) refl
    | inl more ↦ elim (Option-cases (positive (recv (len - length got) s).0)) [
      | inl fails ↦ rw (more, fails, recv_loop) (silent (len - length got) s)
      | inr (n, goes) ↦
          rw (more, goes, recv_loop)
            (recv_loop-taken rounds len (got ++ (recv (len - length got) s).1)
                (recv (len - length got) s).2
              ∙ silent (len - length got) s)
    ]
  ]

  -- So `RecvExact` does not either.
  pub recv_exact-taken : (len : ℕ) (s : S) → taken (recv_exact socket len s).1 ≡ taken s
  unfolding recv_exact
  recv_exact-taken len s = recv_loop-taken (suc len) len [] s
