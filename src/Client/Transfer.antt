-- ===== src/Client/Transfer.antt =====
-- `SendAll` and `RecvExact` of TestClient/TestClient.cpp and TestClient/LoadTest.cpp, which repeat
-- `send` and `recv` until all is sent or received. Each round moves at least one byte, so more
-- rounds than bytes are enough.
pub mod Silent
use jhshin_server.Common.{
  ℕ, zero, suc, ◌+◌, ◌-◌, ◌≤◌, ◌<◌, ◌≡◌, refl, sym, ap, ◌∙◌, true, false, List, [], ◌++◌,
  append_assoc, append-nil, append-parts, subst, length, take, drop, length-append, length-take,
  length-drop, take-take, take-append-take, ltb→lt, none, some, ltb, arith, inl, inr, Bool-cases,
  Option-cases,
}
use jhshin_server.Client.Socket.{Outcome, done, failed, unfinished, positive, Socket, StaysUp}

module _ (socket : Socket) where
  open socket use {S, send, recv, taken, coming}

  -- The loop of `SendAll`, with `sent` bytes sent so far.
  pub send_loop : ℕ → List ℕ → ℕ → ℕ → S → Outcome (Unit {0}) × S
  send_loop zero bytes len sent s = (unfinished, s)
  send_loop (suc rounds) bytes len sent s = elim (ltb sent len) [
    | false ↦ (done tt, s)
    | true ↦
        let r = send (take (len - sent) (drop sent bytes)) s in
        elim (positive r.0) [
          | none ↦ (failed, r.1)
          | some n ↦ send_loop rounds bytes len (sent + n) r.1
        ]
  ]

  -- `SendAll( s, data, len )`.
  pub send_all : List ℕ → ℕ → S → Outcome (Unit {0}) × S
  unfolding send_loop
  send_all bytes len s = send_loop (suc len) bytes len 0 s

  -- The loop of `RecvExact`, with the bytes `got` so far in the buffer.
  pub recv_loop : ℕ → ℕ → List ℕ → S → Outcome (List ℕ) × S
  recv_loop zero len got s = (unfinished, s)
  recv_loop (suc rounds) len got s = elim (ltb (length got) len) [
    | false ↦ (done got, s)
    | true ↦
        let r = recv (len - length got) s in
        elim (positive r.0) [
          | none ↦ (failed, r.2)
          | some n ↦ recv_loop rounds len (got ++ r.1) r.2
        ]
  ]

  -- `RecvExact( s, buf, len )`; the bytes are what `buf` holds then.
  pub recv_exact : ℕ → S → Outcome (List ℕ) × S
  unfolding recv_loop
  recv_exact len s = recv_loop (suc len) len [] s

  -- What sending comes to: all of the bytes, or fewer.
  abbrev pub Sent : List ℕ → ℕ → List ℕ → Outcome (Unit {0}) × S → Type 0
  Sent bytes len before (done _, s) = taken s ≡ before ++ take len bytes
  Sent bytes len before (failed, s) = (n : ℕ) × (n < len) × (taken s ≡ before ++ take n bytes)
  Sent bytes len before (unfinished, s) = ⊥

  module _ (bytes : List ℕ) (len : ℕ) (before : List ℕ) (fits : len ≤ length bytes) where
    -- What one call of `send` in the loop offers, and what is sent after it.
    abbrev offer : ℕ → List ℕ
    offer sent = take (len - sent) (drop sent bytes)

    length-offer : (sent : ℕ) → sent ≤ len → length (offer sent) ≡ len - sent
    length-offer sent le =
        omega (arith, length-take (len - sent) (drop sent bytes), length-drop sent bytes, fits)

    offer-sent :
        (sent n : ℕ) (s : S)
        → sent ≤ len
        → taken s ≡ before ++ take sent bytes
        → positive (send (offer sent) s).0 ≡ some n
        → (sent < sent + n)
          × (sent + n ≤ len)
          × (taken (send (offer sent) s).1 ≡ before ++ take (sent + n) bytes)
    offer-sent sent n s le e p =
        let law = socket.send_some (offer sent) s n p in
        let short : n ≤ len - sent = omega (arith, law.1, length-offer sent le) in
        (
          omega (arith, law.0),
          omega (arith, short, le),
          law.2
              ∙ rw (e, append_assoc, take-take n (len - sent) (drop sent bytes) short)
                  (ap (◌++◌ before) (take-append-take sent n bytes)),
        )

    send_loop-Sent :
        (rounds sent : ℕ) (s : S)
        → sent ≤ len
        → len - sent < rounds
        → taken s ≡ before ++ take sent bytes
        → Sent bytes len before (send_loop rounds bytes len sent s)
    unfolding send_loop
    send_loop-Sent zero sent s le enough e = absurd (omega arith)
    send_loop-Sent (suc rounds) sent s le enough e = elim (Bool-cases (ltb sent len)) [
      | inr all ↦ rw (all, send_loop) (let full : sent ≡ len = ground arith in rw full at e)
      | inl more ↦ elim (Option-cases (positive (send (offer sent) s).0)) [
        | inl fails ↦
            rw (more, fails, send_loop)
              (sent, ltb→lt sent len more, socket.send_none (offer sent) s fails ∙ e)
        | inr (n, goes) ↦
            let step = offer-sent sent n s le e goes in
            rw (more, goes, send_loop)
              (send_loop-Sent rounds (sent + n) (send (offer sent) s).1 step.1
                (omega (arith, step.0, step.1, enough)) step.2)
      ]
    ]

  -- `SendAll` of at most as many bytes as there are ends, however few bytes each `send` takes:
  -- either all of the bytes have been taken, in order, and it succeeds; or it fails, and fewer
  -- have been taken, from the front on.
  pub send_all-Sent :
      (bytes : List ℕ) (len : ℕ) (s : S)
      → len ≤ length bytes
      → Sent bytes len (taken s) (send_all bytes len s)
  unfolding send_all
  send_all-Sent bytes len s fits =
      send_loop-Sent bytes len (taken s) fits (suc len) 0 s (omega arith) (omega arith)
        (sym (append-nil (taken s)))

  -- What receiving comes to: all of the bytes, or a call of `recv` that fails before.
  abbrev pub Received : ℕ → List ℕ → Outcome (List ℕ) × S → Type 0
  Received len stream (done got, s) = (length got ≡ len) × (stream ≡ got ++ coming s)
  Received len stream (failed, s) =
      (got : List ℕ) × (before : S) × (length got < len)
      × (stream ≡ got ++ coming before)
      × (positive (recv (len - length got) before).0 ≡ none)
  Received len stream (unfinished, s) = ⊥

  module _ (len : ℕ) (stream : List ℕ) where
    recv_grows :
        (got : List ℕ) (s : S) (n : ℕ)
        → length got < len
        → stream ≡ got ++ coming s
        → positive (recv (len - length got) s).0 ≡ some n
        → let r = recv (len - length got) s in
          (length got < length (got ++ r.1))
          × (length (got ++ r.1) ≤ len)
          × (stream ≡ (got ++ r.1) ++ coming r.2)
    recv_grows got s n more e p =
        let r = recv (len - length got) s in
        let law = socket.recv_some (len - length got) s n p in
        (
          omega (arith, length-append got r.1, law.0, law.2),
          omega (arith, length-append got r.1, law.1, law.2, more),
          e ∙ ap (◌++◌ got) law.3 ∙ sym (append_assoc got r.1 (coming r.2)),
        )

    recv_loop-Received :
        (rounds : ℕ) (got : List ℕ) (s : S)
        → length got ≤ len
        → len - length got < rounds
        → stream ≡ got ++ coming s
        → Received len stream (recv_loop rounds len got s)
    unfolding recv_loop
    recv_loop-Received zero got s le enough e = absurd (omega arith)
    recv_loop-Received (suc rounds) got s le enough e = elim (Bool-cases (ltb (length got) len)) [
      | inr all ↦ rw (all, recv_loop) (ground arith, e)
      | inl more ↦ elim (Option-cases (positive (recv (len - length got) s).0)) [
        | inl fails ↦ rw (more, fails, recv_loop) (got, s, ltb→lt (length got) len more, e, fails)
        | inr (n, goes) ↦
            let r = recv (len - length got) s in
            let step = recv_grows got s n (ltb→lt (length got) len more) e goes in
            rw (more, goes, recv_loop)
              (recv_loop-Received rounds (got ++ r.1) r.2 step.1
                (omega (arith, step.0, step.1, enough)) step.2)
      ]
    ]

  -- `RecvExact` ends, however few bytes each `recv` gives: either it succeeds with exactly the
  -- next bytes of the stream, as many as were asked for; or it fails, with fewer read, and a call
  -- of `recv` for the rest has returned no bytes.
  pub recv_exact-Received : (len : ℕ) (s : S) → Received len (coming s) (recv_exact len s)
  unfolding recv_exact
  recv_exact-Received len s =
      recv_loop-Received len (coming s) (suc len) [] s (omega arith) (omega arith) refl

  -- What the bytes that were asked for come to.
  abbrev pub Obtains : List ℕ → List ℕ → Outcome (List ℕ) × S → Type 0
  Obtains bytes rest (done got, s) = (got ≡ bytes) × (coming s ≡ rest)
  Obtains bytes rest (failed, s) = ⊥
  Obtains bytes rest (unfinished, s) = ⊥

  module _ (up : StaysUp socket) (bytes rest : List ℕ) where
    Received-Obtains :
        (r : Outcome (List ℕ) × S)
        → Received (length bytes) (bytes ++ rest) r
        → Obtains bytes rest r
    Received-Obtains (done got, s) (le, e) = append-parts got bytes (coming s) rest le (sym e)
    Received-Obtains (failed, s) (got, before, short, e, fails) = absurd (
        up (length bytes - length got) before (omega arith)
          (λ nil. omega (
            arith,
            ap length e,
            ap length nil,
            length-append bytes rest,
            length-append got (coming before),
          ))
          fails)
    Received-Obtains (unfinished, s) never = never

    -- On a connection that stays up `RecvExact` returns exactly the next bytes of the stream.
    pub recv_exact-Obtains :
        (s : S) → coming s ≡ bytes ++ rest → Obtains bytes rest (recv_exact (length bytes) s)
    recv_exact-Obtains s e = Received-Obtains (recv_exact (length bytes) s) (
        subst (λ stream. Received (length bytes) stream (recv_exact (length bytes) s)) e
          (recv_exact-Received (length bytes) s))
