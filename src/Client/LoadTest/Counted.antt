-- ===== src/Client/LoadTest/Counted.antt =====
-- What the load test of TestClient/LoadTest.cpp counts, and its flag.
use jhshin_server.Common.{
  ℕ, zero, suc, ◌+◌, ◌-◌, ◌%◌, ◌^◌, ◌≤◌, ◌≡◌, refl, true, List, [], ◌∷◌, length, length-append,
  length-replicate, min, ltb, arith, inl, inr, Bool-cases, ltb→lt,
}
use jhshin_server.Packet.{packet_id_size, put_packet_id}
use jhshin_server.Message.{put_u32}
use jhshin_server.Client.Socket.{Outcome, done, failed, unfinished, Socket}
use jhshin_server.Client.LoadTestFast.{put_i64, get_i64}
use jhshin_server.Client.LoadTest.{
  max_samples, Result, request, ◌>>=◌, count_answer, exchange, exchanges,
}

pub length-request :
    (body_size now : ℕ)
    → 8 ≤ body_size
    → length (request body_size now) ≡ packet_id_size + body_size
unfolding request put_packet_id put_i64 put_u32
length-request body_size now h = omega (arith, length-replicate {A = ℕ} (body_size - 8) 120)

-- A sample for each answer, up to the limit.
abbrev pub Noted : {C : Type 0} → Result C → Type 0
Noted r = length r.rtts ≡ min r.round_trips max_samples

module _ (socket : Socket) {C : Type 0} (now_nanos : C → ℕ × C) where
  open socket use {S}

  pub count_answer-Noted :
      (body : List ℕ) (r : Result C) → Noted r → Noted (count_answer socket now_nanos body r)
  unfolding count_answer
  count_answer-Noted body r noted = elim (Bool-cases (ltb (length r.rtts) max_samples)) [
    | inl room ↦ rw room (
        omega (
          arith,
          noted,
          ltb→lt (length r.rtts) max_samples room,
          length-append r.rtts (stamp ∷ []),
        ))
    | inr full ↦ rw full (ground (arith, noted, full))
  ]
    where
      stamp : ℕ
      stamp = ((now_nanos r.clock).0 + 2 ^ 64 - get_i64 body) % 2 ^ 64

  pub count_answer-same :
      (body : List ℕ) (r : Result C)
      → ((count_answer socket now_nanos body r).round_trips ≡ r.round_trips + 1)
        × ((count_answer socket now_nanos body r).broke_early ≡ r.broke_early)
  unfolding count_answer
  count_answer-same body r = elim (Bool-cases (ltb (length r.rtts) max_samples)) [
    | inl room ↦ rw room (refl, refl)
    | inr full ↦ rw full (refl, refl)
  ]

  -- A failure has set `brokeEarly`.
  abbrev pub Flagged : {A : Type 0} → Outcome A × S × Result C → Type 0
  Flagged (done a, s, r) = Unit {0}
  Flagged (failed, s, r) = r.broke_early ≡ true
  Flagged (unfinished, s, r) = Unit {0}

  pub bind-Flagged :
      {A B : Type 0} (m : Outcome A × S × Result C)
      (f : A → S → Result C → Outcome B × S × Result C)
      → ((a : A) (s : S) (r : Result C) → Flagged (f a s r))
      → Flagged (◌>>=◌ socket now_nanos m f)
  bind-Flagged (done a, s, r) f next = next a s r
  bind-Flagged (failed, s, r) f next = refl
  bind-Flagged (unfinished, s, r) f next = tt

  pub exchanges-Flagged :
      (body_size in_time : ℕ) (s : S) (r : Result C)
      → Flagged (exchanges socket now_nanos body_size in_time s r)
  unfolding exchanges
  exchanges-Flagged body_size zero s r = tt
  exchanges-Flagged body_size (suc in_time) s r =
      bind-Flagged (exchange socket now_nanos body_size s r) _
        (λ _ s' r'. exchanges-Flagged body_size in_time s' r')
