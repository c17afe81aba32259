-- ===== src/Client/LoadTestRoom/Pace.antt =====
-- The pacing of TestClient/LoadTestRoom.cpp catches up in a few rounds, however late it is.
use jhshin_server.Common.{
  ℕ, zero, suc, ◌+◌, ◌-◌, ◌*◌, ◌≤◌, ◌<◌, ◌≡◌, refl, true, false, ◌&&◌, List, length, length-append,
  Option, some, ltb, leb, arith, inl, inr, Bool-cases,
}
use jhshin_server.Packet.{put_packet_id}
use jhshin_server.Message.{put_u32}
use jhshin_server.Client.LoadTestFast.{put_i64}
use jhshin_server.Client.LoadTestRoom.{
  append_broadcast, out_limit, Conn, send_or_skip, next_time, pace,
}

pub length-append_broadcast :
    (now conn_id : ℕ) (out : List ℕ) → length (append_broadcast now conn_id out) ≡ length out + 68
unfolding append_broadcast put_packet_id put_i64 put_u32
length-append_broadcast now conn_id out = length-append out _

module _ {C : Type 0} (now_nanos : C → ℕ × C) where
  -- So many requests have been due, and not more is waiting than the limit and one request.
  pub record Paced (due : ℕ) (c c' : Conn C) : Type 0 where
    pub counted : c'.sent + c'.skipped ≤ c.sent + c.skipped + due
    pub limited :
        length c.out - c.out_off < out_limit + 68 → length c'.out - c'.out_off < out_limit + 68

  send_or_skip-Paced :
      (c : Conn C) (at : ℕ) → Paced 1 c (record (send_or_skip now_nanos c) { next_send_at = at })
  unfolding send_or_skip
  send_or_skip-Paced c at = elim (Bool-cases (ltb (length c.out - c.out_off) out_limit)) [
    | inl room ↦ rw room (record {
      counted = omega arith;
      limited = λ h. ground (arith, length-append_broadcast (now_nanos c.clock).0 c.id c.out);
    })
    | inr full ↦ rw full (record { counted = omega arith; limited = λ h. h })
  ]

  weaker : (d e : ℕ) (c c' : Conn C) → d ≤ e → Paced d c c' → Paced e c c'
  weaker d e c c' le p = record { counted = omega (arith, p.counted, le); limited = p.limited }

  Paced-trans : (d e : ℕ) (c c' c'' : Conn C) → Paced d c c' → Paced e c' c'' → Paced (d + e) c c''
  Paced-trans d e c c' c'' p q = record {
    counted = omega (arith, p.counted, q.counted);
    limited = λ h. q.limited (p.limited h);
  }

  module _ (interval now : ℕ) where
    -- At most `k` intervals behind.
    abbrev pub Behind : ℕ → ℕ → Type 0
    Behind zero at = now < at
    Behind (suc k) at = Behind k (at + interval)

    -- The loop has ended, and nothing is due.
    abbrev pub CaughtUp : ℕ → Conn C → Option (Conn C) → Type 0
    CaughtUp due c o = (c' : Conn C) × (o ≡ some c') × (now < c'.next_send_at) × Paced due c c'

    -- The round after which the loop is in time again, or one interval less behind.
    go_on :
        (k rounds : ℕ) (c : Conn C)
        → (ltb (c.next_send_at + interval + interval * 8) now ≡ false
            → Behind k (c.next_send_at + interval))
        → k < rounds
        → 0 < interval
        → (ltb 0 interval && leb c.next_send_at now) ≡ true
        → ((j : ℕ) (d : Conn C)
            → 0 < interval
            → Behind j d.next_send_at
            → j < rounds
            → CaughtUp j d (pace now_nanos rounds interval now d))
        → CaughtUp (suc k) c (pace now_nanos (suc rounds) interval now c)
    unfolding pace
    go_on k rounds c behind enough some_time due ih =
        elim (Bool-cases (ltb (c.next_send_at + interval + interval * 8) now)) [
          | inl late ↦
              let (c', e, caught, p) =
                ih 0 next some_time (rw late (omega (arith, some_time))) (omega (arith, enough)) in
              (
                c',
                rw due e,
                caught,
                weaker (1 + 0) (suc k) c c' (omega arith)
                    (Paced-trans 1 0 c next c' (send_or_skip-Paced c at) p),
              )
          | inr near ↦
              let (c', e, caught, p) = ih k next some_time (rw near (behind near)) enough in
              (
                c',
                rw due e,
                caught,
                weaker (1 + k) (suc k) c c' (omega arith)
                    (Paced-trans 1 k c next c' (send_or_skip-Paced c at) p),
              )
        ]
      where
        at : ℕ
        at = next_time now_nanos interval now c.next_send_at

        next : Conn C
        next = record (send_or_skip now_nanos c) { next_send_at = at }

    go_next :
        (k rounds : ℕ) (c : Conn C)
        → Behind k c.next_send_at
        → k < suc rounds
        → 0 < interval
        → (ltb 0 interval && leb c.next_send_at now) ≡ true
        → ((j : ℕ) (d : Conn C)
            → 0 < interval
            → Behind j d.next_send_at
            → j < rounds
            → CaughtUp j d (pace now_nanos rounds interval now d))
        → CaughtUp k c (pace now_nanos (suc rounds) interval now c)
    go_next zero rounds c behind enough some_time due ih = absurd (ground arith)
    go_next (suc k) rounds c behind enough some_time due ih =
        go_on k rounds c (λ near. behind) (omega (arith, enough)) some_time due ih

    idle :
        (k rounds : ℕ) (c : Conn C)
        → 0 < interval
        → (ltb 0 interval && leb c.next_send_at now) ≡ false
        → CaughtUp k c (pace now_nanos (suc rounds) interval now c)
    unfolding pace
    idle k rounds c some_time in_time =
        (c, rw in_time refl, ground arith, record { counted = omega arith; limited = λ h. h })

    pace-CaughtUp :
        (k rounds : ℕ) (c : Conn C)
        → 0 < interval
        → Behind k c.next_send_at
        → k < rounds
        → CaughtUp k c (pace now_nanos rounds interval now c)
    unfolding pace
    pace-CaughtUp k zero c some_time behind enough = absurd (omega arith)
    pace-CaughtUp k (suc rounds) c some_time behind enough =
        elim (Bool-cases (ltb 0 interval && leb c.next_send_at now)) [
          | inr in_time ↦ idle k rounds c some_time in_time
          | inl due ↦
              go_next k rounds c behind enough some_time due (λ j d. pace-CaughtUp j rounds d)
        ]

    -- With a positive interval the pacing loop ends within twelve tests of its condition, however
    -- late it is: then the next request is not due yet, at most ten were sent or skipped, and if
    -- less than the limit and one request was waiting to be sent, this still holds.
    pub pace_catches_up :
        (c : Conn C) → 0 < interval → CaughtUp 10 c (pace now_nanos 12 interval now c)
    pace_catches_up c some_time = elim (Bool-cases (ltb 0 interval && leb c.next_send_at now)) [
      | inr in_time ↦ idle 10 11 c some_time in_time
      | inl due ↦
          go_on 9 11 c (λ near. ground arith) (omega arith) some_time due
            (λ j d. pace-CaughtUp j 11 d)
    ]
