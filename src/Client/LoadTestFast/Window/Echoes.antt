-- ===== src/Client/LoadTestFast/Window/Echoes.antt =====
-- Requests and echoes of a connection (TestClient/LoadTestFast.cpp): each echo makes one request more.
use jhshin_server.Common.{
  ℕ, zero, suc, ◌+◌, ◌-◌, ◌*◌, ◌≤◌, ◌<◌, ◌≡◌, refl, ap, not, ◌||◌, List, length, length-append,
  drop, some, ltb, ◌==◌, arith, inl, inr, Bool-cases,
}
use jhshin_server.Packet.{packet_id_size, put_packet_id, get_packet_id}
use jhshin_server.Packet.PacketType
use jhshin_server.Message.{put_u32}
use jhshin_server.Client.LoadTestFast.{
  echo_body_size, max_samples, Conn, put_i64, append_packet, kill, append_now, fill, echoed,
  echo_loop, rounds,
}

-- The bytes of one request.
abbrev pub request_size : ℕ
request_size = 68

length-append_packet : (now : ℕ) (out : List ℕ) → length (append_packet now out) ≡ length out + 68
unfolding append_packet put_packet_id put_i64 put_u32
length-append_packet now out = length-append out _

module _ {C : Type 0} (now_nanos : C → ℕ × C) where
  -- The requests made so far, sent or not, are the window and one for each echo.
  pub record Windowed (window : ℕ) (c : Conn C) : Type 0 where
    pub within : c.out_off ≤ length c.out
    pub counted : c.taken + (length c.out - c.out_off) ≡ request_size * (window + c.round_trips)

  append_now-Windowed :
      (window : ℕ) (c : Conn C) → Windowed window c → Windowed (suc window) (append_now now_nanos c)
  unfolding append_now
  append_now-Windowed window c v =
      let longer = length-append_packet (now_nanos c.clock).0 c.out in
      record {
        within = omega (arith, longer, v.within);
        counted = omega (arith, longer, v.within, v.counted);
      }

  pub fill-Windowed :
      (n window : ℕ) (c : Conn C) → Windowed window c → Windowed (window + n) (fill now_nanos n c)
  unfolding fill
  fill-Windowed zero window c v = record { within = v.within; counted = omega (arith, v.counted) }
  fill-Windowed (suc n) window c v =
      let later =
        fill-Windowed n (suc window) (append_now now_nanos c) (append_now-Windowed window c v) in
      record { within = later.within; counted = omega (arith, later.counted) }

  -- One echo more, and one request more.
  one_more :
      (window now : ℕ) (c c' : Conn C)
      → c'.out ≡ append_packet now c.out
      → c'.out_off ≡ c.out_off
      → c'.taken ≡ c.taken
      → c'.round_trips ≡ c.round_trips + 1
      → Windowed window c
      → Windowed window c'
  one_more window now c c' out off took trips v =
      let longer = length-append_packet now c.out in
      record {
        within = omega (arith, longer, ap length out, off, v.within);
        counted = omega (arith, longer, ap length out, off, took, trips, v.within, v.counted);
      }

  echoed-Windowed :
      (window : ℕ) (body : List ℕ) (c : Conn C)
      → Windowed window c
      → Windowed window (echoed now_nanos body c) × ((echoed now_nanos body c).input ≡ c.input)
  unfolding echoed
  echoed-Windowed window body c v = elim (Bool-cases (ltb (length c.rtts) max_samples)) [
    | inl room ↦ rw room (one_more window _ c _ refl refl refl refl v, refl)
    | inr full ↦ rw full (one_more window _ c _ refl refl refl refl v, refl)
  ]

  pub kill-Windowed :
      (window : ℕ) (c : Conn C) → Windowed window c → Windowed window (kill now_nanos c)
  kill-Windowed window c v = record { within = v.within; counted = v.counted }

  -- The loop ends, whatever has come.
  pub echo_loop-Windowed :
      (window rounds at : ℕ) (c : Conn C)
      → Windowed window c
      → at ≤ length c.input
      → length c.input - at < rounds
      → (stop : ℕ) × (c' : Conn C) × (echo_loop now_nanos rounds at c ≡ some (stop, c'))
        × Windowed window c'
  unfolding echo_loop
  echo_loop-Windowed window zero at c v le enough = absurd (omega arith)
  echo_loop-Windowed window (suc rounds) at c v le enough =
      elim (Bool-cases (ltb (length c.input - at) packet_id_size)) [
        | inl short ↦ (at, c, rw short refl, v)
        | inr has_header ↦
            elim (Bool-cases
              (not (size == echo_body_size) || not (type == PacketType.server_echo))) [
                | inl wrong ↦
                    (at, kill now_nanos c, rw (has_header, wrong) refl, kill-Windowed window c v)
                | inr right ↦
                    elim (Bool-cases (ltb (length c.input - at) (packet_id_size + size))) [
                      | inl part ↦ (at, c, rw (has_header, right, part) refl, v)
                      | inr whole ↦
                          let body = drop (at + packet_id_size) c.input in
                          let (next, same) = echoed-Windowed window body c v in
                          let later =
                            echo_loop-Windowed window rounds (at + (packet_id_size + size))
                              (echoed now_nanos body c) next (ground (arith, ap length same))
                              (ground (arith, ap length same)) in
                          (later.0, later.1, rw (has_header, right, whole) later.2, later.3)
                    ]
              ]
      ]
    where
      size : ℕ
      size = (get_packet_id (drop at c.input)).size

      type : ℕ
      type = (get_packet_id (drop at c.input)).type
