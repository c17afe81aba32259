-- ===== src/Tests/Closing.antt =====
-- `Shutdown` (jhshin_Server/jhshin_Server/ServiceManager.cpp) with two sessions, while one of them is
-- closed by a room.
use jhshin_server.Common.{ℕ, ◌+◌, ◌≤◌, ◌≡◌, refl, List, [], ◌∷◌, none, some, arith}
use jhshin_server.Room.UserMap.{SocketMap, Above, find, insert, erase}
use jhshin_server.ServiceManager.Sessions.{
  initial, Event, adds, closes, erases, shuts, close_session, count, finish_close, take_sessions,
  close_next, step, run,
}
use jhshin_server.ServiceManager.Sessions.Closing.{keys, found, VisitsAll, run-misses_none}

count-Above : (k i : ℕ) (m : SocketMap ℕ) → k ≤ i → Above i m → count k (keys m) ≡ 0
count-Above k i [] h a = refl
count-Above k i ((j, v) ∷ m) h a = ground (arith, count-Above k j m)

in_order-VisitsAll : VisitsAll (λ m. m)
unfolding find
in_order-VisitsAll k [] s = refl
in_order-VisitsAll k ((j, v) ∷ []) s = ground arith
in_order-VisitsAll k ((j, v) ∷ (i, w) ∷ m) s =
    ground (arith, in_order-VisitsAll k ((i, w) ∷ m) s.1, count-Above k j ((i, w) ∷ m))

-- The same socket is not inserted twice.
abbrev before : List Event
before = adds (some (7, 1)) ∷ adds (some (4, 2)) ∷ adds (some (7, 3)) ∷ adds none ∷ closes none ∷ []

abbrev after : List Event
after =
    shuts
    ∷ closes (some (7, 1))
    ∷ erases 7
    ∷ adds (some (9, 4))
    ∷ erases 4
    ∷ shuts
    ∷ shuts
    ∷ erases 7
    ∷ []

all_closed :
    run after (take_sessions (λ m. m) (run before initial))
    ≡ record { user_session = (9, 4) ∷ []; to_close = []; erasing = []; closed = 7 ∷ 7 ∷ 4 ∷ [] }
unfolding run step close_session finish_close close_next insert erase
all_closed = refl

run-misses_none_example :
    let copied = run before initial in
    let st = run after (take_sessions (λ m. m) copied) in
    (count 7 copied.closed + found 7 copied.user_session
      ≤ count 7 (keys st.to_close) + count 7 st.closed)
    × (found 7 st.user_session ≤ count 7 (keys st.to_close) + count 7 st.erasing)
run-misses_none_example = run-misses_none (λ m. m) in_order-VisitsAll before after 7 refl
