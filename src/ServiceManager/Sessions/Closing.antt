-- ===== src/ServiceManager/Sessions/Closing.antt =====
-- The loop of `Shutdown` (jhshin_Server/jhshin_Server/ServiceManager.cpp) misses no session, however
-- the rest of the server closes sessions meanwhile.
use jhshin_server.Common.{
  ℕ, ◌+◌, ◌-◌, ◌≤◌, ◌≡◌, ◌≢◌, refl, ap, Bool, true, false, List, [], ◌∷◌, map, none, some, ◌==◌,
  if◌then◌else◌, arith,
}
use jhshin_server.Room.UserMap.{
  SocketMap, IsSorted, find, insert, erase, insert-IsSorted, erase-IsSorted, find-erase,
}
use jhshin_server.ServiceManager.Sessions.{
  Sessions, initial, Event, adds, closes, erases, shuts, close_session, count, take_out,
  finish_close, take_sessions, close_next, step, run,
}

abbrev pub keys : List (ℕ × ℕ) → List ℕ
keys m = map (λ e. e.0) m

-- How often there is a session for a socket in `m_UserSession`.
abbrev pub found : ℕ → SocketMap ℕ → ℕ
found k m = elim (find k m) [ none ↦ 0 | some v ↦ 1 ]

-- The sockets that `AddIOCP` is called with.
abbrev pub added : List Event → List ℕ
added [] = []
added (adds (some (socket, session)) ∷ es) = socket ∷ added es
added (_ ∷ es) = added es

count-take_out :
    (k j : ℕ) (js : List ℕ)
    → count j (take_out k js) ≡ (if k == j then count j js - 1 else count j js)
count-take_out k j [] = ground arith
count-take_out k j (i ∷ js) = ground (arith, count-take_out k j js)

close_next-IsSorted :
    (left : List (ℕ × ℕ)) (st : Sessions)
    → IsSorted st.user_session
    → IsSorted (close_next left st).user_session
unfolding close_next close_session
close_next-IsSorted [] st s = s
close_next-IsSorted (x ∷ left) st s = s

if_IsSorted :
    (b : Bool) (st st' : Sessions)
    → IsSorted st.user_session
    → IsSorted st'.user_session
    → IsSorted (if b then st else st').user_session
if_IsSorted true st st' s s' = s
if_IsSorted false st st' s s' = s'

step-IsSorted :
    (e : Event) (st : Sessions) → IsSorted st.user_session → IsSorted (step e st).user_session
unfolding step close_session finish_close
step-IsSorted (adds none) st s = s
step-IsSorted (adds (some (socket, session))) st s =
    insert-IsSorted socket session st.user_session s
step-IsSorted (closes none) st s = s
step-IsSorted (closes (some x)) st s = s
step-IsSorted (erases socket) st s =
    if_IsSorted (count socket st.erasing == 0) st _ s (erase-IsSorted socket st.user_session s)
step-IsSorted shuts st s = close_next-IsSorted st.to_close st s

run-IsSorted :
    (es : List Event) (st : Sessions) → IsSorted st.user_session → IsSorted (run es st).user_session
unfolding run
run-IsSorted [] st s = s
run-IsSorted (e ∷ es) st s = run-IsSorted es (step e st) (step-IsSorted e st s)

-- `n` calls of `closesocket` for a socket have been made or are still to come from the loop, and an
-- entry that is left for the socket is about to go.
record Closing (k n : ℕ) (st : Sessions) : Type 0 where
  sorted : IsSorted st.user_session
  told : n ≤ count k (keys st.to_close) + count k st.closed
  going : found k st.user_session ≤ count k (keys st.to_close) + count k st.erasing

close_next-Closing :
    (k n : ℕ) (left : List (ℕ × ℕ)) (st : Sessions)
    → st.to_close ≡ left
    → Closing k n st
    → Closing k n (close_next left st)
unfolding close_next close_session
close_next-Closing k n [] st e v = v
close_next-Closing k n ((socket, session) ∷ left) st e v = record {
  sorted = v.sorted;
  told = ground (arith, v.told, ap (λ m. count k (keys m)) e);
  going = ground (arith, v.going, ap (λ m. count k (keys m)) e);
}

find-insert_other : (k j v : ℕ) (m : SocketMap ℕ) → j ≢ k → find k (insert j v m) ≡ find k m
unfolding find insert
find-insert_other k j v [] h = ground arith
find-insert_other k j v ((i, w) ∷ m) h = ground (arith, find-insert_other k j v m)

erased_found :
    (k socket : ℕ) (m : SocketMap ℕ) (waiting : ℕ) (js : List ℕ)
    → IsSorted m
    → found k m ≤ waiting + count k js
    → found k (erase socket m) ≤ waiting + count k (take_out socket js)
erased_found k socket m waiting js s h =
    ground (arith, h, find-erase socket k m s, count-take_out socket k js)

when_erasing :
    (k n : ℕ) (b : Bool) (st st' : Sessions)
    → Closing k n st
    → Closing k n st'
    → Closing k n (if b then st else st')
when_erasing k n true st st' v v' = v
when_erasing k n false st st' v v' = v'

finish_close-Closing :
    (k n socket : ℕ) (st : Sessions) → Closing k n st → Closing k n (finish_close socket st)
unfolding finish_close
finish_close-Closing k n socket st v =
    when_erasing k n (count socket st.erasing == 0) st _ v (record {
      sorted = erase-IsSorted socket st.user_session v.sorted;
      told = v.told;
      going =
          erased_found k socket st.user_session (count k (keys st.to_close)) st.erasing v.sorted
            v.going;
    })

step-Closing :
    (k n : ℕ) (e : Event) (es : List Event) (st : Sessions)
    → count k (added (e ∷ es)) ≡ 0
    → Closing k n st
    → Closing k n (step e st) × (count k (added es) ≡ 0)
unfolding step close_session
step-Closing k n (adds none) es st none_added v = (v, none_added)
step-Closing k n (adds (some (socket, session))) es st none_added v = (
  record {
    sorted = insert-IsSorted socket session st.user_session v.sorted;
    told = v.told;
    going = ground (arith, v.going, find-insert_other k socket session st.user_session);
  },
  ground arith,
)
step-Closing k n (closes none) es st none_added v = (v, none_added)
step-Closing k n (closes (some (socket, session))) es st none_added v = (
  record { sorted = v.sorted; told = ground (arith, v.told); going = ground (arith, v.going) },
  none_added,
)
step-Closing k n (erases socket) es st none_added v =
    (finish_close-Closing k n socket st v, none_added)
step-Closing k n shuts es st none_added v =
    (close_next-Closing k n st.to_close st refl v, none_added)

run-Closing :
    (k n : ℕ) (es : List Event) (st : Sessions)
    → count k (added es) ≡ 0
    → Closing k n st
    → Closing k n (run es st)
unfolding run
run-Closing k n [] st none_added v = v
run-Closing k n (e ∷ es) st none_added v =
    let (v', none_later) = step-Closing k n e es st none_added v in
    run-Closing k n es (step e st) none_later v'

-- Every entry is visited once, in some order.
abbrev pub VisitsAll : (SocketMap ℕ → List (ℕ × ℕ)) → Type 0
VisitsAll visit = (k : ℕ) (m : SocketMap ℕ) → IsSorted m → count k (keys (visit m)) ≡ found k m

-- Take any calls of AddIOCP and CloseSession, each CloseSession in its two parts, then the moment
-- when Shutdown copies the sessions, visiting each entry once, and any steps of its loop and
-- further such calls in any order. For a socket that is not added after the copy, a session that
-- was copied for it is still to be visited by the loop, or closesocket has been called for it
-- since; and a session that is left for it in the map is still to be visited, or a CloseSession
-- is about to erase it.
pub run-misses_none :
    (visit : SocketMap ℕ → List (ℕ × ℕ))
    → VisitsAll visit
    → (before after : List Event) (k : ℕ) → count k (added after) ≡ 0
    → let copied = run before initial in
      let st = run after (take_sessions visit copied) in
      (count k copied.closed + found k copied.user_session
        ≤ count k (keys st.to_close) + count k st.closed)
      × (found k st.user_session ≤ count k (keys st.to_close) + count k st.erasing)
run-misses_none visit visits_all before after k none_added =
    let copied = run before initial in
    let s = run-IsSorted before initial tt in
    let v =
      run-Closing k (count k copied.closed + found k copied.user_session) after
        (take_sessions visit copied) none_added
        (record {
          sorted = s;
          told = omega (arith, visits_all k copied.user_session s);
          going = omega (arith, visits_all k copied.user_session s);
        }) in
    (v.told, v.going)
