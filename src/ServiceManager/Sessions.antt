-- ===== src/ServiceManager/Sessions.antt =====
-- The sessions that are connected, `m_UserSession`: `AddIOCP`, `InsertUserSession`,
-- `EraseUserSession`, `CloseSession` and the loop of `Shutdown`
-- (jhshin_Server/jhshin_Server/ServiceManager.cpp), called by any threads.
pub mod Closing
use jhshin_server.Common.{
  ℕ, ◌+◌, Bool, false, List, [], ◌∷◌, map, Option, none, some, ◌==◌, if◌then◌else◌,
}
use jhshin_server.Room.UserMap.{SocketMap, insert, is_new, erase}

-- A session is its socket, which stays as long as somebody holds the session, and a number.
-- `to_close` are the sessions that the loop of `Shutdown` has not come to, `erasing` the sockets
-- of each `CloseSession` between its two calls, `closed` those that `closesocket` was called for.
pub record Sessions : Type 0 where
  pub user_session : SocketMap ℕ
  pub to_close : List (ℕ × ℕ)
  pub erasing : List ℕ
  pub closed : List ℕ

abbrev pub initial : Sessions
initial = record { user_session = []; to_close = []; erasing = []; closed = [] }

-- What a thread does next: `AddIOCP` with a session, the first call of a `CloseSession`, the second
-- one, or the first call of the `CloseSession` that the loop of `Shutdown` comes to.
pub data Event : Type 0 where
  adds : Option (ℕ × ℕ) → Event
  closes : Option (ℕ × ℕ) → Event
  erases : ℕ → Event
  shuts : Event

abbrev pub insert_user_session : Option (ℕ × ℕ) → Sessions → Sessions × Bool
insert_user_session none st = (st, false)
insert_user_session (some (socket, session)) st = (
  record st { user_session = insert socket session st.user_session },
  is_new socket st.user_session,
)

-- `AddIOCP`: the result of the insertion is not looked at.
abbrev pub add_iocp : Option (ℕ × ℕ) → Sessions → Sessions
add_iocp session st = (insert_user_session session st).0

abbrev pub erase_user_session : ℕ → Sessions → Sessions
erase_user_session socket st = record st { user_session = erase socket st.user_session }

-- `CloseSession` up to `EraseUserSession`.
unfoldable pub close_session : Option (ℕ × ℕ) → Sessions → Sessions
close_session none st = st
close_session (some (socket, session)) st = record st {
  closed = socket ∷ st.closed;
  erasing = socket ∷ st.erasing;
}

abbrev pub count : ℕ → List ℕ → ℕ
count k [] = 0
count k (j ∷ js) = (if j == k then 1 else 0) + count k js

abbrev pub take_out : ℕ → List ℕ → List ℕ
take_out k [] = []
take_out k (j ∷ js) = if j == k then js else j ∷ take_out k js

-- `CloseSession` from `EraseUserSession` on, if one has come so far.
unfoldable pub finish_close : ℕ → Sessions → Sessions
finish_close socket st =
    if count socket st.erasing == 0
    then st
    else erase_user_session socket (record st { erasing = take_out socket st.erasing })

-- `Shutdown` copies the sessions, in the order in which `m_UserSession` is visited.
abbrev pub take_sessions : (SocketMap ℕ → List (ℕ × ℕ)) → Sessions → Sessions
take_sessions visit st = record st { to_close = visit st.user_session }

unfoldable pub close_next : List (ℕ × ℕ) → Sessions → Sessions
unfolding close_session
close_next [] st = st
close_next (session ∷ left) st = close_session (some session) (record st { to_close = left })

unfoldable pub step : Event → Sessions → Sessions
unfolding close_session finish_close close_next
step (adds session) st = add_iocp session st
step (closes session) st = close_session session st
step (erases socket) st = finish_close socket st
step shuts st = close_next st.to_close st

unfoldable pub run : List Event → Sessions → Sessions
unfolding step
run [] st = st
run (e ∷ es) st = run es (step e st)
