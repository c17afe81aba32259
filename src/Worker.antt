-- ===== src/Worker.antt =====
-- The receiving side of a connection from completion to completion: `IOCP::Worker` and
-- `RecvObject::Execute` (jhshin_Server/jhshin_Server/IOCP.cpp) with `RecvStart`
-- (jhshin_Server/jhshin_Server/SessionData.cpp).
pub mod Attended
pub mod Stopping
use jhshin_server.Common.{
  ℕ, zero, suc, ◌+◌, Bool, true, false, not, List, [], ◌∷◌, length, take, Option, none, some, ◌==◌,
  if◌then◌else◌,
}
use jhshin_server.RecvBuffer.{RecvBuffer}
use jhshin_server.Session.Recv.{Dispatch, Outcome, waits, refused, out_of_fuel, recv, recv_start}
use jhshin_server.Session.Recv.Stream.{recv_fuel, stored}

-- `world` is the state of the rest of the server; `has_session`: does the `RecvObject` keep the
-- session alive? `posted`: is a `WSARecv` under way? `left` counts the jobs that this side pushes to
-- take the session out of its room, which the source does not count; those that `Dispatch` pushes
-- for a leave request, and those of a send that failed, are in the world and not counted here.
pub record Receiving (W : Type 0) : Type 0 where
  pub buffer : RecvBuffer
  pub world : W
  pub has_session : Bool
  pub posted : Bool
  pub left : ℕ

-- A completion: with the bytes that it brings, or failed. The `Bool` is whether the system accepts
-- the `WSARecv` that may follow.
pub data Completed : Type 0 where
  brings : Bool → List ℕ → Completed
  fails : Bool → Completed

-- `write` is what `WSARecv` does to the memory, `leave` the push of a `Job_Leave` for the session
-- by `Worker` or `RecvObject::Execute`.
module _ {W : Type 0} (dispatch : Dispatch W) (write : List ℕ → ℕ → List ℕ → List ℕ)
    (leave : W → W) where
  pub push_leave : Receiving W → Receiving W
  push_leave r = record r { world = leave r.world; left = r.left + 1 }

  -- `ReleaseSession`.
  abbrev pub release : Receiving W → Receiving W
  release r = record r { has_session = false }

  -- `RecvStart`.
  pub start : Bool → Receiving W → Receiving W × Bool
  start true r = (record r { has_session = true; posted = true }, true)
  start false r = (record r { has_session = false; posted = false }, false)

  -- `Recv` has come to `RecvStart`, or to a packet that is refused.
  pub after_recv : Bool → Receiving W → Outcome W → Option (Receiving W)
  unfolding push_leave start
  after_recv ok r (waits rb w) =
      let (r', started) = start ok (record r { buffer = rb; world = w }) in
      some (if started then r' else release (push_leave r'))
  after_recv ok r (refused rb w) = some (release (push_leave (record r { buffer = rb; world = w })))
  after_recv ok r out_of_fuel = none

  -- `RecvObject::Execute`; no more bytes come than `RecvStart` has asked for.
  pub execute : Bool → List ℕ → Receiving W → Option (Receiving W)
  unfolding after_recv push_leave
  execute ok bytes r =
      let c = take (recv_start r.buffer).len bytes in
      if not r.has_session
      then some r
      else if length bytes == 0
      then some (release (push_leave r))
      else after_recv ok r (recv dispatch recv_fuel (length c) (stored write r.buffer c) r.world)

  -- A completion that failed, in `Worker`: `RecvStart` is tried again.
  pub retry : Bool → Receiving W → Receiving W
  unfolding start push_leave
  retry ok r =
      let (r', started) = start ok (release r) in
      if not r.has_session then r else if started then r' else push_leave r'

  -- A completion comes only of a `WSARecv` that is under way.
  pub complete : Completed → Receiving W → Option (Receiving W)
  unfolding execute retry
  complete (brings ok bytes) r =
      if r.posted then execute ok bytes (record r { posted = false }) else some r
  complete (fails ok) r = if r.posted then some (retry ok (record r { posted = false })) else some r

  pub run : List Completed → Receiving W → Option (Receiving W)
  unfolding complete
  run [] r = some r
  run (e ∷ es) r = elim (complete e r) [ none ↦ none | some r' ↦ run es r' ]
