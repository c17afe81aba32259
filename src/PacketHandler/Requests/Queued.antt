-- ===== src/PacketHandler/Requests/Queued.antt =====
-- A whole connection, from its bytes to the queues of the rooms: SessionData::Recv
-- (jhshin_Server/jhshin_Server/SessionData.cpp) with `PacketHandler::Dispatch` (PacketHandler.cpp)
-- and `RoomManager::PushJobByRooms` (RoomManager.cpp).
use jhshin_server.Common.{
  ℕ, zero, suc, ◌==◌, refl, ◌+◌, ◌≤◌, ◌≡◌, sym, ap, ap₂, subst, ◌∙◌, Bool, true, false, List, [],
  ◌∷◌, ◌++◌, append_assoc, append-nil, length, if◌then◌else◌, arith,
}
use jhshin_server.Common.Int.{ℤ}
use jhshin_server.Message.Float.{Float}
use jhshin_server.Packet.Wire.{Frame}
use jhshin_server.Room.Jobs.{Job, pop_all}
use jhshin_server.Room.Outgoing.{Net}
use jhshin_server.ObjectPool.{modify}
use jhshin_server.ObjectPool.Invariant.{length-modify}
use jhshin_server.Room.{update_session}
use jhshin_server.RoomManager.{Hosted}
use jhshin_server.RoomManager.Routing.{jobs_at}
use jhshin_server.PacketHandler.{World, dispatch}
use jhshin_server.Session.Recv.{Dispatch}
use jhshin_server.Session.Recv.Refines.{serve}
use jhshin_server.PacketHandler.Accepts.{filled_table}
use jhshin_server.RecvBuffer.{RecvBuffer}
use jhshin_server.Session.Recv.{Outcome, waits, refused, out_of_fuel}
use jhshin_server.Session.Recv.Stream.{run, Delivers, Between}
use jhshin_server.Session.Recv.Stream.Fragments.{AllServed, run-AllServed}
use jhshin_server.PacketHandler.Requests.{landing, landing-append, request, draws, requests}
use jhshin_server.PacketHandler.Requests.Answers.{Answered, dispatch-Answered}

-- The world, how many packets were handed to `Dispatch`, and the jobs that the thread of the room in
-- question has taken out so far.
abbrev pub Meanwhile : Type 0 → Net → Type 0
Meanwhile F net = World F net × ℕ × List (Job F)

jobs_at-popped :
    {F : Type 0} (j : ℕ) (hs : List (Hosted F))
    → jobs_at j (modify (λ h. record h { job_queue = (pop_all h.job_queue).0 }) j hs) ≡ []
unfolding pop_all
jobs_at-popped j [] = refl
jobs_at-popped zero (h ∷ hs) = refl
jobs_at-popped (suc j) (h ∷ hs) = jobs_at-popped j hs

==_self : (n : ℕ) → (n == n) ≡ true
==_self n = ground arith

module _ (float : Float) (rand : ℕ → ℕ) (s : ℕ) where
  open float use {F, of_bytes}

  -- `Dispatch` for the session, as the receive loop calls it.
  abbrev pub dispatching : {net : Net} → Dispatch (World F net)
  dispatching type body w = dispatch float rand filled_table s type body w

  module _ {net : Net} (j : ℕ) (room_at : ℕ → ℤ) (pops_at : ℕ → Bool) where
    -- `PopAll` by the thread of the room.
    abbrev pub take_jobs : World F net → World F net
    take_jobs w = record w {
      manager = record w.manager {
        rooms = modify (λ h. record h { job_queue = (pop_all h.job_queue).0 }) j w.manager.rooms;
      };
    }

    -- The room threads set the room of the session (`SetRoomID`).
    abbrev pub put_in_room : ℤ → World F net → World F net
    put_in_room room w = record w {
      server = update_session s (λ info. record info { room_id = room }) w.server;
    }

    -- What the threads of the rooms have done when the next packet is handled.
    abbrev pub before_packet : Meanwhile F net → Meanwhile F net
    before_packet (w, i, taken) =
        let w' = put_in_room (room_at i) w in
        (
          if pops_at i then take_jobs w' else w',
          i,
          if pops_at i then taken ++ jobs_at j w.manager.rooms else taken,
        )

    -- `Dispatch` for the session, with this before each packet.
    abbrev pub dispatching_meanwhile : Dispatch (Meanwhile F net)
    dispatching_meanwhile type body m =
        let (w, i, taken) = before_packet m in
        let (w', ok) = dispatch float rand filled_table s type body w in ((w', suc i, taken), ok)

    -- All jobs that have come to the room, in order.
    abbrev pub arrived : Meanwhile F net → List (Job F)
    arrived (w, i, taken) = taken ++ jobs_at j w.manager.rooms

    abbrev pub asked : List Frame → Meanwhile F net → List (ℤ × Job F)
    asked fs (w, i, taken) = requests float rand s room_at i w.drawn fs

    abbrev Came : List (ℤ × Job F) → Meanwhile F net → Meanwhile F net → Type 0
    Came jobs m m' =
        arrived m' ≡ arrived m ++ landing m.0.manager.stop (length m.0.manager.rooms) j jobs

    -- What the rooms do before a packet changes neither what has come nor where jobs go.
    record IsReadied (m m' : Meanwhile F net) : Type 0 where
      none_lost : arrived m' ≡ arrived m
      same_stop : m'.0.manager.stop ≡ m.0.manager.stop
      same_rooms : length m'.0.manager.rooms ≡ length m.0.manager.rooms
      in_room : (m'.0.server.sessions s).room_id ≡ room_at m.1
      same_drawn : m'.0.drawn ≡ m.0.drawn

    before_packet-IsReadied : (m : Meanwhile F net) → IsReadied m (before_packet m)
    before_packet-IsReadied (w, i, taken) = go (pops_at i)
      where
        in_it :
            (update_session s (λ info. record info { room_id = room_at i }) w.server).sessions s
            ≡ record (w.server.sessions s) { room_id = room_at i }
        in_it = rw (==_self s) refl

        go :
            (b : Bool)
            → IsReadied
                (w, i, taken)
                (
                  if b then take_jobs (put_in_room (room_at i) w) else put_in_room (room_at i) w,
                  i,
                  if b then taken ++ jobs_at j w.manager.rooms else taken,
                )
        go false = record {
          none_lost = refl;
          same_stop = refl;
          same_rooms = refl;
          in_room = ap (λ info. info.room_id) in_it;
          same_drawn = refl;
        }
        go true = record {
          none_lost =
              ap (λ q. (taken ++ jobs_at j w.manager.rooms) ++ q) (jobs_at-popped j w.manager.rooms)
              ∙ append-nil (taken ++ jobs_at j w.manager.rooms);
          same_stop = refl;
          same_rooms = length-modify _ j w.manager.rooms;
          in_room = ap (λ info. info.room_id) in_it;
          same_drawn = refl;
        }

    -- One packet.
    handled-Came :
        (f : Frame) (m m' : Meanwhile F net) (r : World F net × Bool)
        → IsReadied m m'
        → Answered float rand s j f m'.0 r
        → Came (request float rand s m.0.drawn (room_at m.1) f) m (r.0, suc m.1, m'.2)
    handled-Came f (w, i, taken) (w', i', taken') (w'', ok) v (_, p) =
        ap (λ q. taken' ++ q)
          (p.queued
            ∙ ap₂
                (λ stop n.
                  jobs_at j w'.manager.rooms
                  ++ landing stop n j (now w'.drawn (w'.server.sessions s).room_id))
                v.same_stop v.same_rooms
            ∙ ap₂
                (λ drawn room.
                  jobs_at j w'.manager.rooms
                  ++ landing w.manager.stop (length w.manager.rooms) j (now drawn room))
                v.same_drawn v.in_room)
        ∙ sym (append_assoc taken' (jobs_at j w'.manager.rooms) _)
        ∙ ap (λ q. q ++ landing w.manager.stop (length w.manager.rooms) j (now w.drawn (room_at i)))
            v.none_lost
      where
        now : ℕ → ℤ → List (ℤ × Job F)
        now drawn room = request float rand s drawn room f

    -- The packets behind it ask for what they asked for before.
    later-Came :
        (f : Frame) (fs : List Frame) (m m' m'' : Meanwhile F net) (r : World F net × Bool)
        → IsReadied m m'
        → Answered float rand s j f m'.0 r
        → Came (asked fs (r.0, suc m.1, m'.2)) (r.0, suc m.1, m'.2) m''
        → Came
            (request float rand s m.0.drawn (room_at m.1) f
              ++ requests float rand s room_at (suc m.1) (m.0.drawn + draws float rand s f) fs)
            m
            m''
    later-Came f fs (w, i, taken) (w', i', taken') m'' (w'', ok) v (e, p) q =
        q
        ∙ ap₂ ◌++◌ (handled-Came f (w, i, taken) (w', i', taken') (w'', ok) v (e, p)) (
            ap₂ (λ stop n. landing stop n j (behind w''.drawn)) (p.same_stop ∙ v.same_stop)
              (p.same_rooms ∙ v.same_rooms)
            ∙ ap (λ drawn. lands (behind drawn)) drawn_now)
        ∙ append_assoc (arrived (w, i, taken)) (lands now)
            (lands (behind (w.drawn + draws float rand s f)))
        ∙ ap (λ l. arrived (w, i, taken) ++ l)
            (sym (
              landing-append w.manager.stop (length w.manager.rooms) j now
                (behind (w.drawn + draws float rand s f))))
      where
        now : List (ℤ × Job F)
        now = request float rand s w.drawn (room_at i) f

        behind : ℕ → List (ℤ × Job F)
        behind drawn = requests float rand s room_at (suc i) drawn fs

        lands : List (ℤ × Job F) → List (Job F)
        lands = landing w.manager.stop (length w.manager.rooms) j

        drawn_now : w''.drawn ≡ w.drawn + draws float rand s f
        drawn_now = p.drawn_now ∙ ap (λ n. n + draws float rand s f) v.same_drawn

    serve_next :
        (f : Frame) (fs : List Frame) (m m' : Meanwhile F net) (r : World F net × Bool)
        → IsReadied m m'
        → Answered float rand s j f m'.0 r
        → Came
            (asked fs (r.0, suc m.1, m'.2))
            (r.0, suc m.1, m'.2)
            (serve dispatching_meanwhile fs (r.0, suc m.1, m'.2)).0
        → Came
            (asked (f ∷ fs) m)
            m
            (if r.1
              then serve dispatching_meanwhile fs (r.0, suc m.1, m'.2)
              else ((r.0, suc m.1, m'.2), false)).0
    serve_next f fs m m' (w'', true) v (ok, p) q =
        subst
          (λ b.
            Came
              (request float rand s m.0.drawn (room_at m.1) f
                ++ (if b
                    then requests float rand s room_at (suc m.1) (m.0.drawn + draws float rand s f)
                        fs
                    else []))
              m (serve dispatching_meanwhile fs (w'', suc m.1, m'.2)).0)
          ok
          (later-Came f fs m m' (serve dispatching_meanwhile fs (w'', suc m.1, m'.2)).0 (w'', true)
            v (ok, p) q)
    serve_next f fs m m' (w'', false) v (ok, p) q =
        subst
          (λ b.
            Came
              (request float rand s m.0.drawn (room_at m.1) f
                ++ (if b
                    then requests float rand s room_at (suc m.1) (m.0.drawn + draws float rand s f)
                        fs
                    else []))
              m (w'', suc m.1, m'.2))
          ok
          (handled-Came f m m' (w'', false) v (ok, p)
            ∙ ap (λ jobs. arrived m ++ landing m.0.manager.stop (length m.0.manager.rooms) j jobs)
                (sym (append-nil (request float rand s m.0.drawn (room_at m.1) f))))

    serve-Came :
        (fs : List Frame) (m : Meanwhile F net)
        → Came (asked fs m) m (serve dispatching_meanwhile fs m).0
    unfolding serve
    serve-Came [] m = sym (append-nil (arrived m))
    serve-Came (f ∷ fs) (w, i, taken) =
        let m' = before_packet (w, i, taken) in
        let r = dispatch float rand filled_table s f.type f.body m'.0 in
        serve_next f fs (w, i, taken) m' r (before_packet-IsReadied (w, i, taken))
          (dispatch-Answered float rand s j f m'.0) (serve-Came fs (r.0, suc i, m'.2))

    -- What the packets ask for has come to the room.
    abbrev pub Queued : List Frame → Meanwhile F net → List ℕ × Outcome (Meanwhile F net) → Type 0
    Queued fs m (rest, waits rb m') =
        arrived m' ≡ arrived m ++ landing m.0.manager.stop (length m.0.manager.rooms) j (asked fs m)
    Queued fs m (rest, refused rb m') =
        arrived m' ≡ arrived m ++ landing m.0.manager.stop (length m.0.manager.rooms) j (asked fs m)
    Queued fs m (rest, out_of_fuel) = ⊥

    AllServed-Queued :
        (fs : List Frame) (m : Meanwhile F net) (o : List ℕ × Outcome (Meanwhile F net))
        → AllServed dispatching_meanwhile fs m o
        → Queued fs m o
    AllServed-Queued fs m (rest, waits rb m') (served, _, _) =
        ap (λ r. arrived r.0) (sym served) ∙ serve-Came fs m
    AllServed-Queued fs m (rest, refused rb m') served =
        ap (λ r. arrived r.0) (sym served) ∙ serve-Came fs m
    AllServed-Queued fs m (rest, out_of_fuel) never = never

    -- Take a session's connection between two completions, as for `run-AllServed`, with
    -- `Dispatch` and the table that `Init` fills. Before each packet the threads of the rooms may
    -- have put the session into any room, and the thread of the room in question may have taken
    -- out the jobs; the rooms are not stopped in between, and nobody else pushes jobs. However
    -- the bytes are cut into completions, the jobs that have come to a room in the end, taken out
    -- or waiting, are those from before and exactly the jobs that the packets up to the first
    -- that is not accepted ask for, in order, as far as they go to that room: a broadcast, a
    -- leave and a move to the room that the session is in when the packet is handled, an enter to
    -- the room that is drawn, and none if the rooms are stopped.
    pub run-Queued :
        (write : List ℕ → ℕ → List ℕ → List ℕ)
        → Delivers write
        → (ks : List ℕ) (fs : List Frame) (stream : List ℕ) (rb : RecvBuffer) (m : Meanwhile F net)
        → Between rb stream fs
        → length stream ≤ length ks
        → Queued fs m (run dispatching_meanwhile write ks stream rb m)
    run-Queued write kernel ks fs stream rb m between enough =
        AllServed-Queued fs m (run dispatching_meanwhile write ks stream rb m)
          (run-AllServed dispatching_meanwhile write kernel ks fs stream rb m between enough)
