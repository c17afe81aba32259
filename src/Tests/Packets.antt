-- ===== src/Tests/Packets.antt =====
-- The first packet of a thread (jhshin_Server/jhshin_Server/ServiceManager.cpp), with a pool of two
-- send buffers.
use jhshin_server.Common.{zero, suc, ◌≡◌, refl, sym, ap, List, [], ◌∷◌, none}
use jhshin_server.ObjectPool.{empty, init_object_pool}
use jhshin_server.ObjectPool.Invariant.{init-IsValid}
use jhshin_server.SendBuffer.{reset}
use jhshin_server.SendBuffer.Laws.{reset-IsValid}
use jhshin_server.ServiceManager.{Buffers, make_send_packet}
use jhshin_server.ServiceManager.Sharing
use jhshin_server.ServiceManager.Sharing.{Event, makes, copies, drops, ends, new_buffer, initial}
use jhshin_server.ServiceManager.Sharing.Safe.{IsSafe}
use jhshin_server.ServiceManager.Sharing.Untouched.{run-IsSafe}
use jhshin_server.ServiceManager.Packets.{IsReady, FreeAreEmpty}
use jhshin_server.ServiceManager.Packets.Making.{Made, make_send_packet-Made}

abbrev two_buffers : Buffers
two_buffers = record { pool = init_object_pool 10 new_buffer 2 empty; refs = λ a. 0; local = none }

two_buffers-IsReady : IsReady two_buffers
unfolding init_object_pool
two_buffers-IsReady = record {
  pool_valid = init-IsValid 10 2 new_buffer empty refl;
  buffers_valid = (
    reset-IsValid (record { chunk = []; pointer = 0 }),
    (reset-IsValid (record { chunk = []; pointer = 0 }), tt),
  );
  local_there = tt;
}

two_buffers-FreeAreEmpty : FreeAreEmpty two_buffers
unfolding init_object_pool reset
two_buffers-FreeAreEmpty zero sb e free = ap (λ b. b.pointer) (sym same)
  where
    same : new_buffer ≡ sb
    same = cc
two_buffers-FreeAreEmpty (suc zero) sb e free = ap (λ b. b.pointer) (sym same)
  where
    same : new_buffer ≡ sb
    same = cc
two_buffers-FreeAreEmpty (suc (suc i)) sb e free = cc

make_send_packet-Made_example :
    Made two_buffers 100 (7 ∷ 8 ∷ []) (make_send_packet 100 (7 ∷ 8 ∷ []) two_buffers)
make_send_packet-Made_example =
    make_send_packet-Made 100 (7 ∷ 8 ∷ []) two_buffers two_buffers-IsReady two_buffers-FreeAreEmpty

-- Two threads and a packet that is queued twice; one copy and the thread that made it go first.
abbrev sharing : List Event
sharing =
    makes 0 100 (7 ∷ 8 ∷ [])
    ∷ copies 0
    ∷ makes 1 101 (9 ∷ [])
    ∷ drops 1
    ∷ ends 0
    ∷ drops 9
    ∷ makes 1 5 []
    ∷ []

run-IsSafe_example : IsSafe (Sharing.run sharing (initial 10 2 2))
run-IsSafe_example = run-IsSafe 10 2 2 sharing
